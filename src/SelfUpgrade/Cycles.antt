-- ===== src/SelfUpgrade/Cycles.antt =====
-- The sort of the self-upgrade on cyclic and on acyclic dependencies.
use mathlib.Core.Bool.{false≢true}
use cluster_api_provider_bar.Prelude.{
  ℕ, zero, suc, String, ◌≡◌, refl, subst, sym, ◌∙◌, ap, Bool, true, false, none, some, List, [],
  ◌∷◌, arith, ◌==◌, ==_iff, string_eq, if◌then◌else◌, contains, and_then-eq-some, some-eq, In, inl,
  inr, Bool-cases, Option-cases,
}
use cluster_api_provider_bar.SelfUpgrade.Resource.{SelfUpgradeComponent}
use cluster_api_provider_bar.SelfUpgrade.Sorting.{
  Progress, append, Visit, visit_named, visit_deps, visit, visit_all, sort_components,
}

module _ (components : List SelfUpgradeComponent) (bad : String → Bool) where
  -- Each component with a marked name depends on the name of a component that is marked as well.
  abbrev pub IsCycle : Type 0
  IsCycle =
      (c : SelfUpgradeComponent)
      → In c components
      → bad c.name ≡ true
      → (d : SelfUpgradeComponent) × In d components × In d.name c.depends_on × (bad d.name ≡ true)

  abbrev Avoids : Progress → Type 0
  Avoids s = (x : String) → bad x ≡ true → contains s.visited x ≡ false

  -- A visit that returns is of an unmarked name, and has visited no marked one.
  abbrev Escapes : Visit → Type 0
  Escapes f =
      (c : SelfUpgradeComponent) (s s' : Progress)
      → In c components
      → Avoids s
      → f c s ≡ some s'
      → (bad c.name ≡ false) × Avoids s'

  visit_named-Escapes :
      (f : Visit)
      → Escapes f
      → (dep : String) (cs : List SelfUpgradeComponent) (s s' : Progress)
      → ((c : SelfUpgradeComponent) → In c cs → In c components)
      → Avoids s
      → visit_named f dep cs s ≡ some s'
      → Avoids s' × ((c : SelfUpgradeComponent) → In c cs → c.name ≡ dep → bad c.name ≡ false)
  unfolding visit_named
  visit_named-Escapes f esc dep [] s s' sub a h = (subst Avoids (some-eq h) a, λ c i e. absurd i)
  visit_named-Escapes f esc dep (c ∷ cs) s s' sub a h =
      let (t, first, rest) =
        and_then-eq-some (if c.name == dep then f c s else some s) (visit_named f dep cs) h in
      elim (Bool-cases (c.name == dep)) [
        | inl e ↦
            let (good, a') = esc c s t (sub c (inl refl)) a (rw e at first) in
            let (a'', others) =
              visit_named-Escapes f esc dep cs t s' (λ x i. sub x (inr i)) a' rest in
            (
              a'',
              λ x i n. elim i [
                | inl same ↦ subst (λ (y : SelfUpgradeComponent). bad y.name ≡ false) same good
                | inr i' ↦ others x i' n
              ],
            )
        | inr e ↦
            let here : Avoids t = subst Avoids (some-eq (rw e at first)) a in
            let (a'', others) =
              visit_named-Escapes f esc dep cs t s' (λ x i. sub x (inr i)) here rest in
            (
              a'',
              λ x i n. elim i [
                | inl same ↦ absurd (
                    false≢true (
                      sym e
                      ∙ (==_iff c.name dep).1 (ap (λ (y : SelfUpgradeComponent). y.name) same ∙ n)))
                | inr i' ↦ others x i' n
              ],
            )
      ]

  visit_deps-Escapes :
      (f : Visit)
      → Escapes f
      → (deps : List String) (s s' : Progress) → Avoids s
      → visit_deps f components deps s ≡ some s'
      → Avoids s'
        × ((d : SelfUpgradeComponent) → In d components → In d.name deps → bad d.name ≡ false)
  unfolding visit_deps
  visit_deps-Escapes f esc [] s s' a h = (subst Avoids (some-eq h) a, λ d i e. absurd e)
  visit_deps-Escapes f esc (dep ∷ deps) s s' a h =
      let (t, first, rest) =
        and_then-eq-some (visit_named f dep components s) (visit_deps f components deps) h in
      let (a', named) = visit_named-Escapes f esc dep components s t (λ c i. i) a first in
      let (a'', others) = visit_deps-Escapes f esc deps t s' a' rest in
      (a'', λ d i e. elim e [ inl same ↦ named d i (sym same) | inr e' ↦ others d i e' ])

  visit-Escapes : IsCycle → (stack : ℕ) → Escapes (visit components stack)
  unfolding visit
  visit-Escapes cyclic zero c s s' i a h = cc
  visit-Escapes cyclic (suc stack) c s s' i a h = elim (Bool-cases (contains s.visited c.name)) [
    | inl old ↦ (
      elim (Bool-cases (bad c.name)) [
        | inl b ↦ absurd (false≢true (sym (a c.name b) ∙ old))
        | inr good ↦ good
      ],
      subst Avoids (some-eq (rw old at h)) a,
    )
    | inr new ↦
        let (t, down, left) =
          and_then-eq-some (visit_deps (visit components stack) components c.depends_on s)
            (λ (t : Progress). some (append c t)) (rw new at h) in
        let (a', none_bad) =
          visit_deps-Escapes (visit components stack) (visit-Escapes cyclic stack) c.depends_on s t
            a down in
        let good : bad c.name ≡ false = elim (Bool-cases (bad c.name)) [
          | inl b ↦
              let (d, j, needs, also) = cyclic c i b in
              absurd (false≢true (sym (none_bad d j needs) ∙ also))
          | inr fine ↦ fine
        ] in
        (good, subst Avoids (some-eq left) (λ x b. ground (arith, a' x b, ==_iff c.name x, ap bad)))
  ]

  visit_all-Escapes :
      (f : Visit)
      → Escapes f
      → (cs : List SelfUpgradeComponent) (s s' : Progress)
      → ((c : SelfUpgradeComponent) → In c cs → In c components)
      → Avoids s
      → visit_all f cs s ≡ some s'
      → (c : SelfUpgradeComponent) → In c cs
      → bad c.name ≡ false
  unfolding visit_all
  visit_all-Escapes f esc [] s s' sub a h c i = absurd i
  visit_all-Escapes f esc (x ∷ cs) s s' sub a h c i =
      let (t, first, rest) = and_then-eq-some (f x s) (visit_all f cs) h in
      let (good, a') = esc x s t (sub x (inl refl)) a first in
      elim i [
        | inl same ↦ subst (λ (y : SelfUpgradeComponent). bad y.name ≡ false) same good
        | inr i' ↦ visit_all-Escapes f esc cs t s' (λ y j. sub y (inr j)) a' rest c i'
      ]

-- If some components depend on one another in a cycle, the sort exceeds every stack: however deep
-- its calls may nest, it does not return. The marked names are those of the cycle.
pub sort_components-cycle :
    (components : List SelfUpgradeComponent) (bad : String → Bool)
    → IsCycle components bad
    → (c : SelfUpgradeComponent) → In c components
    → bad c.name ≡ true
    → (stack : ℕ) → sort_components stack components ≡ none
unfolding sort_components
sort_components-cycle components bad cyclic c i b stack =
    elim (Option-cases (sort_components stack components)) [
      | inl e ↦ e
      | inr (sorted, e) ↦
          let (s, run, _) =
            and_then-eq-some
              (visit_all (visit components stack) components (record { visited = []; sorted = [] }))
              (λ (s : Progress). some s.sorted) e in
          absurd (
            false≢true (
              sym (
                visit_all-Escapes components bad (visit components stack)
                  (visit-Escapes components bad cyclic stack) components
                  (record { visited = []; sorted = [] }) s (λ x j. j) (λ x h. refl) run c i)
              ∙ b))
    ]

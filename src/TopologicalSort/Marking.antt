-- ===== src/TopologicalSort/Marking.antt =====
-- How a traversal changes the marks.
use cluster_api_provider_bar.Prelude.{
  some-eq, and_then-eq-some, subst, inl, inr, ℕ, zero, suc, String, ◌≡◌, refl, true, false, Option,
  some, List, [], ◌∷◌, arith, ==_iff, string_eq, contains, contains-remove, Bool-cases,
}
use cluster_api_provider_bar.TopologicalSort.{DepGraph, deps_of, Marks, enter, leave, each, visit}

-- What a traversal from `s` to `s'` keeps: the names in progress are as before and gain no visit,
-- and what was visited stays so.
pub record Keeps (s s' : Marks) : Type 0 where
  pub progress : (x : String) → contains s'.in_progress x ≡ contains s.in_progress x
  pub held :
      (x : String) → contains s.in_progress x ≡ true → contains s'.visited x ≡ contains s.visited x
  pub more : (x : String) → contains s.visited x ≡ true → contains s'.visited x ≡ true

pub Keeps-refl : (s : Marks) → Keeps s s
Keeps-refl s = record { progress = λ x. refl; held = λ x h. refl; more = λ x h. h }

pub Keeps-trans : {s t u : Marks} → Keeps s t → Keeps t u → Keeps s u
Keeps-trans {s} {t} {u} a b = record {
  progress = λ x. ground (arith, a.progress x, b.progress x);
  held = λ x h. ground (arith, a.progress x, a.held x, b.held x);
  more = λ x h. b.more x (a.more x h);
}

-- A marked name stays out of the way until it is left.
pub Keeps-leave :
    {name : String} {s s' : Marks}
    → contains s.in_progress name ≡ false
    → Keeps (enter name s) s'
    → Keeps s (leave name s')
Keeps-leave {name} {s} {s'} free k = record {
  progress =
      λ x. ground (arith, k.progress x, contains-remove s'.in_progress name x, ==_iff name x);
  held = λ x h. ground (arith, k.held x, ==_iff name x);
  more = λ x h. ground (arith, k.more x);
}

-- What a traversal that returns has done: nothing at a marked name, or else entered the name,
-- followed its dependencies and left it.
pub data Visited (graph : DepGraph) (fuel : ℕ) (name : String) (s s' : Marks) : Type 0 where
  old : contains s.visited name ≡ true → s ≡ s' → Visited graph fuel name s s'
  busy : contains s.in_progress name ≡ true → s ≡ s' → Visited graph fuel name s s'
  done :
      contains s.visited name ≡ false
      → contains s.in_progress name ≡ false
      → (t : Marks) → each (visit graph fuel) (deps_of graph name) (enter name s) ≡ some t
      → leave name t ≡ s'
      → Visited graph fuel name s s'

pub visit_cases :
    (graph : DepGraph) (fuel : ℕ) (name : String) (s s' : Marks)
    → visit graph (suc fuel) name s ≡ some s'
    → Visited graph fuel name s s'
unfolding visit
visit_cases graph fuel name s s' h = elim (Bool-cases (contains s.visited name)) [
  | inl e ↦ old e (ground arith)
  | inr e ↦ elim (Bool-cases (contains s.in_progress name)) [
    | inl e' ↦ busy e' (ground arith)
    | inr e' ↦
        let (t, down, left) =
          and_then-eq-some (each (visit graph fuel) (deps_of graph name) (enter name s))
            (λ (t : Marks). some (leave name t)) (rw (e, e') at h) in
        done e e' t down (cc)
  ]
]

-- The rule for a loop of calls: what each call does, chained.
module _ {P : Marks → Marks → Type 0} (stay : (s : Marks) → P s s)
    (chain : (s t u : Marks) → P s t → P t u → P s u) where
  pub each_ind :
      (f : String → Marks → Option Marks)
      → ((name : String) (s s' : Marks) → f name s ≡ some s' → P s s')
      → (names : List String) (s s' : Marks) → each f names s ≡ some s'
      → P s s'
  unfolding each
  each_ind f one [] s s' h = subst (P s) (some-eq h) (stay s)
  each_ind f one (name ∷ names) s s' h =
      let (t, first, rest) = and_then-eq-some (f name s) (each f names) h in
      chain s t s' (one name s t first) (each_ind f one names t s' rest)

  -- The rule for a traversal: besides, what entering and leaving an unmarked name does.
  pub visit_ind :
      ((name : String) (s s' : Marks)
        → contains s.visited name ≡ false
        → contains s.in_progress name ≡ false
        → P (enter name s) s'
        → P s (leave name s'))
      → (graph : DepGraph) (fuel : ℕ) (name : String) (s s' : Marks)
      → visit graph fuel name s ≡ some s'
      → P s s'
  unfolding visit
  visit_ind around graph zero name s s' h = cc
  visit_ind around graph (suc fuel) name s s' h =
      let down = each_ind (visit graph fuel) (visit_ind around graph fuel) (deps_of graph name) in
      elim (visit_cases graph fuel name s s' h) [
        | old _ same ↦ subst (P s) same (stay s)
        | busy _ same ↦ subst (P s) same (stay s)
        | done new free t run left ↦
            subst (P s) left (around name s t new free (down (enter name s) t run))
      ]

module _ (graph : DepGraph) (fuel : ℕ) where
  pub visit-Keeps : (name : String) (s s' : Marks) → visit graph fuel name s ≡ some s' → Keeps s s'
  visit-Keeps =
      visit_ind Keeps-refl (λ s t u. Keeps-trans) (λ name s s' new free. Keeps-leave free) graph
        fuel

  pub each-Keeps :
      (names : List String) (s s' : Marks) → each (visit graph fuel) names s ≡ some s' → Keeps s s'
  each-Keeps = each_ind Keeps-refl (λ s t u. Keeps-trans) (visit graph fuel) visit-Keeps

-- A name is visited after its traversal, unless it was in progress before.
pub visit-visited :
    (graph : DepGraph) (fuel : ℕ) (name : String) (s s' : Marks)
    → visit graph fuel name s ≡ some s'
    → contains s.in_progress name ≡ false
    → contains s'.visited name ≡ true
unfolding visit
visit-visited graph zero name s s' h free = cc
visit-visited graph (suc fuel) name s s' h free = elim (visit_cases graph fuel name s s' h) [
  | old e same ↦ rw (← same) e
  | busy e same ↦ cc
  | done new _ t run left ↦ rw (← left) (ground (arith, ==_iff name name))
]

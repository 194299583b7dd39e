-- ===== src/ComponentDiff/Needs.antt =====
-- Which components a difference asks to upgrade.
use cluster_api_provider_bar.Prelude.{
  ◌≡◌, ◌↔◌, refl, sym, ap, ◌∙◌, subst, Text, Bool, true, false, not, ◌&&◌, ◌||◌, Option, none, some,
  List, [], ◌∷◌, ◌++◌, ◌==◌, ==_iff, text_eq, text_beq, is_empty, codes, any, contains,
  contains-append, arith, inl, inr, Bool-cases, Option-cases, In,
}
use cluster_api_provider_bar.Prelude.Maps.{lookup, insert, DistinctKeys, insert-DistinctKeys}
use cluster_api_provider_bar.ComponentDiff.{
  ReleaseImage, ComponentChange, ComponentDiff, empty_diff, compare_versions, add_to_map,
  build_addon_map, compare_addon, compare_addons, diff_releases, diff_components, upgrade_set,
  needs_upgrade,
}

-- A component whose version changes to one that is not empty.
abbrev pub changes : (current target : Text) → Bool
changes current target = not (current == target) && not (is_empty target)

-- An addon of the target that is new, or whose version changes.
abbrev pub addon_changes : (current target : Option Text) → Bool
addon_changes current none = false
addon_changes none (some version) = true
addon_changes (some old) (some version) = changes old version

any-append : {A : Type 0} (f : A → Bool) (xs ys : List A) → any f (xs ++ ys) ≡ any f xs || any f ys
any-append f [] ys = refl
any-append f (x ∷ xs) ys = ground (arith, any-append f xs ys)

compared :
    (name current target n : Text) (d : ComponentDiff)
    → upgrade_set (compare_versions name current target d) n
      ≡ upgrade_set d n || (name == n && changes current target)
unfolding upgrade_set compare_versions
compared name current target n d = ground (
  arith,
  any-append (λ (c : ComponentChange). c.name == n) d.changed
      (record { name = name; current_version = current; target_version = target } ∷ []),
)

compared_addon :
    (current : List (Text × Text)) (name version n : Text) (d : ComponentDiff)
    → upgrade_set (compare_addon current (name, version) d) n
      ≡ upgrade_set d n || (name == n && addon_changes (lookup name current) (some version))
unfolding upgrade_set compare_addon
compared_addon current name version n d = elim (Option-cases (lookup name current)) [
  | inl lacks ↦ ground (arith, lacks, contains-append d.added (name ∷ []) n)
  | inr (old, found) ↦ rw (found, compare_addon) (compared name old version n d)
]

-- What the comparison with one addon of the target adds for a name.
abbrev asks : List (Text × Text) → Text → Text × Text → Bool
asks current n addon = addon.0 == n && addon_changes (lookup addon.0 current) (some addon.1)

compared_addons :
    (current addons : List (Text × Text)) (n : Text) (d : ComponentDiff)
    → upgrade_set (compare_addons current addons d) n
      ≡ upgrade_set d n || any (asks current n) addons
unfolding compare_addons
compared_addons current [] n d = ground arith
compared_addons current ((name, version) ∷ addons) n d = ground (
  arith,
  compared_addons current addons n (compare_addon current (name, version) d),
  compared_addon current name version n d,
)

any_distinct :
    (current addons : List (Text × Text)) (n : Text)
    → DistinctKeys addons
    → any (asks current n) addons ≡ addon_changes (lookup n current) (lookup n addons)
unfolding lookup
any_distinct current [] n d = refl
any_distinct current ((name, version) ∷ addons) n (fresh, d) = elim (Bool-cases (name == n)) [
  | inl same ↦
      let here : name ≡ n = (==_iff name n).0 same in
      let rest : any (asks current n) addons ≡ false =
        any_distinct current addons n d
        ∙ ap (λ o. addon_changes (lookup n current) o)
            (subst (λ m. lookup m addons ≡ none) here fresh) in
      let now : lookup name current ≡ lookup n current = ap (λ m. lookup m current) here in
      ground (arith, same, rest, now)
  | inr other ↦ ground (arith, other, any_distinct current addons n d)
]

module _ {A : Type 0} (f : A → Bool) where
  any-In : (xs : List A) → any f xs ≡ true → (a : A) × In a xs × (f a ≡ true)
  any-In [] h = ground (arith, h)
  any-In (x ∷ xs) h = elim (Bool-cases (f x)) [
    | inl met ↦ (x, inl refl, met)
    | inr fails ↦ let (a, i, met) = any-In xs (ground (arith, fails, h)) in (a, inr i, met)
  ]

  In-any : (xs : List A) (a : A) → In a xs → f a ≡ true → any f xs ≡ true
  In-any [] a i met = absurd i
  In-any (x ∷ xs) a (inl same) met = let here : f x ≡ true = ap f same ∙ met in ground (arith, here)
  In-any (x ∷ xs) a (inr i) met = ground (arith, In-any xs a i met)

  any_same : (xs ys : List A) → ((a : A) → In a xs ↔ In a ys) → any f xs ≡ any f ys
  any_same xs ys same = elim (Bool-cases (any f xs)) [
    | inl met ↦ let (a, i, e) = any-In xs met in met ∙ sym (In-any ys a ((same a).0 i) e)
    | inr fails ↦ elim (Bool-cases (any f ys)) [
      | inr fails' ↦ fails ∙ sym fails'
      | inl met ↦ let (a, i, e) = any-In ys met in In-any xs a ((same a).1 i) e ∙ sym met
    ]
  ]

add_to_map-DistinctKeys :
    (map addons : List (Text × Text)) → DistinctKeys map → DistinctKeys (add_to_map map addons)
unfolding add_to_map
add_to_map-DistinctKeys map [] d = d
add_to_map-DistinctKeys map ((name, version) ∷ addons) d =
    add_to_map-DistinctKeys (insert name version map) addons
      (insert-DistinctKeys name version map d)

build_addon_map-DistinctKeys : (addons : List (Text × Text)) → DistinctKeys (build_addon_map addons)
unfolding build_addon_map
build_addon_map-DistinctKeys addons = add_to_map-DistinctKeys [] addons tt

needs_upgrade_iff :
    (d : ComponentDiff) → (needs_upgrade d ≡ true) ↔ ((n : Text) × (upgrade_set d n ≡ true))
unfolding needs_upgrade upgrade_set
needs_upgrade_iff d = (some_name d.changed d.added, λ (n, h). ground (arith, h))
  where
    some_name :
        (changed : List ComponentChange) (added : List Text)
        → (not (is_empty changed) || not (is_empty added)) ≡ true
        → (n : Text) × ((any (λ c. c.name == n) changed || contains added n) ≡ true)
    some_name (c ∷ changed) added h = (c.name, rw ((==_iff c.name c.name).1 refl) refl)
    some_name [] (n ∷ added) h = (n, rw ((==_iff n n).1 refl) refl)
    some_name [] [] h = ground (arith, h)

-- Whether a name of a component is in the set to upgrade, by its versions in the two releases.
abbrev pub component_changes : (current target : ReleaseImage) → Text → Bool
component_changes current target n =
    (codes "containerd" == n && changes current.containerd target.containerd)
    || (codes "kubernetes" == n && changes current.kubernetes target.kubernetes)

-- If the order in which a map is visited has the entries of the map, a name is in the set to upgrade
-- just if it is that of containerd or of Kubernetes and their version changes to one that is not empty,
-- or that of an addon of the target which the current release lacks or has in another version, and the
-- version in the target is not empty in the latter case. An upgrade is needed just if the set has a name.
pub upgrade_set-diff_components :
    (visit : List (Text × Text) → List (Text × Text))
    → ((es : List (Text × Text)) (e : Text × Text) → In e (visit es) ↔ In e es)
    → (current target : ReleaseImage) (n : Text)
    → (upgrade_set (diff_components visit (some current) (some target)) n
        ≡ component_changes current target n
          || addon_changes
              (lookup n (build_addon_map current.addons))
              (lookup n (build_addon_map target.addons)))
      × ((needs_upgrade (diff_components visit (some current) (some target)) ≡ true) ↔ (
          (m : Text) × (upgrade_set (diff_components visit (some current) (some target)) m ≡ true)))
unfolding diff_components diff_releases upgrade_set text_beq
upgrade_set-diff_components visit same current target n =
    let old : List (Text × Text) = build_addon_map current.addons in
    let new : List (Text × Text) = build_addon_map target.addons in
    let first : ComponentDiff =
      compare_versions (codes "containerd") current.containerd target.containerd empty_diff in
    let second : ComponentDiff =
      compare_versions (codes "kubernetes") current.kubernetes target.kubernetes first in
    (
      compared_addons old (visit new) n second
          ∙ ap (λ b. b || any (asks old n) (visit new))
              (compared (codes "kubernetes") current.kubernetes target.kubernetes n first
                ∙ ap
                    (λ b.
                      b
                      || (codes "kubernetes" == n && changes current.kubernetes target.kubernetes))
                    (compared (codes "containerd") current.containerd target.containerd n
                      empty_diff))
          ∙ ap (λ b. component_changes current target n || b)
              (any_same (asks old n) (visit new) new (same new)
                ∙ any_distinct old new n (build_addon_map-DistinctKeys target.addons)),
      needs_upgrade_iff (diff_components visit (some current) (some target)),
    )

-- ===== src/SelfUpgrade/Sorting.antt =====
-- `validateComponents` and `topologicalSort` of the self-upgrade. The sort recurses along the
-- dependencies with no mark for what is in progress: `stack` is how deep the calls may nest, and
-- `none` that they nest deeper, which ends a Go program.
use cluster_api_provider_bar.Prelude.{
  ℕ, zero, suc, String, not, Option, none, some, List, [], ◌∷◌, ◌++◌, map, ◌==◌, string_eq,
  if◌then◌else◌, contains, and_then, Result, ok, err, ◌>>◌,
}
use cluster_api_provider_bar.SelfUpgrade.Resource.{SelfUpgradeComponent}

pub data ComponentsError : Type 0 where
  duplicate : String → ComponentsError
  unknown_dependency : (component dep : String) → ComponentsError

abbrev pub names : List SelfUpgradeComponent → List String
names components = map (λ c. c.name) components

check_duplicates : List String → List SelfUpgradeComponent → Result ComponentsError (Unit {0})
check_duplicates seen [] = ok tt
check_duplicates seen (c ∷ components) =
    if contains seen c.name
    then err (duplicate c.name)
    else check_duplicates (c.name ∷ seen) components

check_known : List String → String → List String → Result ComponentsError (Unit {0})
check_known known name [] = ok tt
check_known known name (dep ∷ deps) =
    if not (contains known dep)
    then err (unknown_dependency name dep)
    else check_known known name deps

check_all_known : List String → List SelfUpgradeComponent → Result ComponentsError (Unit {0})
check_all_known known [] = ok tt
check_all_known known (c ∷ components) =
    check_known known c.name c.depends_on >> check_all_known known components

unfoldable pub validate_components : List SelfUpgradeComponent → Result ComponentsError (Unit {0})
unfolding check_duplicates check_known check_all_known
validate_components components =
    check_duplicates [] components >> check_all_known (names components) components

pub record Progress : Type 0 where
  pub visited : List String
  pub sorted : List SelfUpgradeComponent

abbrev pub append : SelfUpgradeComponent → Progress → Progress
append comp s = record { visited = comp.name ∷ s.visited; sorted = s.sorted ++ comp ∷ [] }

abbrev pub Visit : Type 0
Visit = SelfUpgradeComponent → Progress → Option Progress

-- The inner loop: visit every component of that name.
unfoldable pub visit_named : Visit → String → List SelfUpgradeComponent → Progress → Option Progress
visit_named visit dep [] s = some s
visit_named visit dep (c ∷ components) s =
    and_then (if c.name == dep then visit c s else some s) (visit_named visit dep components)

-- The loop over the dependencies.
unfoldable pub visit_deps :
    Visit → List SelfUpgradeComponent → List String → Progress → Option Progress
visit_deps visit components [] s = some s
visit_deps visit components (dep ∷ deps) s =
    and_then (visit_named visit dep components s) (visit_deps visit components deps)

unfoldable pub visit : List SelfUpgradeComponent → ℕ → Visit
visit components zero comp s = none
visit components (suc stack) comp s =
    let down = visit_deps (visit components stack) components comp.depends_on s in
    if contains s.visited comp.name then some s else and_then down (λ s'. some (append comp s'))

unfoldable pub visit_all : Visit → List SelfUpgradeComponent → Progress → Option Progress
visit_all visit [] s = some s
visit_all visit (c ∷ components) s = and_then (visit c s) (visit_all visit components)

unfoldable pub sort_components :
    (stack : ℕ) → List SelfUpgradeComponent → Option (List SelfUpgradeComponent)
unfolding visit_named visit_deps visit visit_all
sort_components stack components =
    and_then (visit_all (visit components stack) components (record { visited = []; sorted = [] }))
      (λ s. some s.sorted)

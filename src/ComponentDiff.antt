-- ===== src/ComponentDiff.antt =====
-- The differences between two release images: modules/cvo/internal/upgrader/diff_components.go. The
-- order in which Go visits a map is an argument.
pub mod Needs
mod Samples
use cluster_api_provider_bar.Prelude.{
  Text, Bool, true, false, not, ◌&&◌, ◌||◌, Option, none, some, List, [], ◌∷◌, ◌++◌, ◌==◌, text_eq,
  if◌then◌else◌, is_empty, codes, any, contains,
}
use cluster_api_provider_bar.Prelude.Maps.{lookup, insert}

-- The versions of the components; an addon is its name and its version.
pub record ReleaseImage : Type 0 where
  pub containerd : Text
  pub kubernetes : Text
  pub addons : List (Text × Text)

pub record ComponentChange : Type 0 where
  pub name : Text
  pub current_version : Text
  pub target_version : Text

pub record ComponentDiff : Type 0 where
  pub changed : List ComponentChange
  pub unchanged : List Text
  pub added : List Text
  pub removed : List Text

abbrev pub empty_diff : ComponentDiff
empty_diff = record { changed = []; unchanged = []; added = []; removed = [] }

-- A version that changes to none at all is not recorded.
unfoldable pub compare_versions : (name current target : Text) → ComponentDiff → ComponentDiff
compare_versions name current target d =
    if not (current == target)
    then if not (is_empty target)
      then record d {
        changed =
            d.changed
            ++ record { name = name; current_version = current; target_version = target } ∷ [];
      }
      else d
    else if not (is_empty current)
    then record d { unchanged = d.unchanged ++ name ∷ [] }
    else d

-- A later definition of the same name replaces an earlier one.
unfoldable pub add_to_map : List (Text × Text) → List (Text × Text) → List (Text × Text)
add_to_map map [] = map
add_to_map map ((name, version) ∷ addons) = add_to_map (insert name version map) addons

unfoldable pub build_addon_map : List (Text × Text) → List (Text × Text)
unfolding add_to_map
build_addon_map addons = add_to_map [] addons

unfoldable pub compare_addon :
    (current : List (Text × Text)) → Text × Text → ComponentDiff → ComponentDiff
compare_addon current (name, version) d = elim (lookup name current) [
  | none ↦ record d { added = d.added ++ name ∷ [] }
  | some old ↦ compare_versions name old version d
]

-- The loop over the addons of the target.
unfoldable pub compare_addons :
    (current : List (Text × Text)) → List (Text × Text) → ComponentDiff → ComponentDiff
compare_addons current [] d = d
compare_addons current (addon ∷ addons) d =
    compare_addons current addons (compare_addon current addon d)

-- The loop over the addons of the current release.
unfoldable pub removed_addons : (target : List (Text × Text)) → List (Text × Text) → List Text
removed_addons target [] = []
removed_addons target ((name, version) ∷ addons) = elim (lookup name target) [
  | none ↦ name ∷ removed_addons target addons
  | some _ ↦ removed_addons target addons
]

unfoldable pub diff_releases :
    (visit : List (Text × Text) → List (Text × Text))
    → (current target : ReleaseImage) → ComponentDiff
diff_releases visit current target =
    let old : List (Text × Text) = build_addon_map current.addons in
    let new : List (Text × Text) = build_addon_map target.addons in
    let d : ComponentDiff = compare_addons old (visit new) (
      compare_versions (codes "kubernetes") current.kubernetes target.kubernetes
        (compare_versions (codes "containerd") current.containerd target.containerd empty_diff)) in
    record d { removed = d.removed ++ removed_addons new (visit old) }

-- Without one of the releases there is no difference.
unfoldable pub diff_components :
    (visit : List (Text × Text) → List (Text × Text))
    → (current target : Option ReleaseImage) → ComponentDiff
diff_components visit (some current) (some target) = diff_releases visit current target
diff_components visit _ _ = empty_diff

unfoldable pub needs_upgrade : ComponentDiff → Bool
needs_upgrade d = not (is_empty d.changed) || not (is_empty d.added)

-- Whether a name is in the set.
unfoldable pub upgrade_set : ComponentDiff → Text → Bool
upgrade_set d name = any (λ c. c.name == name) d.changed || contains d.added name

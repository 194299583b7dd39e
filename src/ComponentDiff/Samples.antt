-- ===== src/ComponentDiff/Samples.antt =====
-- Two releases, of which the second has a new addon and a newer containerd.
use cluster_api_provider_bar.Prelude.{
  ◌≡◌, ◌↔◌, refl, Text, true, ◌||◌, some, [], ◌∷◌, codes, text_beq, List,
}
use cluster_api_provider_bar.Prelude.Maps.{lookup, insert}
use cluster_api_provider_bar.ComponentDiff.{
  ReleaseImage, compare_versions, add_to_map, build_addon_map, compare_addon, compare_addons,
  removed_addons, diff_releases, diff_components, upgrade_set, needs_upgrade,
}
use cluster_api_provider_bar.ComponentDiff.Needs.{
  component_changes, addon_changes, upgrade_set-diff_components,
}

abbrev in_order : List (Text × Text) → List (Text × Text)
in_order es = es

abbrev current : ReleaseImage
current = record {
  containerd = codes "1.6";
  kubernetes = codes "v1.30";
  addons = (codes "calico", codes "v3") ∷ (codes "old", codes "v1") ∷ [];
}

abbrev target : ReleaseImage
target = record {
  containerd = codes "1.7";
  kubernetes = codes "v1.30";
  addons = (codes "calico", codes "v3") ∷ (codes "ceph", codes "v9") ∷ [];
}

differences : diff_components in_order (some current) (some target) ≡ record {
  changed =
      record {
        name = codes "containerd";
        current_version = codes "1.6";
        target_version = codes "1.7";
      }
      ∷ [];
  unchanged = codes "kubernetes" ∷ codes "calico" ∷ [];
  added = codes "ceph" ∷ [];
  removed = codes "old" ∷ [];
}
unfolding text_beq lookup insert compare_versions add_to_map build_addon_map compare_addon
    compare_addons removed_addons diff_releases diff_components
differences = refl

upgrade_set-diff_components_example :
    (upgrade_set (diff_components in_order (some current) (some target)) (codes "ceph")
      ≡ component_changes current target (codes "ceph")
        || addon_changes
            (lookup (codes "ceph") (build_addon_map current.addons))
            (lookup (codes "ceph") (build_addon_map target.addons)))
    × ((needs_upgrade (diff_components in_order (some current) (some target)) ≡ true) ↔ (
        (m : Text) × (upgrade_set (diff_components in_order (some current) (some target)) m
          ≡ true)))
upgrade_set-diff_components_example =
    upgrade_set-diff_components in_order (λ es e. (λ i. i, λ i. i)) current target (codes "ceph")

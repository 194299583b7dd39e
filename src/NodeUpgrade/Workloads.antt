-- ===== src/NodeUpgrade/Workloads.antt =====
-- The images of the CNI and CSI addons: `upgradeCNI` and `upgradeCSI`.
use cluster_api_provider_bar.Prelude.{
  ℕ, ◌+◌, ◌≡◌, refl, ap, length, String, Text, Bool, false, not, ◌&&◌, ◌||◌, none, some, List, [],
  ◌∷◌, ◌++◌, ◌==◌, string_eq, text_eq, if◌then◌else◌, codes, contains_text, ltb, take, map, arith,
  contains, nat_eq,
}
use cluster_api_provider_bar.Effects.{Action, pure, ◌>>=◌, for_each}
use cluster_api_provider_bar.SelfUpgrade.Components.{last_colon}
use cluster_api_provider_bar.SelfUpgrade.Images.{last_colon-none, last_colon-append}
use cluster_api_provider_bar.NodeUpgrade.{Platform, NodeError, Workload}

-- The fields of an addon's definition that the upgrade of a node reads.
pub record AddonVersion : Type 0 where
  pub name : String
  pub type : String
  pub namespace : String
  pub version : Text

-- What stands up to the last colon is kept, unless that is the first character.
unfoldable pub retag : Text → Text → Text
retag version image = elim (last_colon image) [
  | none ↦ image
  | some i ↦ if ltb 0 i then take (i + 1) image ++ version else image
]

unfoldable pub retag_workload : Text → Workload → Workload
retag_workload version workload = record workload { images = map (retag version) workload.images }

abbrev pub is_upgradable : AddonVersion → Bool
is_upgradable addon = addon.type == "helm" || addon.type == "manifest"

unfoldable pub is_cni : AddonVersion → Bool
is_cni addon =
    is_upgradable addon
    && (addon.name == "calico" || addon.name == "cilium" || addon.name == "flannel")

unfoldable pub is_csi : AddonVersion → Bool
is_csi addon =
    is_upgradable addon
    && (contains_text (codes addon.name) (codes "csi")
        || contains_text (codes addon.name) (codes "ceph"))

module _ {Conn W : Type 0} (p : Platform Conn W) where
  open p use {daemon_sets, deployments, patch_daemon_set, patch_deployment}

  unfoldable pub upgrade_cni_addon : AddonVersion → Action NodeError W (Unit {0})
  upgrade_cni_addon addon = if not (is_cni addon) then pure tt else do
    workloads ← daemon_sets addon.namespace
    for_each (λ d. patch_daemon_set (retag_workload addon.version d)) workloads

  unfoldable pub upgrade_cni : List AddonVersion → Action NodeError W (Unit {0})
  upgrade_cni addons = for_each upgrade_cni_addon addons

  unfoldable pub upgrade_csi_addon : AddonVersion → Action NodeError W (Unit {0})
  upgrade_csi_addon addon = if not (is_csi addon) then pure tt else do
    workloads ← deployments addon.namespace
    for_each (λ d. patch_deployment (retag_workload addon.version d)) workloads

  unfoldable pub upgrade_csi : List AddonVersion → Action NodeError W (Unit {0})
  upgrade_csi addons = for_each upgrade_csi_addon addons

take_past :
    (repository tag : Text)
    → take (length repository + 1) (repository ++ b':' ∷ tag) ≡ repository ++ b':' ∷ []
take_past [] tag = refl
take_past (c ∷ repository) tag = ground (arith, take_past repository tag)

append_tag :
    (repository version : Text)
    → (repository ++ b':' ∷ []) ++ version ≡ repository ++ b':' ∷ version
append_tag [] version = refl
append_tag (c ∷ repository) version = ap (λ (t : Text). c ∷ t) (append_tag repository version)

-- If a tag holds no colon, an image with that tag behind a repository that is not empty gets the
-- version in place of its tag, even if the repository holds colons; an image that starts with its
-- last colon, and one without a colon, stay as they are.
pub retag_lem :
    (version tag : Text) (c : ℕ) (repository : Text)
    → contains tag b':' ≡ false
    → (retag version (c ∷ repository ++ b':' ∷ tag) ≡ c ∷ repository ++ b':' ∷ version)
      × (retag version (b':' ∷ tag) ≡ b':' ∷ tag)
      × (retag version tag ≡ tag)
unfolding retag
retag_lem version tag c repository h = (
  ground (
    arith,
    last_colon-append (c ∷ repository) tag h,
    take_past (c ∷ repository) tag,
    append_tag (c ∷ repository) version,
  ),
  ground (arith, last_colon-append [] tag h),
  ground (arith, last_colon-none tag h),
)

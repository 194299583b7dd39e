-- ===== src/ClusterVersion/Releases.antt =====
-- What the controller asks of the API server and of the puller of images, and how it synchronises
-- the upgrade path, the catalogue and the release image.
use cluster_api_provider_bar.Prelude.{
  String, Text, Bool, not, none, some, List, [], ◌==◌, text_eq, if◌then◌else◌, is_empty, find?,
  Result, ok, err,
}
use cluster_api_provider_bar.Effects.{Action, pure, fail, ◌>>=◌, ◌>>◌}
use cluster_api_provider_bar.Version.{version_to_name}
use cluster_api_provider_bar.Api.{Update, UpgradePathSpec, ReleaseEntry}
use cluster_api_provider_bar.Conditions.{Node}
use cluster_api_provider_bar.UpgradePath.{PathError}
use cluster_api_provider_bar.TopologicalSort.{DepGraph}
use cluster_api_provider_bar.GraphExecutor.{ExecError}
use cluster_api_provider_bar.GraphExecutor as Graph
use cluster_api_provider_bar.ClusterVersion.Resource.{
  AddonDefinition, ReleaseImageSpec, ClusterVersion,
}

pub data VersionError : Type 0 where
  api_failed pull_failed catalog_failed release_not_found no_puller list_failed : VersionError
  node_not_ready : String → VersionError
  invalid_path : PathError → VersionError
  k8s_upgrade_failed : ExecError → VersionError
  addon_failed : String → VersionError
  sort_failed : VersionError

-- What a read of an object finds.
pub data Lookup (A : Type 0) : Type 0 where
  found : A → Lookup A
  missing unreadable : Lookup A

pub record Catalog : Type 0 where
  pub image : Text
  pub releases : List ReleaseEntry

pub record Platform (W : Type 0) : Type 0 where
  -- Whether the reconciler has a puller.
  pub puller : Bool
  pub get_path : W → Lookup UpgradePathSpec × W
  pub pull_path : Text → Action VersionError W UpgradePathSpec
  pub create_path : UpgradePathSpec → Action VersionError W (Unit {0})
  pub update_path : UpgradePathSpec → Action VersionError W (Unit {0})
  pub get_catalog : W → Lookup Catalog × W
  pub pull_catalog : Text → Action VersionError W (List ReleaseEntry)
  pub create_catalog : Catalog → Action VersionError W (Unit {0})
  pub update_catalog : List ReleaseEntry → Action VersionError W (Unit {0})
  pub pull_release : Text → Action VersionError W ReleaseImageSpec
  pub get_release : (name : Text) → W → Lookup (Unit {0}) × W
  pub create_release : (name : Text) → ReleaseImageSpec → Action VersionError W (Unit {0})
  pub update_release : (name : Text) → ReleaseImageSpec → Action VersionError W (Unit {0})
  -- The update of the resource without its finalizer.
  pub update_version : ClusterVersion → Action VersionError W (Unit {0})
  pub nodes : Action VersionError W (List Node)
  -- The version that a cluster addon reports.
  pub get_addon : (namespace name : String) → W → Lookup Text × W
  pub create_addon : (namespace : String) → AddonDefinition → Action VersionError W (Unit {0})
  -- With what was read of the current release; one that cannot be read counts as none.
  pub upgrade_addon :
      (namespace : String) (current : Lookup (Unit {0}))
      → AddonDefinition
      → Action VersionError W (Unit {0})
  -- The order in which `range` visits the keys of a graph.
  pub iteration : DepGraph → List String
  pub graph : Graph.Platform W

module _ {W : Type 0} (p : Platform W) where
  open p use {
    puller, get_path, pull_path, create_path, update_path, get_catalog, pull_catalog,
    create_catalog, update_catalog, pull_release, get_release, create_release, update_release,
    nodes,
  }

  -- The image of an upgrade path that was found, unless it is empty; the default image is empty.
  abbrev pub path_image : Lookup UpgradePathSpec → Text
  path_image (found spec) = spec.image
  path_image _ = []

  abbrev pub catalog_image : Lookup Catalog → Text
  catalog_image (found c) = c.image
  catalog_image _ = []

  abbrev pub save_path : Lookup UpgradePathSpec → UpgradePathSpec → Action VersionError W (Unit {0})
  save_path missing spec = create_path spec
  save_path _ spec = update_path spec

  abbrev pub save_catalog : Lookup Catalog → List ReleaseEntry → Action VersionError W (Unit {0})
  save_catalog missing releases =
      create_catalog (record { image = catalog_image missing; releases = releases })
  save_catalog _ releases = update_catalog releases

  unfoldable pub sync_upgrade_path : Action VersionError W (Unit {0})
  sync_upgrade_path w =
      let (old, w') = get_path w in
      if not puller
      then (ok tt, w')
      else (do spec ← pull_path (path_image old); save_path old spec) w'

  unfoldable pub sync_release_catalog : Action VersionError W (Unit {0})
  sync_release_catalog w =
      let (old, w') = get_catalog w in
      if not puller
      then (ok tt, w')
      else (do releases ← pull_catalog (catalog_image old); save_catalog old releases) w'

  abbrev pub release_image_of : Text → Lookup Catalog → Result VersionError Text
  release_image_of version (found c) = elim (find? (λ e. e.version == version) c.releases) [
    | none ↦ err release_not_found
    | some entry ↦ if is_empty entry.image then err release_not_found else ok entry.image
  ]
  release_image_of version _ = err catalog_failed

  unfoldable pub resolve_image : Update → Action VersionError W Text
  resolve_image update w =
      if not (is_empty update.image)
      then (ok update.image, w)
      else let (c, w') = get_catalog w in (release_image_of update.version c, w')

  abbrev pub save_release :
      Lookup (Unit {0}) → Text → ReleaseImageSpec → Action VersionError W (Unit {0})
  save_release missing name spec = create_release name spec
  save_release (found _) name spec = update_release name spec
  save_release unreadable name spec = fail api_failed

  unfoldable pub fetch_release_image : Update → Action VersionError W ReleaseImageSpec
  fetch_release_image update = do
    image ← resolve_image update
    if not puller then fail no_puller else do
      spec ← pull_release image
      λ w.
          let (old, w') = get_release (version_to_name spec.version) w in
          (save_release old (version_to_name spec.version) spec >> pure spec) w'

-- ===== src/ClusterVersion/Controller.antt =====
-- `Reconcile` of cluster versions, in the stages between its early returns. A stage returns the
-- changed resource and after how many seconds it is looked at again.
use cluster_api_provider_bar.Prelude.{
  ℕ, String, Text, Bool, true, false, not, ◌||◌, Option, none, some, List, [], ◌∷◌, ◌++◌, ◌==◌,
  text_eq, string_eq, if◌then◌else◌, contains, is_empty, Result, ok, err,
}
use cluster_api_provider_bar.Effects.{Action}
use cluster_api_provider_bar.Api.{Update, UpgradePathSpec, ReleaseEntry}
use cluster_api_provider_bar.Conditions.{
  ConditionStatus, is_true, is_false, set_cv_condition, first_not_ready,
}
use cluster_api_provider_bar.UpgradePath.{
  PathError, upgrade_path_unavailable, catalog_unavailable, validate_upgrade_path,
  compute_available_updates,
}
use cluster_api_provider_bar.GraphExecutor.{Executor, execute_upgrade_graph}
use cluster_api_provider_bar.ClusterVersion.Resource.{
  partial, UpdateHistory, ReleaseImageSpec, ClusterVersion, prepend_history, complete_history,
  init_component_status,
}
use cluster_api_provider_bar.ClusterVersion.Releases.{
  VersionError, list_failed, node_not_ready, invalid_path, k8s_upgrade_failed, Lookup, found,
  Catalog, Platform, sync_upgrade_path, sync_release_catalog, fetch_release_image,
}
use cluster_api_provider_bar.ClusterVersion.Addons.{
  needs_addon_upgrade, update_addon_status, execute_addon_upgrades,
}

abbrev pub finalizer : String
finalizer = "clusterversion.cvo.capbm.io"

abbrev pub add : String → List String → List String
add f finalizers = if contains finalizers f then finalizers else finalizers ++ f ∷ []

abbrev pub without : String → List String → List String
without f [] = []
without f (x ∷ finalizers) = if x == f then without f finalizers else x ∷ without f finalizers

abbrev pub condition :
    (type : String) → ConditionStatus → (reason : String) → ℕ → ClusterVersion → ClusterVersion
condition type status reason now cv = record cv {
  status = record cv.status {
    conditions = set_cv_condition type status reason now cv.status.conditions;
  };
}

abbrev pub Outcome : Type 0
Outcome = ClusterVersion × ℕ

-- Nothing is to be upgraded.
abbrev pub idle : ℕ → ClusterVersion → Outcome
idle now cv = (
  condition "Progressing" is_false "AsExpected" now
      (condition "Available" is_true "AsExpected" now cv),
  300,
)

-- A stage that ends in a failure.
abbrev pub failing : (reason : String) → ℕ → ClusterVersion → Outcome
failing reason now cv = (condition "Failing" is_true reason now cv, 60)

abbrev pub unfit : (reason : String) → ℕ → ClusterVersion → Outcome
unfit reason now cv =
    (condition "Upgradeable" is_false reason now (condition "Failing" is_true reason now cv), 60)

abbrev pub partial_update : ℕ → Update → ReleaseImageSpec → UpdateHistory
partial_update now update r = record {
  state = partial;
  version = update.version;
  image = r.image;
  verified = true;
  started_time = now;
  completion_time = none;
}

-- The entry in the history before an upgrade is executed.
unfoldable pub begin_update : ℕ → Bool → ReleaseImageSpec → Update → ClusterVersion → ClusterVersion
begin_update now needs_k8s r update cv =
    let entered = record cv {
      status = record cv.status {
        history = prepend_history cv.status.history (partial_update now update r);
      };
    } in
    if needs_k8s then condition "Progressing" is_true "Upgrading" now entered else entered

-- What follows the execution of an upgrade.
unfoldable pub end_update : ℕ → Update → ClusterVersion → Result VersionError (Unit {0}) → Outcome
end_update now update cv (err _) = failing "UpgradeFailed" now cv
end_update now update cv (ok _) =
    let done = record cv {
      status = record cv.status {
        actual_version = update.version;
        history = complete_history now cv.status.history;
      };
    } in
    (condition "Failing" is_false "AsExpected" now (idle now done).0, 300)

module _ {W : Type 0} (p : Platform W) where
  open p use {puller, get_path, get_catalog, nodes, update_version, graph}

  -- The upgrade path as the executor reads it.
  abbrev pub fetched_path : Lookup UpgradePathSpec → Result PathError UpgradePathSpec
  fetched_path (found spec) = ok spec
  fetched_path _ = err upgrade_path_unavailable

  abbrev pub fetched_catalog : Lookup Catalog → Result PathError (List ReleaseEntry)
  fetched_catalog (found c) = ok c.releases
  fetched_catalog _ = err catalog_unavailable

  unfoldable pub update_available : ℕ → ClusterVersion → W → ClusterVersion × W
  update_available now cv w =
      let (path, w') = get_path w in
      let (catalog, w'') = get_catalog w' in
      if not puller then (cv, w) else (
        elim (compute_available_updates (fetched_path path) (fetched_catalog catalog)
            cv.status.actual_version) [
              | err _ ↦ condition "RetrievedUpdates" is_false "ComputeFailed" now cv
              | ok updates ↦
                  condition "RetrievedUpdates" is_true "AsExpected" now
                    (record cv { status = record cv.status { available_updates = updates } })
            ],
        elim path [ found _ ↦ w'' | _ ↦ w' ],
      )

  unfoldable pub validate_upgrade : Text → Update → Action VersionError W (Unit {0})
  validate_upgrade from update w =
      let (path, w') = get_path w in
      if not puller || is_empty update.version
      then (ok tt, w)
      else elim (validate_upgrade_path (fetched_path path) from (some update)) [
        | ok _ ↦ (ok tt, w')
        | err e ↦ (err (invalid_path e), w')
      ]

  unfoldable pub pre_upgrade_health_check : Action VersionError W (Unit {0})
  pre_upgrade_health_check w =
      let (r, w') = nodes w in
      elim r [
        | err _ ↦ (err list_failed, w')
        | ok listed ↦ elim (first_not_ready listed) [
          | none ↦ (ok tt, w')
          | some name ↦ (err (node_not_ready name), w')
        ]
      ]

  -- The graph of the components, if the version changes.
  unfoldable pub upgrade_components :
      ℕ
      → Bool
      → ReleaseImageSpec
      → ClusterVersion
      → W
      → (ClusterVersion × Result VersionError (Unit {0})) × W
  upgrade_components now needs_k8s r cv w =
      let executor : Executor = record {
        health_checker = false;
        ssh_manager = false;
        image = r.image;
      } in
      let (result, w') = execute_upgrade_graph graph executor r.upgrade_graph w in
      if not needs_k8s then ((cv, ok tt), w) else (
        (
          record cv { status = record cv.status { component_status = init_component_status r } },
          elim result [ ok _ ↦ ok tt | err e ↦ err (k8s_upgrade_failed e) ],
        ),
        w',
      )

  unfoldable pub execute_upgrade :
      ℕ
      → Bool
      → ReleaseImageSpec
      → ClusterVersion
      → W
      → (ClusterVersion × Result VersionError (Unit {0})) × W
  execute_upgrade now needs_k8s r cv w =
      let ((cv', result), w') = upgrade_components now needs_k8s r cv w in
      let (addons, w'') =
        execute_addon_upgrades p cv.namespace cv.status.actual_version r.addons w' in
      let (statuses, w₃) = update_addon_status p now cv.namespace r.addons w'' in
      if not puller then ((cv, ok tt), w) else elim result [
        | err e ↦ ((cv', err e), w')
        | ok _ ↦ elim addons [
          | err e ↦ ((cv', err e), w'')
          | ok _ ↦
              ((record cv' { status = record cv'.status { addon_status = statuses } }, ok tt), w₃)
        ]
      ]

  -- The end of `Reconcile`, from the entry in the history on.
  unfoldable pub proceed : ℕ → Bool → ReleaseImageSpec → Update → ClusterVersion → W → Outcome × W
  proceed now needs_k8s r update cv w =
      let (done, w') = execute_upgrade now needs_k8s r (begin_update now needs_k8s r update cv) w in
      (end_update now update done.0 done.1, w')

  -- The checks before an upgrade to another version.
  unfoldable pub gate : ℕ → ReleaseImageSpec → Update → ClusterVersion → W → Outcome × W
  gate now r update cv w =
      let (path, w') = validate_upgrade cv.status.actual_version update w in
      let (health, w'') = pre_upgrade_health_check w' in
      elim path [
        | err _ ↦ (unfit "ValidationFailed" now cv, w')
        | ok _ ↦ elim health [
          | err _ ↦ (unfit "PreUpgradeHealthCheckFailed" now cv, w'')
          | ok _ ↦
              proceed now true r update
                (condition "Upgradeable" is_true "PreconditionsPassed" now cv) w''
        ]
      ]

  -- What a fetched release asks for.
  unfoldable pub decide : ℕ → ReleaseImageSpec → Update → ClusterVersion → W → Outcome × W
  decide now r update cv w =
      let cv' = record cv {
        status = record cv.status { desired = record { version = r.version; image = r.image } };
      } in
      let (needs_addons, w') = needs_addon_upgrade p cv.namespace r.addons w in
      if not (cv.status.actual_version == update.version)
      then gate now r update cv' w'
      else if needs_addons
      then proceed now false r update cv' w'
      else (idle now cv', w')

  unfoldable pub fetched_release :
      ℕ → Result VersionError ReleaseImageSpec → Update → ClusterVersion → W → Outcome × W
  fetched_release now (err _) update cv w = (failing "PullFailed" now cv, w)
  fetched_release now (ok r) update cv w = decide now r update cv w

  unfoldable pub desire : ℕ → Option Update → ClusterVersion → W → Outcome × W
  desire now none cv w = (idle now cv, w)
  desire now (some update) cv w =
      let (fetched, w') = fetch_release_image p update w in fetched_release now fetched update cv w'

  unfoldable pub reconcile : ℕ → ClusterVersion → W → Outcome × W
  reconcile now cv w =
      let kept = record cv { finalizers = add finalizer cv.finalizers } in
      let (path, w') = sync_upgrade_path p w in
      let (catalog, w'') = sync_release_catalog p w' in
      let (cv', w₃) = update_available now kept w'' in
      let released = record cv { finalizers = without finalizer cv.finalizers } in
      if cv.deleting
      then ((released, 0), (update_version released w).1)
      else if cv.paused
      then ((condition "Paused" is_true "UpgradePaused" now kept, 30), w)
      else elim path [
        | err _ ↦ ((kept, 300), w')
        | ok _ ↦ elim catalog [
          | err _ ↦ ((kept, 300), w'')
          | ok _ ↦ desire now cv.desired_update cv' w₃
        ]
      ]

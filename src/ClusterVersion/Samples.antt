-- ===== src/ClusterVersion/Samples.antt =====
-- A cluster version that is upgraded from v1 to v2 where everything works.
use cluster_api_provider_bar.Prelude.{
  ℕ, ◌+◌, codes, text_beq, ◌≡◌, ◌⊎◌, refl, true, false, some, [], ◌∷◌, ok,
}
use cluster_api_provider_bar.Prelude.Sorting.{sort_by}
use cluster_api_provider_bar.Effects.{for_each}
use cluster_api_provider_bar.Version.{match_version, version_to_name}
use cluster_api_provider_bar.Conditions.{is_true, first_not_ready, node_ready, set_cv_condition}
use cluster_api_provider_bar.UpgradePath.{
  validate_upgrade_path, edge_covers, blocked_covers, compute_available_updates,
}
use cluster_api_provider_bar.TopologicalSort.{keys, put, deps_of, topological_sort}
use cluster_api_provider_bar.GraphExecutor as Graph
use cluster_api_provider_bar.GraphExecutor.{phase_less, execute_upgrade_graph}
use cluster_api_provider_bar.ClusterVersion.Resource.{
  ReleaseImageSpec, ClusterVersion, prepend_history, complete_history,
}
use cluster_api_provider_bar.ClusterVersion.Releases.{
  Platform, found, sync_upgrade_path, sync_release_catalog, fetch_release_image, resolve_image,
}
use cluster_api_provider_bar.ClusterVersion.Addons.{
  needs_addon_upgrade, update_addon_status, execute_addon_upgrades, build_addon_dependency_graph,
  upgrade_one, find_addon_def_by_name,
}
use cluster_api_provider_bar.ClusterVersion.Controller.{
  begin_update, end_update, update_available, validate_upgrade, pre_upgrade_health_check,
  upgrade_components, execute_upgrade, proceed, gate, decide, fetched_release, desire, reconcile,
}
use cluster_api_provider_bar.ClusterVersion.Gates.{HasCause, reconcile-HasCause}

abbrev still : Graph.Platform ℕ
still = record {
  iteration = keys;
  arrange = sort_by phase_less;
  manifest_dir = λ image w. (ok "m", w);
  scripts_dir = λ image w. (ok "s", w);
  join = λ dir name. name;
  is_missing = λ path w. false;
  read_file = λ path w. (ok path, w);
  decode = λ content. ok content;
  patch = λ obj w. (ok tt, w + 1);
  nodes = λ w. (ok [], w);
  connect = λ node w. (ok tt, w);
  run_script = λ node content w. (ok 0, w);
  close = λ node w. w;
  pods_ready = λ namespace selector timeout w. (ok tt, w);
  daemon_set_ready = λ namespace name timeout w. (ok tt, w);
  deployment_ready = λ namespace name timeout w. (ok tt, w);
  endpoint_healthy = λ endpoint timeout w. (ok tt, w);
  crd_established = λ name timeout w. (ok tt, w);
  service_running = λ name timeout w. (ok tt, w);
}

abbrev release : ReleaseImageSpec
release = record {
  version = codes "v2";
  image = codes "i2";
  containerd = [];
  kubernetes = codes "k2";
  addons = record { name = "dns"; version = codes "d2"; namespace = "ns"; dependencies = [] } ∷ [];
  upgrade_graph = [];
}

-- The world counts the changes.
abbrev server : Platform ℕ
server = record {
  puller = true;
  get_path = λ w. (
    found (record {
      image = [];
      edges = record { from = codes "v1"; to = codes "v*"; recommended = true } ∷ [];
      blocked_upgrades = [];
    }),
    w,
  );
  pull_path = λ image w. (ok (record { image = []; edges = []; blocked_upgrades = [] }), w);
  create_path = λ spec w. (ok tt, w + 1);
  update_path = λ spec w. (ok tt, w + 1);
  get_catalog = λ w. (found (record { image = []; releases = [] }), w);
  pull_catalog = λ image w. (ok [], w);
  create_catalog = λ catalog w. (ok tt, w + 1);
  update_catalog = λ releases w. (ok tt, w + 1);
  pull_release = λ image w. (ok release, w);
  get_release = λ name w. (found tt, w);
  create_release = λ name spec w. (ok tt, w + 1);
  update_release = λ name spec w. (ok tt, w + 1);
  update_version = λ cv w. (ok tt, w + 1);
  nodes = λ w. (
    ok (
        record {
          name = "n1";
          conditions =
              record { type = "Ready"; status = is_true; reason = ""; last_transition_time = 0 }
              ∷ [];
        }
        ∷ []),
    w,
  );
  get_addon = λ namespace name w. (found (codes "d1"), w);
  create_addon = λ namespace def w. (ok tt, w + 1);
  upgrade_addon = λ namespace current def w. (ok tt, w + 1);
  iteration = keys;
  graph = still;
}

abbrev cluster : ClusterVersion
cluster = record {
  name = "cv";
  namespace = "ns";
  finalizers = [];
  deleting = false;
  paused = false;
  desired_update = some (record { version = codes "v2"; image = codes "i2"; force = false });
  status = record {
    desired = record { version = codes "v1"; image = codes "i1" };
    actual_version = codes "v1";
    history = [];
    conditions = [];
    available_updates = [];
    component_status = [];
    addon_status = [];
  };
}

cluster-upgraded :
    ((reconcile server 7 cluster 0).0.0.status.actual_version ≡ codes "v2")
    × ((reconcile server 7 cluster 0).1 ≡ 4)
unfolding text_beq sort_by for_each match_version version_to_name first_not_ready node_ready
    set_cv_condition validate_upgrade_path edge_covers blocked_covers compute_available_updates
    topological_sort execute_upgrade_graph prepend_history complete_history sync_upgrade_path
    sync_release_catalog fetch_release_image resolve_image needs_addon_upgrade update_addon_status
    execute_addon_upgrades build_addon_dependency_graph upgrade_one find_addon_def_by_name
    begin_update end_update update_available validate_upgrade pre_upgrade_health_check
    upgrade_components execute_upgrade proceed gate decide fetched_release desire reconcile
    Graph.execute_phases put deps_of
cluster-upgraded = (refl, refl)

reconcile-HasCause_example :
    ((reconcile server 7 cluster 0).0.0.status.actual_version ≡ codes "v1")
    ⊎ HasCause server cluster (reconcile server 7 cluster 0).0.0
reconcile-HasCause_example = reconcile-HasCause server 7 cluster 0

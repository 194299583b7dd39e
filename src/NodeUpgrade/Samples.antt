-- ===== src/NodeUpgrade/Samples.antt =====
-- Three control-plane nodes and a worker node, upgraded over platforms on which everything works but
-- perhaps the connection to one node.
use cluster_api_provider_bar.Prelude.{
  ℕ, ◌+◌, String, codes, ◌≡◌, ◌≢◌, refl, Bool, true, false, none, some, List, [], ◌∷◌, ◌==◌, ◌||◌,
  string_eq, if◌then◌else◌, arith, Result, ok, err, In, all, text_beq,
}
use cluster_api_provider_bar.Prelude.Integers.{pos}
use cluster_api_provider_bar.Effects.{Action, for_each, when}
use cluster_api_provider_bar.Api.{AddonHook, Update}
use cluster_api_provider_bar.Conditions.{Condition, is_true, Node, node_ready, first_not_ready}
use cluster_api_provider_bar.SelfUpgrade.Components.{last_colon}
use cluster_api_provider_bar.NodeUpgrade.{
  Platform, NodeError, ssh_failed, hook_failed, timed_out, evicted, Pod, LabelledNode,
  with_connection, run_script,
}
use cluster_api_provider_bar.NodeUpgrade.Drain.{
  is_daemon_set, reports_not_ready, check_ready, evict_pod, is_drained, drain_node, uncordon_node,
  verify_node_upgrade,
}
use cluster_api_provider_bar.Effects.Later.{Later, here}
use cluster_api_provider_bar.NodeUpgrade.Moves.{Step, PollHolds}
use cluster_api_provider_bar.NodeUpgrade.Drained.{EvictionAccepted, drain_node-EvictionAccepted}
use cluster_api_provider_bar.NodeUpgrade.Failures.{RolledBack, upgrade_nodes-RolledBack}
use cluster_api_provider_bar.NodeUpgrade.Containerd.{
  execute_hook_on_node, execute_component_hooks, upgrade_containerd_rolling, upgrade_containerd,
}
use cluster_api_provider_bar.NodeUpgrade.Workloads.{
  retag, retag_workload, is_cni, is_csi, upgrade_cni_addon, upgrade_cni, upgrade_csi_addon,
  upgrade_csi, retag_lem,
}
use cluster_api_provider_bar.NodeUpgrade.ControlPlane.{
  ControlPlaneUpgradeConfig, Components, Versions, wants_drain, names_of, first_not_running,
  get_control_plane_nodes, check_cluster_health, check_etcd_health, pre_upgrade_checks, backup_etcd,
  backup_before_upgrade, upgrade_node, upgrade_nodes, is_at_version, wait_for_kcp_upgrade,
  check_control_plane_nodes_ready, check_control_plane_pods, check_api_server_health,
  post_upgrade_verification, execute_upgrade,
}
use cluster_api_provider_bar.NodeUpgrade.Checks.{SeenHealthy}
use cluster_api_provider_bar.NodeUpgrade.Outcome.{Upgraded, execute_upgrade-Upgraded}
use cluster_api_provider_bar.NodeUpgrade.Scripts.{Ran, SeenReady, script_of}
use cluster_api_provider_bar.NodeUpgrade.Nodes.{upgrade_node-Ran}
use cluster_api_provider_bar.NodeUpgrade.Worker as Worker
use cluster_api_provider_bar.NodeUpgrade.Workers.{IsUpgraded, execute_upgrade-IsUpgraded}

abbrev ready : Condition
ready = record { type = "Ready"; status = is_true; reason = ""; last_transition_time = 0 }

abbrev node : String → Node
node name = record { name = name; conditions = ready ∷ [] }

abbrev masters : List Node
masters = node "a" ∷ node "b" ∷ node "c" ∷ []

abbrev worker : LabelledNode
worker = record { node = node "d"; labels = [] }

abbrev agent : Pod
agent = record {
  namespace = "kube-system";
  name = "agent";
  owner_kinds = "DaemonSet" ∷ [];
  phase = "Running";
}

-- One round.
abbrev poll_once :
    {W : Type 0} → (interval timeout : ℕ) → Action NodeError W Bool → Action NodeError W (Unit {0})
poll_once interval timeout condition w =
    let (r, w') = condition w in
    (elim r [ ok met ↦ if met then ok tt else err timed_out | err e ↦ err e ], w')

-- The world counts the scripts; the connections to one host fail.
abbrev failing_at : String → Platform String ℕ
failing_at bad = record {
  clientset = true;
  connect = λ host w. (if host == bad then err ssh_failed else ok host, w);
  close = λ conn w. w;
  execute_script = λ conn script timeout w. (ok 0, w + 1);
  list_nodes = λ w. (ok (worker ∷ []), w);
  select_nodes = λ label value w. (ok masters, w);
  get_node = λ name w. (ok (node name), w);
  pods_on = λ name w. (ok (agent ∷ []), w);
  select_pods = λ namespace label value w. (ok (agent ∷ []), w);
  evict = λ namespace pod w. (evicted, w);
  uncordon = λ name w. (ok tt, w);
  daemon_sets = λ namespace w. (ok [], w);
  deployments = λ namespace w. (ok [], w);
  patch_daemon_set = λ workload w. (ok tt, w);
  patch_deployment = λ workload w. (ok tt, w);
  list_namespaces = λ w. (ok tt, w);
  poll = poll_once;
}

abbrev calm : Platform String ℕ
calm = failing_at "nowhere"

calm-PollHolds : PollHolds calm
calm-PollHolds interval timeout condition w h = (w, here, met (condition w).0 refl)
  where
    met : (r : Result NodeError Bool) → (condition w).0 ≡ r → (condition w).0 ≡ ok true
    met (ok true) e = e
    met (ok false) e = ground (arith, e, h)
    met (err x) e = ground (arith, e, h)

abbrev config : ControlPlaneUpgradeConfig
config = record {
  wait_for_kcp = true;
  drain_enabled = true;
  drain_timeout = 60;
  etcd_backup_enabled = true;
  rollback_enabled = false;
}

abbrev hook : AddonHook
hook = record { name = "stop"; command = "true"; timeout = none; on_failure = "Abort" }

abbrev release : Components
release = record {
  containerd = record {
    version = codes "1.7";
    archive = "";
    install_strategy = none;
    upgrade_strategy = none;
    pre_hooks = hook ∷ [];
    post_hooks = [];
  };
  kubernetes = codes "v1.31";
  addons = record { name = "calico"; type = "helm"; namespace = "net"; version = codes "3" } ∷ [];
}

abbrev update : Update
update = record { version = codes "v2"; image = []; force = false }

abbrev versions : Versions
versions = record { actual_version = codes "v2"; desired_update = some update }

retag_sample : retag (codes "v3") (codes "docker.io/calico:v2") ≡ codes "docker.io/calico:v3"
unfolding retag last_colon
retag_sample = refl

-- A colon in front of a port is taken for the one of a tag.
retag_port : retag (codes "v3") (codes "hub:5000/calico") ≡ codes "hub:v3"
unfolding retag last_colon
retag_port = refl

retag_lem_example :
    (retag (codes "v3") (codes "hub:5000/calico:v1") ≡ codes "hub:5000/calico:v3")
    × (retag (codes "v3") (codes ":v1") ≡ codes ":v1")
    × (retag (codes "v3") (codes "v1") ≡ codes "v1")
retag_lem_example = retag_lem (codes "v3") (codes "v1") b'h' (codes "ub:5000/calico") refl

drain_node-EvictionAccepted_example :
    (pods : List Pod) × ((calm.pods_on "a" 0).0 ≡ ok pods)
    × (v : ℕ) × ((pod : Pod)
        → In pod pods
        → is_daemon_set pod ≡ false
        → EvictionAccepted calm pod v)
    × (left : List Pod) × ((calm.pods_on "a" v).0 ≡ ok left)
    × (all is_daemon_set left ≡ true)
unfolding is_daemon_set evict_pod is_drained drain_node for_each
drain_node-EvictionAccepted_example =
    drain_node-EvictionAccepted calm calm-PollHolds 60 (node "a") 0 refl

upgrade_node-Ran_example :
    (v : ℕ) × Ran calm "a" (script_of calm release.containerd) v
    × SeenReady calm (node "a") v
    × (w' : ℕ) × Later (Step calm) (calm.get_node "a" v).1 w'
    × ((when
          (config.drain_enabled || wants_drain release.containerd)
          (uncordon_node calm (node "a"))
          w').0
        ≡ ok tt)
unfolding text_beq with_connection run_script reports_not_ready is_daemon_set evict_pod is_drained
    drain_node uncordon_node verify_node_upgrade execute_hook_on_node execute_component_hooks
    upgrade_containerd_rolling upgrade_containerd for_each retag_workload is_cni is_csi
    upgrade_cni_addon upgrade_cni upgrade_csi_addon upgrade_csi upgrade_node
upgrade_node-Ran_example = upgrade_node-Ran calm config release (node "a") 0 refl

upgrade_nodes-RolledBack_example :
    RolledBack
      (failing_at "b")
      config
      (node "b")
      (hook_failed "stop")
      2
      (upgrade_nodes (failing_at "b") config release masters 0)
    × ((upgrade_nodes (failing_at "b") config release masters 0).0 ≢ ok tt)
unfolding text_beq with_connection run_script reports_not_ready is_daemon_set evict_pod is_drained
    drain_node uncordon_node verify_node_upgrade execute_hook_on_node execute_component_hooks
    upgrade_containerd_rolling upgrade_containerd for_each retag_workload is_cni is_csi
    upgrade_cni_addon upgrade_cni upgrade_csi_addon upgrade_csi upgrade_node upgrade_nodes
upgrade_nodes-RolledBack_example =
    upgrade_nodes-RolledBack (failing_at "b") config release (node "a" ∷ []) (node "c" ∷ [])
      (node "b") 0 2 2 (hook_failed "stop") refl refl

execute_upgrade-Upgraded_example :
    (w' : ℕ) × SeenHealthy calm config 0 w'
    × (nodes : List Node) × ((get_control_plane_nodes calm config w').0 ≡ ok nodes)
    × (w'' : ℕ) × ((n : Node)
        → In n nodes
        → Upgraded calm config release (get_control_plane_nodes calm config w').1 w'' n)
    × (config.wait_for_kcp ≡ true
        → (u : Update) × (versions.desired_update ≡ some u) × (versions.actual_version ≡ u.version))
    × ((post_upgrade_verification calm config w'').0 ≡ ok tt)
unfolding text_beq with_connection run_script reports_not_ready is_daemon_set check_ready evict_pod
    is_drained drain_node uncordon_node verify_node_upgrade execute_hook_on_node
    execute_component_hooks upgrade_containerd_rolling upgrade_containerd for_each retag_workload
    is_cni is_csi upgrade_cni_addon upgrade_cni upgrade_csi_addon upgrade_csi upgrade_node
    node_ready first_not_ready names_of first_not_running get_control_plane_nodes
    check_cluster_health check_etcd_health pre_upgrade_checks backup_etcd backup_before_upgrade
    upgrade_nodes is_at_version wait_for_kcp_upgrade check_control_plane_nodes_ready
    check_control_plane_pods check_api_server_health post_upgrade_verification execute_upgrade
execute_upgrade-Upgraded_example =
    execute_upgrade-Upgraded calm config calm-PollHolds versions release 0 refl

abbrev worker_config : Worker.WorkerUpgradeConfig
worker_config = record { max_unavailable = pos 1; drain_enabled = true; drain_timeout = 60 }

execute_upgrade-IsUpgraded_example :
    (out : Result NodeError (Unit {0}) × ℕ) × (Worker.execute_upgrade calm worker_config
        (λ batch. batch)
        release
        0
      ≡ some out)
    × (out.0 ≡ ok tt
        → (nodes : List Node) × (w' : ℕ) × ((Worker.get_worker_nodes calm worker_config w').0
            ≡ ok nodes)
          × ((n : Node) → In n nodes → IsUpgraded calm worker_config (λ batch. batch) release n))
execute_upgrade-IsUpgraded_example =
    execute_upgrade-IsUpgraded calm worker_config (λ batch. batch) release (λ batch n i. i) 0

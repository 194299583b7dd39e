-- ===== src/NodeUpgrade/ControlPlane.antt =====
-- The control-plane upgrader: `ExecuteUpgrade` of control_plane_upgrader.go with its checks, the
-- backup of etcd, the upgrade of one node and the rollback.
use cluster_api_provider_bar.Prelude.{
  ℕ, Text, Bool, false, not, ◌||◌, Option, none, some, List, [], ◌∷◌, ◌==◌, string_eq, text_eq,
  if◌then◌else◌, ltb, length, ok, err,
}
use cluster_api_provider_bar.Effects.{Action, pure, fail, wrap, when, ◌>>=◌, ◌>>◌, for_each}
use cluster_api_provider_bar.Api.{Update}
use cluster_api_provider_bar.Conditions.{Node}
use cluster_api_provider_bar.NodeUpgrade.{
  Platform, NodeError, Pod, LabelledNode, pod_not_running, no_clientset,
  too_few_control_plane_nodes, no_control_plane_nodes, no_desired_update, backup_failed,
  upgrade_failed, rollback_failed, checks_failed, kcp_failed, etcd_backup, etcd_health,
  etcd_restore, run_script,
}
use cluster_api_provider_bar.NodeUpgrade.Drain.{
  check_ready, drain_node, uncordon_node, verify_node_upgrade,
}
use cluster_api_provider_bar.NodeUpgrade.Containerd.{
  BinaryComponent, execute_component_hooks, upgrade_containerd,
}
use cluster_api_provider_bar.NodeUpgrade.Workloads.{AddonVersion, upgrade_cni, upgrade_csi}

pub record ControlPlaneUpgradeConfig : Type 0 where
  pub wait_for_kcp : Bool
  pub drain_enabled : Bool
  pub drain_timeout : ℕ
  pub etcd_backup_enabled : Bool
  pub rollback_enabled : Bool

pub record Components : Type 0 where
  pub containerd : BinaryComponent
  pub kubernetes : Text
  pub addons : List AddonVersion

-- The versions of the resource that the wait for KCP compares.
pub record Versions : Type 0 where
  pub actual_version : Text
  pub desired_update : Option Update

unfoldable pub names_of : List LabelledNode → List Node
names_of [] = []
names_of (labelled ∷ nodes) = labelled.node ∷ names_of nodes

unfoldable pub first_not_running : List Pod → Option Pod
first_not_running [] = none
first_not_running (pod ∷ pods) =
    if not (pod.phase == "Running") then some pod else first_not_running pods

abbrev pub wants_drain : BinaryComponent → Bool
wants_drain containerd = elim containerd.upgrade_strategy [ none ↦ false | some s ↦ s.drain ]

module _ {Conn W : Type 0} (p : Platform Conn W) (config : ControlPlaneUpgradeConfig) where
  open p use {clientset, list_nodes, select_nodes, select_pods, list_namespaces, poll}

  unfoldable pub get_control_plane_nodes : Action NodeError W (List Node)
  get_control_plane_nodes = select_nodes "node-role.kubernetes.io/control-plane" ""

  unfoldable pub check_cluster_health : Action NodeError W (Unit {0})
  check_cluster_health = do nodes ← list_nodes; check_ready (names_of nodes)

  abbrev pub check_first : List Node → Action NodeError W (Unit {0})
  check_first [] = fail no_control_plane_nodes
  check_first (node ∷ _) = run_script p node.name etcd_health none

  unfoldable pub check_etcd_health : Action NodeError W (Unit {0})
  check_etcd_health = get_control_plane_nodes >>= check_first

  abbrev pub check_count : List Node → Action NodeError W (Unit {0})
  check_count nodes =
      if ltb (length nodes) 3 then fail (too_few_control_plane_nodes (length nodes)) else pure tt

  unfoldable pub pre_upgrade_checks : Action NodeError W (Unit {0})
  pre_upgrade_checks = do
    check_cluster_health
    nodes ← get_control_plane_nodes
    check_count nodes
    check_etcd_health

  unfoldable pub backup_etcd : Node → Action NodeError W (Unit {0})
  backup_etcd node = run_script p node.name etcd_backup none

  unfoldable pub backup_before_upgrade : Action NodeError W (Unit {0})
  backup_before_upgrade = when config.etcd_backup_enabled (do
    nodes ← get_control_plane_nodes
    for_each (λ node. wrap (backup_failed node.name) (backup_etcd node)) nodes)

  -- The drain, the upgrade and the uncordoning depend on the configuration and on the strategy.
  unfoldable pub upgrade_node : Components → Node → Action NodeError W (Unit {0})
  upgrade_node release node = do
    execute_component_hooks p node release.containerd.pre_hooks
    when (config.drain_enabled || wants_drain release.containerd)
        (drain_node p config.drain_timeout node)
    upgrade_containerd p config.drain_timeout node release.containerd
    execute_component_hooks p node release.containerd.post_hooks
    upgrade_cni p release.addons
    upgrade_csi p release.addons
    verify_node_upgrade p node
    when (config.drain_enabled || wants_drain release.containerd) (uncordon_node p node)

  unfoldable pub restore_etcd : Node → Action NodeError W (Unit {0})
  restore_etcd node = run_script p node.name etcd_restore none

  unfoldable pub rollback : Action NodeError W (Unit {0})
  rollback = do nodes ← get_control_plane_nodes; for_each restore_etcd nodes

  -- The error of a node whose upgrade failed, after the rollback if that is enabled.
  unfoldable pub give_up : Node → NodeError → Action NodeError W (Unit {0})
  give_up node e w =
      if not config.rollback_enabled
      then (err (upgrade_failed node.name e), w)
      else let (r, w') = rollback w in
        elim r [
          | ok _ ↦ (err (upgrade_failed node.name e), w')
          | err e' ↦ (err (rollback_failed node.name e e'), w')
        ]

  unfoldable pub upgrade_nodes : Components → List Node → Action NodeError W (Unit {0})
  upgrade_nodes release [] w = (ok tt, w)
  upgrade_nodes release (node ∷ nodes) w =
      let (r, w') = upgrade_node release node w in
      let rest = upgrade_nodes release nodes w' in
      elim r [ ok _ ↦ rest | err e ↦ give_up node e w' ]

  -- The resource that is passed in is compared in every round; without a desired update the
  -- comparison dereferences nil.
  unfoldable pub is_at_version : Versions → Action NodeError W Bool
  is_at_version cv = elim cv.desired_update [
    | none ↦ fail no_desired_update
    | some update ↦ pure (cv.actual_version == update.version)
  ]

  unfoldable pub wait_for_kcp_upgrade : Versions → Action NodeError W (Unit {0})
  wait_for_kcp_upgrade cv = poll 10 600 (is_at_version cv)

  unfoldable pub check_control_plane_nodes_ready : Action NodeError W (Unit {0})
  check_control_plane_nodes_ready = get_control_plane_nodes >>= check_ready

  abbrev pub check_running : List Pod → Action NodeError W (Unit {0})
  check_running pods = elim (first_not_running pods) [
    | some pod ↦ fail (pod_not_running pod.namespace pod.name)
    | none ↦ pure tt
  ]

  unfoldable pub check_control_plane_pods : Action NodeError W (Unit {0})
  check_control_plane_pods = select_pods "kube-system" "tier" "control-plane" >>= check_running

  unfoldable pub check_api_server_health : Action NodeError W (Unit {0})
  check_api_server_health = if not clientset then fail no_clientset else list_namespaces

  unfoldable pub post_upgrade_verification : Action NodeError W (Unit {0})
  post_upgrade_verification = do
    check_control_plane_nodes_ready
    check_etcd_health
    check_control_plane_pods
    check_api_server_health

  unfoldable pub execute_upgrade : Versions → Components → Action NodeError W (Unit {0})
  execute_upgrade cv release = do
    wrap checks_failed pre_upgrade_checks
    backup_before_upgrade
    nodes ← get_control_plane_nodes
    upgrade_nodes release nodes
    when config.wait_for_kcp (wrap kcp_failed (wait_for_kcp_upgrade cv))
    post_upgrade_verification

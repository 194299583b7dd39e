-- ===== src/NodeUpgrade/Worker.antt =====
-- The worker upgrader: `ExecuteUpgrade` of worker_node_upgrader.go, whose nodes go through the
-- batches of the rolling coordinator.
use cluster_api_provider_bar.Prelude.{
  ℕ, Text, Bool, Option, none, some, List, [], ◌∷◌, ◌==◌, string_eq, if◌then◌else◌, Result, ok, err,
  any,
}
use cluster_api_provider_bar.Prelude.Integers.{ℤ, pos}
use cluster_api_provider_bar.Effects.{Action, pure, when, ◌>>=◌, ◌>>◌}
use cluster_api_provider_bar.Conditions.{Node}
use cluster_api_provider_bar.Rolling.{new_rolling_upgrade_coordinator, execute_rolling_upgrade}
use cluster_api_provider_bar.NodeUpgrade.{
  Platform, NodeError, LabelledNode, batch_failed, checks_failed, worker_containerd_upgrade,
  kubelet_upgrade, run_script,
}
use cluster_api_provider_bar.NodeUpgrade.Drain.{
  check_ready, drain_node, uncordon_node, verify_node_upgrade,
}
use cluster_api_provider_bar.NodeUpgrade.Containerd.{
  BinaryComponent, BinaryInstallStrategy, default_install_strategy, or_default, service_of,
}
use cluster_api_provider_bar.NodeUpgrade.ControlPlane.{Components}

pub record WorkerUpgradeConfig : Type 0 where
  pub max_unavailable : ℤ
  pub drain_enabled : Bool
  pub drain_timeout : ℕ

-- The nodes without the label of the control plane.
unfoldable pub worker_nodes : List LabelledNode → List Node
worker_nodes [] = []
worker_nodes (labelled ∷ nodes) =
    if any (λ l. l.0 == "node-role.kubernetes.io/control-plane") labelled.labels
    then worker_nodes nodes
    else labelled.node ∷ worker_nodes nodes

module _ {Conn W : Type 0} (p : Platform Conn W) (config : WorkerUpgradeConfig) where
  open p use {list_nodes}

  unfoldable pub get_worker_nodes : Action NodeError W (List Node)
  get_worker_nodes = do nodes ← list_nodes; pure (worker_nodes nodes)

  unfoldable pub pre_upgrade_checks : Action NodeError W (Unit {0})
  pre_upgrade_checks = get_worker_nodes >>= check_ready

  unfoldable pub upgrade_containerd : BinaryComponent → Node → Action NodeError W (Unit {0})
  upgrade_containerd containerd node =
      let install : BinaryInstallStrategy =
        or_default default_install_strategy containerd.install_strategy in
      run_script p node.name
        (worker_containerd_upgrade (service_of install) install.method containerd.archive)
        (some (or_default 600 install.timeout))

  unfoldable pub upgrade_kubelet : (version : Text) → Node → Action NodeError W (Unit {0})
  upgrade_kubelet version node = run_script p node.name (kubelet_upgrade version) (some 600)

  unfoldable pub upgrade_node : Components → Node → Action NodeError W (Unit {0})
  upgrade_node release node = do
    when config.drain_enabled (drain_node p config.drain_timeout node)
    upgrade_containerd release.containerd node
    upgrade_kubelet release.kubernetes node
    verify_node_upgrade p node
    when config.drain_enabled (uncordon_node p node)

  -- The outcome of the coordinator, whose error carries the number of a batch.
  abbrev pub batch_outcome :
      Option (Result (ℕ × NodeError) (Unit {0}) × W) → Option (Result NodeError (Unit {0}) × W)
  batch_outcome none = none
  batch_outcome (some (ok _, w)) = some (ok tt, w)
  batch_outcome (some (err (i, e), w)) = some (err (batch_failed i e), w)

  unfoldable pub execute_upgrade :
      (schedule : List Node → List Node) → Components → W → Option (Result NodeError (Unit {0}) × W)
  execute_upgrade schedule release w =
      let (checked, w') = pre_upgrade_checks w in
      let (found, w'') = get_worker_nodes w' in
      elim checked [
        | err e ↦ some (err (checks_failed e), w')
        | ok _ ↦ elim found [
          | err e ↦ some (err e, w'')
          | ok [] ↦ some (ok tt, w'')
          | ok (node ∷ nodes) ↦ batch_outcome (
              execute_rolling_upgrade schedule (upgrade_node release)
                (new_rolling_upgrade_coordinator config.max_unavailable (pos 1)) (node ∷ nodes) w'')
        ]
      ]

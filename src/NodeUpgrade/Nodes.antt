-- ===== src/NodeUpgrade/Nodes.antt =====
-- What the upgrade of a control-plane node and of a worker node that succeeds has done.
use cluster_api_provider_bar.Prelude.{◌≡◌, if◌then◌else◌, Text, Bool, ◌||◌, some, string_eq, ok}
use cluster_api_provider_bar.Effects.{Action, pure, fail, when, ◌>>◌, >>=-eq-ok}
use cluster_api_provider_bar.Effects.Later.{Later, here, trans, Moves, bind-Later}
use cluster_api_provider_bar.Conditions.{Node}
use cluster_api_provider_bar.NodeUpgrade.{
  Platform, NodeError, worker_containerd_upgrade, kubelet_upgrade, node_not_ready,
}
use cluster_api_provider_bar.NodeUpgrade.Drain.{
  reports_not_ready, drain_node, uncordon_node, verify_node_upgrade,
}
use cluster_api_provider_bar.NodeUpgrade.Moves.{
  Step, test-Moves, run_script-Moves, execute_component_hooks-Moves, upgrade_cni-Moves,
  upgrade_csi-Moves,
}
use cluster_api_provider_bar.NodeUpgrade.Containerd.{
  BinaryComponent, or_default, service_of, execute_component_hooks, upgrade_containerd,
}
use cluster_api_provider_bar.NodeUpgrade.Workloads.{upgrade_cni, upgrade_csi}
use cluster_api_provider_bar.NodeUpgrade.ControlPlane.{
  ControlPlaneUpgradeConfig, Components, wants_drain, upgrade_node,
}
use cluster_api_provider_bar.NodeUpgrade.Worker as Worker
use cluster_api_provider_bar.NodeUpgrade.Scripts.{
  Ran, Ran-Later, SeenReady, install_of, script_of, run_script-Ran, verify_node_upgrade-SeenReady,
  upgrade_containerd-Ran,
}

module _ {Conn W : Type 0} (p : Platform Conn W) where
  verify-Later :
      (node : Node) (w : W)
      → Later (Step p) (p.get_node node.name w).1 (verify_node_upgrade p node w).1
  unfolding verify_node_upgrade
  verify-Later node w =
      bind-Later (Step p) (p.get_node node.name)
        (λ updated.
          if reports_not_ready updated.conditions then fail (node_not_ready node.name) else pure tt)
        w
        (λ updated.
          test-Moves p (reports_not_ready updated.conditions) (fail (node_not_ready node.name))
            (pure tt) (λ w. here) (λ w. here))

  -- A control-plane node whose upgrade succeeds has run the containerd script for the version of the
  -- release to an exit with zero; at a later moment its node was read without a Ready condition that
  -- is not True; and at a moment after that it is uncordoned with success, if the configuration or the
  -- strategy asks for a drain. Moments are worlds, and the later ones are reached from the earlier by
  -- operations of the platform.
  pub upgrade_node-Ran :
      (config : ControlPlaneUpgradeConfig) (release : Components) (node : Node) (w : W)
      → (upgrade_node p config release node w).0 ≡ ok tt
      → (v : W) × Ran p node.name (script_of p release.containerd) v
        × SeenReady p node v
        × (w' : W) × Later (Step p) (p.get_node node.name v).1 w'
        × ((when
              (config.drain_enabled || wants_drain release.containerd)
              (uncordon_node p node)
              w').0
            ≡ ok tt)
  unfolding upgrade_node
  upgrade_node-Ran config release node w h =
      let c = release.containerd in
      let drains : Bool = config.drain_enabled || wants_drain c in
      let uncordons : Action NodeError W (Unit {0}) = when drains (uncordon_node p node) in
      let verified : Action NodeError W (Unit {0}) = verify_node_upgrade p node >> uncordons in
      let with_csi : Action NodeError W (Unit {0}) = upgrade_csi p release.addons >> verified in
      let with_cni : Action NodeError W (Unit {0}) = upgrade_cni p release.addons >> with_csi in
      let hooked : Action NodeError W (Unit {0}) =
        execute_component_hooks p node c.post_hooks >> with_cni in
      let upgraded : Action NodeError W (Unit {0}) =
        upgrade_containerd p config.drain_timeout node c >> hooked in
      let drained : Action NodeError W (Unit {0}) =
        when drains (drain_node p config.drain_timeout node) in
      let pre : Action NodeError W (Unit {0}) = execute_component_hooks p node c.pre_hooks in
      let (_, _, h1) = >>=-eq-ok pre (λ _. drained >> upgraded) w h in
      let w1 = (pre w).1 in
      let (_, _, h2) = >>=-eq-ok drained (λ _. upgraded) w1 h1 in
      let w2 = (drained w1).1 in
      let (_, ran, h3) =
        >>=-eq-ok (upgrade_containerd p config.drain_timeout node c) (λ _. hooked) w2 h2 in
      let w3 = (upgrade_containerd p config.drain_timeout node c w2).1 in
      let (_, _, h4) =
        >>=-eq-ok (execute_component_hooks p node c.post_hooks) (λ _. with_cni) w3 h3 in
      let w4 = (execute_component_hooks p node c.post_hooks w3).1 in
      let (_, _, h5) = >>=-eq-ok (upgrade_cni p release.addons) (λ _. with_csi) w4 h4 in
      let w5 = (upgrade_cni p release.addons w4).1 in
      let (_, _, h6) = >>=-eq-ok (upgrade_csi p release.addons) (λ _. verified) w5 h5 in
      let w6 = (upgrade_csi p release.addons w5).1 in
      let (_, seen, h7) = >>=-eq-ok (verify_node_upgrade p node) (λ _. uncordons) w6 h6 in
      (
        w6,
        Ran-Later p node.name (script_of p c) w3 w6
            (upgrade_containerd-Ran p config.drain_timeout node c w2 ran)
            (trans (execute_component_hooks-Moves p node c.post_hooks w3) (
              trans (upgrade_cni-Moves p release.addons w4)
                (upgrade_csi-Moves p release.addons w5))),
        verify_node_upgrade-SeenReady p node w6 seen,
        (verify_node_upgrade p node w6).1,
        verify-Later node w6,
        h7,
      )

  worker_containerd-Ran :
      (config : Worker.WorkerUpgradeConfig) (c : BinaryComponent) (node : Node) (w : W)
      → (Worker.upgrade_containerd p config c node w).0 ≡ ok tt
      → Ran p node.name
          (worker_containerd_upgrade
            (service_of (install_of p c))
            (install_of p c).method
            c.archive)
          (Worker.upgrade_containerd p config c node w).1
  unfolding Worker.upgrade_containerd
  worker_containerd-Ran config c node w h =
      run_script-Ran p node.name
        (worker_containerd_upgrade (service_of (install_of p c)) (install_of p c).method c.archive)
        (some (or_default 600 (install_of p c).timeout)) w h

  worker_kubelet-Ran :
      (config : Worker.WorkerUpgradeConfig) (version : Text) (node : Node) (w : W)
      → (Worker.upgrade_kubelet p config version node w).0 ≡ ok tt
      → Ran p node.name (kubelet_upgrade version) (Worker.upgrade_kubelet p config version node w).1
  unfolding Worker.upgrade_kubelet
  worker_kubelet-Ran config version node w h =
      run_script-Ran p node.name (kubelet_upgrade version) (some 600) w h

  worker_kubelet-Moves :
      (config : Worker.WorkerUpgradeConfig) (version : Text) (node : Node)
      → Moves (Step p) (Worker.upgrade_kubelet p config version node)
  unfolding Worker.upgrade_kubelet
  worker_kubelet-Moves config version node =
      run_script-Moves p node.name (kubelet_upgrade version) (some 600)

  -- A worker node whose upgrade succeeds has run the containerd script and the kubelet script for
  -- the version of the release to an exit with zero, and at a later moment its node was read without
  -- a Ready condition that is not True.
  pub worker_upgrade_node-Ran :
      (config : Worker.WorkerUpgradeConfig) (release : Components) (node : Node) (w : W)
      → (Worker.upgrade_node p config release node w).0 ≡ ok tt
      → (v : W) × Ran p node.name
          (worker_containerd_upgrade
            (service_of (install_of p release.containerd))
            (install_of p release.containerd).method
            release.containerd.archive)
          v
        × Ran p node.name (kubelet_upgrade release.kubernetes) v
        × SeenReady p node v
  unfolding Worker.upgrade_node
  worker_upgrade_node-Ran config release node w h =
      let c = release.containerd in
      let uncordons : Action NodeError W (Unit {0}) =
        when config.drain_enabled (uncordon_node p node) in
      let verified : Action NodeError W (Unit {0}) = verify_node_upgrade p node >> uncordons in
      let kubelet : Action NodeError W (Unit {0}) =
        Worker.upgrade_kubelet p config release.kubernetes node in
      let containerd : Action NodeError W (Unit {0}) = Worker.upgrade_containerd p config c node in
      let drained : Action NodeError W (Unit {0}) =
        when config.drain_enabled (drain_node p config.drain_timeout node) in
      let (_, _, h1) = >>=-eq-ok drained (λ _. containerd >> (kubelet >> verified)) w h in
      let w1 = (drained w).1 in
      let (_, ran, h2) = >>=-eq-ok containerd (λ _. kubelet >> verified) w1 h1 in
      let w2 = (containerd w1).1 in
      let (_, also, h3) = >>=-eq-ok kubelet (λ _. verified) w2 h2 in
      let w3 = (kubelet w2).1 in
      let (_, seen, _) = >>=-eq-ok (verify_node_upgrade p node) (λ _. uncordons) w3 h3 in
      (
        w3,
        Ran-Later p node.name _ w2 w3 (worker_containerd-Ran config c node w1 ran)
            (worker_kubelet-Moves config release.kubernetes node w2),
        worker_kubelet-Ran config release.kubernetes node w2 also,
        verify_node_upgrade-SeenReady p node w3 seen,
      )

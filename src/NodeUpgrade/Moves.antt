-- ===== src/NodeUpgrade/Moves.antt =====
-- The order of an upgrade in time: which worlds the operations of the platform lead to, and that the
-- steps on a node lead to no others.
use cluster_api_provider_bar.Prelude.{
  ℕ, zero, suc, true, false, ◌⊎◌, sym, subst, ◌≡◌, refl, String, Bool, Option, some, List, [], ◌∷◌,
  ◌==◌, string_eq, if◌then◌else◌, Result, ok, err, not, inl, inr, arith,
}
use cluster_api_provider_bar.Effects.{Action, ◌>>◌, for_each}
use cluster_api_provider_bar.Effects.Later.{
  Later, here, next, trans, once, Moves, bind-Moves, then-Moves, for_each-Moves,
}
use cluster_api_provider_bar.Api.{AddonHook}
use cluster_api_provider_bar.Conditions.{Node}
use cluster_api_provider_bar.NodeUpgrade.{
  Platform, NodeError, Script, Pod, Workload, containerd_upgrade, check_exit, with_connection,
  run_script,
}
use cluster_api_provider_bar.NodeUpgrade.Drain.{
  reports_not_ready, evict_pod, is_drained, drain_node, uncordon_node, verify_node_upgrade,
}
use cluster_api_provider_bar.NodeUpgrade.Containerd.{
  BinaryComponent, execute_hook_on_node, execute_component_hooks, upgrade_containerd_rolling,
  upgrade_containerd_drain_and_upgrade, upgrade_containerd_parallel, or_default,
  default_upgrade_strategy, default_install_strategy, service_of, upgrade_containerd,
}
use cluster_api_provider_bar.NodeUpgrade.Workloads.{
  AddonVersion, is_cni, is_csi, upgrade_cni_addon, upgrade_cni, upgrade_csi_addon, upgrade_csi,
}

-- What one operation of the platform makes of a world.
pub data Step {Conn W : Type 0} (p : Platform Conn W) : W → W → Type 0 where
  connects : (host : String) (w : W) → Step p w (p.connect host w).1
  closes : (conn : Conn) (w : W) → Step p w (p.close conn w)
  executes :
      (conn : Conn) (script : Script) (timeout : Option ℕ) (w : W)
      → Step p w (p.execute_script conn script timeout w).1
  lists_nodes : (w : W) → Step p w (p.list_nodes w).1
  selects_nodes : (label value : String) (w : W) → Step p w (p.select_nodes label value w).1
  gets_node : (name : String) (w : W) → Step p w (p.get_node name w).1
  lists_pods : (node : String) (w : W) → Step p w (p.pods_on node w).1
  selects_pods :
      (namespace label value : String) (w : W) → Step p w (p.select_pods namespace label value w).1
  evicts : (namespace pod : String) (w : W) → Step p w (p.evict namespace pod w).1
  uncordons : (node : String) (w : W) → Step p w (p.uncordon node w).1
  lists_daemon_sets : (namespace : String) (w : W) → Step p w (p.daemon_sets namespace w).1
  lists_deployments : (namespace : String) (w : W) → Step p w (p.deployments namespace w).1
  patches_daemon_set : (workload : Workload) (w : W) → Step p w (p.patch_daemon_set workload w).1
  patches_deployment : (workload : Workload) (w : W) → Step p w (p.patch_deployment workload w).1
  lists_namespaces : (w : W) → Step p w (p.list_namespaces w).1
  polls :
      (interval timeout : ℕ) (condition : Action NodeError W Bool) (w : W)
      → Step p w (p.poll interval timeout condition w).1

module _ {Conn W : Type 0} (p : Platform Conn W) where
  pub test-Moves :
      {A : Type 0} (c : Bool) (m n : Action NodeError W A)
      → Moves (Step p) m
      → Moves (Step p) n
      → Moves (Step p) (if c then m else n)
  test-Moves true m n a b = a
  test-Moves false m n a b = b

  pub with_connection-Moves :
      {A : Type 0} (host : String) (body : Conn → Action NodeError W A)
      → ((conn : Conn) → Moves (Step p) (body conn))
      → Moves (Step p) (with_connection p host body)
  unfolding with_connection
  with_connection-Moves {A} host body moves w = split (p.connect host w).0 refl
    where
      connected : Later (Step p) w (p.connect host w).1
      connected = once (connects host w)

      split :
          (r : Result NodeError Conn)
          → (p.connect host w).0 ≡ r
          → Later (Step p) w (with_connection p host body w).1
      split (err e) same = rw (same, with_connection) connected
      split (ok conn) same =
          rw (same, with_connection)
            (next (trans connected (moves conn (p.connect host w).1)) (closes conn _))

  pub check_exit-Moves : (code : ℕ) → Moves (Step p) (check_exit p code)
  check_exit-Moves zero w = here
  check_exit-Moves (suc code) w = here

  pub run_script-Moves :
      (host : String) (script : Script) (timeout : Option ℕ)
      → Moves (Step p) (run_script p host script timeout)
  unfolding run_script
  run_script-Moves host script timeout = with_connection-Moves host _ (λ conn.
      bind-Moves (Step p) (p.execute_script conn script timeout) (check_exit p)
        (λ w. once (executes conn script timeout w)) check_exit-Moves)

  -- A world that is the same, or one step away.
  stays_or_steps : {u v v' : W} → (v ≡ u) ⊎ (v ≡ v') → Step p u v' → Later (Step p) u v
  stays_or_steps {u} (inl same) s = subst (Later (Step p) u) (sym same) here
  stays_or_steps {u} (inr same) s = subst (Later (Step p) u) (sym same) (once s)

  evict_pod_world :
      (pod : Pod) (w : W)
      → ((evict_pod p pod w).1 ≡ w) ⊎ ((evict_pod p pod w).1 ≡ (p.evict pod.namespace pod.name w).1)
  unfolding evict_pod
  evict_pod_world pod w = ground arith

  pub evict_pod-Moves : (pod : Pod) → Moves (Step p) (evict_pod p pod)
  evict_pod-Moves pod w = stays_or_steps (evict_pod_world pod w) (evicts pod.namespace pod.name w)

  pub drain_node-Moves : (timeout : ℕ) (node : Node) → Moves (Step p) (drain_node p timeout node)
  unfolding drain_node
  drain_node-Moves timeout node =
      test-Moves (not p.clientset) _ _ (λ w. here)
        (bind-Moves (Step p) (p.pods_on node.name) _ (λ w. once (lists_pods node.name w))
          (λ pods.
            then-Moves (Step p) (for_each (evict_pod p) pods) _
              (for_each-Moves (Step p) (evict_pod p) pods evict_pod-Moves)
              (λ w. once (polls 5 timeout (is_drained p node) w))))

  pub uncordon_node-Moves : (node : Node) → Moves (Step p) (uncordon_node p node)
  unfolding uncordon_node
  uncordon_node-Moves node =
      test-Moves (not p.clientset) _ _ (λ w. here) (λ w. once (uncordons node.name w))

  pub verify_node_upgrade-Moves : (node : Node) → Moves (Step p) (verify_node_upgrade p node)
  unfolding verify_node_upgrade
  verify_node_upgrade-Moves node =
      bind-Moves (Step p) (p.get_node node.name) _ (λ w. once (gets_node node.name w))
        (λ updated. test-Moves (reports_not_ready updated.conditions) _ _ (λ w. here) (λ w. here))

  execute_hook_on_node-Moves :
      (node : Node) (hook : AddonHook) → Moves (Step p) (execute_hook_on_node p node hook)
  unfolding execute_hook_on_node
  execute_hook_on_node-Moves node hook = run_script-Moves node.name _ _

  execute_component_hooks_world :
      (node : Node) (hook : AddonHook) (hooks : List AddonHook) (w : W)
      → let w' = (execute_hook_on_node p node hook w).1 in
        ((execute_component_hooks p node (hook ∷ hooks) w).1 ≡ w')
        ⊎ ((execute_component_hooks p node (hook ∷ hooks) w).1
            ≡ (execute_component_hooks p node hooks w').1)
  unfolding execute_component_hooks
  execute_component_hooks_world node hook hooks w = ground arith

  pub execute_component_hooks-Moves :
      (node : Node) (hooks : List AddonHook) → Moves (Step p) (execute_component_hooks p node hooks)
  unfolding execute_component_hooks
  execute_component_hooks-Moves node [] w = here
  execute_component_hooks-Moves node (hook ∷ hooks) w =
      let w' = (execute_hook_on_node p node hook w).1 in
      let first = execute_hook_on_node-Moves node hook w in
      let rest = execute_component_hooks-Moves node hooks w' in
      elim (execute_component_hooks_world node hook hooks w) [
        | inl same ↦ subst (Later (Step p) w) (sym same) first
        | inr same ↦ subst (Later (Step p) w) (sym same) (trans first rest)
      ]

  pub upgrade_containerd-Moves :
      (drain_timeout : ℕ) (node : Node) (c : BinaryComponent)
      → Moves (Step p) (upgrade_containerd p drain_timeout node c)
  unfolding upgrade_containerd upgrade_containerd_parallel upgrade_containerd_rolling
      upgrade_containerd_drain_and_upgrade
  upgrade_containerd-Moves drain_timeout node c =
      let strategy = or_default default_upgrade_strategy c.upgrade_strategy in
      let install = or_default default_install_strategy c.install_strategy in
      let roll : Action NodeError W (Unit {0}) =
        upgrade_containerd_rolling p node c strategy install in
      let rolls : Moves (Step p) roll =
        run_script-Moves node.name
          (containerd_upgrade (service_of install) c.version install.method c.archive)
          (some (or_default 600 strategy.timeout)) in
      let drain : Action NodeError W (Unit {0}) = drain_node p drain_timeout node in
      test-Moves (strategy.type == "Rolling") roll _ rolls (
        test-Moves (strategy.type == "DrainAndUpgrade") (drain >> roll) _
          (then-Moves (Step p) drain roll (drain_node-Moves drain_timeout node) rolls)
          (test-Moves (strategy.type == "Parallel") roll roll rolls rolls))

  upgrade_cni_addon-Moves : (addon : AddonVersion) → Moves (Step p) (upgrade_cni_addon p addon)
  unfolding upgrade_cni_addon
  upgrade_cni_addon-Moves addon =
      test-Moves (not (is_cni addon)) _ _ (λ w. here)
        (bind-Moves (Step p) (p.daemon_sets addon.namespace) _
          (λ w. once (lists_daemon_sets addon.namespace w))
          (λ workloads. for_each-Moves (Step p) _ workloads (λ d w. once (patches_daemon_set _ w))))

  upgrade_csi_addon-Moves : (addon : AddonVersion) → Moves (Step p) (upgrade_csi_addon p addon)
  unfolding upgrade_csi_addon
  upgrade_csi_addon-Moves addon =
      test-Moves (not (is_csi addon)) _ _ (λ w. here)
        (bind-Moves (Step p) (p.deployments addon.namespace) _
          (λ w. once (lists_deployments addon.namespace w))
          (λ workloads. for_each-Moves (Step p) _ workloads (λ d w. once (patches_deployment _ w))))

  pub upgrade_cni-Moves : (addons : List AddonVersion) → Moves (Step p) (upgrade_cni p addons)
  unfolding upgrade_cni
  upgrade_cni-Moves addons =
      for_each-Moves (Step p) (upgrade_cni_addon p) addons upgrade_cni_addon-Moves

  pub upgrade_csi-Moves : (addons : List AddonVersion) → Moves (Step p) (upgrade_csi p addons)
  unfolding upgrade_csi
  upgrade_csi-Moves addons =
      for_each-Moves (Step p) (upgrade_csi_addon p) addons upgrade_csi_addon-Moves

  -- What a polling wait promises: if it succeeds, the condition held in some round, at a moment after
  -- the wait began.
  abbrev pub PollHolds : Type 0
  PollHolds =
      (interval timeout : ℕ) (condition : Action NodeError W Bool) (w : W)
      → (p.poll interval timeout condition w).0 ≡ ok tt
      → (w' : W) × Later (Step p) w w' × ((condition w').0 ≡ ok true)

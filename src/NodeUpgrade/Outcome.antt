-- ===== src/NodeUpgrade/Outcome.antt =====
-- What an upgrade of the control plane that succeeds has done.
use cluster_api_provider_bar.Prelude.{
  ◌≡◌, Bool, true, ◌||◌, none, some, List, [], ◌∷◌, ==_iff, text_eq, arith, ok, In, inl, inr, subst,
  ap, sym, ◌∙◌, Option-cases,
}
use cluster_api_provider_bar.Effects.{Action, when, wrap, ◌>>=◌, ◌>>◌, >>=-eq-ok, err-ne-ok}
use cluster_api_provider_bar.Effects.Later.{
  Later, here, trans, once, Moves, bind-Moves, then-Moves, when-Moves, wrap-Moves, for_each-Moves,
}
use cluster_api_provider_bar.Api.{Update}
use cluster_api_provider_bar.Conditions.{Node}
use cluster_api_provider_bar.NodeUpgrade.{
  Platform, NodeError, checks_failed, kcp_failed, backup_failed, etcd_backup,
}
use cluster_api_provider_bar.NodeUpgrade.Moves.{
  Step, polls, run_script-Moves, drain_node-Moves, uncordon_node-Moves, verify_node_upgrade-Moves,
  execute_component_hooks-Moves, upgrade_containerd-Moves, upgrade_cni-Moves, upgrade_csi-Moves,
  PollHolds,
}
use cluster_api_provider_bar.NodeUpgrade.Drain.{drain_node, uncordon_node, verify_node_upgrade}
use cluster_api_provider_bar.NodeUpgrade.Containerd.{execute_component_hooks, upgrade_containerd}
use cluster_api_provider_bar.NodeUpgrade.Workloads.{upgrade_cni, upgrade_csi}
use cluster_api_provider_bar.NodeUpgrade.ControlPlane.{
  ControlPlaneUpgradeConfig, Components, Versions, get_control_plane_nodes, pre_upgrade_checks,
  backup_etcd, wants_drain, backup_before_upgrade, upgrade_node, upgrade_nodes, is_at_version,
  wait_for_kcp_upgrade, post_upgrade_verification, execute_upgrade,
}
use cluster_api_provider_bar.NodeUpgrade.Checks.{
  wrap-eq-ok, wrap_world, when-eq-ok, SeenHealthy, pre_upgrade_checks-SeenHealthy,
  get_control_plane_nodes-Moves,
}
use cluster_api_provider_bar.NodeUpgrade.Failures.{upgrade_nodes_first}

module _ {Conn W : Type 0} (p : Platform Conn W) (config : ControlPlaneUpgradeConfig) where
  -- Between the moments `v` and `v'` the upgrade of the node succeeded.
  abbrev pub Upgraded : Components → W → W → Node → Type 0
  Upgraded release v v' node =
      (w : W) × Later (Step p) v w
      × ((upgrade_node p config release node w).0 ≡ ok tt)
      × Later (Step p) (upgrade_node p config release node w).1 v'

  upgrade_node-Moves :
      (release : Components) (node : Node) → Moves (Step p) (upgrade_node p config release node)
  unfolding upgrade_node
  upgrade_node-Moves release node =
      let c = release.containerd in
      let drains : Bool = config.drain_enabled || wants_drain c in
      let uncordons : Action NodeError W (Unit {0}) = when drains (uncordon_node p node) in
      let verify : Action NodeError W (Unit {0}) = verify_node_upgrade p node in
      let csi : Action NodeError W (Unit {0}) = upgrade_csi p release.addons in
      let cni : Action NodeError W (Unit {0}) = upgrade_cni p release.addons in
      let post : Action NodeError W (Unit {0}) = execute_component_hooks p node c.post_hooks in
      let install : Action NodeError W (Unit {0}) =
        upgrade_containerd p config.drain_timeout node c in
      let drain : Action NodeError W (Unit {0}) =
        when drains (drain_node p config.drain_timeout node) in
      let pre : Action NodeError W (Unit {0}) = execute_component_hooks p node c.pre_hooks in
      let m5 =
        then-Moves (Step p) verify uncordons (verify_node_upgrade-Moves p node)
          (when-Moves (Step p) drains (uncordon_node p node) (uncordon_node-Moves p node)) in
      let m4 =
        then-Moves (Step p) csi (verify >> uncordons) (upgrade_csi-Moves p release.addons) m5 in
      let m3 =
        then-Moves (Step p) cni (csi >> (verify >> uncordons)) (upgrade_cni-Moves p release.addons)
          m4 in
      let m2 =
        then-Moves (Step p) post (cni >> (csi >> (verify >> uncordons)))
          (execute_component_hooks-Moves p node c.post_hooks) m3 in
      let m1 =
        then-Moves (Step p) install (post >> (cni >> (csi >> (verify >> uncordons))))
          (upgrade_containerd-Moves p config.drain_timeout node c) m2 in
      let m0 =
        then-Moves (Step p) drain (install >> (post >> (cni >> (csi >> (verify >> uncordons)))))
          (when-Moves (Step p) drains (drain_node p config.drain_timeout node)
            (drain_node-Moves p config.drain_timeout node))
          m1 in
      then-Moves (Step p) pre
        (drain >> (install >> (post >> (cni >> (csi >> (verify >> uncordons))))))
        (execute_component_hooks-Moves p node c.pre_hooks) m0

  -- The nodes of an upgrade that succeeds are upgraded between its start and its end.
  upgrade_nodes-Upgraded :
      (release : Components) (nodes : List Node) (w : W)
      → (upgrade_nodes p config release nodes w).0 ≡ ok tt
      → Later (Step p) w (upgrade_nodes p config release nodes w).1
        × ((node : Node)
            → In node nodes
            → Upgraded release w (upgrade_nodes p config release nodes w).1 node)
  unfolding upgrade_nodes
  upgrade_nodes-Upgraded release [] w h = (here, λ node i. absurd i)
  upgrade_nodes-Upgraded release (x ∷ nodes) w h =
      let (first, rest) = upgrade_nodes_first p config release x nodes w h in
      let w' = (upgrade_node p config release x w).1 in
      let (ends, all) = upgrade_nodes-Upgraded release nodes w' (ap (λ r. r.0) (sym rest) ∙ h) in
      let v' = (upgrade_nodes p config release (x ∷ nodes) w).1 in
      let starts = upgrade_node-Moves release x w in
      let same : (upgrade_nodes p config release nodes w').1 ≡ v' = ap (λ r. r.1) (sym rest) in
      let over : Later (Step p) w' v' = subst (Later (Step p) w') same ends in
      (
        trans starts over,
        λ node i. elim i [
          | inl is_first ↦ subst (Upgraded release w v') is_first (w, here, first, over)
          | inr later ↦
              let (u, from, did, to) = all node later in
              (u, trans starts from, did, subst (Later (Step p) _) same to)
        ],
      )

  -- A wait for the versions to be equal that succeeds has found them equal at the start: the resource
  -- that is compared does not change.
  at_version :
      PollHolds p
      → (cv : Versions) (w : W) → (wait_for_kcp_upgrade p config cv w).0 ≡ ok tt
      → (update : Update) × (cv.desired_update ≡ some update) × (cv.actual_version ≡ update.version)
  unfolding wait_for_kcp_upgrade is_at_version
  at_version holds cv w h =
      let (w', _, met) = holds 10 600 (is_at_version p config cv) w h in
      elim (Option-cases cv.desired_update) [
        | inl lacks ↦ absurd (err-ne-ok (rw (lacks) at met))
        | inr (update, given) ↦ (
          update,
          given,
          (==_iff cv.actual_version update.version).0 (ground (arith, given, met)),
        )
      ]

  backup_before_upgrade-Moves : Moves (Step p) (backup_before_upgrade p config)
  unfolding backup_before_upgrade backup_etcd
  backup_before_upgrade-Moves = when-Moves (Step p) config.etcd_backup_enabled _ (
      bind-Moves (Step p) (get_control_plane_nodes p config) _
        (get_control_plane_nodes-Moves p config)
        (λ nodes. for_each-Moves (Step p) _ nodes (λ node.
          wrap-Moves (Step p) (backup_failed node.name) (backup_etcd p config node)
            (run_script-Moves p node.name etcd_backup none))))

  kcp-Moves :
      (cv : Versions)
      → Moves
          (Step p)
          (when config.wait_for_kcp (wrap kcp_failed (wait_for_kcp_upgrade p config cv)))
  unfolding wait_for_kcp_upgrade
  kcp-Moves cv = when-Moves (Step p) config.wait_for_kcp _ (
      wrap-Moves (Step p) kcp_failed (wait_for_kcp_upgrade p config cv)
        (λ w. once (polls 10 600 (is_at_version p config cv) w)))

  checked_seen :
      (w : W)
      → (wrap checks_failed (pre_upgrade_checks p config) w).0 ≡ ok tt
      → SeenHealthy p config w (wrap checks_failed (pre_upgrade_checks p config) w).1
  checked_seen w h =
      let passed = wrap-eq-ok checks_failed (pre_upgrade_checks p config) w h in
      subst (SeenHealthy p config w)
        (sym (wrap_world checks_failed (pre_upgrade_checks p config) w))
        (pre_upgrade_checks-SeenHealthy p config w passed)

  -- An upgrade of the control plane that succeeds lists the nodes at its start and finds all ready, and
  -- then at least three control-plane nodes; at a later moment it lists the control-plane nodes, after
  -- that the upgrade of each of these succeeds, and at a moment after all of these upgrades the final
  -- checks start and succeed. If it waits for KCP, and a polling wait that succeeds has seen its
  -- condition hold, then the version was the desired one from the start. Moments are worlds, and the
  -- later ones are reached from the earlier by operations of the platform.
  pub execute_upgrade-Upgraded :
      PollHolds p
      → (cv : Versions) (release : Components) (w : W)
      → (execute_upgrade p config cv release w).0 ≡ ok tt
      → (w' : W) × SeenHealthy p config w w'
        × (nodes : List Node) × ((get_control_plane_nodes p config w').0 ≡ ok nodes)
        × (w'' : W) × ((node : Node)
            → In node nodes
            → Upgraded release (get_control_plane_nodes p config w').1 w'' node)
        × (config.wait_for_kcp ≡ true
            → (update : Update) × (cv.desired_update ≡ some update)
              × (cv.actual_version ≡ update.version))
        × ((post_upgrade_verification p config w'').0 ≡ ok tt)
  unfolding execute_upgrade
  execute_upgrade-Upgraded holds cv release w h =
      let final : Action NodeError W (Unit {0}) = post_upgrade_verification p config in
      let kcp : Action NodeError W (Unit {0}) =
        when config.wait_for_kcp (wrap kcp_failed (wait_for_kcp_upgrade p config cv)) in
      let all_nodes : List Node → Action NodeError W (Unit {0}) =
        λ nodes. upgrade_nodes p config release nodes >> (kcp >> final) in
      let checks : Action NodeError W (Unit {0}) =
        wrap checks_failed (pre_upgrade_checks p config) in
      let (_, checked, h1) =
        >>=-eq-ok checks
          (λ _. backup_before_upgrade p config >> (get_control_plane_nodes p config >>= all_nodes))
          w h in
      let w1 = (checks w).1 in
      let (_, _, h2) =
        >>=-eq-ok (backup_before_upgrade p config)
          (λ _. get_control_plane_nodes p config >>= all_nodes) w1 h1 in
      let w2 = (backup_before_upgrade p config w1).1 in
      let (nodes, listed, h3) = >>=-eq-ok (get_control_plane_nodes p config) all_nodes w2 h2 in
      let w3 = (get_control_plane_nodes p config w2).1 in
      let (_, upgraded, h4) =
        >>=-eq-ok (upgrade_nodes p config release nodes) (λ _. kcp >> final) w3 h3 in
      let w4 = (upgrade_nodes p config release nodes w3).1 in
      let (_, waited, h5) = >>=-eq-ok kcp (λ _. final) w4 h4 in
      let w5 = (kcp w4).1 in
      let (began, seen) : Later (Step p) w1 w2 × SeenHealthy p config w w1 =
        (backup_before_upgrade-Moves w1, checked_seen w checked) in
      let kcp_moves : Later (Step p) w4 w5 = kcp-Moves cv w4 in
      let (_, all) = upgrade_nodes-Upgraded release nodes w3 upgraded in
      let (listed_all, got, ready, v, masters, found, enough, l) = seen in
      (
        w2,
        (listed_all, got, ready, v, masters, found, enough, trans l began),
        nodes,
        listed,
        w5,
        λ node i. let (u, from, did, to) = all node i in (u, from, did, trans to kcp_moves),
        λ waits. at_version holds cv w4 (
            wrap-eq-ok kcp_failed (wait_for_kcp_upgrade p config cv) w4 (
              when-eq-ok config.wait_for_kcp (wrap kcp_failed (wait_for_kcp_upgrade p config cv)) w4
                waits waited)),
        h5,
      )

-- ===== src/NodeUpgrade/Failures.antt =====
-- What an upgrade of a control-plane node that fails leaves.
use cluster_api_provider_bar.Prelude.{
  ◌≡◌, ◌≢◌, refl, true, false, none, ◌⊎◌, List, [], ◌∷◌, ◌++◌, text_eq, arith, Result, ok, err, In,
  inl, inr, subst, ap, sym, ◌∙◌,
}
use cluster_api_provider_bar.Effects.{>>=-eq-ok, for_each}
use cluster_api_provider_bar.Effects.Later.{for_each-Later}
use cluster_api_provider_bar.Conditions.{Node}
use cluster_api_provider_bar.NodeUpgrade.{
  Platform, NodeError, upgrade_failed, rollback_failed, etcd_restore,
}
use cluster_api_provider_bar.NodeUpgrade.Moves.{Step, run_script-Moves}
use cluster_api_provider_bar.NodeUpgrade.Scripts.{Ran, Ran-Later, run_script-Ran}
use cluster_api_provider_bar.NodeUpgrade.ControlPlane.{
  ControlPlaneUpgradeConfig, Components, get_control_plane_nodes, restore_etcd, rollback,
  upgrade_node, give_up, upgrade_nodes,
}

module _ {Conn W : Type 0} (p : Platform Conn W) (config : ControlPlaneUpgradeConfig) where
  -- Giving up on a node is an error, whether the rollback succeeds or not.
  give_up-ne-ok : (node : Node) (e : NodeError) (w : W) → (give_up p config node e w).0 ≢ ok tt
  unfolding give_up
  give_up-ne-ok node e w h = ground (arith, h)

  -- The first node of an upgrade that succeeds is upgraded, and the rest is what follows.
  pub upgrade_nodes_first :
      (release : Components) (node : Node) (nodes : List Node) (w : W)
      → (upgrade_nodes p config release (node ∷ nodes) w).0 ≡ ok tt
      → ((upgrade_node p config release node w).0 ≡ ok tt)
        × (upgrade_nodes p config release (node ∷ nodes) w
            ≡ upgrade_nodes p config release nodes (upgrade_node p config release node w).1)
  unfolding upgrade_nodes
  upgrade_nodes_first release node nodes w h = split (upgrade_node p config release node w).0 refl
    where
      split :
          (r : Result NodeError (Unit {0}))
          → (upgrade_node p config release node w).0 ≡ r
          → ((upgrade_node p config release node w).0 ≡ ok tt)
            × (upgrade_nodes p config release (node ∷ nodes) w
                ≡ upgrade_nodes p config release nodes (upgrade_node p config release node w).1)
      split (ok _) same = (same, rw (same, upgrade_nodes) refl)
      split (err e) same = absurd (
          give_up-ne-ok node e (upgrade_node p config release node w).1
            (rw (same, upgrade_nodes) at h))

  -- Every control-plane node that was listed at the moment `w` has restored its etcd with success
  -- before the moment `v`.
  abbrev pub RestoredAll : W → W → Type 0
  RestoredAll w v =
      (nodes : List Node) × ((get_control_plane_nodes p config w).0 ≡ ok nodes)
      × ((node : Node) → In node nodes → Ran p node.name etcd_restore v)

  rollback-RestoredAll :
      (w : W) → (rollback p config w).0 ≡ ok tt → RestoredAll w (rollback p config w).1
  unfolding rollback restore_etcd
  rollback-RestoredAll w h =
      let (nodes, listed, restored) =
        >>=-eq-ok (get_control_plane_nodes p config) (for_each (restore_etcd p config)) w h in
      let w' = (get_control_plane_nodes p config w).1 in
      (
        nodes,
        listed,
        λ node i.
            let (u, ran, l) =
              for_each-Later (Step p) (restore_etcd p config) nodes w' node
                (λ n. run_script-Moves p n.name etcd_restore none) restored i in
            Ran-Later p node.name etcd_restore _ _
              (run_script-Ran p node.name etcd_restore none u ran) (rw listed l),
      )

  -- What the failure of an upgrade with the error `e` at the moment `w` leaves: without a rollback
  -- nothing else happens, and with it etcd is restored on all nodes or the rollback's error is told too.
  abbrev pub RolledBack : Node → NodeError → W → Result NodeError (Unit {0}) × W → Type 0
  RolledBack node e w (r, v) =
      (config.rollback_enabled ≡ false → (r ≡ err (upgrade_failed node.name e)) × (v ≡ w))
      × (config.rollback_enabled ≡ true
          → ((r ≡ err (upgrade_failed node.name e)) × RestoredAll w v)
            ⊎ ((e' : NodeError) × ((rollback p config w).0 ≡ err e')
                × (r ≡ err (rollback_failed node.name e e'))))

  give_up_cases :
      (node : Node) (e : NodeError) (w : W)
      → config.rollback_enabled ≡ true
      → (((rollback p config w).0 ≡ ok tt)
          × (give_up p config node e w
              ≡ (err (upgrade_failed node.name e), (rollback p config w).1)))
        ⊎ ((e' : NodeError) × ((rollback p config w).0 ≡ err e')
            × ((give_up p config node e w).0 ≡ err (rollback_failed node.name e e')))
  unfolding give_up
  give_up_cases node e w on = split (rollback p config w).0 refl
    where
      split :
          (r : Result NodeError (Unit {0}))
          → (rollback p config w).0 ≡ r
          → (((rollback p config w).0 ≡ ok tt)
              × (give_up p config node e w
                  ≡ (err (upgrade_failed node.name e), (rollback p config w).1)))
            ⊎ ((e' : NodeError) × ((rollback p config w).0 ≡ err e')
                × ((give_up p config node e w).0 ≡ err (rollback_failed node.name e e')))
      split (ok _) same = inl (same, ground (arith, on, same))
      split (err e') same = inr (e', same, ground (arith, on, same))

  give_up-RolledBack :
      (node : Node) (e : NodeError) (w : W) → RolledBack node e w (give_up p config node e w)
  unfolding give_up
  give_up-RolledBack node e w = (
    λ off. ground (arith, off),
    λ on. elim (give_up_cases node e w on) [
      | inr failed ↦ inr failed
      | inl (did, same) ↦ inl (
        ap (λ out. out.0) same,
        subst (RestoredAll w) (ap (λ out. out.1) (sym same)) (rollback-RestoredAll w did),
      )
    ],
  )

  -- When the upgrade of a node fails after those before it succeeded, the upgrade fails, whatever
  -- nodes come after. Without a rollback its error names the node and nothing else happens. With it,
  -- either every control-plane node that is then listed has run the script that restores etcd to an
  -- exit with zero, or the error also has that of the rollback, which failed.
  pub upgrade_nodes-RolledBack :
      (release : Components) (before after : List Node) (node : Node) (w w' w'' : W) (e : NodeError)
      → upgrade_nodes p config release before w ≡ (ok tt, w')
      → upgrade_node p config release node w' ≡ (err e, w'')
      → RolledBack node e w'' (upgrade_nodes p config release (before ++ node ∷ after) w)
        × ((upgrade_nodes p config release (before ++ node ∷ after) w).0 ≢ ok tt)
  unfolding upgrade_nodes
  upgrade_nodes-RolledBack release before after node w w' w'' e done failed =
      let same = stop before w done in
      (
        subst (RolledBack node e w'') (sym same) (give_up-RolledBack node e w''),
        λ h. give_up-ne-ok node e w'' (rw (same) at h),
      )
    where
      stop :
          (before : List Node) (w : W)
          → upgrade_nodes p config release before w ≡ (ok tt, w')
          → upgrade_nodes p config release (before ++ node ∷ after) w ≡ give_up p config node e w''
      stop [] w done = ground (arith, done, failed)
      stop (x ∷ before) w done =
          let (first, rest) = upgrade_nodes_first release x before w (ap (λ r. r.0) done) in
          ground (arith, first, stop before (upgrade_node p config release x w).1 (sym rest ∙ done))

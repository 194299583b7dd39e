-- ===== src/NodeUpgrade/Workers.antt =====
-- The upgrade of the worker nodes returns, and what it has done if it succeeds.
use cluster_api_provider_bar.Prelude.{ℕ, ◌≡◌, refl, some, List, [], ◌∷◌, arith, Result, ok, err, In}
use cluster_api_provider_bar.Prelude.Integers.{pos}
use cluster_api_provider_bar.Effects.{err-ne-ok}
use cluster_api_provider_bar.Conditions.{Node}
use cluster_api_provider_bar.Rolling.Completion as Completion
use cluster_api_provider_bar.NodeUpgrade.{
  Platform, NodeError, batch_failed, checks_failed, kubelet_upgrade,
}
use cluster_api_provider_bar.NodeUpgrade.ControlPlane.{Components}
use cluster_api_provider_bar.NodeUpgrade.Worker.{
  WorkerUpgradeConfig, get_worker_nodes, pre_upgrade_checks, upgrade_node, batch_outcome,
  execute_upgrade,
}
use cluster_api_provider_bar.NodeUpgrade.Scripts.{Ran, SeenReady}
use cluster_api_provider_bar.NodeUpgrade.Nodes.{worker_upgrade_node-Ran}

module _ {Conn W : Type 0} (p : Platform Conn W) (config : WorkerUpgradeConfig)
    (schedule : List Node → List Node) (release : Components) where
  abbrev pub IsUpgraded : Node → Type 0
  IsUpgraded node =
      (v : W) × Ran p node.name (kubelet_upgrade release.kubernetes) v × SeenReady p node v

  batch_ok :
      (out : Result (ℕ × NodeError) (Unit {0}) × W) (out' : Result NodeError (Unit {0}) × W)
      → batch_outcome p config (some out) ≡ some out'
      → out'.0 ≡ ok tt
      → out.0 ≡ ok tt
  batch_ok (ok _, w) out' e h = refl
  batch_ok (err (i, x), w) out' e h = ground (arith, e, h)

  batch_some :
      (out : Result (ℕ × NodeError) (Unit {0}) × W)
      → (out' : Result NodeError (Unit {0}) × W) × (batch_outcome p config (some out) ≡ some out')
  batch_some (ok _, w) = ((ok tt, w), refl)
  batch_some (err (i, x), w) = ((err (batch_failed i x), w), refl)

  abbrev Outcome : W → Type 0
  Outcome w =
      (out : Result NodeError (Unit {0}) × W) × (execute_upgrade p config schedule release w
        ≡ some out)
      × (out.0 ≡ ok tt
          → (nodes : List Node) × (w' : W) × ((get_worker_nodes p config w').0 ≡ ok nodes)
            × ((node : Node) → In node nodes → IsUpgraded node))

  -- If the scheduler leaves out no node of a batch, the upgrade of the workers returns, and if it
  -- reports success, every worker node that it listed has run the kubelet script for the version of
  -- the release to an exit with zero, and at a later moment its node was read without a Ready
  -- condition that is not True.
  pub execute_upgrade-IsUpgraded :
      Completion.Schedules schedule (upgrade_node p config release)
      → (w : W)
      → (out : Result NodeError (Unit {0}) × W) × (execute_upgrade p config schedule release w
          ≡ some out)
        × (out.0 ≡ ok tt
            → (nodes : List Node) × (w' : W) × ((get_worker_nodes p config w').0 ≡ ok nodes)
              × ((node : Node) → In node nodes → IsUpgraded node))
  unfolding execute_upgrade
  execute_upgrade-IsUpgraded all w = checked (pre_upgrade_checks p config w).0 refl
    where
      w1 : W
      w1 = (pre_upgrade_checks p config w).1

      w2 : W
      w2 = (get_worker_nodes p config w1).1

      rolled :
          (node : Node) (nodes : List Node)
          → (pre_upgrade_checks p config w).0 ≡ ok tt
          → (get_worker_nodes p config w1).0 ≡ ok (node ∷ nodes)
          → Outcome w
      rolled node nodes passed got =
          let (out, runs, done) =
            Completion.execute_rolling_upgrade-Upgraded schedule (upgrade_node p config release) all
              config.max_unavailable (pos 1) (node ∷ nodes) w2 in
          let (out', known) = batch_some out in
          (
            out',
            rw (passed, got, runs, execute_upgrade) known,
            λ h. (
              node ∷ nodes,
              w1,
              got,
              λ n i.
                  let (v, upgraded) = done (batch_ok out out' known h) n i in
                  let (u, _, kubelet, seen) =
                    worker_upgrade_node-Ran p config release n v upgraded in
                  (u, kubelet, seen),
            ),
          )

      found :
          (r : Result NodeError (List Node))
          → (pre_upgrade_checks p config w).0 ≡ ok tt
          → (get_worker_nodes p config w1).0 ≡ r
          → Outcome w
      found (err e) passed got =
          ((err e, w2), rw (passed, got, execute_upgrade) refl, λ h. absurd (err-ne-ok h))
      found (ok []) passed got = (
        (ok tt, w2),
        rw (passed, got, execute_upgrade) refl,
        λ h. ([], w1, got, λ node i. absurd i),
      )
      found (ok (node ∷ nodes)) passed got = rolled node nodes passed got

      checked :
          (r : Result NodeError (Unit {0})) → (pre_upgrade_checks p config w).0 ≡ r → Outcome w
      checked (err e) failed = (
        (err (checks_failed e), w1),
        rw (failed, execute_upgrade) refl,
        λ h. absurd (err-ne-ok h),
      )
      checked (ok _) passed = found (get_worker_nodes p config w1).0 passed refl

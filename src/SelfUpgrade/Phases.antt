-- ===== src/SelfUpgrade/Phases.antt =====
-- Which phase follows which.
use cluster_api_provider_bar.Prelude.{
  ℕ, ◌≡◌, ◌⊎◌, refl, false, some, List, [], ◌∷◌, arith, some-eq, and_then-eq-some, subst,
}
use cluster_api_provider_bar.SelfUpgrade.Resource.{
  Phase, empty, validating, pre_upgrade, upgrading, verifying, completed, rolling_back, failed,
  SelfUpgradeComponent, SelfUpgrade,
}
use cluster_api_provider_bar.SelfUpgrade.Sorting.{sort_components}
use cluster_api_provider_bar.SelfUpgrade.Components.{Platform}
use cluster_api_provider_bar.SelfUpgrade.Handlers.{
  Outcome, initialize_upgrade, validate_upgrade, execute_pre_upgrade, upgrade_next, execute_upgrade,
  verify_upgrade, execute_rollback, finalizer, add,
}
use cluster_api_provider_bar.SelfUpgrade.Controller.{dispatch, reconcile}

-- The phases that may follow a phase.
abbrev pub Follows : Phase → Phase → Type 0
Follows empty q = q ≡ validating
Follows validating q = (q ≡ pre_upgrade) ⊎ (q ≡ failed)
Follows pre_upgrade q = (q ≡ upgrading) ⊎ (q ≡ rolling_back) ⊎ (q ≡ failed)
Follows upgrading q = (q ≡ upgrading) ⊎ (q ≡ verifying) ⊎ (q ≡ rolling_back)
Follows verifying q = (q ≡ completed) ⊎ (q ≡ rolling_back) ⊎ (q ≡ failed)
Follows rolling_back q = q ≡ failed
Follows q q' = q' ≡ q

-- The new phase follows the old one, and the specification stays.
abbrev pub Moves : SelfUpgrade → SelfUpgrade → Type 0
Moves su su' = Follows su.status.phase su'.status.phase × (su'.spec ≡ su.spec)

module _ {W : Type 0} (p : Platform W) where
  upgrade_next-Follows :
      (now : ℕ) (components : List SelfUpgradeComponent) (su : SelfUpgrade) (w : W)
      → su.status.phase ≡ upgrading
      → Follows upgrading (upgrade_next p now components su w).0.0.status.phase
        × ((upgrade_next p now components su w).0.0.spec ≡ su.spec)
  unfolding upgrade_next
  upgrade_next-Follows now [] su w h = ground arith
  upgrade_next-Follows now (c ∷ components) su w h =
      ground (arith, upgrade_next-Follows now components su w h)

  -- An upgrade that returns has sorted the components and gone over them.
  pub execute_upgrade-eq-some :
      (stack now : ℕ) (su : SelfUpgrade) (w : W) (out : Outcome × W)
      → execute_upgrade p stack now su w ≡ some out
      → (sorted : List SelfUpgradeComponent) × (sort_components stack su.spec.components
          ≡ some sorted)
        × (upgrade_next p now sorted su w ≡ out)
  unfolding execute_upgrade
  execute_upgrade-eq-some stack now su w out h =
      let (sorted, found, same) =
        and_then-eq-some (sort_components stack su.spec.components)
          (λ (sorted : List SelfUpgradeComponent). some (upgrade_next p now sorted su w)) h in
      (sorted, found, some-eq same)

  dispatch-Follows :
      (phase : Phase) (stack now : ℕ) (su : SelfUpgrade) (w : W) (out : Outcome × W)
      → su.status.phase ≡ phase
      → dispatch p phase stack now su w ≡ some out
      → Follows phase out.0.0.status.phase × (out.0.0.spec ≡ su.spec)
  unfolding dispatch initialize_upgrade validate_upgrade execute_pre_upgrade verify_upgrade
      execute_rollback
  dispatch-Follows empty stack now su w out e h = ground arith
  dispatch-Follows validating stack now su w out e h = ground arith
  dispatch-Follows pre_upgrade stack now su w out e h = ground arith
  dispatch-Follows upgrading stack now su w out e h =
      let (sorted, _, same) = execute_upgrade-eq-some stack now su w out h in
      subst (λ (o : Outcome × W). Follows upgrading o.0.0.status.phase × (o.0.0.spec ≡ su.spec))
        same (upgrade_next-Follows now sorted su w e)
  dispatch-Follows verifying stack now su w out e h = ground arith
  dispatch-Follows rolling_back stack now su w out e h = ground arith
  dispatch-Follows _ stack now su w out e h = ground arith

  -- A reconciliation of a resource that is neither deleted nor paused moves to a phase that follows
  -- the old one, and keeps the specification.
  pub reconcile-Moves :
      (stack now : ℕ) (su : SelfUpgrade) (w : W) (out : Outcome × W)
      → su.deleting ≡ false
      → su.spec.paused ≡ false
      → reconcile p stack now su w ≡ some out
      → Moves su out.0.0
  unfolding reconcile
  reconcile-Moves stack now su w out d q h = ground (
    arith,
    dispatch-Follows su.status.phase stack now
        (record su { finalizers = add finalizer su.finalizers }) w out refl,
  )

-- ===== src/SelfUpgrade/Controller.antt =====
-- `Reconcile` of the self-upgrade: a paused or deleted resource, and the switch over its phase.
use cluster_api_provider_bar.Prelude.{ℕ, Option, some, if◌then◌else◌}
use cluster_api_provider_bar.SelfUpgrade.Resource.{
  Phase, empty, pending, validating, pre_upgrade, upgrading, verifying, completed, rolling_back,
  failed, SelfUpgrade,
}
use cluster_api_provider_bar.SelfUpgrade.Components.{Platform}
use cluster_api_provider_bar.SelfUpgrade.Handlers.{
  Outcome, finished, after, finalizer, add, without, close, initialize_upgrade, validate_upgrade,
  execute_pre_upgrade, execute_upgrade, verify_upgrade, execute_rollback,
}

module _ {W : Type 0} (p : Platform W) where
  -- The switch of `Reconcile` over the phase.
  unfoldable pub dispatch : Phase → (stack : ℕ) → ℕ → SelfUpgrade → W → Option (Outcome × W)
  dispatch empty stack now su w = some (initialize_upgrade now su, w)
  dispatch validating stack now su w = some (validate_upgrade p now su w)
  dispatch pre_upgrade stack now su w = some (execute_pre_upgrade p now su w)
  dispatch upgrading stack now su w = execute_upgrade p stack now su w
  dispatch verifying stack now su w = some (verify_upgrade p now su w)
  dispatch rolling_back stack now su w = some (execute_rollback p now su w)
  dispatch completed stack now su w = some ((su, finished), w)
  dispatch failed stack now su w = some ((su, finished), w)
  dispatch _ stack now su w = some ((su, after 5), w)

  unfoldable pub reconcile : (stack : ℕ) → ℕ → SelfUpgrade → W → Option (Outcome × W)
  reconcile stack now su w =
      let kept = record su { finalizers = add finalizer su.finalizers } in
      if su.deleting
      then some ((record su { finalizers = without finalizer su.finalizers }, finished), w)
      else if su.spec.paused
      then some ((close pending "Validating" "Paused" now kept, after 30), w)
      else dispatch su.status.phase stack now kept w

-- ===== src/SelfUpgrade/Pausing.antt =====
-- What a pause does to an upgrade for the rest of its life.
use cluster_api_provider_bar.Prelude.{ℕ, ◌≡◌, sym, ap, true, false, some, arith, some-eq}
use cluster_api_provider_bar.SelfUpgrade.Resource.{Phase, pending, Spec, SelfUpgrade}
use cluster_api_provider_bar.SelfUpgrade.Components.{Platform}
use cluster_api_provider_bar.SelfUpgrade.Handlers.{Outcome, finalizer, add}
use cluster_api_provider_bar.SelfUpgrade.Controller.{dispatch, reconcile}

-- What happens to a resource from some state on: its specification is edited, its deletion is asked
-- for, or it is reconciled, in any world.
pub data Life {W : Type 0} (p : Platform W) (start : SelfUpgrade) : SelfUpgrade → Type 0 where
  now_on : Life p start start
  edited :
      {su : SelfUpgrade} (spec : Spec) → Life p start su → Life p start (record su { spec = spec })
  deleted : {su : SelfUpgrade} → Life p start su → Life p start (record su { deleting = true })
  reconciled :
      {su : SelfUpgrade} (stack now : ℕ) (w : W) (out : Outcome × W)
      → reconcile p stack now su w ≡ some out
      → Life p start su
      → Life p start out.0.0

module _ {W : Type 0} (p : Platform W) where
  dispatch-pending :
      (phase : Phase) (stack now : ℕ) (su : SelfUpgrade) (w : W) (out : Outcome × W)
      → phase ≡ pending
      → dispatch p phase stack now su w ≡ some out
      → out.0.0.status.phase ≡ su.status.phase
  unfolding dispatch
  dispatch-pending phase stack now su w out e h = ground (arith, e)

  reconcile-pending :
      (stack now : ℕ) (su : SelfUpgrade) (w : W) (out : Outcome × W)
      → su.status.phase ≡ pending
      → reconcile p stack now su w ≡ some out
      → out.0.0.status.phase ≡ pending
  unfolding reconcile
  reconcile-pending stack now su w out e h = ground (
    arith,
    dispatch-pending su.status.phase stack now
        (record su { finalizers = add finalizer su.finalizers }) w out e,
  )

  pending_forever :
      (start su : SelfUpgrade)
      → start.status.phase ≡ pending
      → Life p start su
      → su.status.phase ≡ pending
  pending_forever start _ e now_on = e
  pending_forever start _ e (edited spec life) = pending_forever start _ e life
  pending_forever start _ e (deleted life) = pending_forever start _ e life
  pending_forever start _ e (reconciled {su} stack now w out h life) =
      reconcile-pending stack now su w out (pending_forever start su e life) h

  -- A resource that is reconciled once while it is paused and not deleted is pending for the rest of
  -- its life, whatever phase it was in: later edits of the specification, such as the end of the
  -- pause, and later reconciliations do not bring it into another phase.
  pub paused-pending :
      (stack now : ℕ) (su : SelfUpgrade) (w : W) (out : Outcome × W)
      → su.deleting ≡ false
      → su.spec.paused ≡ true
      → reconcile p stack now su w ≡ some out
      → (later : SelfUpgrade) → Life p out.0.0 later
      → later.status.phase ≡ pending
  unfolding reconcile
  paused-pending stack now su w out d q h later life =
      pending_forever out.0.0 later
        (ap (λ (o : Outcome × W). o.0.0.status.phase) (sym (some-eq (rw (d, q) at h)))) life

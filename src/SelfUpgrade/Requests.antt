-- ===== src/SelfUpgrade/Requests.antt =====
-- `Reconcile` of the self-upgrade around the switch: the read of the resource, the patch helper, and
-- the deferred patch, which is made however the handler ends.
use cluster_api_provider_bar.Prelude.{ℕ, Option, none, some, Result, ok, err}
use cluster_api_provider_bar.SelfUpgrade.Resource.{SelfUpgrade}
use cluster_api_provider_bar.SelfUpgrade.Components.{Platform}
use cluster_api_provider_bar.SelfUpgrade.Handlers.{Requeue, finished, Outcome}
use cluster_api_provider_bar.SelfUpgrade.Controller.{reconcile}

pub data RequestError : Type 0 where
  get_failed helper_failed : RequestError

pub data Found : Type 0 where
  present : SelfUpgrade → Found
  missing unreadable : Found

pub record Store (W : Type 0) : Type 0 where
  pub get_resource : W → Found × W
  -- `patch.NewHelper`
  pub new_helper : SelfUpgrade → Result RequestError (Unit {0})
  -- Of the resource as it was read, to the resource as it is; an error is only logged.
  pub patch : (read current : SelfUpgrade) → W → W

module _ {W : Type 0} (p : Platform W) (store : Store W) where
  open store use {get_resource, new_helper, patch}

  -- A sort that does not return ends the process before the patch.
  abbrev pub patched : SelfUpgrade → Option (Outcome × W) → Option (Result RequestError Requeue × W)
  patched read none = none
  patched read (some ((su, requeue), w)) = some (ok requeue, patch read su w)

  abbrev pub reconcile_present :
      (stack : ℕ) → ℕ → SelfUpgrade → W → Option (Result RequestError Requeue × W)
  reconcile_present stack now su w = elim (new_helper su) [
    | err e ↦ some (err e, w)
    | ok _ ↦ patched su (reconcile p stack now su w)
  ]

  unfoldable pub reconcile_request : (stack : ℕ) → ℕ → W → Option (Result RequestError Requeue × W)
  reconcile_request stack now w =
      let (r, w') = get_resource w in
      elim r [
        | missing ↦ some (ok finished, w')
        | unreadable ↦ some (err get_failed, w')
        | present su ↦ reconcile_present stack now su w'
      ]

-- ===== src/Rolling.antt =====
-- Rolling upgrades: modules/cvo/internal/upgrader/rolling_upgrade_coordinator.go. The goroutines of a
-- batch stand as the calls of the upgrade in some order, given by `schedule`; the semaphore only
-- restricts which orders occur.
pub mod Batches
pub mod Completion
mod Samples
use cluster_api_provider_bar.Prelude.{
  ℕ, zero, suc, ◌+◌, ◌-◌, Bool, true, false, not, Option, none, some, List, [], ◌∷◌, ltb,
  if◌then◌else◌, length, take, drop, and_then, Result, ok, err,
}
use cluster_api_provider_bar.Prelude.Integers.{ℤ, pos, negsuc}
use cluster_api_provider_bar.Effects.{Action}

pub record RollingUpgradeCoordinator : Type 0 where
  pub max_unavailable : ℕ
  pub max_concurrent : ℕ

-- A number that is not positive counts as one.
abbrev pub at_least_one : ℤ → ℕ
at_least_one (pos (suc n)) = suc n
at_least_one n = 1

unfoldable pub new_rolling_upgrade_coordinator : ℤ → ℤ → RollingUpgradeCoordinator
new_rolling_upgrade_coordinator max_unavailable max_concurrent = record {
  max_unavailable = at_least_one max_unavailable;
  max_concurrent = at_least_one max_concurrent;
}

module _ {N : Type 0} where
  -- `nodes[i:end]`
  abbrev pub slice : List N → ℕ → ℕ → List N
  slice nodes i end = take (end - i) (drop i nodes)

  abbrev pub batch_end : ℕ → ℕ → List N → ℕ
  batch_end size i nodes = if ltb (length nodes) (i + size) then length nodes else i + size

  -- The loop of `createBatches` from the index `i` on.
  unfoldable pub batches_from : (fuel size i : ℕ) → List N → Option (List (List N))
  batches_from zero size i nodes = none
  batches_from (suc fuel) size i nodes =
      let rest = batches_from fuel size (i + size) nodes in
      if not (ltb i (length nodes))
      then some []
      else and_then rest (λ batches. some (slice nodes i (batch_end size i nodes) ∷ batches))

  unfoldable pub create_batches : RollingUpgradeCoordinator → List N → Option (List (List N))
  create_batches c nodes = batches_from (suc (length nodes)) c.max_unavailable 0 nodes

  module _ {E W : Type 0} (schedule : List N → List N) (upgrade : N → Action E W (Unit {0})) where
    -- The calls for the nodes of a batch, with the errors that they leave.
    unfoldable pub run_all : List N → W → List E × W
    run_all [] w = ([], w)
    run_all (node ∷ nodes) w =
        let (r, w') = upgrade node w in
        let (errors, w'') = run_all nodes w' in (elim r [ ok _ ↦ errors | err e ↦ e ∷ errors ], w'')

    -- The error of a batch is its first one.
    unfoldable pub execute_batch : List N → Action E W (Unit {0})
    execute_batch batch w =
        let (errors, w') = run_all (schedule batch) w in
        elim errors [ [] ↦ (ok tt, w') | e ∷ _ ↦ (err e, w') ]

    -- The error carries the number of the batch, counted from one.
    unfoldable pub execute_batches : ℕ → List (List N) → W → Result (ℕ × E) (Unit {0}) × W
    execute_batches i [] w = (ok tt, w)
    execute_batches i (batch ∷ batches) w =
        let (r, w') = execute_batch batch w in
        let rest = execute_batches (suc i) batches w' in
        elim r [ ok _ ↦ rest | err e ↦ (err (suc i, e), w') ]

    unfoldable pub execute_rolling_upgrade :
        RollingUpgradeCoordinator → List N → W → Option (Result (ℕ × E) (Unit {0}) × W)
    execute_rolling_upgrade c nodes w =
        and_then (create_batches c nodes) (λ batches. some (execute_batches 0 batches w))

-- ===== src/Retry.antt =====
-- Retries: modules/cvo/internal/upgrader/retry/retry.go. The function to retry and the wait act on a
-- world; a wait says whether the context was cancelled. The product of a duration and the floating
-- factor is the argument `scale`, the lower case of a text the argument `lower`.
pub mod Attempts
mod Samples
use cluster_api_provider_bar.Prelude.{
  ℕ, zero, suc, Text, Bool, true, false, not, ◌||◌, List, [], ◌∷◌, ltb, contains_text, any,
  if◌then◌else◌, Result, ok, err,
}
use cluster_api_provider_bar.Prelude.Integers.{ℤ, pos, negsuc}
use cluster_api_provider_bar.Effects.{Action}

pub record BackoffConfig : Type 0 where
  pub initial : ℕ
  pub max : ℕ
  pub scale : ℕ → ℕ

pub record Config : Type 0 where
  pub max_retries : ℤ
  pub backoff : BackoffConfig
  pub retryable_errors : List Text

pub data RetryError (E : Type 0) : Type 0 where
  non_retryable max_retries_exceeded : E → RetryError E
  cancelled : RetryError E

-- For an error with this message.
unfoldable pub is_retryable_error : (Text → Text) → Text → List Text → Bool
is_retryable_error lower message patterns =
    any (λ pattern_text. contains_text (lower message) (lower pattern_text)) patterns

-- The delay after a delay.
unfoldable pub next_backoff : BackoffConfig → ℕ → ℕ
next_backoff config backoff =
    let scaled = config.scale backoff in if ltb config.max scaled then config.max else scaled

module _ {E W : Type 0} (wait : ℕ → W → Bool × W) (fn : Action E W (Unit {0})) where
  -- The loop of `WithFixedInterval` with this many retries left.
  unfoldable pub fixed_loop : ℕ → (interval : ℕ) → Action (RetryError E) W (Unit {0})
  fixed_loop zero interval w =
      let (r, w') = fn w in
      elim r [ ok _ ↦ (ok tt, w') | err e ↦ (err (max_retries_exceeded e), w') ]
  fixed_loop (suc left) interval w =
      let (r, w') = fn w in
      let (cancel, w'') = wait interval w' in
      let rest = fixed_loop left interval w'' in
      elim r [ ok _ ↦ (ok tt, w') | err e ↦ if cancel then (err cancelled, w'') else rest ]

  -- A negative number of retries runs nothing.
  unfoldable pub with_fixed_interval : ℤ → (interval : ℕ) → Action (RetryError E) W (Unit {0})
  with_fixed_interval (pos n) interval w = fixed_loop n interval w
  with_fixed_interval (negsuc n) interval w = (ok tt, w)

  -- The loop of `WithBackoff`, with the test of the error as an argument.
  unfoldable pub backoff_loop :
      BackoffConfig → (E → Bool) → ℕ → ℕ → Action (RetryError E) W (Unit {0})
  backoff_loop config retryable zero backoff w =
      let (r, w') = fn w in
      elim r [
        | ok _ ↦ (ok tt, w')
        | err e ↦ (err (if not (retryable e) then non_retryable e else max_retries_exceeded e), w')
      ]
  backoff_loop config retryable (suc left) backoff w =
      let (r, w') = fn w in
      let (cancel, w'') = wait backoff w' in
      let rest = backoff_loop config retryable left (next_backoff config backoff) w'' in
      elim r [
        | ok _ ↦ (ok tt, w')
        | err e ↦
            if not (retryable e)
            then (err (non_retryable e), w')
            else if cancel
            then (err cancelled, w'')
            else rest
      ]

  unfoldable pub with_backoff :
      (lower : Text → Text) → (message : E → Text) → Config → Action (RetryError E) W (Unit {0})
  with_backoff lower message config w = elim config.max_retries [
    | negsuc n ↦ (ok tt, w)
    | pos n ↦
        backoff_loop config.backoff
          (λ e. is_retryable_error lower (message e) config.retryable_errors) n
          config.backoff.initial w
  ]

-- ===== src/Retry/Attempts.antt =====
-- How often a function is tried, what a success means, and how long the waits are.
use cluster_api_provider_bar.Prelude.{
  ℕ, zero, suc, ◌+◌, ◌≤◌, ◌≡◌, ◌⊎◌, inl, inr, refl, Text, Bool, List, ◌∷◌, arith, All, Result, ok,
  err,
}
use cluster_api_provider_bar.Prelude.Integers.{pos, negsuc}
use cluster_api_provider_bar.Effects.{Action}
use cluster_api_provider_bar.Retry.{
  BackoffConfig, Config, is_retryable_error, next_backoff, fixed_loop, with_fixed_interval,
  backoff_loop, with_backoff,
}

-- A world with the number of attempts and the delays waited for, the last one first.
pub record Traced (W : Type 0) : Type 0 where
  pub world : W
  pub attempts : ℕ
  pub delays : List ℕ

Result-cases : {E : Type 0} (r : Result E (Unit {0})) → (r ≡ ok tt) ⊎ ((e : E) × (r ≡ err e))
Result-cases (ok _) = inl refl
Result-cases (err e) = inr (e, refl)

module _ {E W : Type 0} (wait : ℕ → W → Bool × W) (fn : Action E W (Unit {0})) where
  abbrev pub traced_fn : Action E (Traced W) (Unit {0})
  traced_fn t = let (r, w) = fn t.world in (r, record t { world = w; attempts = suc t.attempts })

  abbrev pub traced_wait : ℕ → Traced W → Bool × Traced W
  traced_wait delay t =
      let (c, w) = wait delay t.world in (c, record t { world = w; delays = delay ∷ t.delays })

  -- From one trace to the next: at most so many attempts more, and every delay at most a bound.
  abbrev pub Bounded : (more bound : ℕ) → Traced W → Traced W → Type 0
  Bounded more bound t t' =
      (t'.attempts ≤ t.attempts + more)
      × (All (λ (d : ℕ). d ≤ bound) t.delays → All (λ (d : ℕ). d ≤ bound) t'.delays)

  abbrev pub Succeeds : Type 0
  Succeeds = (w : W) × ((fn w).0 ≡ ok tt)

  next_backoff_le :
      (config : BackoffConfig) (backoff : ℕ) → next_backoff config backoff ≤ config.max
  unfolding next_backoff
  next_backoff_le config backoff = ground arith

  backoff_loop-Bounded :
      (config : BackoffConfig) (retryable : E → Bool) (left backoff : ℕ) (t : Traced W) (bound : ℕ)
      → backoff ≤ bound
      → config.max ≤ bound
      → Bounded
          (suc left)
          bound
          t
          (backoff_loop traced_wait traced_fn config retryable left backoff t).1
  unfolding backoff_loop
  backoff_loop-Bounded config retryable zero backoff t bound b m = ground (arith, b)
  backoff_loop-Bounded config retryable (suc left) backoff t bound b m =
      let tried = (traced_fn t).1 in
      let waited = (traced_wait backoff tried).1 in
      let next : next_backoff config backoff ≤ bound =
        omega (arith, next_backoff_le config backoff, m) in
      ground (
        arith,
        backoff_loop-Bounded config retryable left (next_backoff config backoff) waited bound next
            m,
        b,
      )

  backoff_loop-Succeeds :
      (config : BackoffConfig) (retryable : E → Bool) (left backoff : ℕ) (w : W)
      → (backoff_loop wait fn config retryable left backoff w).0 ≡ ok tt
      → Succeeds
  unfolding backoff_loop
  backoff_loop-Succeeds config retryable zero backoff w h = (w, ground (arith, h))
  backoff_loop-Succeeds config retryable (suc left) backoff w h = elim (Result-cases (fn w).0) [
    | inl e ↦ (w, e)
    | inr (x, e) ↦
        backoff_loop-Succeeds config retryable left (next_backoff config backoff)
          (wait backoff (fn w).1).1 (ground (arith, e, h))
  ]

  fixed_loop-Bounded :
      (left interval : ℕ) (t : Traced W)
      → Bounded (suc left) interval t (fixed_loop traced_wait traced_fn left interval t).1
  unfolding fixed_loop
  fixed_loop-Bounded zero interval t = ground arith
  fixed_loop-Bounded (suc left) interval t =
      ground (arith, fixed_loop-Bounded left interval (traced_wait interval (traced_fn t).1).1)

  fixed_loop-Succeeds :
      (left interval : ℕ) (w : W) → (fixed_loop wait fn left interval w).0 ≡ ok tt → Succeeds
  unfolding fixed_loop
  fixed_loop-Succeeds zero interval w h = (w, ground (arith, h))
  fixed_loop-Succeeds (suc left) interval w h = elim (Result-cases (fn w).0) [
    | inl e ↦ (w, e)
    | inr (x, e) ↦
        fixed_loop-Succeeds left interval (wait interval (fn w).1).1 (ground (arith, e, h))
  ]

  -- With a number of retries that is not negative, the function is tried at most once more than that,
  -- no wait is longer than the first delay and the greatest delay allow, and a success means that one
  -- of the tries succeeded.
  pub with_backoff-Bounded :
      (lower : Text → Text) (message : E → Text) (config : Config) (n bound : ℕ) (t : Traced W)
      → config.max_retries ≡ pos n
      → config.backoff.initial ≤ bound
      → config.backoff.max ≤ bound
      → Bounded (suc n) bound t (with_backoff traced_wait traced_fn lower message config t).1
        × ((with_backoff wait fn lower message config t.world).0 ≡ ok tt → Succeeds)
  unfolding with_backoff
  with_backoff-Bounded lower message config n bound t e first greatest =
      let retryable = λ (x : E). is_retryable_error lower (message x) config.retryable_errors in
      rw e (
        backoff_loop-Bounded config.backoff retryable n config.backoff.initial t bound first
            greatest,
        backoff_loop-Succeeds config.backoff retryable n config.backoff.initial t.world,
      )

  -- With a number of retries that is not negative, the function is tried at most once more than that,
  -- no wait is longer than the interval, and a success means that one of the tries succeeded; with a
  -- negative number the function is not tried, and the result is a success.
  pub with_fixed_interval-Bounded :
      (n interval : ℕ) (t : Traced W)
      → Bounded (suc n) interval t (with_fixed_interval traced_wait traced_fn (pos n) interval t).1
        × ((with_fixed_interval wait fn (pos n) interval t.world).0 ≡ ok tt → Succeeds)
        × (with_fixed_interval traced_wait traced_fn (negsuc n) interval t ≡ (ok tt, t))
  unfolding with_fixed_interval
  with_fixed_interval-Bounded n interval t =
      (fixed_loop-Bounded n interval t, fixed_loop-Succeeds n interval t.world, refl)

-- ===== src/Retry/Samples.antt =====
-- A function that succeeds at the third try.
use cluster_api_provider_bar.Prelude.{
  ℕ, ◌+◌, ◌*◌, Text, codes, text_beq, ◌≡◌, refl, Bool, false, [], ◌∷◌, arith, ltb, if◌then◌else◌,
  ok, err,
}
use cluster_api_provider_bar.Prelude.Integers.{pos, negsuc}
use cluster_api_provider_bar.Effects.{Action}
use cluster_api_provider_bar.Retry.{
  Config, is_retryable_error, next_backoff, backoff_loop, with_backoff, with_fixed_interval,
}
use cluster_api_provider_bar.Retry.Attempts.{
  Traced, traced_fn, traced_wait, Bounded, Succeeds, with_backoff-Bounded,
  with_fixed_interval-Bounded,
}

-- The world counts the calls.
abbrev third : Action Text ℕ (Unit {0})
third w = if ltb w 2 then (err (codes "i/o timeout"), w + 1) else (ok tt, w + 1)

abbrev patient : ℕ → ℕ → Bool × ℕ
patient delay w = (false, w)

abbrev itself : Text → Text
itself t = t

abbrev config : Config
config = record {
  max_retries = pos 3;
  backoff = record { initial = 10; max = 15; scale = λ n. n * 2 };
  retryable_errors = codes "timeout" ∷ [];
}

abbrev start : Traced ℕ
start = record { world = 0; attempts = 0; delays = [] }

third-retried :
    with_backoff (traced_wait patient third) (traced_fn patient third) itself itself config start
    ≡ (ok tt, record { world = 3; attempts = 3; delays = 15 ∷ 10 ∷ [] })
unfolding text_beq is_retryable_error next_backoff backoff_loop with_backoff
third-retried = refl

with_backoff-Bounded_example :
    Bounded patient third 4 15 start
      (with_backoff
        (traced_wait patient third)
        (traced_fn patient third)
        itself
        itself
        config
        start).1
    × ((with_backoff patient third itself itself config 0).0 ≡ ok tt → Succeeds patient third)
with_backoff-Bounded_example =
    with_backoff-Bounded patient third itself itself config 3 15 start refl (omega arith)
      (omega arith)

with_fixed_interval-Bounded_example :
    Bounded patient third 4 7 start
      (with_fixed_interval (traced_wait patient third) (traced_fn patient third) (pos 3) 7 start).1
    × ((with_fixed_interval patient third (pos 3) 7 0).0 ≡ ok tt → Succeeds patient third)
    × (with_fixed_interval (traced_wait patient third) (traced_fn patient third) (negsuc 3) 7 start
        ≡ (ok tt, start))
with_fixed_interval-Bounded_example = with_fixed_interval-Bounded patient third 3 7 start

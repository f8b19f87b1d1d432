-- ===== src/RateLimit/Concurrency.antt =====
-- src/loopyRateLimit.c: the limiter of concurrent work. This file has its state and the functions as
-- one thread runs them undisturbed, except for the blocking acquisition, whose atomic operations are
-- in the child. The list of waiters is never filled by the code and is left out.
pub mod Race
pub mod Bound
use loopy.Prelude.{ℕ, ◌-◌, Bool, true, false, ◌&&◌, Option, none, some, ltb, ◌==◌, if◌then◌else◌}
use loopy.Prelude.Words.{add_word, sub_word, raise}
use loopy.Prelude.Doubles.{Doubles}
use loopy.RateLimit.{ConcurrencyConfig}

pub record ConcurrencyLimiter : Type 0 where
  pub max_concurrent : ℕ
  pub current : ℕ
  pub default_timeout_ms : ℕ
  pub total_acquires : ℕ
  pub successful_acquires : ℕ
  pub failed_acquires : ℕ
  pub total_releases : ℕ
  pub peak_concurrent : ℕ
  pub total_wait_ms : ℕ

-- `loopyConcurrencyInfo`
pub record ConcurrencyInfo : Type 0 where
  pub current : ℕ
  pub limit : ℕ
  pub available : ℕ
  pub waiting : ℕ

-- `loopyConcurrencyStats`
pub record ConcurrencyStats (Double : Type 0) : Type 0 where
  pub total_acquires : ℕ
  pub successful_acquires : ℕ
  pub failed_acquires : ℕ
  pub total_releases : ℕ
  pub peak_concurrent : ℕ
  pub total_wait_ms : ℕ
  pub avg_wait_ms : Double

-- The last arguments say whether `zcalloc`, `pthread_mutex_init` and `pthread_cond_init` succeed.
unfoldable pub concurrency_limiter_new :
    Option ConcurrencyConfig → Bool → Bool → Bool → Option ConcurrencyLimiter
concurrency_limiter_new none got mutex cond = none
concurrency_limiter_new (some c) got mutex cond =
    if c.max_concurrent == 0
    then none
    else if got && (mutex && cond)
    then some (record {
      max_concurrent = c.max_concurrent;
      current = 0;
      default_timeout_ms = c.timeout_ms;
      total_acquires = 0;
      successful_acquires = 0;
      failed_acquires = 0;
      total_releases = 0;
      peak_concurrent = 0;
      total_wait_ms = 0;
    })
    else none

-- `loopyConcurrencyTryAcquire`, also as `loopyConcurrencyTryAcquireKey`, which ignores its key
unfoldable pub try_acquire : Option ConcurrencyLimiter → Bool × Option ConcurrencyLimiter
try_acquire none = (false, none)
try_acquire (some l) =
    let l' = record l { total_acquires = add_word l.total_acquires 1 } in
    if ltb l.current l.max_concurrent
    then (
      true,
      some (record l' {
        current = add_word l.current 1;
        successful_acquires = add_word l.successful_acquires 1;
        peak_concurrent = raise l.peak_concurrent (add_word l.current 1);
      }),
    )
    else (false, some (record l' { failed_acquires = add_word l.failed_acquires 1 }))

-- `loopyConcurrencyRelease`, also as `loopyConcurrencyReleaseKey`
unfoldable pub release : Option ConcurrencyLimiter → Option ConcurrencyLimiter
release none = none
release (some l) =
    if l.current == 0
    then some (record l { current = add_word (sub_word l.current 1) 1 })
    else some
        (record l { current = sub_word l.current 1; total_releases = add_word l.total_releases 1 })

unfoldable pub get_info : ConcurrencyLimiter → ConcurrencyInfo
get_info l = record {
  current = l.current;
  limit = l.max_concurrent;
  available = if ltb l.current l.max_concurrent then l.max_concurrent - l.current else 0;
  waiting = 0;
}

-- With what the callback is called, where there is one
unfoldable pub acquire_async :
    Option ConcurrencyLimiter
    → Bool
    → Bool × Option (Bool × ConcurrencyInfo) × Option ConcurrencyLimiter
unfolding try_acquire get_info
acquire_async none has_callback = (false, none, none)
acquire_async (some l) false = (false, none, some l)
acquire_async (some l) true =
    let (got, l') = try_acquire (some l) in
    (true, elim l' [ none ↦ none | some m ↦ some (got, get_info m) ], l')

unfoldable pub concurrency_get_stats :
    (d : Doubles) → ConcurrencyLimiter → ConcurrencyStats d.Double
concurrency_get_stats d l = record {
  total_acquires = l.total_acquires;
  successful_acquires = l.successful_acquires;
  failed_acquires = l.failed_acquires;
  total_releases = l.total_releases;
  peak_concurrent = l.peak_concurrent;
  total_wait_ms = l.total_wait_ms;
  avg_wait_ms =
      if ltb 0 l.successful_acquires
      then d.div (d.of_word l.total_wait_ms) (d.of_word l.successful_acquires)
      else d.of_word 0;
}

unfoldable pub concurrency_reset_stats : ConcurrencyLimiter → ConcurrencyLimiter
concurrency_reset_stats l = record l {
  total_acquires = 0;
  successful_acquires = 0;
  failed_acquires = 0;
  total_releases = 0;
  peak_concurrent = 0;
  total_wait_ms = 0;
}

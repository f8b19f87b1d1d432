-- ===== src/RateLimit/Limiter.antt =====
-- src/loopyRateLimit.c: the limiter over the four algorithms, with its statistics, as one thread runs
-- it undisturbed. A handle that is NULL is `none`. `clock k` is the k-th reading of `getNowUs` in a
-- call. The limiter's algorithm is the constructor of `Impl`, so a value outside of the enumeration,
-- for which the code answers NULL or an error, does not occur.
pub mod Stats
use loopy.Prelude.{ℕ, ◌/◌, Bool, true, false, Option, none, some, ltb, ◌==◌, if◌then◌else◌}
use loopy.Prelude.Run.{Run, ok, fault, out_of_fuel, ◌>>=◌}
use loopy.Prelude.Words.{add_word, raise}
use loopy.Prelude.Allocator.{Allocator}
use loopy.Prelude.Doubles.{Doubles}
use loopy.RateLimit.{
  Algorithm, TokenBucketConfig, SlidingWindowConfig, LeakyBucketConfig, FixedWindowConfig, Info,
  Result, allowed, denied, error, now_ms,
}
use loopy.RateLimit.TokenBucket.{
  TokenBucket, token_bucket_init, token_bucket_check, token_bucket_peek, token_bucket_reset,
}
use loopy.RateLimit.LeakyBucket.{
  LeakyBucket, leaky_bucket_init, leaky_bucket_check, leaky_bucket_peek, leaky_bucket_reset,
}
use loopy.RateLimit.SlidingWindow.{
  SlidingWindow, sliding_window_init, sliding_window_check, sliding_window_peek,
  sliding_window_reset,
}
use loopy.RateLimit.FixedWindow.{
  FixedWindow, fixed_window_init, fixed_window_check, fixed_window_peek, fixed_window_reset,
}

-- `loopyRateLimiterConfig`: the algorithm with its parameters
pub data LimiterConfig (Double : Type 0) : Type 0 where
  token_bucket : TokenBucketConfig Double → LimiterConfig Double
  sliding_window : SlidingWindowConfig → LimiterConfig Double
  leaky_bucket : LeakyBucketConfig Double → LimiterConfig Double
  fixed_window : FixedWindowConfig → LimiterConfig Double

pub data Impl (Double : Type 0) : Type 0 where
  token_bucket : TokenBucket Double → Impl Double
  sliding_window : SlidingWindow → Impl Double
  leaky_bucket : LeakyBucket Double → Impl Double
  fixed_window : FixedWindow → Impl Double

pub record Limiter (Double : Type 0) : Type 0 where
  pub impl : Impl Double
  pub total_requests : ℕ
  pub allowed_requests : ℕ
  pub denied_requests : ℕ
  pub peak_rate : ℕ
  pub current_second_requests : ℕ
  pub current_second : ℕ

-- `loopyRateLimitStats`
pub record LimiterStats (Double : Type 0) : Type 0 where
  pub total_requests : ℕ
  pub allowed_requests : ℕ
  pub denied_requests : ℕ
  pub peak_rate : ℕ
  pub avg_wait_ms : Double

-- `result == LOOPY_RATE_LIMIT_ALLOWED`
abbrev pub is_allowed : Result → Bool
is_allowed allowed = true
is_allowed _ = false

module _ {Double : Type 0} where
  unfoldable pub update_stats : Limiter Double → Bool → ℕ → Limiter Double
  update_stats l granted us =
      let now = now_ms us / 1000 in
      let l' = record l {
        total_requests = add_word l.total_requests 1;
        allowed_requests = if granted then add_word l.allowed_requests 1 else l.allowed_requests;
        denied_requests = if granted then l.denied_requests else add_word l.denied_requests 1;
      } in
      if now == l.current_second
      then record l' { current_second_requests = add_word l.current_second_requests 1 }
      else record l' {
        current_second_requests = 1;
        current_second = now;
        peak_rate = raise l.peak_rate l.current_second_requests;
      }

  unfoldable pub limiter_reset_stats : Limiter Double → Limiter Double
  limiter_reset_stats l = record l {
    total_requests = 0;
    allowed_requests = 0;
    denied_requests = 0;
    peak_rate = 0;
    current_second_requests = 0;
  }

  unfoldable pub get_algorithm : Option (Limiter Double) → Algorithm
  get_algorithm none = Algorithm.token_bucket
  get_algorithm (some l) = elim l.impl [
    | Impl.token_bucket _ ↦ Algorithm.token_bucket
    | Impl.sliding_window _ ↦ Algorithm.sliding_window
    | Impl.leaky_bucket _ ↦ Algorithm.leaky_bucket
    | Impl.fixed_window _ ↦ Algorithm.fixed_window
  ]

module _ (d : Doubles) where
  unfoldable pub impl_init : Allocator → LimiterConfig d.Double → ℕ → Impl d.Double
  impl_init a (LimiterConfig.token_bucket c) us = Impl.token_bucket (token_bucket_init d c us)
  impl_init a (LimiterConfig.sliding_window c) us = Impl.sliding_window (sliding_window_init a c)
  impl_init a (LimiterConfig.leaky_bucket c) us = Impl.leaky_bucket (leaky_bucket_init d c us)
  impl_init a (LimiterConfig.fixed_window c) us =
      Impl.fixed_window (fixed_window_init c (now_ms us))

  -- `got` says whether `zcalloc` gives the block of the limiter.
  unfoldable pub limiter_new :
      Allocator → Bool → Option (LimiterConfig d.Double) → ℕ → Option (Limiter d.Double)
  unfolding impl_init
  limiter_new a got none us = none
  limiter_new a got (some c) us =
      if got
      then some (record {
        impl = impl_init a c us;
        total_requests = 0;
        allowed_requests = 0;
        denied_requests = 0;
        peak_rate = 0;
        current_second_requests = 0;
        current_second = 0;
      })
      else none

  unfoldable pub impl_check :
      Impl d.Double → d.Double → (ℕ → ℕ) → Run (Result × Info d.Double × Impl d.Double)
  impl_check (Impl.token_bucket b) cost clock =
      let (r, i, b') = token_bucket_check d b cost (clock 0) in ok (r, i, Impl.token_bucket b')
  impl_check (Impl.sliding_window w) cost clock = do
    (r, i, w') ← sliding_window_check d.of_word w (now_ms (clock 0))
    ok (r, i, Impl.sliding_window w')
  impl_check (Impl.leaky_bucket b) cost clock =
      let (r, i, b') = leaky_bucket_check d b (clock 0) in ok (r, i, Impl.leaky_bucket b')
  impl_check (Impl.fixed_window w) cost clock =
      let (r, i, w') = fixed_window_check d.of_word w (now_ms (clock 0)) (now_ms (clock 1)) in
      ok (r, i, Impl.fixed_window w')

  unfoldable pub impl_peek : Impl d.Double → (ℕ → ℕ) → Run (Result × Info d.Double × Impl d.Double)
  impl_peek (Impl.token_bucket b) clock =
      let (r, i, b') = token_bucket_peek d b (clock 0) in ok (r, i, Impl.token_bucket b')
  impl_peek (Impl.sliding_window w) clock = do
    (r, i, w') ← sliding_window_peek d.of_word w (now_ms (clock 0))
    ok (r, i, Impl.sliding_window w')
  impl_peek (Impl.leaky_bucket b) clock =
      let (r, i, b') = leaky_bucket_peek d b (clock 0) in ok (r, i, Impl.leaky_bucket b')
  impl_peek (Impl.fixed_window w) clock =
      let (r, i, w') = fixed_window_peek d.of_word w (now_ms (clock 0)) (now_ms (clock 1)) in
      ok (r, i, Impl.fixed_window w')

  unfoldable pub impl_reset : Impl d.Double → ℕ → Impl d.Double
  impl_reset (Impl.token_bucket b) us = Impl.token_bucket (token_bucket_reset d b us)
  impl_reset (Impl.sliding_window w) us = Impl.sliding_window (sliding_window_reset w)
  impl_reset (Impl.leaky_bucket b) us = Impl.leaky_bucket (leaky_bucket_reset d b us)
  impl_reset (Impl.fixed_window w) us = Impl.fixed_window (fixed_window_reset w (now_ms us))

  -- `loopyRateLimitCheck`, also as `loopyRateLimitCheckKey`, which ignores its key; `clock 2` is
  -- the reading of `updateStats`.
  unfoldable pub rate_limit_check :
      Option (Limiter d.Double) → d.Double → (ℕ → ℕ) → Run (Result × Option (Limiter d.Double))
  unfolding impl_check update_stats
  rate_limit_check none cost clock = ok (error, none)
  rate_limit_check (some l) cost clock = do
    (r, _, m) ← impl_check l.impl cost clock
    ok (r, some (update_stats (record l { impl = m }) (is_allowed r) (clock 2)))

  -- `loopyRateLimitPeek`, also as `loopyRateLimitPeekKey`; without a limiter no `info` is written.
  unfoldable pub rate_limit_peek :
      Option (Limiter d.Double)
      → (ℕ → ℕ)
      → Run (Result × Option (Info d.Double) × Option (Limiter d.Double))
  unfolding impl_peek
  rate_limit_peek none clock = ok (error, none, none)
  rate_limit_peek (some l) clock = do
    (r, i, m) ← impl_peek l.impl clock
    ok (r, some i, some (record l { impl = m }))

  -- `loopyRateLimitReset`, which ignores its key
  unfoldable pub rate_limit_reset : Option (Limiter d.Double) → ℕ → Option (Limiter d.Double)
  unfolding impl_reset
  rate_limit_reset none us = none
  rate_limit_reset (some l) us = some (record l { impl = impl_reset l.impl us })

  -- With what the callback is called, where `has_callback`; `peeked` has the second call's readings.
  unfoldable pub rate_limit_check_async :
      Option (Limiter d.Double)
      → Bool
      → d.Double
      → (ℕ → ℕ)
      → (ℕ → ℕ)
      → Run (Bool × Option (Result × Option (Info d.Double)) × Option (Limiter d.Double))
  unfolding rate_limit_check rate_limit_peek
  rate_limit_check_async none has_callback cost clock peeked = ok (false, none, none)
  rate_limit_check_async (some l) false cost clock peeked = ok (false, none, some l)
  rate_limit_check_async (some l) true cost clock peeked = do
    (r, l') ← rate_limit_check (some l) cost clock
    (_, i, l'') ← rate_limit_peek l' peeked
    ok (true, some (r, i), l'')

  unfoldable pub get_stats : Limiter d.Double → LimiterStats d.Double
  get_stats l = record {
    total_requests = l.total_requests;
    allowed_requests = l.allowed_requests;
    denied_requests = l.denied_requests;
    peak_rate = l.peak_rate;
    avg_wait_ms = d.of_word 0;
  }

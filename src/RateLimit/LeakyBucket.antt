-- ===== src/RateLimit/LeakyBucket.antt =====
-- src/loopyRateLimit.c: the leaky bucket. Each function runs under the bucket's mutex, so it is one
-- step; `now` is its reading of `getNowUs`.
pub mod Bounds
use loopy.Prelude.{ℕ, ◌+◌, ◌-◌, Bool, true, false, not, ◌&&◌, ltb, if◌then◌else◌}
use loopy.Prelude.Words.{add_word, sub_word}
use loopy.Prelude.Doubles.{Doubles}
use loopy.RateLimit.{LeakyBucketConfig, Info, Result, allowed, denied}

pub record LeakyBucket (Double : Type 0) : Type 0 where
  pub queue_size : ℕ
  pub queue_capacity : ℕ
  pub drain_rate : Double
  pub last_drain_us : ℕ
  pub partial_drain : Double

module _ (d : Doubles) where
  unfoldable pub leaky_bucket_init : LeakyBucketConfig d.Double → ℕ → LeakyBucket d.Double
  leaky_bucket_init c now = record {
    queue_size = 0;
    queue_capacity = c.queue_capacity;
    drain_rate = c.drain_rate;
    last_drain_us = now;
    partial_drain = d.of_word 0;
  }

  -- `elapsedSec * drainRate + partialDrain`
  unfoldable pub drain_amount : LeakyBucket d.Double → ℕ → d.Double
  drain_amount b now =
      d.add
        (d.mul (d.div (d.of_word (sub_word now b.last_drain_us)) (d.of_word 1000000)) b.drain_rate)
        b.partial_drain

  unfoldable pub leaky_bucket_drain : LeakyBucket d.Double → ℕ → LeakyBucket d.Double
  leaky_bucket_drain b now =
      let whole = d.to_word (drain_amount b now) in
      record b {
        partial_drain = d.sub (drain_amount b now) (d.of_word whole);
        queue_size = if ltb b.queue_size whole then 0 else b.queue_size - whole;
        last_drain_us = now;
      }

  unfoldable pub leaky_bucket_info : LeakyBucket d.Double → ℕ → Info d.Double
  leaky_bucket_info b reset = record {
    allowed = ltb b.queue_size b.queue_capacity;
    retry_after_ms =
        if not (ltb b.queue_size b.queue_capacity) && d.lt (d.of_word 0) b.drain_rate
        then d.to_word (d.mul (d.div (d.of_word 1) b.drain_rate) (d.of_word 1000))
        else 0;
    remaining = d.of_word (sub_word b.queue_capacity b.queue_size);
    limit = d.of_word b.queue_capacity;
    reset_ms = reset;
  }

  unfoldable pub leaky_bucket_check :
      LeakyBucket d.Double → ℕ → Result × Info d.Double × LeakyBucket d.Double
  unfolding leaky_bucket_drain leaky_bucket_info
  leaky_bucket_check b now =
      let b' = leaky_bucket_drain b now in
      let reset =
        if ltb 0 b'.queue_size && d.lt (d.of_word 0) b'.drain_rate
        then d.to_word (d.mul (d.div (d.of_word b'.queue_size) b'.drain_rate) (d.of_word 1000))
        else 0 in
      (
        if ltb b'.queue_size b'.queue_capacity then allowed else denied,
        leaky_bucket_info b' reset,
        if ltb b'.queue_size b'.queue_capacity
            then record b' { queue_size = add_word b'.queue_size 1 }
            else b',
      )

  unfoldable pub leaky_bucket_peek :
      LeakyBucket d.Double → ℕ → Result × Info d.Double × LeakyBucket d.Double
  unfolding leaky_bucket_drain leaky_bucket_info
  leaky_bucket_peek b now =
      let b' = leaky_bucket_drain b now in
      (if ltb b'.queue_size b'.queue_capacity then allowed else denied, leaky_bucket_info b' 0, b')

  unfoldable pub leaky_bucket_reset : LeakyBucket d.Double → ℕ → LeakyBucket d.Double
  leaky_bucket_reset b now = record b {
    queue_size = 0;
    partial_drain = d.of_word 0;
    last_drain_us = now;
  }

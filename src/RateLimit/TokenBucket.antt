-- ===== src/RateLimit/TokenBucket.antt =====
-- src/loopyRateLimit.c: the token bucket. Each function runs under the bucket's mutex, so it is one
-- step; `now` is its reading of `getNowUs`.
pub mod Bounds
use loopy.Prelude.{ℕ, Bool, true, false, not, ◌&&◌, ltb, if◌then◌else◌}
use loopy.Prelude.Words.{sub_word}
use loopy.Prelude.Doubles.{Doubles}
use loopy.RateLimit.{TokenBucketConfig, Info, Result, allowed, denied}

pub record TokenBucket (Double : Type 0) : Type 0 where
  pub tokens : Double
  pub capacity : Double
  pub refill_rate : Double
  pub tokens_per_request : Double
  pub last_refill_us : ℕ

module _ (d : Doubles) where
  unfoldable pub token_bucket_init : TokenBucketConfig d.Double → ℕ → TokenBucket d.Double
  token_bucket_init c now = record {
    tokens = if d.le (d.of_word 0) c.initial_tokens then c.initial_tokens else c.capacity;
    capacity = c.capacity;
    refill_rate = c.refill_rate;
    tokens_per_request =
        if d.lt (d.of_word 0) c.tokens_per_request then c.tokens_per_request else d.of_word 1;
    last_refill_us = now;
  }

  -- `elapsedSec * refillRate`
  unfoldable pub new_tokens : TokenBucket d.Double → ℕ → d.Double
  new_tokens b now =
      d.mul (d.div (d.of_word (sub_word now b.last_refill_us)) (d.of_word 1000000)) b.refill_rate

  unfoldable pub token_bucket_refill : TokenBucket d.Double → ℕ → TokenBucket d.Double
  token_bucket_refill b now = record b {
    tokens = d.fmin b.capacity (d.add b.tokens (new_tokens b now));
    last_refill_us = now;
  }

  -- `cost > 0 ? cost : tb->tokensPerRequest`
  unfoldable pub actual_cost : TokenBucket d.Double → d.Double → d.Double
  actual_cost b cost = if d.lt (d.of_word 0) cost then cost else b.tokens_per_request

  -- What `info` gets, for a request of `cost` tokens
  unfoldable pub token_bucket_info : TokenBucket d.Double → d.Double → Info d.Double
  token_bucket_info b cost = record {
    allowed = d.le cost b.tokens;
    retry_after_ms =
        if not (d.le cost b.tokens) && d.lt (d.of_word 0) b.refill_rate
        then d.to_word (d.mul (d.div (d.sub cost b.tokens) b.refill_rate) (d.of_word 1000))
        else 0;
    remaining = b.tokens;
    limit = b.capacity;
    reset_ms = 0;
  }

  unfoldable pub token_bucket_check :
      TokenBucket d.Double → d.Double → ℕ → Result × Info d.Double × TokenBucket d.Double
  unfolding token_bucket_refill actual_cost token_bucket_info
  token_bucket_check b cost now =
      let b' = token_bucket_refill b now in
      let c = actual_cost b' cost in
      (
        if d.le c b'.tokens then allowed else denied,
        token_bucket_info b' c,
        if d.le c b'.tokens then record b' { tokens = d.sub b'.tokens c } else b',
      )

  unfoldable pub token_bucket_peek :
      TokenBucket d.Double → ℕ → Result × Info d.Double × TokenBucket d.Double
  unfolding token_bucket_refill token_bucket_info
  token_bucket_peek b now =
      let b' = token_bucket_refill b now in
      (
        if d.le b'.tokens_per_request b'.tokens then allowed else denied,
        token_bucket_info b' b'.tokens_per_request,
        b',
      )

  unfoldable pub token_bucket_reset : TokenBucket d.Double → ℕ → TokenBucket d.Double
  token_bucket_reset b now = record b { tokens = b.capacity; last_refill_us = now }

-- ===== src/RateLimit.antt =====
-- src/loopyRateLimit.c and src/loopyRateLimit.h: rate limiters by four algorithms, and a limiter of
-- concurrent work. This file has the shared types, the configurations and the names. Every function
-- that reads the clock takes its readings as arguments.
pub mod TokenBucket
pub mod LeakyBucket
pub mod SlidingWindow
pub mod FixedWindow
pub mod Limiter
pub mod Concurrency
mod Tests
use Prim.Native.String.{String}
use loopy.Prelude.{ℕ, ◌/◌, ◌≡◌, ◌⊎◌, refl, Bool, true, false, inl, inr, if◌then◌else◌}
use loopy.Prelude.Doubles.{Doubles}

-- `loopyRateLimitAlgorithm`
pub data Algorithm : Type 0 where
  token_bucket sliding_window leaky_bucket fixed_window : Algorithm

-- `loopyRateLimitResult`
pub data Result : Type 0 where
  allowed error denied : Result

-- `loopyRateLimitInfo`
pub record Info (Double : Type 0) : Type 0 where
  pub allowed : Bool
  pub retry_after_ms : ℕ
  pub remaining : Double
  pub limit : Double
  pub reset_ms : ℕ

pub record TokenBucketConfig (Double : Type 0) : Type 0 where
  pub capacity : Double
  pub refill_rate : Double
  pub tokens_per_request : Double
  pub initial_tokens : Double

pub record SlidingWindowConfig : Type 0 where
  pub window_ms : ℕ
  pub max_requests : ℕ
  pub max_entries : ℕ

pub record LeakyBucketConfig (Double : Type 0) : Type 0 where
  pub drain_rate : Double
  pub queue_capacity : ℕ

pub record FixedWindowConfig : Type 0 where
  pub window_ms : ℕ
  pub max_requests : ℕ

pub record ConcurrencyConfig : Type 0 where
  pub max_concurrent : ℕ
  pub timeout_ms : ℕ
  pub track_per_key : Bool
  pub max_keys : ℕ

-- `SLIDING_WINDOW_DEFAULT_MAX_ENTRIES`
abbrev pub default_max_entries : ℕ
default_max_entries = 10000

-- `getNowMs`, of a reading of `getNowUs`
abbrev pub now_ms : ℕ → ℕ
now_ms us = us / 1000

unfoldable pub token_bucket_config_init :
    (d : Doubles) → d.Double → d.Double → TokenBucketConfig d.Double
token_bucket_config_init d rate burst = record {
  capacity = burst;
  refill_rate = rate;
  tokens_per_request = d.of_word 1;
  initial_tokens = burst;
}

unfoldable pub sliding_window_config_init : ℕ → ℕ → SlidingWindowConfig
sliding_window_config_init window max = record {
  window_ms = window;
  max_requests = max;
  max_entries = default_max_entries;
}

unfoldable pub leaky_bucket_config_init : (d : Doubles) → d.Double → ℕ → LeakyBucketConfig d.Double
leaky_bucket_config_init d rate capacity = record { drain_rate = rate; queue_capacity = capacity }

unfoldable pub fixed_window_config_init : ℕ → ℕ → FixedWindowConfig
fixed_window_config_init window max = record { window_ms = window; max_requests = max }

unfoldable pub concurrency_config_init : ℕ → ConcurrencyConfig
concurrency_config_init max = record {
  max_concurrent = max;
  timeout_ms = 0;
  track_per_key = false;
  max_keys = 0;
}

unfoldable pub algorithm_name : Algorithm → String
algorithm_name token_bucket = "TOKEN_BUCKET"
algorithm_name sliding_window = "SLIDING_WINDOW"
algorithm_name leaky_bucket = "LEAKY_BUCKET"
algorithm_name fixed_window = "FIXED_WINDOW"

unfoldable pub result_name : Result → String
result_name allowed = "ALLOWED"
result_name denied = "DENIED"
result_name error = "ERROR"

-- A request that fits is allowed, any other denied.
abbrev pub IsAnswer : Result → Type 0
IsAnswer r = (r ≡ allowed) ⊎ (r ≡ denied)

pub verdict-IsAnswer : (fits : Bool) → IsAnswer (if fits then allowed else denied)
verdict-IsAnswer true = inl refl
verdict-IsAnswer false = inr refl

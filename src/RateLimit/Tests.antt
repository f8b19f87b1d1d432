-- ===== src/RateLimit/Tests.antt =====
-- src/loopyRateLimit.c: runs of small limiters, and the theorems at concrete inputs.
use loopy.Prelude.{
  ℕ, ◌+◌, ◌-◌, ◌*◌, ◌/◌, ◌≤◌, ◌≡◌, refl, none, some, List, [], ◌∷◌, arith, inr, ltb, leb,
  if◌then◌else◌,
}
use loopy.Prelude.Run.{ok, ◌>>=◌, Returns}
use loopy.Prelude.Array.{load, store}
use loopy.Prelude.Allocator.{Allocator, IsAllocator}
use loopy.Prelude.Words.{word}
use loopy.Prelude.Doubles.{Doubles, IsArithmetic}
use loopy.RateLimit.{SlidingWindowConfig, allowed, denied}
use loopy.RateLimit.TokenBucket.{TokenBucket, token_bucket_check}
use loopy.RateLimit.TokenBucket.Bounds.{IsBucket, token_bucket_check-IsBucket}
use loopy.RateLimit.LeakyBucket.{LeakyBucket, leaky_bucket_check}
use loopy.RateLimit.LeakyBucket.Bounds.{Queued, leaky_bucket_check-Queued}
use loopy.RateLimit.FixedWindow.{FixedWindow}
use loopy.RateLimit.FixedWindow.Grants.{grants, grants-least}
use loopy.RateLimit.FixedWindow.Race.{window_go, begun, late_undo, late_undo-count}
use loopy.RateLimit.SlidingWindow.{
  SlidingWindow, sliding_window_init, sliding_window_check, sliding_window_peek, prune_loop,
}
use loopy.RateLimit.SlidingWindow.Bounds.{IsValid}
use loopy.RateLimit.SlidingWindow.Rate.{cutoff}
use loopy.RateLimit.SlidingWindow.Limit.{granted_times, recent, granted_times_limited}
use loopy.RateLimit.SlidingWindow.Peek.{peek_misleads}
use loopy.RateLimit.Limiter.{Impl, Limiter, rate_limit_check}
use loopy.RateLimit.Limiter.Stats.{Counted, rate_limit_check-Counted}
use loopy.RateLimit.Concurrency.Bound.{AllPaired, taken, held_at_end, race_go-limited}
use loopy.RateLimit.Concurrency.Race.{
  Choice, try_acquire, release, go, race_step, race_go, quiet, overtaking, limit_exceeded,
}

-- Whole numbers in place of doubles.
abbrev whole : Doubles
whole = record {
  Double = ℕ;
  add = λ a b. a + b;
  sub = λ a b. a - b;
  mul = λ a b. a * b;
  div = λ a b. a / b;
  fmin = λ a b. if leb a b then a else b;
  lt = ltb;
  le = leb;
  of_word = λ n. n;
  to_word = λ n. n;
}

abbrev AnyWhole : ℕ → Type 0
AnyWhole _ = Unit {0}

whole-IsArithmetic : IsArithmetic whole AnyWhole
whole-IsArithmetic = record {
  le_trans = λ a b c p q. ground arith;
  lt_le = λ a b p. ground arith;
  between = λ a b p q f. tt;
  fmin_le = λ a b f. ground arith;
  le_fmin = λ a b c p q. ground arith;
  add_nonneg = λ a b p q. ground arith;
  scale_nonneg = λ n m a small some_m small_m f p. ground arith;
  sub_le = λ a b f p q. ground arith;
  le_sub = λ a b f p. ground arith;
}

abbrev roomy : Allocator
roomy = record { zcalloc = λ n s. leb (n * s) 1000; zrealloc = λ bytes. none }

roomy-IsAllocator : IsAllocator roomy
roomy-IsAllocator = record {
  zcalloc_fits = λ n s e. ground arith;
  zrealloc_fits = λ bytes fresh e. ground arith;
}

-- Two requests in 10 ms, in a ring of three cells
abbrev two_in_ten : SlidingWindowConfig
two_in_ten = record { window_ms = 10; max_requests = 2; max_entries = 3 }

granted_times_run :
    (granted_times (λ n. n) (sliding_window_init roomy two_in_ten) [] (1 ∷ 4 ∷ 5 ∷ 12 ∷ 13 ∷ [])
      >>= λ r. ok r.0)
    ≡ ok (1 ∷ 4 ∷ 12 ∷ [])
unfolding granted_times sliding_window_check sliding_window_init prune_loop store load
granted_times_run = refl

granted_times_limited_example :
    Returns
      (λ r. recent (λ n. n) (cutoff 10 13) r.0 ≤ 2)
      (granted_times (λ n. n) (sliding_window_init roomy two_in_ten) [] (1 ∷ 4 ∷ 5 ∷ 12 ∷ 13 ∷ []))
unfolding sliding_window_init
granted_times_limited_example =
    granted_times_limited (λ n. n) roomy two_in_ten roomy-IsAllocator refl
      (1 ∷ 4 ∷ 5 ∷ 12 ∷ 13 ∷ []) (omega arith)

-- A ring of two cells, both filled, under a limit of five
abbrev small_ring : SlidingWindow
small_ring = record {
  entries = record { len = 2; cell = λ i. 7 + i };
  capacity = 2;
  head = 0;
  tail = 0;
  count = 2;
  window_ms = 10;
  max_requests = 5;
}

small_ring-IsValid : IsValid small_ring
small_ring-IsValid = record {
  in_block = omega arith;
  in_word = omega arith;
  tail_in = omega arith;
  head_in = omega arith;
  few = omega arith;
  limited = omega arith;
  ahead = inr refl;
}

peek_of_full_ring :
    Returns (λ r. r.0 ≡ allowed) (sliding_window_peek (λ n. n) small_ring 9)
    × Returns (λ r. r.0 ≡ denied) (sliding_window_check (λ n. n) small_ring 9)
peek_of_full_ring =
    peek_misleads small_ring small_ring-IsValid 9 (λ n. n) refl (omega arith) (omega arith)

abbrev three_per_second : FixedWindow
three_per_second = record { count = 1; window_start = 5000; window_ms = 1000; max_requests = 3 }

abbrev four_times : List (ℕ × ℕ)
four_times = (5001, 5001) ∷ (5002, 5003) ∷ (5004, 5004) ∷ (5999, 6000) ∷ []

grants-least_example :
    ((grants (λ n. n) three_per_second four_times).0 ≡ 2)
    × ((grants (λ n. n) three_per_second four_times).1.count
        ≡ 1 + (grants (λ n. n) three_per_second four_times).0)
grants-least_example =
    grants-least (λ n. n) four_times three_per_second (omega arith) (omega arith) (omega arith)

late_undo_of_three : (window_go 1000 3 (begun 3 5000) (late_undo 5999 6000)).shared.count ≡ word - 1
late_undo_of_three = late_undo-count 1000 3 5000 5999 6000 (omega arith) (omega arith)

abbrev bucket : TokenBucket ℕ
bucket = record {
  tokens = 3;
  capacity = 10;
  refill_rate = 2;
  tokens_per_request = 1;
  last_refill_us = 1000000;
}

bucket-IsBucket : IsBucket whole AnyWhole bucket
bucket-IsBucket = record {
  finite_capacity = tt;
  finite_rate = tt;
  capacity_nonneg = refl;
  rate_nonneg = refl;
  cost_nonneg = refl;
  tokens_nonneg = refl;
  tokens_le = refl;
}

token_bucket_check-IsBucket_example :
    IsBucket whole AnyWhole (token_bucket_check whole bucket 4 3000000).2
token_bucket_check-IsBucket_example =
    token_bucket_check-IsBucket whole AnyWhole whole-IsArithmetic bucket 4 3000000 bucket-IsBucket

abbrev leaky : LeakyBucket ℕ
leaky = record {
  queue_size = 4;
  queue_capacity = 4;
  drain_rate = 1;
  last_drain_us = 0;
  partial_drain = 0;
}

leaky_bucket_check-Queued_example :
    Queued whole leaky
      (leaky_bucket_check whole leaky 2000000).2
      (leaky_bucket_check whole leaky 2000000).0
      2000000
leaky_bucket_check-Queued_example =
    leaky_bucket_check-Queued whole leaky 2000000 (omega arith) (omega arith)

abbrev limiter : Limiter ℕ
limiter = record {
  impl = Impl.sliding_window small_ring;
  total_requests = 7;
  allowed_requests = 5;
  denied_requests = 2;
  peak_rate = 4;
  current_second_requests = 3;
  current_second = 0;
}

rate_limit_check-Counted_example :
    Returns
      (λ r. (l' : Limiter ℕ) × (r.1 ≡ some l') × Counted limiter r.0 l')
      (rate_limit_check whole (some limiter) 1 (λ k. 9000 + k))
rate_limit_check-Counted_example =
    rate_limit_check-Counted whole limiter 1 (λ k. 9000 + k) small_ring-IsValid

limit_exceeded_example : (race_go 3 (quiet 3) overtaking).shared.current ≡ 4
limit_exceeded_example = limit_exceeded 3 (omega arith) (omega arith)

-- Two threads after one slot: the second finds it taken, and gets it after the first one's release.
abbrev taking_turns : List (ℕ × Choice)
taking_turns =
    (0, try_acquire)
    ∷ (1, try_acquire)
    ∷ (0, go)
    ∷ (1, go)
    ∷ (1, go)
    ∷ (0, go)
    ∷ (1, release)
    ∷ (0, try_acquire)
    ∷ (1, go)
    ∷ (0, go)
    ∷ (0, go)
    ∷ (1, go)
    ∷ []

taking_turns-AllPaired : AllPaired 1 2 (quiet 0) (λ j. 0) taking_turns
unfolding race_step
taking_turns-AllPaired = omega arith

race_go-limited_example :
    ((race_go 1 (quiet 0) taking_turns).shared.current ≤ 1)
    × ((race_go 1 (quiet 0) taking_turns).shared.current
        ≡ taken 1
            (race_go 1 (quiet 0) taking_turns)
            (held_at_end 1 (quiet 0) (λ j. 0) taking_turns)
            2)
race_go-limited_example = race_go-limited 1 2 taking_turns (omega arith) taking_turns-AllPaired

ends_taken : (race_go 1 (quiet 0) taking_turns).shared.current ≡ 1
unfolding race_go race_step
ends_taken = refl

-- ===== src/RateLimit/LeakyBucket/Bounds.antt =====
-- src/loopyRateLimit.c: the queue of a leaky bucket stays within its capacity.
use loopy.Prelude.{ℕ, ◌+◌, ◌≤◌, ◌<◌, ◌≡◌, ◌⊎◌, refl, true, arith, ltb, inl, inr, Bool-cases}
use loopy.Prelude.Words.{word, add_word}
use loopy.Prelude.Doubles.{Doubles}
use loopy.RateLimit.{Result, allowed, denied}
use loopy.RateLimit.LeakyBucket.{LeakyBucket, leaky_bucket_drain, leaky_bucket_check}

module _ (d : Doubles) where
  drain_le :
      (b : LeakyBucket d.Double) (now : ℕ) → (leaky_bucket_drain d b now).queue_size ≤ b.queue_size
  unfolding leaky_bucket_drain
  drain_le b now = ground arith

  drain-capacity :
      (b : LeakyBucket d.Double) (now : ℕ)
      → (leaky_bucket_drain d b now).queue_capacity ≡ b.queue_capacity
  unfolding leaky_bucket_drain
  drain-capacity b now = refl

  -- What a check makes of a bucket whose queue is within its capacity: after the drain it queues one
  -- request more and allows it, or the queue is full and it denies it.
  pub record Queued (b b' : LeakyBucket d.Double) (r : Result) (now : ℕ) : Type 0 where
    pub bounded : b'.queue_size ≤ b'.queue_capacity
    pub capacity : b'.queue_capacity ≡ b.queue_capacity
    pub answer :
        ((r ≡ allowed) × (b'.queue_size ≡ (leaky_bucket_drain d b now).queue_size + 1))
        ⊎ ((r ≡ denied) × (b'.queue_size ≡ b.queue_capacity))

  -- A check of a leaky bucket whose queue is within its capacity, for every arithmetic on doubles,
  -- keeps it there; it queues and allows the request after the drain, or denies it with a full queue.
  pub leaky_bucket_check-Queued :
      (b : LeakyBucket d.Double) (now : ℕ)
      → b.queue_size ≤ b.queue_capacity
      → b.queue_capacity < word
      → Queued b (leaky_bucket_check d b now).2 (leaky_bucket_check d b now).0 now
  unfolding leaky_bucket_check
  leaky_bucket_check-Queued b now h w = elim (Bool-cases (ltb b'.queue_size b'.queue_capacity)) [
    | inl e ↦
        rw (e, more e)
          (record { bounded = ground arith; capacity = same; answer = inl (refl, refl) })
    | inr e ↦ rw e (record {
      bounded = omega (arith, less, same);
      capacity = same;
      answer = inr (refl, ground (arith, less, same));
    })
  ]
    where
      b' : LeakyBucket d.Double
      b' = leaky_bucket_drain d b now

      less : b'.queue_size ≤ b.queue_size
      less = drain_le b now

      same : b'.queue_capacity ≡ b.queue_capacity
      same = drain-capacity b now

      more :
          ltb b'.queue_size b'.queue_capacity ≡ true → add_word b'.queue_size 1 ≡ b'.queue_size + 1
      more e = ground (arith, same)

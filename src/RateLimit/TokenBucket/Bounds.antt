-- ===== src/RateLimit/TokenBucket/Bounds.antt =====
-- src/loopyRateLimit.c: a token bucket never holds more tokens than its capacity, nor less than none.
use loopy.Prelude.{ℕ, ◌≡◌, arith, true, inl, inr, Bool-cases}
use loopy.Prelude.Doubles.{Doubles, IsArithmetic}
use loopy.Prelude.Words.{sub_word}
use loopy.RateLimit.TokenBucket.{
  TokenBucket, new_tokens, token_bucket_refill, actual_cost, token_bucket_check,
}

module _ (d : Doubles) (Finite : d.Double → Type 0) where
  -- The configuration is finite and not negative, and the tokens lie between 0 and the capacity.
  pub record IsBucket (b : TokenBucket d.Double) : Type 0 where
    pub finite_capacity : Finite b.capacity
    pub finite_rate : Finite b.refill_rate
    pub capacity_nonneg : d.le (d.of_word 0) b.capacity ≡ true
    pub rate_nonneg : d.le (d.of_word 0) b.refill_rate ≡ true
    pub cost_nonneg : d.le (d.of_word 0) b.tokens_per_request ≡ true
    pub tokens_nonneg : d.le (d.of_word 0) b.tokens ≡ true
    pub tokens_le : d.le b.tokens b.capacity ≡ true

  module _ (i : IsArithmetic d Finite) where
    refill-IsBucket :
        (b : TokenBucket d.Double) (now : ℕ) → IsBucket b → IsBucket (token_bucket_refill d b now)
    unfolding token_bucket_refill new_tokens
    refill-IsBucket b now v = record {
      finite_capacity = v.finite_capacity;
      finite_rate = v.finite_rate;
      capacity_nonneg = v.capacity_nonneg;
      rate_nonneg = v.rate_nonneg;
      cost_nonneg = v.cost_nonneg;
      tokens_nonneg = i.le_fmin b.capacity _ (d.of_word 0) v.capacity_nonneg (
          i.add_nonneg b.tokens (new_tokens d b now) v.tokens_nonneg (
            i.scale_nonneg (sub_word now b.last_refill_us) 1000000 b.refill_rate (omega arith)
              (omega arith) (omega arith) v.finite_rate v.rate_nonneg));
      tokens_le = i.fmin_le b.capacity _ v.finite_capacity;
    }

    actual_cost_nonneg :
        (b : TokenBucket d.Double) (cost : d.Double)
        → IsBucket b
        → d.le (d.of_word 0) (actual_cost d b cost) ≡ true
    unfolding actual_cost
    actual_cost_nonneg b cost v = elim (Bool-cases (d.lt (d.of_word 0) cost)) [
      | inl e ↦ rw e (i.lt_le (d.of_word 0) cost e)
      | inr e ↦ rw e v.cost_nonneg
    ]

    spend-IsBucket :
        (b : TokenBucket d.Double) (c : d.Double)
        → d.le (d.of_word 0) c ≡ true
        → d.le c b.tokens ≡ true
        → IsBucket b
        → IsBucket (record b { tokens = d.sub b.tokens c })
    spend-IsBucket b c p q v = record {
      finite_capacity = v.finite_capacity;
      finite_rate = v.finite_rate;
      capacity_nonneg = v.capacity_nonneg;
      rate_nonneg = v.rate_nonneg;
      cost_nonneg = v.cost_nonneg;
      tokens_nonneg = i.le_sub b.tokens c finite q;
      tokens_le = i.le_trans _ b.tokens b.capacity (i.sub_le b.tokens c finite p q) v.tokens_le;
    }
      where
        finite : Finite b.tokens
        finite = i.between b.tokens b.capacity v.tokens_nonneg v.tokens_le v.finite_capacity

    -- With arithmetic that has the stated laws of IEEE 754 doubles, a check of any cost keeps
    -- the tokens of a bucket with finite, non-negative parameters between none and its capacity.
    pub token_bucket_check-IsBucket :
        (b : TokenBucket d.Double) (cost : d.Double) (now : ℕ)
        → IsBucket b
        → IsBucket (token_bucket_check d b cost now).2
    unfolding token_bucket_check
    token_bucket_check-IsBucket b cost now v =
        elim (Bool-cases (d.le (actual_cost d b' cost) b'.tokens)) [
          | inl e ↦ rw e (spend-IsBucket b' _ (actual_cost_nonneg b' cost v') e v')
          | inr e ↦ rw e v'
        ]
      where
        b' : TokenBucket d.Double
        b' = token_bucket_refill d b now

        v' : IsBucket b'
        v' = refill-IsBucket b now v

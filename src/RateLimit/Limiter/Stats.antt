-- ===== src/RateLimit/Limiter/Stats.antt =====
-- src/loopyRateLimit.c: what the statistics of a limiter count, and how a peek compares with a check.
use loopy.Prelude.{
  ℕ, ◌/◌, ◌≤◌, ◌≡◌, ◌⊎◌, refl, some, arith, ◌==◌, if◌then◌else◌, inl, inr, Bool-cases, [],
}
use loopy.Prelude.Run.{Returns, returns, Returns-bind}
use loopy.Prelude.Words.{add_word}
use loopy.Prelude.Doubles.{Doubles}
use loopy.RateLimit.{Info, Result, allowed, denied, now_ms, IsAnswer, verdict-IsAnswer}
use loopy.RateLimit.TokenBucket.{token_bucket_check}
use loopy.RateLimit.LeakyBucket.{leaky_bucket_check}
use loopy.RateLimit.FixedWindow.{fixed_window_check}
use loopy.RateLimit.SlidingWindow.Bounds.{IsValid, times}
use loopy.RateLimit.SlidingWindow.Limit.{check-Checked}
use loopy.RateLimit.Limiter.{Impl, Limiter, is_allowed, update_stats, impl_check, rate_limit_check}

module _ {Double : Type 0} where
  -- A sliding window is valid; the other algorithms read no memory block.
  abbrev pub ImplValid : Impl Double → Type 0
  ImplValid (Impl.sliding_window w) = IsValid w
  ImplValid _ = Unit {0}

  -- `l'` is `l` after one more answer `r`.
  pub record Counted (l : Limiter Double) (r : Result) (l' : Limiter Double) : Type 0 where
    pub total : l'.total_requests ≡ add_word l.total_requests 1
    pub split :
        ((r ≡ allowed)
          × (l'.allowed_requests ≡ add_word l.allowed_requests 1)
          × (l'.denied_requests ≡ l.denied_requests))
        ⊎ ((r ≡ denied)
            × (l'.allowed_requests ≡ l.allowed_requests)
            × (l'.denied_requests ≡ add_word l.denied_requests 1))
    pub peak : l.peak_rate ≤ l'.peak_rate
    pub valid : ImplValid l'.impl

module _ (d : Doubles) where
  -- An answer that is no error, and a valid state.
  abbrev Sound : Result × Info d.Double × Impl d.Double → Type 0
  Sound (r, i, m) = IsAnswer r × ImplValid m

  impl_check-Sound :
      (m : Impl d.Double) (cost : d.Double) (clock : ℕ → ℕ)
      → ImplValid m
      → Returns Sound (impl_check d m cost clock)
  unfolding impl_check token_bucket_check leaky_bucket_check fixed_window_check
  impl_check-Sound (Impl.token_bucket b) cost clock v = returns (verdict-IsAnswer _, tt)
  impl_check-Sound (Impl.leaky_bucket b) cost clock v = returns (verdict-IsAnswer _, tt)
  impl_check-Sound (Impl.fixed_window w) cost clock v = returns (verdict-IsAnswer _, tt)
  impl_check-Sound (Impl.sliding_window w) cost clock v =
      Returns-bind
        (check-Checked d.of_word w (times w) 0 (now_ms (clock 0)) v (omega arith)
          (record { old = []; expired = tt; whole = refl }))
        (λ r c. returns (c.3, c.0))

  update_stats-Counted :
      (l : Limiter d.Double) (m : Impl d.Double) (r : Result) (us : ℕ)
      → ImplValid m
      → IsAnswer r
      → Counted l r (update_stats (record l { impl = m }) (is_allowed r) us)
  unfolding update_stats
  update_stats-Counted l m r us v a = elim (Bool-cases (now_ms us / 1000 == l.current_second)) [
    | inl e ↦ rw e (record { total = refl; split = split; peak = omega arith; valid = v })
    | inr e ↦ rw e (record { total = refl; split = split; peak = ground arith; valid = v })
  ]
    where
      split :
          ((r ≡ allowed)
            × ((if is_allowed r then add_word l.allowed_requests 1 else l.allowed_requests)
                ≡ add_word l.allowed_requests 1)
            × ((if is_allowed r then l.denied_requests else add_word l.denied_requests 1)
                ≡ l.denied_requests))
          ⊎ ((r ≡ denied)
              × ((if is_allowed r then add_word l.allowed_requests 1 else l.allowed_requests)
                  ≡ l.allowed_requests)
              × ((if is_allowed r then l.denied_requests else add_word l.denied_requests 1)
                  ≡ add_word l.denied_requests 1))
      split = elim a [
        | inl b ↦ inl (b, rw b refl, rw b refl)
        | inr b ↦ inr (b, rw b refl, rw b refl)
      ]

  -- A check of a limiter by any of the four algorithms, where a sliding window is valid (its
  -- block has room for its capacity, its positions and its count lie within that, and no more
  -- than maxRequests are counted), returns, answers allowed or denied, counts the request once
  -- in all and once under its answer, does not lower the peak, and leaves a sliding window
  -- valid.
  pub rate_limit_check-Counted :
      (l : Limiter d.Double) (cost : d.Double) (clock : ℕ → ℕ)
      → ImplValid l.impl
      → Returns
          (λ r. (l' : Limiter d.Double) × (r.1 ≡ some l') × Counted l r.0 l')
          (rate_limit_check d (some l) cost clock)
  unfolding rate_limit_check
  rate_limit_check-Counted l cost clock v =
      Returns-bind (impl_check-Sound l.impl cost clock v)
        (λ r s. returns (_, refl, update_stats-Counted l r.2 r.0 (clock 2) s.1 s.0))

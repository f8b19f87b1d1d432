-- ===== src/RateLimit/SlidingWindow/Bounds.antt =====
-- src/loopyRateLimit.c: the ring of a sliding window stays within its block, and pruning takes away
-- exactly times before the cutoff.
use loopy.Prelude.{
  ℕ, zero, suc, ◌-◌, ◌%◌, ◌≤◌, ◌<◌, ◌≡◌, refl, false, List, [], ◌∷◌, ◌++◌, arith, leb, ◌==◌, inl,
  inr,
}
use loopy.Prelude.Run.{Returns, returns, Returns-if, Returns-map}
use loopy.Prelude.Array.{load-ok}
use loopy.Prelude.Words.{word, add_word}
use loopy.RateLimit.SlidingWindow.{SlidingWindow, prune_loop}
use loopy.Prelude.Ring.{next, next-mod, next_lt, Ahead, Ahead-next, stamps, stamps_pos}

pub record IsValid (w : SlidingWindow) : Type 0 where
  pub in_block : w.capacity ≤ w.entries.len
  pub in_word : w.capacity < word
  pub tail_in : w.tail < w.capacity
  pub head_in : w.head < w.capacity
  pub few : w.count ≤ w.capacity
  pub limited : w.count ≤ w.max_requests
  pub ahead : Ahead w.capacity w.tail w.count w.head

-- The granted times that the window holds, the oldest first.
abbrev pub times : SlidingWindow → List ℕ
times w = stamps w.entries.cell w.capacity w.tail w.count

abbrev pub Before : ℕ → List ℕ → Type 0
Before c [] = Unit {0}
Before c (x ∷ xs) = (x < c) × Before c xs

-- `w'` has the configuration of `w`.
abbrev pub SameLimits : SlidingWindow → SlidingWindow → Type 0
SameLimits w w' =
    (w'.capacity ≡ w.capacity) × (w'.window_ms ≡ w.window_ms) × (w'.max_requests ≡ w.max_requests)

-- `w'` is `w` without some of its oldest times, which lie before `c`.
pub record Pruned (w : SlidingWindow) (c : ℕ) (w' : SlidingWindow) : Type 0 where
  pub valid : IsValid w'
  pub limits : SameLimits w w'
  pub old : List ℕ
  pub expired : Before c old
  pub kept : times w ≡ old ++ times w'

abbrev pub dropped : SlidingWindow → SlidingWindow
dropped w = record w { tail = add_word w.tail 1 % w.capacity; count = w.count - 1 }

module _ (w : SlidingWindow) (v : IsValid w) (pos : 0 < w.count) where
  tail-next : add_word w.tail 1 % w.capacity ≡ next w.capacity w.tail
  tail-next = next-mod w.capacity w.tail v.tail_in v.in_word

  dropped-IsValid : IsValid (dropped w)
  dropped-IsValid = record {
    in_block = v.in_block;
    in_word = v.in_word;
    tail_in = rw tail-next (next_lt w.capacity w.tail v.tail_in);
    head_in = v.head_in;
    few = omega (arith, v.few);
    limited = omega (arith, v.limited);
    ahead = rw tail-next (
        Ahead-next w.capacity w.tail (w.count - 1) w.head v.tail_in v.head_in (omega (arith, v.few))
          one_more);
  }
    where
      one_more : Ahead w.capacity w.tail (suc (w.count - 1)) w.head
      one_more = elim v.ahead [ inl b ↦ inl (omega (arith, b)) | inr b ↦ inr (omega (arith, b)) ]

  times-dropped : times w ≡ w.entries.cell w.tail ∷ times (dropped w)
  times-dropped = rw tail-next (stamps_pos w.entries.cell w.capacity w.tail w.count pos)

  dropped-Pruned :
      (c : ℕ)
      → w.entries.cell w.tail < c
      → (w' : SlidingWindow) → Pruned (dropped w) c w'
      → Pruned w c w'
  dropped-Pruned c h w' p = record {
    valid = p.valid;
    limits = p.limits;
    old = w.entries.cell w.tail ∷ p.old;
    expired = (h, p.expired);
    kept = rw (times-dropped, p.kept) refl;
  }

unchanged-Pruned : (w : SlidingWindow) (c : ℕ) → IsValid w → Pruned w c w
unchanged-Pruned w c v = record {
  valid = v;
  limits = (refl, refl, refl);
  old = [];
  expired = tt;
  kept = refl;
}

pub prune_loop-Pruned :
    (k : ℕ) (w : SlidingWindow) (c : ℕ)
    → IsValid w
    → w.count < k
    → Returns (Pruned w c) (prune_loop k w c)
unfolding prune_loop
prune_loop-Pruned zero w c v h = absurd (omega (arith, h))
prune_loop-Pruned (suc k) w c v h =
    Returns-if (w.count == 0) (λ e. returns (unchanged-Pruned w c v))
      (λ e. rw (load-ok w.entries w.tail (omega (arith, v.tail_in, v.in_block))) (
        Returns-if (leb c (w.entries.cell w.tail)) (λ e'. returns (unchanged-Pruned w c v))
          (λ e'.
            Returns-map
              (prune_loop-Pruned k (dropped w) c (dropped-IsValid w v (pos e))
                (omega (arith, pos e)))
              (dropped-Pruned w v (pos e) c (ground arith)))))
  where
    pos : w.count == 0 ≡ false → 0 < w.count
    pos e = ground arith

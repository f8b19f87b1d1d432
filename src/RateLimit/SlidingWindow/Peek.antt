-- ===== src/RateLimit/SlidingWindow/Peek.antt =====
-- src/loopyRateLimit.c: how the answer of `slidingWindowPeek` compares with `slidingWindowCheck`.
use loopy.Prelude.{
  ℕ, suc, ◌+◌, ◌-◌, ◌≤◌, ◌<◌, ◌≡◌, ◌∙◌, ap, refl, true, false, arith, ltb, leb, ◌==◌,
}
use loopy.Prelude.Run.{ok, Returns, returns, Returns-bind}
use loopy.Prelude.Array.{load-ok}
use loopy.RateLimit.{allowed, denied}
use loopy.RateLimit.SlidingWindow.{
  SlidingWindow, prune_loop, sliding_window_prune, sliding_window_fits, sliding_window_check,
  sliding_window_peek,
}
use loopy.RateLimit.SlidingWindow.Bounds.{IsValid}
use loopy.RateLimit.SlidingWindow.Rate.{cutoff, retry-Returns, reset_ms-Returns}

leb_of_le : (a b : ℕ) → a ≤ b → leb a b ≡ true
leb_of_le a b h = ground arith

-- A window whose oldest time has not expired.
module _ (w : SlidingWindow) (v : IsValid w) (now : ℕ) where
  loop_stays :
      0 < w.count
      → cutoff w.window_ms now ≤ w.entries.cell w.tail
      → prune_loop (suc w.count) w (cutoff w.window_ms now) ≡ ok w
  unfolding prune_loop
  loop_stays h k =
      rw (load-ok w.entries w.tail (omega (arith, v.tail_in, v.in_block)), some_left, fresh) refl
    where
      some_left : w.count == 0 ≡ false
      some_left = ground arith

      fresh : leb (cutoff w.window_ms now) (w.entries.cell w.tail) ≡ true
      fresh = leb_of_le (cutoff w.window_ms now) (w.entries.cell w.tail) k

  prune_stays :
      0 < w.count
      → cutoff w.window_ms now ≤ w.entries.cell w.tail
      → sliding_window_prune w now ≡ ok w
  unfolding sliding_window_prune
  prune_stays h k = ap (λ n. prune_loop n w (cutoff w.window_ms now)) one_more ∙ loop_stays h k
    where
      one_more : w.count + 1 ≡ suc w.count
      one_more = omega arith

  module _ {Double : Type 0} (of_word : ℕ → Double) where
    -- A valid window whose ring is full below the limit, and of whose times none has expired: a peek
    -- answers that a request is allowed, and a check denies it.
    pub peek_misleads :
        w.count ≡ w.capacity
        → w.capacity < w.max_requests
        → cutoff w.window_ms now ≤ w.entries.cell w.tail
        → Returns (λ r. r.0 ≡ allowed) (sliding_window_peek of_word w now)
          × Returns (λ r. r.0 ≡ denied) (sliding_window_check of_word w now)
    unfolding sliding_window_peek sliding_window_check
    peek_misleads full less kept = (
      rw (stays, below)
          (Returns-bind
            {rest = λ retry. ok (
              allowed,
              record {
                allowed = true;
                retry_after_ms = retry;
                remaining = of_word (w.max_requests - w.count);
                limit = of_word w.max_requests;
                reset_ms = w.window_ms;
              },
              w,
            )}
            (retry-Returns w v now true) (λ _ _. returns refl)),
      rw (stays, closed)
          (Returns-bind (retry-Returns w v now false)
            (λ _ _. Returns-bind (reset_ms-Returns w v now) (λ _ _. returns refl))),
    )
      where
        stays : sliding_window_prune w now ≡ ok w
        stays = prune_stays (omega (arith, v.tail_in)) kept

        below : ltb w.count w.max_requests ≡ true
        below = ground arith

        closed : sliding_window_fits w ≡ false
        closed = ground arith

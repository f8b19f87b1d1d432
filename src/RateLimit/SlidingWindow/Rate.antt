-- ===== src/RateLimit/SlidingWindow/Rate.antt =====
-- src/loopyRateLimit.c: the steps of a check of a sliding window, and the history of granted times
-- that the window is compared with.
use loopy.Prelude.{
  ℕ, ◌+◌, ◌-◌, ◌%◌, ◌≤◌, ◌<◌, ◌≡◌, ◌∙◌, sym, refl, ap, Bool, true, not, ◌&&◌, List, [], ◌∷◌, ◌++◌,
  arith, ltb, if◌then◌else◌,
}
use native.Mathlib.Nat.{mod-lt}
use loopy.Prelude.Run.{Returns, returns, Returns-if}
use loopy.Prelude.Lists.{++-assoc}
use loopy.Prelude.Array.{update, load-ok, store-ok}
use loopy.Prelude.Words.{add_word, sub_word}
use loopy.RateLimit.{Result, allowed}
use loopy.RateLimit.SlidingWindow.{
  SlidingWindow, sliding_window_prune, sliding_window_retry, sliding_window_reset_ms,
  sliding_window_take, sliding_window_fits,
}
use loopy.Prelude.Ring.{next, next-mod, next_lt, Ahead-more, stamps, stamps-update}
use loopy.RateLimit.SlidingWindow.Bounds.{
  IsValid, times, Before, SameLimits, Pruned, prune_loop-Pruned,
}

abbrev pub cutoff : ℕ → ℕ → ℕ
cutoff window now = if ltb window now then now - window else 0

pub prune-Pruned :
    (w : SlidingWindow) (now : ℕ)
    → IsValid w
    → Returns (Pruned w (cutoff w.window_ms now)) (sliding_window_prune w now)
unfolding sliding_window_prune
prune-Pruned w now v = prune_loop-Pruned (w.count + 1) w (cutoff w.window_ms now) v (omega arith)

abbrev pub Anything : ℕ → Type 0
Anything _ = Unit {0}

module _ (w : SlidingWindow) (v : IsValid w) (now : ℕ) where
  pub retry-Returns : (fits : Bool) → Returns Anything (sliding_window_retry w fits now)
  unfolding sliding_window_retry
  retry-Returns fits =
      Returns-if (not fits && ltb 0 w.count)
        (λ e. rw (load-ok w.entries w.tail (omega (arith, v.tail_in, v.in_block))) (returns tt))
        (λ e. returns tt)

  pub reset_ms-Returns : Returns Anything (sliding_window_reset_ms w now)
  unfolding sliding_window_reset_ms
  reset_ms-Returns =
      Returns-if (ltb 0 w.count) (λ e. rw (load-ok w.entries newest inside) (returns tt))
        (λ e. returns tt)
    where
      newest : ℕ
      newest = sub_word (add_word w.head w.capacity) 1 % w.capacity

      inside : newest < w.entries.len
      inside = omega (
        arith,
        v.in_block,
        mod-lt (sub_word (add_word w.head w.capacity) 1) {m = w.capacity}
            (omega (arith, v.tail_in)),
      )

  -- A request that fits adds its time to the end.
  abbrev pub Taken : SlidingWindow → Type 0
  Taken w' = IsValid w' × SameLimits w w' × (times w' ≡ times w ++ (now ∷ []))

  pub take-Taken : sliding_window_fits w ≡ true → Returns Taken (sliding_window_take w now)
  unfolding sliding_window_take
  take-Taken e =
      rw (store-ok w.entries w.head now (omega (arith, v.head_in, v.in_block)), head-next, more)
        (returns (
          record {
            in_block = v.in_block;
            in_word = v.in_word;
            tail_in = v.tail_in;
            head_in = next_lt w.capacity w.head v.head_in;
            few = (omega (arith, room.1));
            limited = (omega (arith, room.0));
            ahead = Ahead-more w.capacity w.tail w.count w.head v.tail_in v.head_in room.1 v.ahead;
          },
          (refl, refl, refl),
          appended,
        ))
    where
      room : (w.count < w.max_requests) × (w.count < w.capacity)
      room = (ground arith, ground arith)

      appended :
          stamps (update w.entries.cell w.head now) w.capacity w.tail (w.count + 1)
          ≡ times w ++ (now ∷ [])
      appended =
          ap (stamps (update w.entries.cell w.head now) w.capacity w.tail) (omega arith)
          ∙ stamps-update w.entries.cell w.capacity w.tail w.count w.head now v.tail_in v.head_in
              room.1 v.ahead

      head-next : add_word w.head 1 % w.capacity ≡ next w.capacity w.head
      head-next = next-mod w.capacity w.head v.head_in v.in_word

      more : add_word w.count 1 ≡ w.count + 1
      more = omega (arith, room.1, v.in_word)

-- The times of all requests granted so far, the oldest first, against those that the window holds:
-- the others lie before `c`.
pub record Tracks (hist : List ℕ) (c : ℕ) (w : SlidingWindow) : Type 0 where
  pub old : List ℕ
  pub expired : Before c old
  pub whole : hist ≡ old ++ times w

-- The history after an answer.
abbrev pub noted : List ℕ → Result → ℕ → List ℕ
noted hist allowed now = hist ++ (now ∷ [])
noted hist _ now = hist

Before-mono : (b c : ℕ) (xs : List ℕ) → b ≤ c → Before b xs → Before c xs
Before-mono b c [] h p = tt
Before-mono b c (x ∷ xs) h (p, q) = (omega arith, Before-mono b c xs h q)

Before-append : (c : ℕ) (xs ys : List ℕ) → Before c xs → Before c ys → Before c (xs ++ ys)
Before-append c [] ys p q = q
Before-append c (x ∷ xs) ys (h, p) q = (h, Before-append c xs ys p q)

pub Pruned-Tracks :
    (w w' : SlidingWindow) (hist : List ℕ) (b c : ℕ)
    → b ≤ c
    → Tracks hist b w
    → Pruned w c w'
    → Tracks hist c w'
Pruned-Tracks w w' hist b c h t p = record {
  old = t.old ++ p.old;
  expired = Before-append c t.old p.old (Before-mono b c t.old h t.expired) p.expired;
  whole = t.whole ∙ ap (λ x. t.old ++ x) p.kept ∙ sym (++-assoc t.old p.old (times w'));
}

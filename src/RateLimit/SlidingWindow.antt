-- ===== src/RateLimit/SlidingWindow.antt =====
-- src/loopyRateLimit.c: the sliding window, a ring of the times of the granted requests. Each function
-- runs under the window's mutex, so it is one step; `now` is its reading of `getNowMs`.
pub mod Bounds
pub mod Rate
pub mod Limit
pub mod Peek
use loopy.Prelude.{
  ℕ, zero, suc, ◌+◌, ◌-◌, ◌*◌, ◌%◌, Bool, true, false, not, ◌&&◌, none, some, ltb, leb, ◌==◌,
  if◌then◌else◌,
}
use loopy.Prelude.Run.{Run, ok, fault, out_of_fuel, ◌>>=◌}
use loopy.Prelude.Array.{Array, load, store}
use loopy.Prelude.Allocator.{Allocator}
use loopy.Prelude.Words.{add_word, sub_word}
use loopy.RateLimit.{SlidingWindowConfig, default_max_entries, Info, Result, allowed, denied}

pub record SlidingWindow : Type 0 where
  pub entries : Array ℕ
  pub capacity : ℕ
  pub head : ℕ
  pub tail : ℕ
  pub count : ℕ
  pub window_ms : ℕ
  pub max_requests : ℕ

-- A refused request of `zcalloc` leaves a NULL pointer: no cell can be read.
unfoldable pub sliding_window_init : Allocator → SlidingWindowConfig → SlidingWindow
sliding_window_init a c =
    let n = if ltb 0 c.max_entries then c.max_entries else default_max_entries in
    record {
      entries = record { len = if a.zcalloc n 8 then n else 0; cell = λ _. 0 };
      capacity = n;
      head = 0;
      tail = 0;
      count = 0;
      window_ms = c.window_ms;
      max_requests = c.max_requests;
    }

-- The loop of `slidingWindowPrune`
unfoldable pub prune_loop : ℕ → SlidingWindow → ℕ → Run SlidingWindow
prune_loop zero w cutoff = out_of_fuel
prune_loop (suc k) w cutoff =
    let rest =
      prune_loop k (record w { tail = add_word w.tail 1 % w.capacity; count = w.count - 1 })
        cutoff in
    if w.count == 0
    then ok w
    else do oldest ← load w.entries w.tail; if leb cutoff oldest then ok w else rest

unfoldable pub sliding_window_prune : SlidingWindow → ℕ → Run SlidingWindow
sliding_window_prune w now =
    prune_loop (w.count + 1) w (if ltb w.window_ms now then now - w.window_ms else 0)

-- `retryAfterMs`, where the request `fits` or not
unfoldable pub sliding_window_retry : SlidingWindow → Bool → ℕ → Run ℕ
sliding_window_retry w fits now =
    if not fits && ltb 0 w.count
    then (do
      oldest ← load w.entries w.tail
      let expiry = add_word oldest w.window_ms
      ok (if ltb now expiry then expiry - now else 0))
    else ok 0

-- `resetMs`
unfoldable pub sliding_window_reset_ms : SlidingWindow → ℕ → Run ℕ
sliding_window_reset_ms w now =
    if ltb 0 w.count
    then (do
      newest ← load w.entries (sub_word (add_word w.head w.capacity) 1 % w.capacity)
      ok (sub_word (add_word newest w.window_ms) now))
    else ok w.window_ms

-- The granted request's time goes to the head.
unfoldable pub sliding_window_take : SlidingWindow → ℕ → Run SlidingWindow
sliding_window_take w now = do
  e ← store w.entries w.head now
  ok (record w { entries = e; head = add_word w.head 1 % w.capacity; count = add_word w.count 1 })

abbrev pub sliding_window_fits : SlidingWindow → Bool
sliding_window_fits w = ltb w.count w.max_requests && ltb w.count w.capacity

module _ {Double : Type 0} (of_word : ℕ → Double) where
  unfoldable pub sliding_window_check :
      SlidingWindow → ℕ → Run (Result × Info Double × SlidingWindow)
  unfolding sliding_window_prune sliding_window_retry sliding_window_reset_ms sliding_window_take
  sliding_window_check w now = do
    w' ← sliding_window_prune w now
    let fits = sliding_window_fits w'
    retry ← sliding_window_retry w' fits now
    reset ← sliding_window_reset_ms w' now
    w'' ← if fits then sliding_window_take w' now else ok w'
    ok (
      if fits then allowed else denied,
      record {
        allowed = fits;
        retry_after_ms = retry;
        remaining = of_word (w'.max_requests - w'.count);
        limit = of_word w'.max_requests;
        reset_ms = reset;
      },
      w'',
    )

  unfoldable pub sliding_window_peek :
      SlidingWindow → ℕ → Run (Result × Info Double × SlidingWindow)
  unfolding sliding_window_prune sliding_window_retry
  sliding_window_peek w now = do
    w' ← sliding_window_prune w now
    let fits = ltb w'.count w'.max_requests
    retry ← sliding_window_retry w' fits now
    ok (
      if fits then allowed else denied,
      record {
        allowed = fits;
        retry_after_ms = retry;
        remaining = of_word (w'.max_requests - w'.count);
        limit = of_word w'.max_requests;
        reset_ms = w'.window_ms;
      },
      w',
    )

unfoldable pub sliding_window_reset : SlidingWindow → SlidingWindow
sliding_window_reset w = record w { head = 0; tail = 0; count = 0 }

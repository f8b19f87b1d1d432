-- ===== src/RateLimit/FixedWindow.antt =====
-- src/loopyRateLimit.c: the fixed window, each function as one thread runs it undisturbed. `now` is
-- the reading of `getNowMs` in `fixedWindowMaybeReset`, `later` the one for `info`.
pub mod Grants
pub mod Race
use loopy.Prelude.{ℕ, ◌-◌, Bool, true, false, ltb, leb, if◌then◌else◌}
use loopy.Prelude.Words.{add_word, sub_word}
use loopy.RateLimit.{FixedWindowConfig, Info, Result, allowed, denied}

pub record FixedWindow : Type 0 where
  pub count : ℕ
  pub window_start : ℕ
  pub window_ms : ℕ
  pub max_requests : ℕ

unfoldable pub fixed_window_init : FixedWindowConfig → ℕ → FixedWindow
fixed_window_init c now = record {
  count = 0;
  window_start = now;
  window_ms = c.window_ms;
  max_requests = c.max_requests;
}

unfoldable pub fixed_window_maybe_reset : FixedWindow → ℕ → FixedWindow
fixed_window_maybe_reset w now =
    if leb (add_word w.window_start w.window_ms) now
    then record w { count = 0; window_start = now }
    else w

-- `windowStart + fw->windowMs > now ? windowStart + fw->windowMs - now : 0`
unfoldable pub fixed_window_reset_ms : FixedWindow → ℕ → ℕ
fixed_window_reset_ms w now =
    let end = add_word w.window_start w.window_ms in if ltb now end then end - now else 0

module _ {Double : Type 0} (of_word : ℕ → Double) where
  unfoldable pub fixed_window_check : FixedWindow → ℕ → ℕ → Result × Info Double × FixedWindow
  unfolding fixed_window_maybe_reset fixed_window_reset_ms
  fixed_window_check w now later =
      let w' = fixed_window_maybe_reset w now in
      let fits = ltb w'.count w'.max_requests in
      let taken = add_word w'.count 1 in
      (
        if fits then allowed else denied,
        record {
          allowed = fits;
          retry_after_ms = if fits then 0 else fixed_window_reset_ms w' later;
          remaining = of_word (if fits then sub_word (sub_word w'.max_requests w'.count) 1 else 0);
          limit = of_word w'.max_requests;
          reset_ms = fixed_window_reset_ms w' later;
        },
        record w' { count = if fits then taken else sub_word taken 1 },
      )

  unfoldable pub fixed_window_peek : FixedWindow → ℕ → ℕ → Result × Info Double × FixedWindow
  unfolding fixed_window_maybe_reset fixed_window_reset_ms
  fixed_window_peek w now later =
      let w' = fixed_window_maybe_reset w now in
      let fits = ltb w'.count w'.max_requests in
      (
        if fits then allowed else denied,
        record {
          allowed = fits;
          retry_after_ms = if fits then 0 else fixed_window_reset_ms w' later;
          remaining = of_word (if fits then w'.max_requests - w'.count else 0);
          limit = of_word w'.max_requests;
          reset_ms = fixed_window_reset_ms w' later;
        },
        w',
      )

unfoldable pub fixed_window_reset : FixedWindow → ℕ → FixedWindow
fixed_window_reset w now = record w { count = 0; window_start = now }

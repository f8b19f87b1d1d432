-- ===== src/RateLimit/FixedWindow/Race.antt =====
-- src/loopyRateLimit.c: `fixedWindowCheck` of several threads, one atomic operation at a time. A
-- schedule says which thread goes on, and for a thread that begins a check, at what time. The
-- readings for `info` change nothing and are left out.
use loopy.Prelude.{
  ℕ, ◌-◌, ◌≤◌, ◌<◌, ◌≡◌, Bool, true, false, List, [], ◌∷◌, arith, ltb, leb, ◌==◌, if◌then◌else◌,
}
use loopy.Prelude.Words.{word, add_word, sub_word}

-- Where a thread stands, with its reading of the clock.
pub data Pc : Type 0 where
  idle : Pc
  -- the first load of `windowStart`, the mutex, and the second load
  load_start : ℕ → Pc
  lock_reset : ℕ → Pc
  load_again : ℕ → Pc
  -- the two stores of a reset, and `pthread_mutex_unlock`
  store_count : ℕ → Pc
  store_start : ℕ → Pc
  unlock : Pc
  -- `atomic_fetch_add`, and the `atomic_fetch_sub` of a denied request
  add_count : Pc
  undo : Pc

pub data Choice : Type 0 where
  check_at : ℕ → Choice
  go : Choice

pub record Shared : Type 0 where
  pub count : ℕ
  pub window_start : ℕ
  pub locked : Bool

pub record World : Type 0 where
  pub shared : Shared
  pub pc : ℕ → Pc

-- `windowMs` and `maxRequests`.
module _ (window max : ℕ) where
  unfoldable pub window_step : Choice → Pc → Shared → Pc × Shared
  window_step (check_at now) idle s = (load_start now, s)
  window_step go (load_start now) s =
      (if leb (add_word s.window_start window) now then lock_reset now else add_count, s)
  window_step go (lock_reset now) s =
      if s.locked then (lock_reset now, s) else (load_again now, record s { locked = true })
  window_step go (load_again now) s =
      (if leb (add_word s.window_start window) now then store_count now else unlock, s)
  window_step go (store_count now) s = (store_start now, record s { count = 0 })
  window_step go (store_start now) s = (unlock, record s { window_start = now })
  window_step go unlock s = (add_count, record s { locked = false })
  window_step go add_count s =
      (if ltb s.count max then idle else undo, record s { count = add_word s.count 1 })
  window_step go undo s = (idle, record s { count = sub_word s.count 1 })
  window_step _ c s = (c, s)

  unfoldable pub window_go : World → List (ℕ × Choice) → World
  unfolding window_step
  window_go w [] = w
  window_go w ((i, c) ∷ rest) =
      let (c', s) = window_step c (w.pc i) w.shared in
      window_go (record { shared = s; pc = λ j. if i == j then c' else w.pc j }) rest

-- All threads idle, and `n` requests counted since `start`.
abbrev pub begun : ℕ → ℕ → World
begun n start = record {
  shared = record { count = n; window_start = start; locked = false };
  pc = λ _. idle;
}

-- Thread 0 counts a request at `now` and is to undo it. Thread 1 begins a check at `later` and resets
-- the count. Thread 0 goes on.
abbrev pub late_undo : ℕ → ℕ → List (ℕ × Choice)
late_undo now later =
    (0, check_at now)
    ∷ (0, go)
    ∷ (0, go)
    ∷ (1, check_at later)
    ∷ (1, go)
    ∷ (1, go)
    ∷ (1, go)
    ∷ (1, go)
    ∷ (0, go)
    ∷ []

open_at : (end now : ℕ) → now < end → leb end now ≡ false
open_at end now h = ground arith

ended_at : (end later : ℕ) → end ≤ later → leb end later ≡ true
ended_at end later h = ground arith

full : (max : ℕ) → ltb max max ≡ false
full max = ground arith

-- A request that a full window denies at a time inside of it, undone after another thread has reset
-- the count at a time behind the window, leaves the count 2^64 - 1 instead of 0.
pub late_undo-count :
    (window max start now later : ℕ)
    → now < add_word start window
    → add_word start window ≤ later
    → (window_go window max (begun max start) (late_undo now later)).shared.count ≡ word - 1
unfolding window_go window_step
late_undo-count window max start now later h k =
    simp (open_at (add_word start window) now h, ended_at (add_word start window) later k, full max)

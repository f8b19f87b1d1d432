-- ===== src/RateLimit/Concurrency/Race.antt =====
-- src/loopyRateLimit.c: `loopyConcurrencyTryAcquire`, `loopyConcurrencyAcquire` and
-- `loopyConcurrencyRelease` of several threads, one atomic operation at a time. A schedule says which
-- thread goes on, and where a compare-and-exchange fails for no reason, a wait ends or a time is up.
-- The statistics, which no test of the code reads, are left out. A wait may end at any time, as
-- POSIX allows, so signals need no state.
use loopy.Prelude.{
  ℕ, ◌+◌, ◌-◌, ◌<◌, ◌≡◌, Bool, true, false, List, [], ◌∷◌, arith, ltb, ◌==◌, if◌then◌else◌,
}
use loopy.Prelude.Words.{word, add_word, sub_word}

-- Where a thread stands; `blocking` tells `loopyConcurrencyAcquire` from `loopyConcurrencyTryAcquire`.
pub data Pc : Type 0 where
  idle : Pc
  -- the load of the fast path, and its exchange with what was loaded
  load_fast : Bool → Pc
  swap_fast : Bool → ℕ → Pc
  -- before `pthread_mutex_lock` of the slow path, and inside of `pthread_cond_wait`
  lock_slow : Pc
  wait_slow : Pc
  -- the time is up, and `pthread_cond_timedwait` takes the mutex again
  lock_expired : Pc
  -- under the mutex: the test of the loop, `atomic_fetch_add`, and the two ways out
  test_slow : Pc
  add_slow : Pc
  unlock : Pc
  -- `atomic_fetch_sub` of a release, its undoing, and the mutex around the signal
  sub_release : Pc
  restore : Pc
  lock_signal : Pc

pub data Choice : Type 0 where
  try_acquire acquire release : Choice
  go : Choice
  -- the exchange fails, or the time is up
  fail : Choice

pub record Shared : Type 0 where
  pub current : ℕ
  pub locked : Bool

pub record World : Type 0 where
  pub shared : Shared
  pub pc : ℕ → Pc

-- The limiter's `maxConcurrent`.
module _ (max : ℕ) where
  unfoldable pub race_step : Choice → Pc → Shared → Pc × Shared
  race_step try_acquire idle s = (load_fast false, s)
  race_step acquire idle s = (load_fast true, s)
  race_step release idle s = (sub_release, s)
  race_step go (load_fast b) s =
      (if ltb s.current max then swap_fast b s.current else if b then lock_slow else idle, s)
  race_step go (swap_fast b c) s =
      if s.current == c
      then (idle, record s { current = add_word c 1 })
      else (if ltb s.current max then swap_fast b s.current else if b then lock_slow else idle, s)
  race_step fail (swap_fast b c) s =
      (if ltb s.current max then swap_fast b s.current else if b then lock_slow else idle, s)
  race_step go lock_slow s =
      if s.locked then (lock_slow, s) else (test_slow, record s { locked = true })
  race_step go test_slow s =
      if ltb s.current max then (add_slow, s) else (wait_slow, record s { locked = false })
  race_step fail test_slow s = if ltb s.current max then (add_slow, s) else (unlock, s)
  race_step go wait_slow s = (lock_slow, s)
  race_step fail wait_slow s = (lock_expired, s)
  race_step go lock_expired s =
      if s.locked then (lock_expired, s) else (unlock, record s { locked = true })
  race_step go add_slow s = (unlock, record s { current = add_word s.current 1 })
  race_step go unlock s = (idle, record s { locked = false })
  race_step go sub_release s =
      (if s.current == 0 then restore else lock_signal, record s { current = sub_word s.current 1 })
  race_step go restore s = (idle, record s { current = add_word s.current 1 })
  race_step go lock_signal s =
      if s.locked then (lock_signal, s) else (unlock, record s { locked = true })
  race_step _ c s = (c, s)

  unfoldable pub race_go : World → List (ℕ × Choice) → World
  unfolding race_step
  race_go w [] = w
  race_go w ((i, c) ∷ rest) =
      let (c', s) = race_step c (w.pc i) w.shared in
      race_go (record { shared = s; pc = λ j. if i == j then c' else w.pc j }) rest

-- All threads idle, and `n` slots taken.
abbrev pub quiet : ℕ → World
quiet n = record { shared = record { current = n; locked = false }; pc = λ _. idle }

-- Thread 0 acquires and finds no slot, thread 1 releases one, thread 0 tests, thread 2 takes the slot
-- without the mutex, and thread 0 takes another.
abbrev pub overtaking : List (ℕ × Choice)
overtaking =
    (0, acquire)
    ∷ (0, go)
    ∷ (1, release)
    ∷ (1, go)
    ∷ (0, go)
    ∷ (0, go)
    ∷ (2, try_acquire)
    ∷ (2, go)
    ∷ (2, go)
    ∷ (0, go)
    ∷ (0, go)
    ∷ (1, go)
    ∷ (1, go)
    ∷ []

irreflexive : (n : ℕ) → ltb n n ≡ false
irreflexive n = ground arith

same : (n : ℕ) → n == n ≡ true
same n = ground arith

positive : (n : ℕ) → 0 < n → n == 0 ≡ false
positive n h = ground arith

back : (n : ℕ) → 0 < n → n + 1 < word → sub_word n 1 ≡ n - 1
back n h k = omega arith

below : (n : ℕ) → 0 < n → n + 1 < word → ltb (n - 1) n ≡ true
below n h k = ground arith

again : (n : ℕ) → 0 < n → n + 1 < word → add_word (n - 1) 1 ≡ n
again n h k = omega arith

above : (n : ℕ) → n + 1 < word → add_word n 1 ≡ n + 1
above n k = omega arith

-- For every limit above 0 and below 2^64 - 1: with all slots taken, a blocking acquisition, a release
-- and a non-blocking acquisition in the order `overtaking` leave one slot more than the limit taken.
pub limit_exceeded :
    (max : ℕ)
    → 0 < max
    → max + 1 < word
    → (race_go max (quiet max) overtaking).shared.current ≡ max + 1
unfolding race_go race_step
limit_exceeded max h k = simp (
  irreflexive max,
  positive max h,
  back max h k,
  below max h k,
  same (max - 1),
  again max h k,
  above max k,
)

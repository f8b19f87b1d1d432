-- ===== src/ConcurrencyPool/Threads.antt =====
-- src/loopyConcurrencyPool.c: acquisitions and releases of several threads, one atomic operation at a
-- time. A thread stands before its next atomic operation; a schedule says which thread goes on, and
-- where a weak compare-and-exchange fails for no reason. The peaks and the statistics, which no test
-- of this code reads, are left out, and so are changes of the users while threads run.
use loopy.Prelude.{ℕ, List, [], ◌∷◌, ltb, ◌==◌, if◌then◌else◌}
use loopy.Prelude.Words.{add_word, sub_word}
use loopy.ConcurrencyPool.{write}

-- The next atomic operation of a thread, with its local variables: the user, `count`, and what
-- it has loaded.
pub data Pc : Type 0 where
  idle : Pc
  -- `atomic_load(&pool->globalActive)` and the exchange behind it
  load_global : ℕ → ℕ → Pc
  swap_global : ℕ → ℕ → ℕ → Pc
  -- `atomic_load(&user->active)` and the exchange behind it
  load_user : ℕ → ℕ → Pc
  swap_user : ℕ → ℕ → ℕ → Pc
  -- `atomic_fetch_sub(&pool->globalActive, count)` of a refused acquisition
  roll_back : ℕ → Pc
  -- `atomic_fetch_add(&pool->globalActive, count)` where the pool has no limit
  add_global : ℕ → Pc
  -- the load and the exchange of a release, and the subtraction behind them
  load_release : ℕ → ℕ → Pc
  swap_release : ℕ → ℕ → ℕ → Pc
  sub_global : ℕ → Pc
  -- `atomic_exchange(&user->active, 0)`
  exchange_all : ℕ → Pc

-- What the schedule picks for a thread.
pub data Choice : Type 0 where
  acquire : ℕ → ℕ → Choice
  release : ℕ → ℕ → Choice
  release_all : ℕ → Choice
  go : Choice
  -- the exchange fails although the value is the expected one
  fail : Choice

pub record Shared : Type 0 where
  pub global : ℕ
  pub active : ℕ → ℕ

pub record World : Type 0 where
  pub shared : Shared
  pub pc : ℕ → Pc

-- The limits of the pool and of its users.
module _ (global_limit : ℕ) (limit : ℕ → ℕ) where
  unfoldable pub thread_step : Choice → Pc → Shared → Pc × Shared
  thread_step (acquire u n) idle s =
      (if n == 0 then idle else if global_limit == 0 then load_user u n else load_global u n, s)
  thread_step (release u n) idle s = (if n == 0 then idle else load_release u n, s)
  thread_step (release_all u) idle s = (exchange_all u, s)
  thread_step go (load_global u n) s =
      (if ltb global_limit (add_word s.global n) then idle else swap_global u n s.global, s)
  thread_step go (swap_global u n g) s =
      if s.global == g
      then (load_user u n, record s { global = add_word g n })
      else (load_global u n, s)
  thread_step fail (swap_global u n g) s = (load_global u n, s)
  thread_step go (load_user u n) s = (
    if ltb (limit u) (add_word (s.active u) n)
        then if global_limit == 0 then idle else roll_back n
        else swap_user u n (s.active u),
    s,
  )
  thread_step go (swap_user u n a) s =
      if s.active u == a
      then (
        if global_limit == 0 then add_global n else idle,
        record s { active = write s.active u (add_word a n) },
      )
      else (load_user u n, s)
  thread_step fail (swap_user u n a) s = (load_user u n, s)
  thread_step go (roll_back n) s = (idle, record s { global = sub_word s.global n })
  thread_step go (add_global n) s = (idle, record s { global = add_word s.global n })
  thread_step go (load_release u n) s =
      let m = if ltb (s.active u) n then s.active u else n in
      (if m == 0 then idle else swap_release u m (s.active u), s)
  thread_step go (swap_release u n a) s =
      if s.active u == a
      then (sub_global n, record s { active = write s.active u (sub_word a n) })
      else (load_release u n, s)
  thread_step fail (swap_release u n a) s = (load_release u n, s)
  thread_step go (sub_global n) s = (idle, record s { global = sub_word s.global n })
  thread_step go (exchange_all u) s = (
    if ltb 0 (s.active u) then sub_global (s.active u) else idle,
    record s { active = write s.active u 0 },
  )
  thread_step _ c s = (c, s)

  unfoldable pub step : World → ℕ → Choice → World
  unfolding thread_step
  step w i c =
      let (c', s) = thread_step c (w.pc i) w.shared in record { shared = s; pc = write w.pc i c' }

  -- A schedule names the threads in the order in which they go on.
  unfoldable pub run : World → List (ℕ × Choice) → World
  unfolding step
  run w [] = w
  run w ((i, c) ∷ rest) = run (step w i c) rest

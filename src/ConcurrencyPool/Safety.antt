-- ===== src/ConcurrencyPool/Safety.antt =====
-- src/loopyConcurrencyPool.c: under every interleaving of the atomic operations both limits hold, and
-- no slot is lost. This is the claim of the comment in `loopyConcurrencyUserTryAcquire`.
use loopy.Prelude.{
  ℕ, ◌+◌, ◌-◌, ◌≤◌, ◌<◌, ◌≡◌, ◌≢◌, refl, ap, false, List, [], ◌∷◌, arith, ltb, ◌==◌, if◌then◌else◌,
  Bool-cases, inl, inr,
}
use loopy.Prelude.Words.{word, add_word, sub_word}
use loopy.Prelude.Sums.{sum_to, sum_to-change, le-sum_to, sum_to-zero}
use loopy.ConcurrencyPool.{write}
use loopy.ConcurrencyPool.Threads.{
  Pc, idle, load_global, swap_global, load_user, swap_user, roll_back, add_global, load_release,
  swap_release, sub_global, exchange_all, Choice, acquire, release, release_all, go, fail, Shared,
  World, thread_step, step, run,
}

-- The slots that the pool counts for a thread beside those of the users.
abbrev pub debt : Pc → ℕ
debt (load_user u n) = n
debt (swap_user u n a) = n
debt (roll_back n) = n
debt (sub_global n) = n
debt _ = 0

write-other : (f : ℕ → Pc) (i j : ℕ) (v : Pc) → j ≢ i → write f i v j ≡ f j
write-other f i j v ne = ground arith

-- A pool with a limit `g`, and `m` users.
module _ (g : ℕ) (limit : ℕ → ℕ) (m : ℕ) where
  -- A request names a user, and makes no counter overflow.
  abbrev pub IsSmall : ℕ → ℕ → Type 0
  IsSmall u n = (u < m) × (g + n < word) × (limit u + n < word)

  -- What the schedule may ask of a thread.
  abbrev pub IsFair : Choice → Type 0
  IsFair (acquire u n) = IsSmall u n
  IsFair (release u n) = u < m
  IsFair (release_all u) = u < m
  IsFair _ = Unit {0}

  abbrev pub PcOk : Pc → Type 0
  PcOk (load_global u n) = IsSmall u n
  PcOk (swap_global u n a) = IsSmall u n × (a + n ≤ g)
  PcOk (load_user u n) = IsSmall u n
  PcOk (swap_user u n a) = IsSmall u n × (a + n ≤ limit u)
  PcOk (add_global n) = ⊥
  PcOk (load_release u n) = u < m
  PcOk (swap_release u n a) = (u < m) × (n ≤ a)
  PcOk (exchange_all u) = u < m
  PcOk _ = Unit {0}

  pub record SharedOk (s : Shared) : Type 0 where
    pub in_pool : s.global ≤ g
    pub in_user : (u : ℕ) → s.active u ≤ limit u

  -- What one atomic operation does to the balance: it changes the slots of at most one user.
  pub record Moves (c : Pc) (s : Shared) (r : Pc × Shared) : Type 0 where
    pub pc_ok : PcOk r.0
    pub shared_ok : SharedOk r.1
    pub user : ℕ
    pub known : user < m
    pub others : (v : ℕ) → v ≢ user → r.1.active v ≡ s.active v
    pub balance : r.1.global + s.active user + debt c ≡ s.global + r.1.active user + debt r.0

  pub record IsBounded : Type 0 where
    pub limited : 0 < g
    pub pool_word : g < word
    pub user_word : (u : ℕ) → limit u < word
    pub some_user : 0 < m

  module _ (b : IsBounded) where
    stays : (c : Pc) (s : Shared) → PcOk c → SharedOk s → Moves c s (c, s)
    stays c s p q = record {
      pc_ok = p;
      shared_ok = q;
      user = 0;
      known = b.some_user;
      others = λ v ne. refl;
      balance = refl;
    }

    -- A step that changes no counter and owes as much as before.
    turns : (c c' : Pc) (s : Shared) → PcOk c' → SharedOk s → debt c ≡ debt c' → Moves c s (c', s)
    turns c c' s p q e = record {
      pc_ok = p;
      shared_ok = q;
      user = 0;
      known = b.some_user;
      others = λ v ne. refl;
      balance = omega (arith, e);
    }

    -- A step that changes the pool's counter alone.
    counts :
        (c c' : Pc) (s : Shared) (n : ℕ)
        → PcOk c'
        → SharedOk s
        → n ≤ g
        → n + debt c ≡ s.global + debt c'
        → Moves c s (c', record s { global = n })
    counts c c' s n p q h e = record {
      pc_ok = p;
      shared_ok = record { in_pool = h; in_user = q.in_user };
      user = 0;
      known = b.some_user;
      others = λ v ne. refl;
      balance = omega (arith, e);
    }

    -- A step that changes the counter of one user alone.
    assigns :
        (c c' : Pc) (s : Shared) (u k : ℕ)
        → u < m
        → PcOk c'
        → SharedOk s
        → k ≤ limit u
        → s.active u + debt c ≡ k + debt c'
        → Moves c s (c', record s { active = write s.active u k })
    assigns c c' s u k known p q h e = record {
      pc_ok = p;
      shared_ok = record { in_pool = q.in_pool; in_user = λ v. ground (arith, q.in_user v) };
      user = u;
      known = known;
      others = λ v ne. ground arith;
      balance = ground arith;
    }

    limited_pool : (g == 0) ≡ false
    limited_pool = ground (arith, b.limited)

    go-Moves :
        (c : Pc) (s : Shared)
        → PcOk c
        → SharedOk s
        → debt c ≤ s.global
        → Moves c s (thread_step g limit go c s)
    unfolding thread_step
    go-Moves idle s p q d = stays idle s p q
    go-Moves (load_global u n) s p q d = elim (Bool-cases (ltb g (add_word s.global n))) [
      | inl e ↦ rw e (turns _ idle s tt q refl)
      | inr e ↦
          let exact : add_word s.global n ≡ s.global + n = omega (arith, p.1, q.in_pool) in
          rw e (turns _ (swap_global u n s.global) s (p, ground (arith, exact)) q refl)
    ]
    go-Moves (swap_global u n a) s p q d = elim (Bool-cases (s.global == a)) [
      | inl e ↦
          let same : s.global ≡ a = ground arith in
          let exact : add_word a n ≡ a + n = omega (arith, p.0, p.1) in
          rw (e, exact) (counts _ (load_user u n) s (a + n) p.0 q p.1 (omega (arith, same)))
      | inr e ↦ rw e (turns _ (load_global u n) s p.0 q refl)
    ]
    go-Moves (load_user u n) s p q d = elim (Bool-cases (ltb (limit u) (add_word (s.active u) n))) [
      | inl e ↦ rw (e, limited_pool) (turns _ (roll_back n) s tt q refl)
      | inr e ↦
          let exact : add_word (s.active u) n ≡ s.active u + n = omega (arith, p.2, q.in_user u) in
          rw e (turns _ (swap_user u n (s.active u)) s (p, ground (arith, exact)) q refl)
    ]
    go-Moves (swap_user u n a) s p q d = elim (Bool-cases (s.active u == a)) [
      | inl e ↦
          let same : s.active u ≡ a = ground arith in
          let exact : add_word a n ≡ a + n = omega (arith, p.0, p.1) in
          rw (e, limited_pool, exact)
            (assigns _ idle s u (a + n) p.0.0 tt q p.1 (omega (arith, same)))
      | inr e ↦ rw e (turns _ (load_user u n) s p.0 q refl)
    ]
    go-Moves (roll_back n) s p q d =
        let exact : sub_word s.global n ≡ s.global - n = omega (arith, d, q.in_pool, b.pool_word) in
        rw exact (counts _ idle s (s.global - n) tt q (omega (arith, q.in_pool)) (omega (arith, d)))
    go-Moves (add_global n) s p q d = absurd p
    go-Moves (load_release u n) s p q d =
        let k = if ltb (s.active u) n then s.active u else n in
        elim (Bool-cases (k == 0)) [
          | inl e ↦ rw e (turns _ idle s tt q refl)
          | inr e ↦ rw e (turns _ (swap_release u k (s.active u)) s (p, ground arith) q refl)
        ]
    go-Moves (swap_release u n a) s p q d = elim (Bool-cases (s.active u == a)) [
      | inl e ↦
          let same : s.active u ≡ a = ground arith in
          let exact : sub_word a n ≡ a - n = omega (arith, same, p.1, q.in_user u, b.user_word u) in
          rw (e, exact)
            (assigns _ (sub_global n) s u (a - n) p.0 tt q (omega (arith, same, q.in_user u))
              (omega (arith, same, p.1)))
      | inr e ↦ rw e (turns _ (load_release u n) s p.0 q refl)
    ]
    go-Moves (sub_global n) s p q d =
        let exact : sub_word s.global n ≡ s.global - n = omega (arith, d, q.in_pool, b.pool_word) in
        rw exact (counts _ idle s (s.global - n) tt q (omega (arith, q.in_pool)) (omega (arith, d)))
    go-Moves (exchange_all u) s p q d = elim (Bool-cases (ltb 0 (s.active u))) [
      | inl e ↦ rw e (assigns _ (sub_global (s.active u)) s u 0 p tt q (omega arith) (omega arith))
      | inr e ↦ rw e (assigns _ idle s u 0 p tt q (omega arith) (ground arith))
    ]

    fail-Moves :
        (c : Pc) (s : Shared) → PcOk c → SharedOk s → Moves c s (thread_step g limit fail c s)
    unfolding thread_step
    fail-Moves (swap_global u n a) s p q = turns _ (load_global u n) s p.0 q refl
    fail-Moves (swap_user u n a) s p q = turns _ (load_user u n) s p.0 q refl
    fail-Moves (swap_release u n a) s p q = turns _ (load_release u n) s p.0 q refl
    fail-Moves c s p q = stays c s p q

    -- A call starts where a thread is idle, and is ignored elsewhere.
    call-Moves :
        (x : Choice) (c : Pc) (s : Shared)
        → IsFair x
        → PcOk c
        → SharedOk s
        → debt c ≤ s.global
        → Moves c s (thread_step g limit x c s)
    unfolding thread_step
    call-Moves (acquire u n) idle s f p q d = elim (Bool-cases (n == 0)) [
      | inl e ↦ rw e (stays idle s tt q)
      | inr e ↦ rw (e, limited_pool) (turns idle (load_global u n) s f q refl)
    ]
    call-Moves (release u n) idle s f p q d = elim (Bool-cases (n == 0)) [
      | inl e ↦ rw e (stays idle s tt q)
      | inr e ↦ rw e (turns idle (load_release u n) s f q refl)
    ]
    call-Moves (release_all u) idle s f p q d = turns idle (exchange_all u) s f q refl
    call-Moves go c s f p q d = go-Moves c s p q d
    call-Moves fail c s f p q d = fail-Moves c s p q
    call-Moves _ c s f p q d = stays c s p q

    -- With `k` threads: the limits hold, and the pool counts the slots of its users and those that a
    -- thread has reserved or is about to give back.
    pub record IsSafe (k : ℕ) (w : World) : Type 0 where
      pub shared_ok : SharedOk w.shared
      pub pcs_ok : (i : ℕ) → PcOk (w.pc i)
      pub balance : w.shared.global ≡ sum_to w.shared.active m + sum_to (λ i. debt (w.pc i)) k

    step-IsSafe :
        (k i : ℕ) (x : Choice) (w : World)
        → i < k
        → IsFair x
        → IsSafe k w
        → IsSafe k (step g limit w i x)
    unfolding step
    step-IsSafe k i x w hi f v =
        let r = thread_step g limit x (w.pc i) w.shared in
        let owed = le-sum_to (λ j. debt (w.pc j)) k i hi in
        let t =
          call-Moves x (w.pc i) w.shared f (v.pcs_ok i) v.shared_ok
            (omega (arith, v.balance, owed)) in
        let users = sum_to-change w.shared.active r.1.active m t.user t.known t.others in
        let self : write w.pc i r.0 i ≡ r.0 = ground arith in
        let threads =
          sum_to-change (λ j. debt (w.pc j)) (λ j. debt (write w.pc i r.0 j)) k i hi
            (λ j ne. ap debt (write-other w.pc i j r.0 ne)) in
        record {
          shared_ok = t.shared_ok;
          pcs_ok =
              λ j. elim (Bool-cases (i == j)) [ inl e ↦ rw e t.pc_ok | inr e ↦ rw e (v.pcs_ok j) ];
          balance = omega (arith, v.balance, t.balance, users, threads, ap debt self);
        }

    -- Every pick of the schedule is of one of `k` threads, and fair.
    abbrev pub Schedule : ℕ → List (ℕ × Choice) → Type 0
    Schedule k [] = Unit {0}
    Schedule k ((i, x) ∷ rest) = (i < k) × IsFair x × Schedule k rest

    run-IsSafe :
        (k : ℕ) (sched : List (ℕ × Choice)) (w : World)
        → Schedule k sched
        → IsSafe k w
        → IsSafe k (run g limit w sched)
    unfolding run
    run-IsSafe k [] w f v = v
    run-IsSafe k ((i, x) ∷ rest) w (hi, hx, more) v =
        run-IsSafe k rest (step g limit w i x) more (step-IsSafe k i x w hi hx v)

    -- All threads idle and no slot taken.
    abbrev pub start : World
    start = record { shared = record { global = 0; active = λ u. 0 }; pc = λ i. idle }

    start-IsSafe : (k : ℕ) → IsSafe k start
    start-IsSafe k = record {
      shared_ok = record { in_pool = omega arith; in_user = λ u. omega arith };
      pcs_ok = λ i. tt;
      balance =
          omega (arith, sum_to-zero (λ u. 0) m (λ j h. refl), sum_to-zero (λ i. 0) k (λ j h. refl));
    }

    -- For a pool with a global limit above 0, user limits that like it are below 2^64, at least
    -- one user and no slot taken: under every interleaving of the atomic operations of several
    -- threads, whose requests name users of the pool and whose counts do not overflow 64 bits
    -- when added to the global limit or to the user's limit, the slots of the pool stay within
    -- the global limit and those of each user within the user's limit.
    pub limits_hold :
        (k : ℕ) (sched : List (ℕ × Choice))
        → Schedule k sched
        → ((run g limit start sched).shared.global ≤ g)
          × ((u : ℕ) → (run g limit start sched).shared.active u ≤ limit u)
    limits_hold k sched f =
        let v = (run-IsSafe k sched start f (start-IsSafe k)).shared_ok in (v.in_pool, v.in_user)

    -- For a pool with a global limit above 0, user limits that like it are below 2^64, at least
    -- one user and no slot taken, and for threads whose requests name users of the pool and
    -- whose counts do not overflow 64 bits when added to the global limit or to the user's
    -- limit: after every interleaving of the atomic operations that leaves all threads idle the
    -- pool counts exactly the slots that its users hold.
    pub no_slot_lost :
        (k : ℕ) (sched : List (ℕ × Choice))
        → Schedule k sched
        → ((i : ℕ) → i < k → (run g limit start sched).pc i ≡ idle)
        → (run g limit start sched).shared.global ≡ sum_to (run g limit start sched).shared.active m
    no_slot_lost k sched f quiet =
        let v = run-IsSafe k sched start f (start-IsSafe k) in
        let w = run g limit start sched in
        omega (arith, v.balance, sum_to-zero (λ i. debt (w.pc i)) k (λ i h. ap debt (quiet i h)))

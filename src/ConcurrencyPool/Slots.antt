-- ===== src/ConcurrencyPool/Slots.antt =====
-- src/loopyConcurrencyPool.c: what one acquisition and one release do, on every branch.
use loopy.Prelude.{
  ℕ, ◌+◌, ◌-◌, ◌≤◌, ◌<◌, ◌≡◌, ◌≢◌, ◌↔◌, refl, sym, ◌∙◌, not, ◌&&◌, inl, inr, true, false, some,
  arith, ltb, ◌==◌, if◌then◌else◌, Bool-cases,
}
use loopy.Prelude.Words.{word, add_word, sub_word}
use loopy.ConcurrencyPool.{
  Result, ok, invalid, limited, global_limited, Pool, user_at, set_user, deny, note_acquire,
  acquire_user, user_try_acquire, note_release, give_back, user_release,
}

-- Both counters with `n` slots more stay within the limits, and do not overflow.
pub record Fits {Tree : Type 0} (p : Pool Tree) (u n : ℕ) : Type 0 where
  pub asked : 0 < n
  pub in_user : (user_at p u).active + n ≤ (user_at p u).limit
  pub in_pool : p.config.global_limit ≢ 0 → p.global_active + n ≤ p.config.global_limit

-- The counters are `size_t`, and a request does not make one of them overflow.
pub record NoWrap {Tree : Type 0} (p : Pool Tree) (u n : ℕ) : Type 0 where
  pub user : (user_at p u).active + n < word
  pub pool : p.global_active + n < word

-- `q` has `k` slots for the user and `g` for the pool, and is `p` for all other users.
pub record Slots {Tree : Type 0} (p : Pool Tree) (u k g : ℕ) (q : Pool Tree) : Type 0 where
  pub of_user : (user_at q u).active ≡ k
  pub of_pool : q.global_active ≡ g
  pub of_others : (v : ℕ) → v ≢ u → user_at q v ≡ user_at p v
  pub same_limit : (user_at q u).limit ≡ (user_at p u).limit
  pub same_config : q.config ≡ p.config
  pub same_users : q.users ≡ p.users
  pub same_count : q.user_count ≡ p.user_count
  pub same_next : q.next ≡ p.next

module _ {Tree : Type 0} (p : Pool Tree) (u : ℕ) where
  deny-Slots : (g : ℕ) → Slots p u (user_at p u).active g (deny (record p { global_active = g }) u)
  unfolding deny
  deny-Slots g = elim (Bool-cases p.config.track_stats) [
    | inl e ↦ rw e (record {
      of_user = ground arith;
      of_pool = refl;
      of_others = λ v other. ground arith;
      same_limit = ground arith;
      same_config = refl;
      same_users = refl;
      same_count = refl;
      same_next = refl;
    })
    | inr e ↦ rw e (record {
      of_user = refl;
      of_pool = refl;
      of_others = λ v other. refl;
      same_limit = refl;
      same_config = refl;
      same_users = refl;
      same_count = refl;
      same_next = refl;
    })
  ]

  acquire_user-unchanged :
      (g n : ℕ)
      → let q = record p { global_active = g } in
        (acquire_user q u n).0 ≢ ok
        → Slots p u
            (user_at p u).active
            (if p.config.global_limit == 0 then g else sub_word g n)
            (acquire_user q u n).1
  unfolding acquire_user
  acquire_user-unchanged g n =
      elim (Bool-cases (ltb (user_at p u).limit (add_word (user_at p u).active n))) [
        | inl e ↦ rw e (λ ne. deny-Slots (if p.config.global_limit == 0 then g else sub_word g n))
        | inr e ↦ rw e (λ ne. absurd (ne refl))
      ]

  -- Setting the two counters.
  set-Slots :
      (k g : ℕ)
      → Slots p u k g
          (record (set_user p u (record (user_at p u) { active = k })) { global_active = g })
  set-Slots k g = record {
    of_user = ground arith;
    of_pool = refl;
    of_others = λ v other. ground arith;
    same_limit = ground arith;
    same_config = refl;
    same_users = refl;
    same_count = refl;
    same_next = refl;
  }

  note_acquire-Slots :
      (k g a b : ℕ) (q : Pool Tree) → Slots p u k g q → Slots p u k g (note_acquire q u a b)
  unfolding note_acquire
  note_acquire-Slots k g a b q s = record {
    of_user = ground (arith, s.of_user);
    of_pool = s.of_pool;
    of_others = λ v other. ground (arith, s.of_others v other);
    same_limit = ground (arith, s.same_limit);
    same_config = s.same_config;
    same_users = s.same_users;
    same_count = s.same_count;
    same_next = s.same_next;
  }

  -- Steps 2 and 3 where the user's limit allows the slots; the pool's counter is `g` before.
  acquire_user-granted :
      (g h n : ℕ)
      → (user_at p u).active + n ≤ (user_at p u).limit
      → (user_at p u).active + n < word
      → (if p.config.global_limit == 0 then add_word g n else g) ≡ h
      → let r = acquire_user (record p { global_active = g }) u n in
        (r.0 ≡ ok) × Slots p u ((user_at p u).active + n) h r.1
  unfolding acquire_user
  acquire_user-granted g h n fits small e =
      let exact : add_word (user_at p u).active n ≡ (user_at p u).active + n = omega arith in
      let room : ltb (user_at p u).limit ((user_at p u).active + n) ≡ false = ground arith in
      rw (exact, room, e) (refl, note_acquire-Slots _ _ _ _ _ (set-Slots _ h))

  acquire_user-result :
      (g n : ℕ)
      → (acquire_user (record p { global_active = g }) u n).0
        ≡ (if ltb (user_at p u).limit (add_word (user_at p u).active n) then limited else ok)
  unfolding acquire_user
  acquire_user-result g n =
      elim (Bool-cases (ltb (user_at p u).limit (add_word (user_at p u).active n))) [
        | inl e ↦ rw e
        | inr e ↦ rw e
      ]

module _ {Tree : Type 0} (p : Pool Tree) (u n : ℕ) where
  abbrev pub acquired : Result × Pool Tree
  acquired = user_try_acquire p (some u) n

  -- An acquisition that fits is granted, and takes the slots from the user's and the pool's share.
  try_acquire-granted :
      Fits p u n
      → NoWrap p u n
      → (acquired.0 ≡ ok) × Slots p u ((user_at p u).active + n) (p.global_active + n) acquired.1
  unfolding user_try_acquire
  try_acquire-granted f w =
      let exact : add_word p.global_active n ≡ p.global_active + n = omega (arith, w.pool) in
      let asked : (n == 0) ≡ false = ground (arith, f.asked) in
      elim (Bool-cases (p.config.global_limit == 0)) [
        | inl z ↦
            rw (asked, z)
              (acquire_user-granted p u p.global_active (p.global_active + n) n f.in_user w.user
                (rw z exact))
        | inr nz ↦
            let room : ltb p.config.global_limit (p.global_active + n) ≡ false =
              ground (arith, f.in_pool) in
            rw (asked, nz, exact, room)
              (acquire_user-granted p u (p.global_active + n) (p.global_active + n) n f.in_user
                w.user (rw nz refl))
      ]

  -- The tests of the call, in their order.
  abbrev verdict : Result
  verdict =
      if n == 0
      then invalid
      else if not (p.config.global_limit == 0)
          && ltb p.config.global_limit (add_word p.global_active n)
      then global_limited
      else if ltb (user_at p u).limit (add_word (user_at p u).active n)
      then limited
      else ok

  try_acquire-verdict : acquired.0 ≡ verdict
  unfolding user_try_acquire
  try_acquire-verdict = elim (Bool-cases (n == 0)) [
    | inl e ↦ rw e
    | inr e ↦ elim (Bool-cases (p.config.global_limit == 0)) [
      | inl z ↦ rw (e, z) (acquire_user-result p u p.global_active n)
      | inr nz ↦ elim (Bool-cases (ltb p.config.global_limit (add_word p.global_active n))) [
        | inl over ↦ rw (e, nz, over)
        | inr fits ↦ rw (e, nz, fits) (acquire_user-result p u (add_word p.global_active n) n)
      ]
    ]
  ]

  verdict-Fits : NoWrap p u n → verdict ≡ ok → Fits p u n
  verdict-Fits w e = record {
    asked = ground arith;
    in_user = ground arith;
    in_pool = λ limit. ground arith;
  }

  try_acquire-Fits : NoWrap p u n → acquired.0 ≡ ok → Fits p u n
  try_acquire-Fits w e = verdict-Fits w (sym try_acquire-verdict ∙ e)

  -- Why a request was refused.
  pub record Reason (r : Result) : Type 0 where
    pub nothing_asked : r ≡ invalid → n ≡ 0
    pub over_pool : r ≡ global_limited → p.config.global_limit < p.global_active + n
    pub over_user : r ≡ limited → (user_at p u).limit < (user_at p u).active + n

  verdict-Reason : NoWrap p u n → Reason verdict
  verdict-Reason w = record {
    nothing_asked = ground arith;
    over_pool = ground arith;
    over_user = ground arith;
  }

  try_acquire-Reason : NoWrap p u n → Reason acquired.0
  try_acquire-Reason w = rw try_acquire-verdict (verdict-Reason w)

  try_acquire-unchanged :
      NoWrap p u n → acquired.0 ≢ ok → Slots p u (user_at p u).active p.global_active acquired.1
  unfolding user_try_acquire
  try_acquire-unchanged w = elim (Bool-cases (n == 0)) [
    | inl e ↦ rw e (λ ne. record {
      of_user = refl;
      of_pool = refl;
      of_others = λ v other. refl;
      same_limit = refl;
      same_config = refl;
      same_users = refl;
      same_count = refl;
      same_next = refl;
    })
    | inr e ↦ elim (Bool-cases (p.config.global_limit == 0)) [
      | inl z ↦ rw (e, z) (λ ne. rw z at (acquire_user-unchanged p u p.global_active n ne))
      | inr nz ↦ elim (Bool-cases (ltb p.config.global_limit (add_word p.global_active n))) [
        | inl over ↦ rw (e, nz, over) (λ ne. deny-Slots p u p.global_active)
        | inr fits ↦
            let back : sub_word (add_word p.global_active n) n ≡ p.global_active =
              omega (arith, w.pool) in
            rw (e, nz, fits)
              (λ ne.
                rw (nz, back) at (acquire_user-unchanged p u (add_word p.global_active n) n ne))
      ]
    ]
  ]

  -- What an acquisition does.
  pub record Acquired (r : Result × Pool Tree) : Type 0 where
    pub granted : (r.0 ≡ ok) ↔ Fits p u n
    pub taken : r.0 ≡ ok → Slots p u ((user_at p u).active + n) (p.global_active + n) r.1
    pub untouched : r.0 ≢ ok → Slots p u (user_at p u).active p.global_active r.1
    pub reason : Reason r.0

  -- For a request whose count does not overflow 64 bits when added to the slots in use of the
  -- user or of the pool: an acquisition is granted exactly if it asks for a slot and fits the
  -- user's limit and, where one is set, the global one; it then takes its slots from both
  -- counters, and a refusal takes nothing and names a limit only where the request exceeds it.
  pub try_acquire-Acquired : NoWrap p u n → Acquired acquired
  try_acquire-Acquired w = record {
    granted = (try_acquire-Fits w, λ f. (try_acquire-granted f w).0);
    taken = λ e. (try_acquire-granted (try_acquire-Fits w e) w).1;
    untouched = try_acquire-unchanged w;
    reason = try_acquire-Reason w;
  }

  -- The release of `n` slots of a user that holds `n` or fewer gives back what the user holds.
  abbrev pub released : ℕ
  released = if ltb (user_at p u).active n then (user_at p u).active else n

  note_release-Slots :
      (k g : ℕ) (q : Pool Tree) → Slots p u k g q → Slots p u k g (note_release q u)
  unfolding note_release
  note_release-Slots k g q s = record {
    of_user = ground (arith, s.of_user);
    of_pool = ground (arith, s.of_pool);
    of_others = λ v other. ground (arith, s.of_others v other);
    same_limit = ground (arith, s.same_limit);
    same_config = ground (arith, s.same_config);
    same_users = ground (arith, s.same_users);
    same_count = ground (arith, s.same_count);
    same_next = ground (arith, s.same_next);
  }

  give_back-Slots :
      (m : ℕ)
      → m ≤ (user_at p u).active
      → m ≤ p.global_active
      → (user_at p u).active < word
      → p.global_active < word
      → Slots p u ((user_at p u).active - m) (p.global_active - m) (give_back p u m)
  give_back-Slots m a b c d = record {
    of_user = ground arith;
    of_pool = ground arith;
    of_others = λ v other. ground arith;
    same_limit = ground arith;
    same_config = refl;
    same_users = refl;
    same_count = refl;
    same_next = refl;
  }

  -- `loopyConcurrencyUserRelease` gives back the slots asked for, but no more than the user holds,
  -- to the user and to the pool.
  pub release-Slots :
      0 < n
      → (user_at p u).active ≤ p.global_active
      → p.global_active < word
      → ((user_release p (some u) n).0 ≡ true)
        × Slots p u
            ((user_at p u).active - n)
            (p.global_active - released)
            (user_release p (some u) n).1
  unfolding user_release
  release-Slots pn held small =
      let m = released in
      let exact : (user_at p u).active - m ≡ (user_at p u).active - n = ground arith in
      let given = give_back-Slots m (ground arith) (ground arith) (omega arith) small in
      let nz : (n == 0) ≡ false = ground arith in
      elim (Bool-cases (m == 0)) [
        | inl z ↦
            rw (nz, z)
              (
                refl,
                record {
                  of_user = ground arith;
                  of_pool = ground arith;
                  of_others = λ v other. refl;
                  same_limit = refl;
                  same_config = refl;
                  same_users = refl;
                  same_count = refl;
                  same_next = refl;
                },
              )
        | inr some_held ↦
            rw (nz, some_held) (refl, rw exact at (note_release-Slots _ _ (give_back p u m) given))
      ]

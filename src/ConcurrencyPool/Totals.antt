-- ===== src/ConcurrencyPool/Totals.antt =====
-- src/loopyConcurrencyPool.c: the pool's counter of active slots is the sum over its users.
use Prim.Native.String.{String}
use loopy.Prelude.{
  ℕ, suc, ◌+◌, ◌-◌, ◌≤◌, ◌<◌, ◌≡◌, ◌≢◌, refl, ap, ◌∙◌, sym, ◌⊎◌, inl, inr, ◌&&◌, Option, some,
  arith, ltb, leb, ◌==◌, if◌then◌else◌, Bool-cases, Option-cases,
}
use loopy.Prelude.Words.{word, add_word}
use loopy.Prelude.Tally.{tally, occurs, tally-insert, tally-change, tally-le}
use loopy.Prelude.Rax.{Rax, TryInsert, inserted, exists, out_of_memory}
use loopy.ConcurrencyPool.{
  Result, ok, invalid, limited, global_limited, error, timeout, not_found, Pool, User, UserConfig,
  write, user_at, user_try_acquire, user_release, new_user, config_of,
}
use loopy.ConcurrencyPool.Registry.{Memory, insert_user, add_user, remove_user, default_config}
use loopy.ConcurrencyPool.Slots.{Slots, NoWrap, try_acquire-Acquired, release-Slots, released}

module _ (r : Rax) where
  open r use {Tree, find, entries}

  abbrev pub held : Pool Tree → ℕ
  held p = tally (λ u. (p.objects u).active) (entries p.users)

  -- The counters of a pool agree with its users, each of which stands in the tree once.
  pub record IsConsistent (p : Pool Tree) : Type 0 where
    pub total : p.global_active ≡ held p
    pub users_counted : p.user_count ≡ tally (λ u. 1) (entries p.users)
    pub once : (u : ℕ) → occurs u (entries p.users) ≤ 1
    pub unused : (u : ℕ) → p.next ≤ u → occurs u (entries p.users) ≡ 0
    pub small : p.global_active < word
    pub few : p.user_count < word

  find-occurs :
      (p : Pool Tree) (id : String) (u : ℕ)
      → IsConsistent p
      → find p.users id ≡ some u
      → occurs u (entries p.users) ≡ 1
  find-occurs p id u c e =
      let (xs, ys, split) = r.find_entry p.users id u e in
      let self : ◌≡◌ {A = ℕ} (if u == u then 1 else 0) 1 = ground arith in
      omega (
        arith,
        c.once u,
        ap (occurs u) split,
        tally-insert (λ w. if w == u then 1 else 0) xs ys id u,
        self,
      )

  -- Moving slots of one registered user keeps the agreement.
  Slots-IsConsistent :
      (p q : Pool Tree) (u k g : ℕ)
      → IsConsistent p
      → occurs u (entries p.users) ≡ 1
      → Slots p u k g q
      → g + (user_at p u).active ≡ p.global_active + k
      → g < word
      → IsConsistent q
  Slots-IsConsistent p q u k g c one s balance bound =
      let es = entries p.users in
      let same : entries q.users ≡ es = ap entries s.same_users in
      let g' = λ (v : ℕ). (q.objects v).active in
      let change = rw one at (
        tally-change (λ v. (p.objects v).active) g' u es
          (λ v ne. ap (λ (x : User). x.active) (s.of_others v ne))) in
      record {
        total = omega (arith, ap (tally g') same, change, s.of_user, s.of_pool, c.total, balance);
        users_counted = omega (arith, ap (tally (λ v. 1)) same, s.same_count, c.users_counted);
        once = λ v. omega (arith, ap (occurs v) same, c.once v);
        unused = λ v h. omega (arith, ap (occurs v) same, c.unused v (omega (arith, s.same_next)));
        small = omega (arith, s.of_pool);
        few = omega (arith, s.same_count, c.few);
      }

  -- `loopyConcurrencyUserTryAcquire` by a registered user keeps the pool's count right.
  try_acquire-IsConsistent :
      (p : Pool Tree) (id : String) (u n : ℕ)
      → IsConsistent p
      → find p.users id ≡ some u
      → NoWrap p u n
      → IsConsistent (user_try_acquire p (some u) n).1
  try_acquire-IsConsistent p id u n c e w =
      let a = try_acquire-Acquired p u n w in
      let one = find-occurs p id u c e in
      elim (ok-cases (user_try_acquire p (some u) n).0) [
        | inl yes' ↦ Slots-IsConsistent p _ u _ _ c one (a.taken yes') (omega arith) w.pool
        | inr no' ↦ Slots-IsConsistent p _ u _ _ c one (a.untouched no') (omega arith) c.small
      ]
    where
      ok-cases : (x : Result) → (x ≡ ok) ⊎ (x ≢ ok)
      ok-cases ok = inl refl
      ok-cases invalid = inr (λ e. cc)
      ok-cases limited = inr (λ e. cc)
      ok-cases global_limited = inr (λ e. cc)
      ok-cases error = inr (λ e. cc)
      ok-cases timeout = inr (λ e. cc)
      ok-cases not_found = inr (λ e. cc)

  -- `loopyConcurrencyUserRelease` by a registered user keeps the pool's count right.
  release-IsConsistent :
      (p : Pool Tree) (id : String) (u n : ℕ)
      → IsConsistent p
      → find p.users id ≡ some u
      → 0 < n
      → IsConsistent (user_release p (some u) n).1
  release-IsConsistent p id u n c e pn =
      let one = find-occurs p id u c e in
      let own : (user_at p u).active ≤ p.global_active =
        omega (arith, c.total, tally-le (λ v. (p.objects v).active) u (entries p.users) one) in
      let s = (release-Slots p u n pn own c.small).1 in
      let back : ((user_at p u).active - n) + released p u n ≡ (user_at p u).active =
        ground arith in
      let less : released p u n ≤ p.global_active = omega (arith, back) in
      Slots-IsConsistent p _ u _ _ c one s (omega (arith, back, less)) (omega (arith, c.small))

  -- The pool that a successful `raxTryInsert` leads to.
  inserted-IsConsistent :
      (p : Pool Tree) (id : String) (x : User) (t : Tree)
      → IsConsistent p
      → x.active ≡ 0
      → p.user_count + 1 < word
      → r.try_insert p.users id p.next ≡ inserted t
      → IsConsistent (record p {
        users = t;
        user_count = add_word p.user_count 1;
        objects = write p.objects p.next x;
        next = suc p.next;
      })
  inserted-IsConsistent p id x t c idle room e =
      let (xs, ys, before, after, _, _) = r.insert_entry p.users t id p.next e in
      let g' = λ (v : ℕ). (write p.objects p.next x v).active in
      let own : g' p.next ≡ 0 = ground arith in
      let change = rw (c.unused p.next (omega arith)) at (
        tally-change (λ v. (p.objects v).active) g' p.next (entries p.users)
          (λ v ne. ground arith)) in
      let add = λ (f : ℕ → ℕ).
        ap (tally f) after
        ∙ (tally-insert f xs ys id p.next ∙ ap (λ n. n + f p.next) (sym (ap (tally f) before))) in
      record {
        total = omega (arith, add g', change, own, c.total);
        users_counted = omega (arith, add (λ v. 1), c.users_counted);
        once = λ v. elim (Bool-cases (p.next == v)) [
          | inl h ↦
              let new' : v ≡ p.next = ground arith in
              ground (arith, add (λ w. if w == v then 1 else 0), c.unused v (omega (arith, new')))
          | inr h ↦ ground (arith, add (λ w. if w == v then 1 else 0), c.once v)
        ];
        unused = λ v h. ground (arith, add (λ w. if w == v then 1 else 0), c.unused v);
        small = c.small;
        few = omega arith;
      }

  insert_user-IsConsistent :
      (p : Pool Tree) (id : String) (x : User)
      → IsConsistent p
      → x.active ≡ 0
      → p.user_count + 1 < word
      → IsConsistent (insert_user r p id x).1
  unfolding insert_user
  insert_user-IsConsistent p id x c idle room = go (r.try_insert p.users id p.next) refl
    where
      go :
          (o : TryInsert Tree)
          → r.try_insert p.users id p.next ≡ o
          → IsConsistent (insert_user r p id x).1
      go (inserted t) e = rw (e, insert_user) (inserted-IsConsistent p id x t c idle room e)
      go (exists old) e = rw (e, insert_user) c
      go out_of_memory e = rw (e, insert_user) c

  -- `loopyConcurrencyPoolAddUser` keeps the agreement, whether it adds a user or not.
  add_user-IsConsistent :
      (m : Memory) (p : Pool Tree) (id : String) (config : Option UserConfig)
      → IsConsistent p
      → p.user_count + 1 < word
      → IsConsistent (add_user r m p id config).1
  unfolding add_user new_user
  add_user-IsConsistent m p id config c room =
      let made =
        insert_user-IsConsistent p id (new_user id (config_of config (default_config r p))) c refl
          room in
      elim (Bool-cases (ltb 0 p.config.max_users && leb p.config.max_users p.user_count)) [
        | inl e ↦ rw e c
        | inr e ↦ elim (Bool-cases m.object) [
          | inl o ↦ elim (Bool-cases m.name) [
            | inl n ↦ simp (e, o, n) made
            | inr n ↦ simp (e, o, n) c
          ]
          | inr o ↦ simp (e, o) c
        ]
      ]

  -- `loopyConcurrencyPoolRemoveUser` gives the slots of the user back to the pool, and keeps the
  -- agreement.
  remove_user-IsConsistent :
      (p : Pool Tree) (id : String) → IsConsistent p → IsConsistent (remove_user r p id).1
  unfolding remove_user
  remove_user-IsConsistent p id c = elim (Option-cases (find p.users id)) [
    | inl e ↦ rw (e, remove_user) c
    | inr (u, e) ↦
        let (xs, ys, before, after) = r.remove_entry p.users id u e in
        let drop = λ (f : ℕ → ℕ).
          ap (tally f) before
          ∙ (tally-insert f xs ys id u ∙ ap (λ n. n + f u) (sym (ap (tally f) after))) in
        let held' = drop (λ v. (p.objects v).active) in
        let count = drop (λ v. 1) in
        rw (e, remove_user)
          (record {
            total = ground (arith, held', c.total, c.small);
            users_counted = omega (arith, count, c.users_counted, c.few);
            once = λ v. omega (arith, drop (λ w. if w == v then 1 else 0), c.once v);
            unused = λ v h. omega (arith, drop (λ w. if w == v then 1 else 0), c.unused v h);
            small = ground (arith, c.small);
            few = omega arith;
          })
  ]

  -- The calls that move slots or users: of a registered user `u` of the name, and of the pool.
  pub data Change : Type 0 where
    acquires releases : String → (u n : ℕ) → Change
    adds : Memory → String → Option UserConfig → Change
    removes : String → Change

  abbrev pub changed : Change → Pool Tree → Pool Tree
  changed (acquires id u n) p = (user_try_acquire p (some u) n).1
  changed (releases id u n) p = (user_release p (some u) n).1
  changed (adds m id config) p = (add_user r m p id config).1
  changed (removes id) p = (remove_user r p id).1

  -- The user is the registered one, and no counter wraps.
  abbrev pub Allowed : Change → Pool Tree → Type 0
  Allowed (acquires id u n) p = (find p.users id ≡ some u) × NoWrap p u n
  Allowed (releases id u n) p = (find p.users id ≡ some u) × (0 < n)
  Allowed (adds m id config) p = p.user_count + 1 < word
  Allowed (removes id) p = Unit

  -- An acquisition by a registered user, whose count does not overflow 64 bits when added to the
  -- slots in use, a release of at least one slot by a registered user, the addition of a user,
  -- where the number of users does not overflow, and the removal of a user each keep the
  -- counters of a consistent pool, of slots and of users, equal to what its users come to.
  pub change-IsConsistent :
      (c : Change) (p : Pool Tree) → IsConsistent p → Allowed c p → IsConsistent (changed c p)
  change-IsConsistent (acquires id u n) p c (found, w) = try_acquire-IsConsistent p id u n c found w
  change-IsConsistent (releases id u n) p c (found, some_slots) =
      release-IsConsistent p id u n c found some_slots
  change-IsConsistent (adds m id config) p c room = add_user-IsConsistent m p id config c room
  change-IsConsistent (removes id) p c ready = remove_user-IsConsistent p id c

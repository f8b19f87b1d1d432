-- ===== src/ConcurrencyPool/Queries.antt =====
-- src/loopyConcurrencyPool.c: what the questions about free slots say of a later acquisition, and two
-- inputs where the code does not keep its word.
use Prim.Native.String.{String}
use loopy.Prelude.{ℕ, suc, ◌-◌, ◌≤◌, ◌<◌, ◌≡◌, ◌↔◌, refl, true, false, none, some, arith, ltb, ◌==◌}
use loopy.Prelude.Words.{word, add_word}
use loopy.Prelude.Rax.{Rax, inserted}
use loopy.ConcurrencyPool.{
  ok, limited, Pool, UserConfig, user_at, write, note_acquire, acquire_user, user_try_acquire,
  new_user,
}
use loopy.ConcurrencyPool.Registry.{
  Memory, add_user, insert_user, pool_try_acquire, can_acquire, default_config,
}
use loopy.ConcurrencyPool.Slots.{NoWrap, Fits, try_acquire-Acquired}

new_user-fields :
    (id : String) (c : UserConfig)
    → ((new_user id c).limit ≡ c.limit) × ((new_user id c).active ≡ 0)
unfolding new_user
new_user-fields id c = (refl, refl)

module _ (r : Rax) where
  open r use {Tree, find, try_insert}

  can_acquire-Fits :
      (p : Pool Tree) (id : String) (u n : ℕ)
      → find p.users id ≡ some u
      → NoWrap p u n
      → (can_acquire r p id n ≡ true) ↔ Fits p u n
  unfolding can_acquire
  can_acquire-Fits p id u n e w =
      rw (e, can_acquire)
        (
          (λ t. record {
            asked = ground arith;
            in_user = ground arith;
            in_pool = λ l. ground arith;
          }),
          (λ f. ground (arith, f.asked, f.in_user, f.in_pool)),
        )

  -- For a registered user, and a count that does not overflow 64 bits when added to the slots in
  -- use of the user or of the pool, CanAcquire answers true exactly when the acquisition is
  -- granted.
  pub can_acquire_iff :
      (p : Pool Tree) (id : String) (u n : ℕ)
      → find p.users id ≡ some u
      → NoWrap p u n
      → (can_acquire r p id n ≡ true) ↔ ((user_try_acquire p (some u) n).0 ≡ ok)
  can_acquire_iff p id u n e w =
      let c = can_acquire-Fits p id u n e w in
      let a = (try_acquire-Acquired p u n w).granted in ((λ t. a.1 (c.0 t)), (λ t. c.1 (a.0 t)))

  -- The pool with the new user, who has the default limit.
  abbrev joined : Pool Tree → String → Tree → Pool Tree
  joined p id t = record p {
    users = t;
    user_count = add_word p.user_count 1;
    objects = write p.objects p.next (new_user id (default_config r p));
    next = suc p.next;
  }

  add_user-joined :
      (m : Memory) (p : Pool Tree) (id : String) (t : Tree)
      → p.config.max_users ≡ 0
      → m.object ≡ true
      → m.name ≡ true
      → try_insert p.users id p.next ≡ inserted t
      → add_user r m p id none ≡ (some p.next, joined p id t)
  unfolding add_user
  add_user-joined m p id t any o s e =
      let unlimited : (ltb 0 p.config.max_users) ≡ false = ground arith in
      simp (unlimited, o, s, insert_user, e)

  -- A user that no slot count fits is refused by the user's limit.
  acquire_user-limited :
      {Tree' : Type 0} (q : Pool Tree') (u n : ℕ)
      → q.config.global_limit ≡ 0
      → 0 < n
      → (user_at q u).limit < n
      → (user_at q u).active ≡ 0
      → n < word
      → (user_try_acquire q (some u) n).0 ≡ limited
  unfolding user_try_acquire acquire_user
  acquire_user-limited q u n free asked over none_held small = ground arith

  -- For a user that would be created, `loopyConcurrencyCanAcquire` leaves out the limit that the new
  -- user gets: in a pool without a global limit it answers true for every request over the default
  -- limit, where the acquisition creates the user and is refused.
  can_acquire_misleads :
      (m : Memory) (p : Pool Tree) (id : String) (n : ℕ) (t : Tree)
      → find p.users id ≡ none
      → p.config.auto_create_users ≡ true
      → p.config.global_limit ≡ 0
      → p.config.max_users ≡ 0
      → m.object ≡ true
      → m.name ≡ true
      → try_insert p.users id p.next ≡ inserted t
      → p.config.default_user_limit < n
      → n < word
      → (can_acquire r p id n ≡ true) × ((pool_try_acquire r m p id n).0 ≡ limited)
  unfolding can_acquire pool_try_acquire
  can_acquire_misleads m p id n t missing auto free any o s e over small =
      let asked : (n == 0) ≡ false = ground arith in
      let no_limit : ltb 0 p.config.global_limit ≡ false = ground arith in
      let fresh = new_user-fields id (default_config r p) in
      (
        simp (asked, missing, auto, no_limit),
        simp (asked, missing, auto, add_user-joined m p id t any o s e)
            (acquire_user-limited (joined p id t) p.next n free (omega arith)
              (ground (arith, fresh)) (ground (arith, fresh)) small),
      )

-- A request for `2^64 - active` slots overflows both sums: it is granted, and leaves the user with no
-- slot, where it ought to be refused.
module _ {Tree : Type 0} where
  pub huge_request_granted :
      (p : Pool Tree) (u : ℕ)
      → 0 < (user_at p u).active
      → (user_at p u).active ≤ p.global_active
      → p.global_active < word
      → p.global_active ≤ p.config.global_limit
      → let r = user_try_acquire p (some u) (word - (user_at p u).active) in
        (r.0 ≡ ok) × ((user_at r.1 u).active ≡ 0)
  unfolding user_try_acquire acquire_user note_acquire
  huge_request_granted p u held among small fits = ground arith

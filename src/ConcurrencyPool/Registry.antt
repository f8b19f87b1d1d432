-- ===== src/ConcurrencyPool/Registry.antt =====
-- src/loopyConcurrencyPool.c: the functions that find, add and remove users, over the radix tree.
use Prim.Native.String.{String, slice}
use loopy.Prelude.{
  ℕ, zero, suc, Bool, true, false, not, ◌&&◌, Option, none, some, List, [], ◌∷◌, ltb, leb, ◌==◌,
  if◌then◌else◌,
}
use loopy.Prelude.Words.{add_word, sub_word}
use loopy.Prelude.Rax.{Rax, inserted, exists, out_of_memory}
use loopy.ConcurrencyPool.{
  Result, invalid, not_found, PoolConfig, UserConfig, User, Pool, pool_config_init, new_user,
  config_of, write, user_at, user_try_acquire, user_release, user_release_all, user_available,
  user_active,
}

-- What `zcalloc` and `poolStrdup` answer for the new object and its name: false is NULL.
pub record Memory : Type 0 where
  pub object : Bool
  pub name : Bool

module _ (r : Rax) where
  open r use {Tree}

  -- `loopyConcurrencyPoolNew`, where each of the three allocations succeeds
  unfoldable pub pool_new : Option PoolConfig → (ℕ → User) → ℕ → Pool Tree
  unfolding pool_config_init
  pool_new config objects next = record {
    users = r.new;
    config = config_of config pool_config_init;
    global_active = 0;
    global_peak = 0;
    user_count = 0;
    total_acquires = 0;
    total_releases = 0;
    total_denied = 0;
    total_waits = 0;
    objects = objects;
    next = next;
  }

  -- `pool->config.defaultUserLimit` and zeros, where no configuration is given
  abbrev pub default_config : Pool Tree → UserConfig
  default_config p = record {
    limit = p.config.default_user_limit;
    reserved = 0;
    priority = 0;
    user_data = 0;
  }

  -- The part of `loopyConcurrencyPoolAddUser` under the lock.
  unfoldable pub insert_user : Pool Tree → String → User → Option ℕ × Pool Tree
  insert_user p id x = elim (r.try_insert p.users id p.next) [
    | inserted t ↦ (
      some p.next,
      record p {
        users = t;
        user_count = add_word p.user_count 1;
        objects = write p.objects p.next x;
        next = suc p.next;
      },
    )
    | exists old ↦ (some old, p)
    | out_of_memory ↦ (none, p)
  ]

  unfoldable pub add_user : Memory → Pool Tree → String → Option UserConfig → Option ℕ × Pool Tree
  unfolding insert_user new_user
  add_user m p id config =
      if ltb 0 p.config.max_users && leb p.config.max_users p.user_count
      then (none, p)
      else if not m.object
      then (none, p)
      else if not m.name
      then (none, p)
      else insert_user p id (new_user id (config_of config (default_config p)))

  -- `loopyConcurrencyPoolRemoveUser`; the object stays in the model, where nothing refers to it.
  unfoldable pub remove_user : Pool Tree → String → Bool × Pool Tree
  remove_user p id = elim (r.find p.users id) [
    | none ↦ (false, p)
    | some u ↦
        let active = (user_at p u).active in
        (
          true,
          record p {
            global_active =
                if ltb 0 active then sub_word p.global_active active else p.global_active;
            users = r.remove p.users id;
            user_count = sub_word p.user_count 1;
          },
        )
  ]

  unfoldable pub get_user : Pool Tree → String → Option ℕ
  get_user p id = r.find p.users id

  unfoldable pub pool_try_acquire : Memory → Pool Tree → String → ℕ → Result × Pool Tree
  unfolding get_user
  pool_try_acquire m p id count = if count == 0 then (invalid, p) else elim (get_user p id) [
    | some u ↦ user_try_acquire p (some u) count
    | none ↦
        let (made, q) = if p.config.auto_create_users then add_user m p id none else (none, p) in
        elim made [ none ↦ (not_found, q) | some u ↦ user_try_acquire q (some u) count ]
  ]

  unfoldable pub pool_release : Pool Tree → String → ℕ → Bool × Pool Tree
  unfolding get_user
  pool_release p id count =
      if count == 0
      then (false, p)
      else elim (get_user p id) [ none ↦ (false, p) | some u ↦ user_release p (some u) count ]

  unfoldable pub pool_release_all : Pool Tree → String → ℕ × Pool Tree
  unfolding get_user
  pool_release_all p id = user_release_all p (get_user p id)

  unfoldable pub available : Pool Tree → String → ℕ
  unfolding get_user
  available p id = user_available p (get_user p id)

  unfoldable pub active_slots : Pool Tree → String → ℕ
  unfolding get_user
  active_slots p id = user_active p (get_user p id)

  -- `loopyConcurrencyCanAcquire`, whose sums are `size_t`
  unfoldable pub can_acquire : Pool Tree → String → ℕ → Bool
  unfolding get_user
  can_acquire p id count =
      let g = p.config.global_limit in
      let fits = leb (add_word p.global_active count) g in
      if count == 0 then false else elim (get_user p id) [
        | none ↦ if p.config.auto_create_users then if ltb 0 g then fits else true else false
        | some u ↦
            let x = user_at p u in
            if ltb x.limit (add_word x.active count) then false else if ltb 0 g then fits else true
      ]

  -- `char userId[256]`: the first 255 bytes of a key. A key is a text here, so a character that the
  -- last of these bytes would cut is left out.
  unfoldable pub short_id : String → String
  short_id id = slice id 0 255

  -- `loopyConcurrencyPoolIterate`: the users that the callback is called on, up to the one where it
  -- answers something else than 0.
  unfoldable pub iterate_entries : (String → ℕ → ℕ) → List (String × ℕ) → ℕ
  unfolding short_id
  iterate_entries f [] = 0
  iterate_entries f ((id, u) ∷ rest) =
      suc (elim (f (short_id id) u) [ zero ↦ iterate_entries f rest | suc _ ↦ 0 ])

  unfoldable pub pool_iterate : (String → ℕ → ℕ) → Pool Tree → ℕ
  unfolding iterate_entries
  pool_iterate f p = iterate_entries f (r.entries p.users)

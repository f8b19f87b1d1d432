-- ===== src/ConcurrencyPool.antt =====
-- src/loopyConcurrencyPool.c: slots of a pool that are shared by users with limits of their own. This
-- file has the state and the functions, each as one thread runs it undisturbed; a handle that is
-- NULL is `none`, and the objects behind the handles are the pool's `objects`.
pub mod Registry
pub mod Slots
pub mod Totals
pub mod Threads
pub mod Safety
pub mod Queries
mod Tests
use Prim.Native.String.{String}
use loopy.Prelude.{
  ℕ, zero, suc, ◌+◌, ◌-◌, ◌≡◌, Bool, true, false, not, ◌&&◌, ◌||◌, Option, none, some, List, [],
  ◌∷◌, ltb, leb, ◌==◌, if◌then◌else◌,
}
use loopy.Prelude.Words.{word, add_word, sub_word, raise}
use loopy.Prelude.Rax.{Rax, TryInsert, inserted, exists, out_of_memory}

-- `loopyConcurrencyResult`
pub data Result : Type 0 where
  ok error invalid timeout not_found limited global_limited : Result

-- `loopyConcurrencyPoolConfig`
pub record PoolConfig : Type 0 where
  pub global_limit : ℕ
  pub default_user_limit : ℕ
  pub max_users : ℕ
  pub fair_scheduling : Bool
  pub auto_create_users : Bool
  pub track_stats : Bool

-- `loopyConcurrencyUserConfig`; `userData` is an address.
pub record UserConfig : Type 0 where
  pub limit : ℕ
  pub reserved : ℕ
  pub priority : ℕ
  pub user_data : ℕ

-- `loopyConcurrencyUser`, without the pointer to its pool
pub record User : Type 0 where
  pub user_id : String
  pub limit : ℕ
  pub reserved : ℕ
  pub priority : ℕ
  pub user_data : ℕ
  pub active : ℕ
  pub peak : ℕ
  pub acquires : ℕ
  pub releases : ℕ
  pub denied : ℕ
  pub waits : ℕ

-- `loopyConcurrencyPool`, with the user objects behind the handles; `next` is the address that
-- `zcalloc` gives next.
pub record Pool (Tree : Type 0) : Type 0 where
  pub users : Tree
  pub config : PoolConfig
  pub global_active : ℕ
  pub global_peak : ℕ
  pub user_count : ℕ
  pub total_acquires : ℕ
  pub total_releases : ℕ
  pub total_denied : ℕ
  pub total_waits : ℕ
  pub objects : ℕ → User
  pub next : ℕ

abbrev pub write {ℓ} : {A : Type ℓ} → (ℕ → A) → ℕ → A → ℕ → A
write f i v j = if i == j then v else f j

-- `loopyConcurrencyPoolConfigInit`
unfoldable pub pool_config_init : PoolConfig
pool_config_init = record {
  global_limit = 0;
  default_user_limit = 10;
  max_users = 0;
  fair_scheduling = false;
  auto_create_users = true;
  track_stats = true;
}

-- `loopyConcurrencyUserConfigInit`
unfoldable pub user_config_init : UserConfig
user_config_init = record { limit = 10; reserved = 0; priority = 0; user_data = 0 }

-- The user object that `loopyConcurrencyPoolAddUser` fills in.
unfoldable pub new_user : String → UserConfig → User
new_user id c = record {
  user_id = id;
  limit = c.limit;
  reserved = c.reserved;
  priority = c.priority;
  user_data = c.user_data;
  active = 0;
  peak = 0;
  acquires = 0;
  releases = 0;
  denied = 0;
  waits = 0;
}

abbrev pub config_of {ℓ} : {A : Type ℓ} → Option A → A → A
config_of none d = d
config_of (some c) d = c

-- The functions on one user and its pool; `u` is the handle, and `count` the slots asked for.
module _ {Tree : Type 0} where
  abbrev pub user_at : Pool Tree → ℕ → User
  user_at p u = p.objects u

  abbrev pub set_user : Pool Tree → ℕ → User → Pool Tree
  set_user p u x = record p { objects = write p.objects u x }

  -- `if (trackStats) { denied += 1; totalDenied += 1; }`
  unfoldable pub deny : Pool Tree → ℕ → Pool Tree
  deny p u =
      let x = user_at p u in
      if p.config.track_stats
      then record (set_user p u (record x { denied = add_word x.denied 1 })) {
        total_denied = add_word p.total_denied 1;
      }
      else p

  -- The end of a granted acquisition: the peaks and the counts.
  unfoldable pub note_acquire : Pool Tree → ℕ → ℕ → ℕ → Pool Tree
  note_acquire p u active global =
      let x = user_at p u in
      let stats = p.config.track_stats in
      record (set_user p u (record x {
        peak = raise x.peak active;
        acquires = if stats then add_word x.acquires 1 else x.acquires;
      })) {
        global_peak = raise p.global_peak global;
        total_acquires = if stats then add_word p.total_acquires 1 else p.total_acquires;
      }

  -- Steps 2 and 3 of `loopyConcurrencyUserTryAcquire`, once the global slots are reserved or
  -- not limited.
  unfoldable pub acquire_user : Pool Tree → ℕ → ℕ → Result × Pool Tree
  unfolding deny note_acquire
  acquire_user p u count =
      let x = user_at p u in
      let unlimited = p.config.global_limit == 0 in
      let back = if unlimited then p.global_active else sub_word p.global_active count in
      let global = if unlimited then add_word p.global_active count else p.global_active in
      let active = add_word x.active count in
      if ltb x.limit active then (limited, deny (record p { global_active = back }) u) else (
        ok,
        note_acquire
            (record (set_user p u (record x { active = active })) { global_active = global }) u
            active global,
      )

  unfoldable pub user_try_acquire : Pool Tree → Option ℕ → ℕ → Result × Pool Tree
  user_try_acquire p none count = (invalid, p)
  user_try_acquire p (some u) count =
      let g = p.config.global_limit in
      let sum = add_word p.global_active count in
      if count == 0
      then (invalid, p)
      else if g == 0
      then acquire_user p u count
      else if ltb g sum
      then (global_limited, deny p u)
      else acquire_user (record p { global_active = sum }) u count

  -- `if (trackStats) { releases += 1; totalReleases += 1; }`
  unfoldable pub note_release : Pool Tree → ℕ → Pool Tree
  note_release p u =
      let x = user_at p u in
      if p.config.track_stats
      then record (set_user p u (record x { releases = add_word x.releases 1 })) {
        total_releases = add_word p.total_releases 1;
      }
      else p

  -- `n` slots leave the user and the pool.
  abbrev pub give_back : Pool Tree → ℕ → ℕ → Pool Tree
  give_back p u n =
      let x = user_at p u in
      record (set_user p u (record x { active = sub_word x.active n })) {
        global_active = sub_word p.global_active n;
      }

  unfoldable pub user_release : Pool Tree → Option ℕ → ℕ → Bool × Pool Tree
  unfolding note_release
  user_release p none count = (false, p)
  user_release p (some u) count =
      let active = (user_at p u).active in
      let n = if ltb active count then active else count in
      if count == 0
      then (false, p)
      else if n == 0
      then (true, p)
      else (true, note_release (give_back p u n) u)

  unfoldable pub user_release_all : Pool Tree → Option ℕ → ℕ × Pool Tree
  unfolding note_release
  user_release_all p none = (0, p)
  user_release_all p (some u) =
      let active = (user_at p u).active in
      if ltb 0 active then (active, note_release (give_back p u active) u) else (0, p)

  unfoldable pub user_update : Pool Tree → Option ℕ → Option UserConfig → Bool × Pool Tree
  user_update p none c = (false, p)
  user_update p (some u) none = (false, p)
  user_update p (some u) (some c) = (
    true,
    set_user p u (record (user_at p u) {
      limit = c.limit;
      reserved = c.reserved;
      priority = c.priority;
      user_data = c.user_data;
    }),
  )

  unfoldable pub user_available : Pool Tree → Option ℕ → ℕ
  user_available p none = 0
  user_available p (some u) =
      let x = user_at p u in if leb x.limit x.active then 0 else x.limit - x.active

  unfoldable pub user_active : Pool Tree → Option ℕ → ℕ
  user_active p none = 0
  user_active p (some u) = (user_at p u).active

  unfoldable pub pool_available : Pool Tree → ℕ
  pool_available p =
      let g = p.config.global_limit in
      if g == 0 then word - 1 else if leb g p.global_active then 0 else g - p.global_active

  unfoldable pub pool_reset_stats : Pool Tree → Pool Tree
  pool_reset_stats p = record p {
    global_peak = p.global_active;
    total_acquires = 0;
    total_releases = 0;
    total_denied = 0;
    total_waits = 0;
  }

  unfoldable pub user_reset_stats : Pool Tree → Option ℕ → Pool Tree
  user_reset_stats p none = p
  user_reset_stats p (some u) =
      let x = user_at p u in
      set_user p u (record x { peak = x.active; acquires = 0; releases = 0; denied = 0; waits = 0 })

-- ===== src/ConcurrencyPool/Tests.antt =====
-- src/loopyConcurrencyPool.c: runs of a small pool over an association list, and the theorems at
-- concrete inputs.
use Prim.Native.String.{String}
use text.Mathlib.Text.{◌==◌ as str_eq}
use text.Mathlib.TextPositions.{eq_refl}
use text.Mathlib.TextEquality.{eq_iff}
use loopy.Prelude.{
  ℕ, zero, suc, ◌-◌, ◌≤◌, ◌<◌, ◌≡◌, ◌↔◌, refl, ap, true, false, Option, none, some, List, [], ◌∷◌,
  ◌++◌, arith, if◌then◌else◌, Bool-cases, Option-cases, inl, inr,
}
use loopy.Prelude.Words.{word}
use loopy.Prelude.Rax.{Rax, TryInsert, inserted, exists}
use loopy.Prelude.Tally.{tally}
use loopy.Prelude.Sums.{sum_to}
use loopy.ConcurrencyPool.{
  ok, limited, global_limited, Pool, user_at, acquire_user, user_try_acquire, user_release,
}
use loopy.ConcurrencyPool.Registry.{Memory, remove_user, can_acquire}
use loopy.ConcurrencyPool.Slots.{
  NoWrap, Acquired, try_acquire-Acquired, Slots, release-Slots, released,
}
use loopy.ConcurrencyPool.Totals.{IsConsistent, acquires, change-IsConsistent}
use loopy.ConcurrencyPool.Threads.{Choice, acquire, go, fail, run, idle}
use loopy.ConcurrencyPool.Safety.{IsBounded, Schedule, start, limits_hold, no_slot_lost}
use loopy.ConcurrencyPool.Queries.{can_acquire_iff, huge_request_granted}

lookup : String → List (String × ℕ) → Option ℕ
lookup k [] = none
lookup k ((j, u) ∷ es) = if str_eq j k then some u else lookup k es

erase : String → List (String × ℕ) → List (String × ℕ)
erase k [] = []
erase k ((j, u) ∷ es) = if str_eq j k then es else (j, u) ∷ erase k es

put_new : List (String × ℕ) → String → ℕ → TryInsert (List (String × ℕ))
unfolding lookup
put_new t k u = elim (lookup k t) [ none ↦ inserted ((k, u) ∷ t) | some v ↦ exists v ]

abbrev Split : List (String × ℕ) → String → ℕ → List (String × ℕ) → Type 0
Split t k u rest =
    (xs : List (String × ℕ)) × (ys : List (String × ℕ)) × (t ≡ xs ++ ((k, u) ∷ ys))
    × (rest ≡ xs ++ ys)

erase-Split :
    (t : List (String × ℕ)) (k : String) (u : ℕ) → lookup k t ≡ some u → Split t k u (erase k t)
unfolding lookup erase
erase-Split [] k u e = cc
erase-Split ((j, v) ∷ es) k u e = elim (Bool-cases (str_eq j k)) [
  | inl h ↦
      let same : j ≡ k = (eq_iff j k).0 h in
      let here : v ≡ u = ground (arith, h) in ([], es, rw (same, here), rw h)
  | inr h ↦
      let (xs, ys, p, q) = erase-Split es k u (rw h at e) in
      ((j, v) ∷ xs, ys, ap (◌∷◌ (j, v)) p, rw h (ap (◌∷◌ (j, v)) q))
]

put_new-Split :
    (t t' : List (String × ℕ)) (k : String) (u : ℕ)
    → put_new t k u ≡ inserted t'
    → (xs : List (String × ℕ)) × (ys : List (String × ℕ)) × (t ≡ xs ++ ys)
      × (t' ≡ xs ++ ((k, u) ∷ ys))
      × (lookup k t ≡ none)
      × (lookup k t' ≡ some u)
unfolding put_new lookup
put_new-Split t t' k u e = elim (Option-cases (lookup k t)) [
  | inl h ↦
      let made : t' ≡ (k, u) ∷ t = ground (arith, h) in ([], t, refl, made, h, rw (made, eq_refl k))
  | inr (v, h) ↦ absurd (ground (arith, h))
]

abbrev list_rax : Rax
list_rax = record {
  Tree = List (String × ℕ);
  new = [];
  find = λ t k. lookup k t;
  try_insert = put_new;
  remove = λ t k. erase k t;
  entries = λ t. t;
  entries-new = refl;
  find_entry = λ t k u e. let (xs, ys, p, q) = erase-Split t k u e in (xs, ys, p);
  insert_entry = put_new-Split;
  remove_entry = erase-Split;
}

-- One user, "a", with three of its five slots taken, in a pool of eight.
abbrev shared_pool : Pool (List (String × ℕ))
shared_pool = record {
  users = ("a", 0) ∷ [];
  config = record {
    global_limit = 8;
    default_user_limit = 10;
    max_users = 0;
    fair_scheduling = false;
    auto_create_users = true;
    track_stats = true;
  };
  global_active = 3;
  global_peak = 3;
  user_count = 1;
  total_acquires = 1;
  total_releases = 0;
  total_denied = 0;
  total_waits = 0;
  objects = λ u. record {
    user_id = "a";
    limit = 5;
    reserved = 0;
    priority = 0;
    user_data = 0;
    active = 3;
    peak = 3;
    acquires = 1;
    releases = 0;
    denied = 0;
    waits = 0;
  };
  next = 1;
}

shared_pool-IsConsistent : IsConsistent list_rax shared_pool
unfolding tally
shared_pool-IsConsistent = record {
  total = refl;
  users_counted = refl;
  once = λ u. ground arith;
  unused = λ u h. ground arith;
  small = omega arith;
  few = omega arith;
}

shared_pool-NoWrap : NoWrap shared_pool 0 2
shared_pool-NoWrap = omega arith

found : lookup "a" (("a", 0) ∷ []) ≡ some 0
unfolding lookup
found = refl

-- Two more slots fit the user, and three more do not.
acquire_run :
    ((user_try_acquire shared_pool (some 0) 2).0 ≡ ok)
    × ((user_try_acquire shared_pool (some 0) 3).0 ≡ limited)
    × ((user_try_acquire shared_pool (some 0) 6).0 ≡ global_limited)
unfolding user_try_acquire acquire_user
acquire_run = (refl, refl, refl)

try_acquire-Acquired_example : Acquired shared_pool 0 2 (user_try_acquire shared_pool (some 0) 2)
try_acquire-Acquired_example = try_acquire-Acquired shared_pool 0 2 shared_pool-NoWrap

release_from_shared :
    ((user_release shared_pool (some 0) 7).0 ≡ true)
    × Slots shared_pool 0
        ((user_at shared_pool 0).active - 7)
        (3 - released shared_pool 0 7)
        (user_release shared_pool (some 0) 7).1
release_from_shared = release-Slots shared_pool 0 7 (omega arith) (omega arith) (omega arith)

change-IsConsistent_example : IsConsistent list_rax (user_try_acquire shared_pool (some 0) 2).1
change-IsConsistent_example =
    change-IsConsistent list_rax (acquires "a" 0 2) shared_pool shared_pool-IsConsistent
      (found, shared_pool-NoWrap)

abbrev plenty : Memory
plenty = record { object = true; name = true }

-- After the removal the pool has no slot taken.
remove_run : (remove_user list_rax shared_pool "a").1.global_active ≡ 0
unfolding remove_user lookup
remove_run = refl

can_acquire_iff_example :
    (can_acquire list_rax shared_pool "a" 2 ≡ true)
    ↔ ((user_try_acquire shared_pool (some 0) 2).0 ≡ ok)
can_acquire_iff_example = can_acquire_iff list_rax shared_pool "a" 0 2 found shared_pool-NoWrap

huge_request_to_shared :
    let r = user_try_acquire shared_pool (some 0) (word - (user_at shared_pool 0).active) in
    (r.0 ≡ ok) × ((user_at r.1 0).active ≡ 0)
huge_request_to_shared =
    huge_request_granted shared_pool 0 (omega arith) (omega arith) (omega arith) (omega arith)

-- Two threads ask for four of the eight slots of a user with five; both pass the pool's test before
-- either has reserved, and one of them is refused by the user's limit.
abbrev race : List (ℕ × Choice)
race =
    (0, acquire 0 4)
    ∷ (1, acquire 0 4)
    ∷ (0, go)
    ∷ (1, go)
    ∷ (0, go)
    ∷ (1, go)
    ∷ (1, go)
    ∷ (1, fail)
    ∷ (1, go)
    ∷ (1, go)
    ∷ (0, go)
    ∷ (0, go)
    ∷ (1, go)
    ∷ (1, go)
    ∷ []

five : ℕ → ℕ
five u = 5

small_pool : IsBounded 8 five 1
unfolding five
small_pool = record {
  limited = omega arith;
  pool_word = omega arith;
  user_word = λ u. omega arith;
  some_user = omega arith;
}

race-Schedule : Schedule 8 five 1 small_pool 2 race
unfolding five
race-Schedule = omega arith

race_ends :
    ((run 8 five (start 8 five 1 small_pool) race).shared.global ≡ 4)
    × ((run 8 five (start 8 five 1 small_pool) race).pc 0 ≡ idle)
    × ((run 8 five (start 8 five 1 small_pool) race).pc 1 ≡ idle)
unfolding run five
race_ends = (refl, refl, refl)

limits_hold_example :
    ((run 8 five (start 8 five 1 small_pool) race).shared.global ≤ 8)
    × ((u : ℕ) → (run 8 five (start 8 five 1 small_pool) race).shared.active u ≤ five u)
limits_hold_example = limits_hold 8 five 1 small_pool 2 race race-Schedule

race_leaves_idle : (i : ℕ) → i < 2 → (run 8 five (start 8 five 1 small_pool) race).pc i ≡ idle
race_leaves_idle zero h = race_ends.1
race_leaves_idle (suc zero) h = race_ends.2
race_leaves_idle (suc (suc i)) h = absurd (omega arith)

no_slot_lost_example :
    (run 8 five (start 8 five 1 small_pool) race).shared.global
    ≡ sum_to (run 8 five (start 8 five 1 small_pool) race).shared.active 1
no_slot_lost_example = no_slot_lost 8 five 1 small_pool 2 race race-Schedule race_leaves_idle

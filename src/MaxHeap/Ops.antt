-- ===== src/MaxHeap/Ops.antt =====
-- The public functions of src/loopyMaxHeap.c, over a handle that is not NULL.
use loopy.Prelude.{
  ℕ, zero, suc, ◌+◌, ◌-◌, ◌/◌, Bool, true, false, not, ◌||◌, Option, none, some, ltb, leb, ◌==◌,
  if◌then◌else◌,
}
use loopy.Prelude.Int.{ℤ, pos, negsuc, pos_part, ltb_ℤ, eqb_ℤ}
use loopy.Prelude.Run.{Run, ok, ◌>>=◌}
use loopy.Prelude.Array.{Array, load, store}
use loopy.Prelude.Allocator.{Allocator}
use loopy.MaxHeap.{
  PosEntry, Heap, size_t, zero_entry, is_tracked, track, heap_bubble_up, heap_bubble_down,
  ensure_pos_map_capacity, with_capacity, heap_grow,
}

-- LOOPY_HEAP_EMPTY_VALUE
abbrev pub empty_value : ℤ
empty_value = negsuc 0

abbrev pub no_entries : Array ℤ
no_entries = record { len = 0; cell = λ _. pos 0 }

abbrev pub no_map : Array PosEntry
no_map = record { len = 0; cell = λ _. zero_entry }

-- What `memset(heap, 0, sizeof(*heap))` leaves, with `allocated` put back.
abbrev pub cleared : Bool → Heap
cleared was = record {
  entries = no_entries;
  pos_map = no_map;
  size = 0;
  capacity = 0;
  pos_map_size = 0;
  allocated = was;
}

unfoldable pub init : Allocator → Heap → ℕ → Bool × Heap
init a h initial =
    let n = if initial == 0 then 16 else initial in
    if a.zcalloc (size_t (n + 1)) 4
    then if a.zcalloc n 16
      then (
        true,
        record (cleared h.allocated) {
          entries = record no_entries { len = size_t (n + 1) };
          pos_map = record no_map { len = n };
          capacity = n;
          pos_map_size = n;
        },
      )
      else (false, cleared h.allocated)
    else (false, cleared h.allocated)

-- `loopyMaxHeapNew`; `none` is NULL.
unfoldable pub new : Allocator → ℕ → Option Heap
unfolding init
new a initial =
    let (made, h) = init a (cleared true) initial in
    if a.zcalloc 1 48 then if made then some h else none else none

unfoldable pub inited : Heap → Bool
inited h = not (h.entries.len == 0)

unfoldable pub deinit : Heap → Heap
deinit h = cleared h.allocated

-- `heap->posMap[value] = { value, i }`, if the value is tracked
unfoldable pub record_entry : Heap → ℤ → ℕ → Run (Array PosEntry)
record_entry h v i =
    if is_tracked h.pos_map_size v
    then store h.pos_map (pos_part v) (record { value = v; heap_index = i })
    else ok h.pos_map

-- The part of `loopyMaxHeapInsert` behind the two allocations.
unfoldable pub append_value : Heap → ℤ → Run (Bool × Heap)
unfolding record_entry
append_value h v = do
  let i = size_t (h.size + 1)
  d ← store h.entries i v
  m ← record_entry h v i
  h' ← heap_bubble_up i (record h { size = i; entries = d; pos_map = m }) i
  ok (true, h')

unfoldable pub insert : Allocator → Heap → ℤ → Run (Bool × Heap)
unfolding append_value
insert a h v =
    let (grown, h₁) = if leb h.capacity h.size then heap_grow a h else (true, h) in
    if not grown then ok (false, h₁) else do
      (mapped, h₂) ← ensure_pos_map_capacity a h₁ v
      if mapped then append_value h₂ v else ok (false, h₂)

unfoldable pub peek : Heap → Run ℤ
peek h = if h.size == 0 then ok empty_value else load h.entries 1

-- "Move last element to root"
unfoldable pub move_last_to_root : Heap → Array PosEntry → Run (Array ℤ × Array PosEntry)
move_last_to_root h m =
    if ltb 1 h.size
    then (do
      last ← load h.entries h.size
      d ← store h.entries 1 last
      m' ← track m h.pos_map_size last 1
      ok (d, m'))
    else ok (h.entries, m)

unfoldable pub pop : Heap → Run (ℤ × Heap)
unfolding move_last_to_root
pop h = if h.size == 0 then ok (empty_value, h) else do
  max ← load h.entries 1
  m ← track h.pos_map h.pos_map_size max 0
  (d, m') ← move_last_to_root h m
  let h₁ = record h { entries = d; pos_map = m'; size = h.size - 1 }
  h₂ ← if ltb 0 h₁.size then heap_bubble_down (h₁.size + 1) h₁ 1 else ok h₁
  ok (max, h₂)

-- `for (j = 1; j <= heap->size; j++)`: the first index from `j` on, over `k` rounds, of the value
unfoldable pub linear_search : ℕ → Array ℤ → ℕ → ℤ → Run (Option ℕ)
linear_search zero d j v = ok none
linear_search (suc k) d j v = do
  x ← load d j
  let rest = linear_search k d (j + 1) v
  if eqb_ℤ x v then ok (some j) else rest

-- The index that the position map has for a value, or 0.
unfoldable pub mapped_index : Heap → ℤ → Run ℕ
mapped_index h v =
    if is_tracked h.pos_map_size v
    then (do e ← load h.pos_map (pos_part v); ok e.heap_index)
    else ok 0

-- `i == 0 || i > heap->size || heap->data[i] != value`
unfoldable pub is_stale : Heap → ℤ → ℕ → Run Bool
is_stale h v i =
    if (i == 0) || ltb h.size i then ok true else (do x ← load h.entries i; ok (not (eqb_ℤ x v)))

-- The first half of `loopyMaxHeapRemove`: 0 if the value is not found. A stale index that the
-- search does not replace is kept.
unfoldable pub find_index : Heap → ℤ → Run ℕ
unfolding linear_search mapped_index is_stale
find_index h v = do
  i ← mapped_index h v
  stale ← is_stale h v i
  if stale
      then (do
        found ← linear_search h.size h.entries 1 v
        elim found [ none ↦ ok i | some j ↦ ok j ])
      else ok i

-- The second half: the removal of the entry at index `i`.
unfoldable pub remove_at : Heap → ℤ → ℕ → Run (Bool × Heap)
remove_at h v i = do
  m ← track h.pos_map h.pos_map_size v 0
  if i == h.size then ok (true, record h { pos_map = m; size = h.size - 1 }) else do
    last ← load h.entries h.size
    d ← store h.entries i last
    m' ← track m h.pos_map_size last i
    let h₁ = record h { entries = d; pos_map = m'; size = h.size - 1 }
    here ← load d i
    up ← if ltb 1 i then (do above ← load d (i / 2); ok (ltb_ℤ above here)) else ok false
    h₂ ← if up then heap_bubble_up i h₁ i else heap_bubble_down (h₁.size + 1) h₁ i
    ok (true, h₂)

unfoldable pub remove : Heap → ℤ → Run (Bool × Heap)
unfolding find_index remove_at
remove h v =
    if h.size == 0
    then ok (false, h)
    else do i ← find_index h v; if i == 0 then ok (false, h) else remove_at h v i

unfoldable pub contains : Heap → ℤ → Run Bool
unfolding linear_search mapped_index is_stale
contains h v = if h.size == 0 then ok false else do
  i ← mapped_index h v
  stale ← is_stale h v i
  if stale
      then (do
        found ← linear_search h.size h.entries 1 v
        elim found [ none ↦ ok false | some _ ↦ ok true ])
      else ok true

unfoldable pub is_empty : Heap → Bool
is_empty h = h.size == 0

unfoldable pub reserve : Allocator → Heap → ℕ → Bool × Heap
reserve a h n = if leb n h.capacity then (true, h) else with_capacity a h n

unfoldable pub clear : Heap → Heap
clear h = record h { size = 0; pos_map = record h.pos_map { cell = λ _. zero_entry } }

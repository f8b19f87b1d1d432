-- ===== src/MaxHeap.antt =====
-- src/loopyMaxHeap.c: a max-heap of `int32_t` values in an array used from index 1, with a position
-- map from a value to its index. This file has the state and the internal helpers.
pub mod Ops
pub mod Count
pub mod Order
pub mod Up
pub mod Down
pub mod Capacity
pub mod Insert
pub mod Pop
pub mod Find
pub mod Remove
mod Tests
use loopy.Prelude.{
  ℕ, zero, suc, ◌+◌, ◌*◌, ◌/◌, ◌%◌, ◌^◌, Bool, true, false, ◌&&◌, none, some, ltb, leb, ◌==◌,
  if◌then◌else◌,
}
use loopy.Prelude.Int.{ℤ, pos, pos_part, ltb_ℤ, is_nonneg}
use loopy.Prelude.Run.{Run, ok, out_of_fuel, ◌>>=◌}
use loopy.Prelude.Array.{Array, load, store, resized}
use loopy.Prelude.Allocator.{Allocator}

-- `loopyHeapPosEntry`; the index 0 means unused.
pub record PosEntry : Type 0 where
  pub value : ℤ
  pub heap_index : ℕ

-- `loopyMaxHeap`; a NULL array is one with no cell.
pub record Heap : Type 0 where
  pub entries : Array ℤ
  pub pos_map : Array PosEntry
  pub size : ℕ
  pub capacity : ℕ
  pub pos_map_size : ℕ
  pub allocated : Bool

-- `size_t` arithmetic
abbrev pub size_t : ℕ → ℕ
size_t n = n % 2 ^ 64

abbrev pub zero_entry : PosEntry
zero_entry = record { value = pos 0; heap_index = 0 }

-- `value >= 0 && (size_t)value < heap->posMapSize`
abbrev pub is_tracked : ℕ → ℤ → Bool
is_tracked n v = is_nonneg v && ltb (pos_part v) n

-- `if (...) heap->posMap[v].heapIndex = k`, which four functions write out
unfoldable pub track : Array PosEntry → ℕ → ℤ → ℕ → Run (Array PosEntry)
track m n v k =
    if is_tracked n v
    then (do e ← load m (pos_part v); store m (pos_part v) (record e { heap_index = k }))
    else ok m

pub heap_swap : Heap → ℕ → ℕ → Run Heap
heap_swap h i j = do
  vi ← load h.entries i
  vj ← load h.entries j
  d ← store h.entries i vj
  d' ← store d j vi
  m ← track h.pos_map h.pos_map_size vi j
  m' ← track m h.pos_map_size vj i
  ok (record h { entries = d'; pos_map = m' })

pub heap_bubble_up : ℕ → Heap → ℕ → Run Heap
heap_bubble_up zero h i = out_of_fuel
heap_bubble_up (suc k) h i =
    let p = i / 2 in
    let rise = heap_swap h i p >>= λ h'. heap_bubble_up k h' p in
    let step : Run Heap = do
      above ← load h.entries p
      here ← load h.entries i
      if ltb_ℤ above here then rise else ok h
    in if ltb 1 i then step else ok h

-- `child <= heap->size && heap->data[child] > heap->data[largest]`
larger : Heap → ℕ → ℕ → Run ℕ
larger h child largest =
    if leb child h.size
    then (do
      c ← load h.entries child
      l ← load h.entries largest
      ok (if ltb_ℤ l c then child else largest))
    else ok largest

-- `LEFT(i)` and `RIGHT(i)` as written, on `size_t`
pub heap_bubble_down : ℕ → Heap → ℕ → Run Heap
unfolding larger
heap_bubble_down zero h i = out_of_fuel
heap_bubble_down (suc k) h i = do
  l ← larger h (size_t (2 * i)) i
  largest ← larger h (size_t (2 * i) + 1) l
  let sink = heap_swap h i largest >>= λ h'. heap_bubble_down k h' largest
  if largest == i then ok h else sink

-- `while (newSize < needed) newSize *= 2`
pub double_until : ℕ → ℕ → ℕ → Run ℕ
double_until zero needed n = out_of_fuel
double_until (suc k) needed n =
    let rest = double_until k needed (size_t (n * 2)) in if ltb n needed then rest else ok n

pub ensure_pos_map_capacity : Allocator → Heap → ℤ → Run (Bool × Heap)
ensure_pos_map_capacity a h v =
    let needed = size_t (pos_part v + 1) in
    let first = if h.pos_map_size == 0 then 16 else size_t (h.pos_map_size * 2) in
    let grow : Run (Bool × Heap) = do
      n ← double_until (needed + 1) needed first
      elim (a.zrealloc (size_t (n * 16))) [
        | none ↦ ok (false, h)
        | some _ ↦
            ok
              (true, record h { pos_map = resized h.pos_map n (λ _. zero_entry); pos_map_size = n })
      ]
    in if is_nonneg v
      then if leb needed h.pos_map_size then ok (true, h) else grow
      else ok (true, h)

-- `zrealloc(heap->data, (newCapacity + 1) * sizeof(*newData))` and what follows it
pub with_capacity : Allocator → Heap → ℕ → Bool × Heap
with_capacity a h n = elim (a.zrealloc (size_t ((n + 1) * 4))) [
  | none ↦ (false, h)
  | some fresh ↦
      (true, record h { entries = resized h.entries (size_t (n + 1)) fresh; capacity = n })
]

pub heap_grow : Allocator → Heap → Bool × Heap
unfolding with_capacity
heap_grow a h = with_capacity a h (if h.capacity == 0 then 16 else size_t (h.capacity * 2))

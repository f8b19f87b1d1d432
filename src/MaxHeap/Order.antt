-- ===== src/MaxHeap/Order.antt =====
-- src/loopyMaxHeap.c: what holds of a heap between two calls, and what a swap of two entries keeps.
use loopy.Prelude.{
  ℕ, ◌+◌, ◌/◌, ◌^◌, ◌≤◌, ◌<◌, ◌≡◌, refl, ◌∙◌, ◌≢◌, ◌&&◌, arith, inl, inr, ◌==◌, if◌then◌else◌,
  Bool-cases,
}
use loopy.Prelude.Int.{ℤ, pos_part, neg_part, ◌≤ℤ◌}
use loopy.Prelude.Run.{ok}
use loopy.Prelude.Array.{Array, update, put, load-ok, store-ok}
use loopy.MaxHeap.Count.{count, count-update}
use loopy.MaxHeap.{PosEntry, Heap, is_tracked, track, heap_swap}

-- The heap as a bag.
abbrev pub amount : Heap → ℤ → ℕ
amount h x = count h.entries.cell h.size x

-- The sizes of the blocks; 2^61 cells of four bytes and 2^59 of sixteen fill half of the address
-- space.
pub record Shape (h : Heap) : Type 0 where
  pub entries_len : h.entries.len ≡ h.capacity + 1
  pub map_len : h.pos_map.len ≡ h.pos_map_size
  pub fits : h.size ≤ h.capacity
  pub small : h.capacity < 2 ^ 61
  pub map_small : h.pos_map_size ≤ 2 ^ 59

abbrev pub index_of : Array PosEntry → ℕ → ℕ
index_of m v = (m.cell v).heap_index

-- An index in the position map that is not 0 is an index of that value, also where the heap holds
-- the value more than once.
abbrev pub MapOk : Heap → Type 0
MapOk h =
    (v : ℕ)
    → v < h.pos_map_size
    → index_of h.pos_map v ≢ 0
    → (index_of h.pos_map v ≤ h.size)
      × (pos_part (h.entries.cell (index_of h.pos_map v)) ≡ v)
      × (neg_part (h.entries.cell (index_of h.pos_map v)) ≡ 0)

abbrev pub IsHeap : Heap → Type 0
IsHeap h = (c : ℕ) → 2 ≤ c → c ≤ h.size → h.entries.cell c ≤ℤ h.entries.cell (c / 2)

pub record IsValid (h : Heap) : Type 0 where
  pub shape : Shape h
  pub mapped : MapOk h
  pub heap : IsHeap h

-- `h'` has the sizes and the values of `h`.
pub record Kept (h h' : Heap) : Type 0 where
  pub shape : Shape h'
  pub mapped : MapOk h'
  pub same_size : h'.size ≡ h.size
  pub same_capacity : h'.capacity ≡ h.capacity
  pub same_amount : (x : ℤ) → amount h' x ≡ amount h x

pub Kept-refl : {h : Heap} → Shape h → MapOk h → Kept h h
Kept-refl s m = record {
  shape = s;
  mapped = m;
  same_size = refl;
  same_capacity = refl;
  same_amount = λ x. refl;
}

pub Kept-trans : {a b c : Heap} → Kept a b → Kept b c → Kept a c
Kept-trans p q = record {
  shape = q.shape;
  mapped = q.mapped;
  same_size = q.same_size ∙ p.same_size;
  same_capacity = q.same_capacity ∙ p.same_capacity;
  same_amount = λ x. q.same_amount x ∙ p.same_amount x;
}

-- `track` where the map has the length that the heap records.
pub tracked : Array PosEntry → ℕ → ℤ → ℕ → Array PosEntry
tracked m n v k =
    if is_tracked n v
    then put m (pos_part v) (record (m.cell (pos_part v)) { heap_index = k })
    else m

pub track-ok :
    (m : Array PosEntry) (n : ℕ) (v : ℤ) (k : ℕ) → m.len ≡ n → track m n v k ≡ ok (tracked m n v k)
unfolding track tracked
track-ok m n v k e = elim (Bool-cases (is_tracked n v)) [
  | inl t ↦
      let inside : pos_part v < m.len = ground arith in
      rw (t, load-ok m (pos_part v) inside, store-ok m (pos_part v) _ inside)
  | inr f ↦ rw f
]

pub len-tracked : (m : Array PosEntry) (n : ℕ) (v : ℤ) (k : ℕ) → (tracked m n v k).len ≡ m.len
unfolding tracked
len-tracked m n v k = ground arith

pub index_of-tracked :
    (m : Array PosEntry) (n : ℕ) (v : ℤ) (k w : ℕ)
    → index_of (tracked m n v k) w
      ≡ (if is_tracked n v && (pos_part v == w) then k else index_of m w)
unfolding tracked
index_of-tracked m n v k w = ground arith

-- `heap_swap` where both indices are in bounds.
abbrev pub swapped : Heap → ℕ → ℕ → Heap
swapped h i j = record h {
  entries = put (put h.entries i (h.entries.cell j)) j (h.entries.cell i);
  pos_map =
      tracked (tracked h.pos_map h.pos_map_size (h.entries.cell i) j) h.pos_map_size
        (h.entries.cell j) i;
}

module _ (h : Heap) (i j : ℕ) (s : Shape h) where
  -- The position map after the first of the two writes.
  abbrev first_map : Array PosEntry
  first_map = tracked h.pos_map h.pos_map_size (h.entries.cell i) j

  len-first_map : first_map.len ≡ h.pos_map_size
  len-first_map = len-tracked h.pos_map h.pos_map_size (h.entries.cell i) j ∙ s.map_len

  pub heap_swap-ok : i ≤ h.size → j ≤ h.size → heap_swap h i j ≡ ok (swapped h i j)
  unfolding heap_swap
  heap_swap-ok hi hj =
      let d = put h.entries i (h.entries.cell j) in
      rw (
        load-ok h.entries i (omega arith),
        load-ok h.entries j (omega arith),
        store-ok h.entries i (h.entries.cell j) (omega arith),
        store-ok d j (h.entries.cell i) (omega arith),
        track-ok h.pos_map h.pos_map_size (h.entries.cell i) j s.map_len,
        track-ok first_map h.pos_map_size (h.entries.cell j) i len-first_map,
      )

  swapped-index :
      (v : ℕ)
      → index_of (swapped h i j).pos_map v ≡ (
          if is_tracked h.pos_map_size (h.entries.cell j) && (pos_part (h.entries.cell j) == v)
          then i
          else if is_tracked h.pos_map_size (h.entries.cell i) && (pos_part (h.entries.cell i) == v)
          then j
          else index_of h.pos_map v)
  swapped-index v = rw (
    index_of-tracked first_map h.pos_map_size (h.entries.cell j) i v,
    index_of-tracked h.pos_map h.pos_map_size (h.entries.cell i) j v,
  )

  module _ (pi : 0 < i) (hi : i ≤ h.size) (pj : 0 < j) (hj : j ≤ h.size) (ne : i ≢ j) where
    pub swapped-MapOk : MapOk h → MapOk (swapped h i j)
    swapped-MapOk m v hv nz = ground (arith, swapped-index v, m v hv)

    swapped-amount : (x : ℤ) → amount (swapped h i j) x ≡ amount h x
    swapped-amount x = ground (
      arith,
      count-update h.entries.cell h.size i (h.entries.cell j) x,
      count-update (update h.entries.cell i (h.entries.cell j)) h.size j (h.entries.cell i) x,
    )

    pub swapped-Kept : MapOk h → Kept h (swapped h i j)
    swapped-Kept m = record {
      shape = record {
        entries_len = s.entries_len;
        map_len = len-tracked first_map h.pos_map_size (h.entries.cell j) i ∙ len-first_map;
        fits = s.fits;
        small = s.small;
        map_small = s.map_small;
      };
      mapped = swapped-MapOk m;
      same_size = refl;
      same_capacity = refl;
      same_amount = swapped-amount;
    }

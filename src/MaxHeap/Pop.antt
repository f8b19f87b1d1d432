-- ===== src/MaxHeap/Pop.antt =====
-- src/loopyMaxHeap.c: `loopyMaxHeapPeek` and `loopyMaxHeapPop`.
use loopy.Prelude.{
  ℕ, zero, suc, ◌+◌, ◌-◌, ◌/◌, ◌≤◌, ◌<◌, ◌≡◌, ap, ◌∙◌, inl, inr, false, arith, ltb, ◌==◌,
  if◌then◌else◌, Bool-cases,
}
use loopy.Prelude.Int.{ℤ, ◌≤ℤ◌, ltb_ℤ}
use loopy.Prelude.Run.{ok, Returns, returns, Returns-bind, Returns-if}
use loopy.Prelude.Array.{Array, put, load-ok, store-ok}
use loopy.MaxHeap.{PosEntry, Heap, heap_bubble_down}
use loopy.MaxHeap.Ops.{empty_value, peek, move_last_to_root, pop}
use loopy.MaxHeap.Count.{hit, count-update, count-pred, count-absent}
use loopy.MaxHeap.Order.{
  Shape, MapOk, IsHeap, IsValid, Kept-refl, amount, tracked, track-ok, len-tracked,
  index_of-tracked,
}
use loopy.MaxHeap.Down.{DownInv, heap_bubble_down_restores}
use loopy.MaxHeap.Up.{Restored}

root_largest_below :
    (k : ℕ) (h : Heap) (i : ℕ)
    → IsHeap h
    → i < k
    → 0 < i
    → i ≤ h.size
    → h.entries.cell i ≤ℤ h.entries.cell 1
root_largest_below zero h i o f p q = absurd (omega arith)
root_largest_below (suc k) h i o f p q = elim (Bool-cases (i == 1)) [
  | inl e ↦ ground arith
  | inr e ↦
      let big : 2 ≤ i = ground arith in
      let above = root_largest_below k h (i / 2) o (omega arith) (omega arith) (omega arith) in
      omega (arith, o i big q, above)
]

-- The root is no smaller than any entry.
pub root_largest :
    (h : Heap) → IsHeap h → (i : ℕ) → 0 < i → i ≤ h.size → h.entries.cell i ≤ℤ h.entries.cell 1
root_largest h o i p q = root_largest_below (suc i) h i o (omega arith) p q

-- A value that the heap holds is no larger than the root.
pub amount-le_root : (h : Heap) (x : ℤ) → IsHeap h → 0 < amount h x → x ≤ℤ h.entries.cell 1
amount-le_root h x o p = elim (Bool-cases (ltb_ℤ (h.entries.cell 1) x)) [
  | inl above ↦
      let absent : amount h x ≡ 0 =
        count-absent h.entries.cell h.size x (λ i a b. ground (arith, root_largest h o i a b)) in
      absurd (omega (arith, absent))
  | inr fits ↦ ground arith
]

-- The state before the last entry is moved down from the root.
abbrev rooted : Heap → Heap
rooted h =
    let max = h.entries.cell 1 in
    let last = h.entries.cell h.size in
    record h {
      size = h.size - 1;
      entries = if ltb 1 h.size then put h.entries 1 last else h.entries;
      pos_map =
          if ltb 1 h.size
          then tracked (tracked h.pos_map h.pos_map_size max 0) h.pos_map_size last 1
          else tracked h.pos_map h.pos_map_size max 0;
    }

module _ (h : Heap) (valid : IsValid h) (some_left : 0 < h.size) where
  abbrev max_map : Array PosEntry
  max_map = tracked h.pos_map h.pos_map_size (h.entries.cell 1) 0

  len-max_map : max_map.len ≡ h.pos_map_size
  len-max_map = len-tracked h.pos_map h.pos_map_size (h.entries.cell 1) 0 ∙ valid.shape.map_len

  move_last_to_root-ok : move_last_to_root h max_map ≡ ok ((rooted h).entries, (rooted h).pos_map)
  unfolding move_last_to_root
  move_last_to_root-ok = elim (Bool-cases (ltb 1 h.size)) [
    | inl e ↦
        let s = valid.shape in
        rw (
          e,
          load-ok h.entries h.size (omega (arith, s.entries_len, s.fits)),
          store-ok h.entries 1 (h.entries.cell h.size) (omega (arith, s.entries_len, s.fits)),
          track-ok max_map h.pos_map_size (h.entries.cell h.size) 1 len-max_map,
        )
    | inr e ↦ rw e
  ]

  rooted-Shape : Shape (rooted h)
  rooted-Shape =
      let s = valid.shape in
      record {
        entries_len = ground (arith, s.entries_len);
        map_len =
            ground
              (arith, len-tracked max_map h.pos_map_size (h.entries.cell h.size) 1, len-max_map);
        fits = omega (arith, s.fits);
        small = s.small;
        map_small = s.map_small;
      }

  rooted-MapOk : MapOk (rooted h)
  rooted-MapOk w p q = ground (
    arith,
    valid.mapped w,
    index_of-tracked max_map h.pos_map_size (h.entries.cell h.size) 1 w,
    index_of-tracked h.pos_map h.pos_map_size (h.entries.cell 1) 0 w,
  )

  amount-rooted : (x : ℤ) → amount (rooted h) x + hit (h.entries.cell 1) x ≡ amount h x
  amount-rooted x = elim (Bool-cases (ltb 1 h.size)) [
    | inl e ↦ rw e (
        omega (
          arith,
          count-update h.entries.cell (h.size - 1) 1 (h.entries.cell h.size) x (omega arith)
              (ground arith),
          count-pred h.entries.cell h.size x some_left,
        ))
    | inr e ↦
        let one : h.size ≡ 1 = ground arith in
        rw e (ground (arith, one, count-pred h.entries.cell h.size x some_left))
  ]

  rooted-DownInv : 0 < (rooted h).size → DownInv (rooted h) 1
  rooted-DownInv more = record {
    positive = omega arith;
    inside = omega arith;
    edges = λ c p q ne. ground (arith, valid.heap c);
    bridged = λ c p q e t. absurd (omega arith);
  }

-- What `loopyMaxHeapPop` answers on a heap that is not empty: a largest value, which is what
-- `loopyMaxHeapPeek` shows, and a valid heap without that one occurrence.
pub record Popped (h : Heap) (r : ℤ × Heap) : Type 0 where
  pub valid : IsValid r.1
  pub smaller : r.1.size + 1 ≡ h.size
  pub taken : (x : ℤ) → amount r.1 x + hit r.0 x ≡ amount h x
  pub largest : (x : ℤ) → 0 < amount h x → x ≤ℤ r.0
  pub peeked : peek h ≡ ok r.0

-- The end of `loopyMaxHeapPop`.
rooted-sinks :
    (h : Heap)
    → IsValid h
    → 0 < h.size
    → Returns (Restored (rooted h)) (
        if ltb 0 (h.size - 1)
        then heap_bubble_down (h.size - 1 + 1) (rooted h) 1
        else ok (rooted h))
rooted-sinks h v p =
    Returns-if (ltb 0 (h.size - 1))
      (λ e.
        heap_bubble_down_restores (h.size - 1 + 1) (rooted h) 1 (omega arith) (rooted-Shape h v p)
          (rooted-MapOk h v p) (rooted-DownInv h v p (ground arith)))
      (λ e.
        returns
          (Kept-refl (rooted-Shape h v p) (rooted-MapOk h v p), λ c q r. absurd (ground arith)))

-- `loopyMaxHeapPop` on a valid heap with a value returns, and removes one occurrence of a largest
-- value.
pub pop-Popped : (h : Heap) → IsValid h → 0 < h.size → Returns (Popped h) (pop h)
unfolding pop peek
pop-Popped h v p =
    let s = v.shape in
    let nonempty : (h.size == 0) ≡ false = ground arith in
    let top = load-ok h.entries 1 (omega (arith, s.entries_len, s.fits)) in
    rw
      (
        nonempty,
        top,
        track-ok h.pos_map h.pos_map_size (h.entries.cell 1) 0 s.map_len,
        move_last_to_root-ok h v p,
      )
      (Returns-bind (rooted-sinks h v p) (λ h₂ r. returns (record {
        valid = record { shape = r.0.shape; mapped = r.0.mapped; heap = r.1 };
        smaller = omega (arith, r.0.same_size);
        taken =
            λ x. ap (λ n. n + hit (h.entries.cell 1) x) (r.0.same_amount x) ∙ amount-rooted h v p x;
        largest = λ x q. amount-le_root h x v.heap q;
        peeked = rw (nonempty, top);
      })))

-- `loopyMaxHeapPop` on an empty heap answers LOOPY_HEAP_EMPTY_VALUE and changes nothing.
pub pop-empty : (h : Heap) → h.size ≡ 0 → pop h ≡ ok (empty_value, h)
unfolding pop
pop-empty h e = ground arith

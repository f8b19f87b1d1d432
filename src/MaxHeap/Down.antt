-- ===== src/MaxHeap/Down.antt =====
-- src/loopyMaxHeap.c: `heapBubbleDown` restores the heap order below an entry.
use loopy.Prelude.{
  ℕ, zero, suc, ◌+◌, ◌-◌, ◌*◌, ◌/◌, ◌≤◌, ◌<◌, ◌≡◌, ◌≢◌, ◌⊎◌, inl, inr, true, arith, leb, ◌==◌,
  if◌then◌else◌, Bool-cases, sym,
}
use loopy.Prelude.Int.{◌≤ℤ◌, ltb_ℤ}
use loopy.Prelude.Run.{ok, Returns, returns, Returns-if}
use loopy.Prelude.Array.{load-ok}
use loopy.MaxHeap.{Heap, size_t, heap_bubble_down, larger}
use loopy.MaxHeap.Order.{Shape, MapOk, Kept-refl, swapped, heap_swap-ok, swapped-Kept}
use loopy.MaxHeap.Up.{Restored, Restored-trans}

-- Only the edges below `i` may be out of order.
pub record DownInv (h : Heap) (i : ℕ) : Type 0 where
  pub positive : 0 < i
  pub inside : i ≤ h.size
  pub edges : (c : ℕ) → 2 ≤ c → c ≤ h.size → c / 2 ≢ i → h.entries.cell c ≤ℤ h.entries.cell (c / 2)
  pub bridged :
      (c : ℕ) → 2 ≤ c → c ≤ h.size → c / 2 ≡ i → 2 ≤ i → h.entries.cell c ≤ℤ h.entries.cell (i / 2)

-- `m` is `i` or a child of `i`, and no value at `i` or below it is larger.
record IsLargest (h : Heap) (i m : ℕ) : Type 0 where
  inside : m ≤ h.size
  near : (m ≡ i) ⊎ ((m ≡ 2 * i) ⊎ (m ≡ 2 * i + 1))
  self : h.entries.cell i ≤ℤ h.entries.cell m
  largest : (c : ℕ) → 2 ≤ c → c ≤ h.size → c / 2 ≡ i → h.entries.cell c ≤ℤ h.entries.cell m
  strict : (m ≡ i) ⊎ (ltb_ℤ (h.entries.cell i) (h.entries.cell m) ≡ true)

larger-ok :
    (h : Heap) (c l : ℕ)
    → Shape h
    → l ≤ h.size
    → larger h c l
      ≡ ok
          (if leb c h.size then if ltb_ℤ (h.entries.cell l) (h.entries.cell c) then c else l else l)
unfolding larger
larger-ok h c l s hl = elim (Bool-cases (leb c h.size)) [
  | inl t ↦
      let below : c ≤ h.size = ground arith in
      rw (t, load-ok h.entries c (omega arith), load-ok h.entries l (omega arith))
  | inr f ↦ rw f
]

-- The child that the two tests of the loop choose.
abbrev left_choice : Heap → ℕ → ℕ
left_choice h i =
    if leb (2 * i) h.size
    then if ltb_ℤ (h.entries.cell i) (h.entries.cell (2 * i)) then 2 * i else i
    else i

abbrev choice : Heap → ℕ → ℕ
choice h i =
    let l = left_choice h i in
    if leb (2 * i + 1) h.size
    then if ltb_ℤ (h.entries.cell l) (h.entries.cell (2 * i + 1)) then 2 * i + 1 else l
    else l

left_choice-le : (h : Heap) (i : ℕ) → i ≤ h.size → left_choice h i ≤ h.size
left_choice-le h i p = ground arith

choice-IsLargest : (h : Heap) (i : ℕ) → 0 < i → i ≤ h.size → IsLargest h i (choice h i)
choice-IsLargest h i p q = record {
  inside = ground arith;
  near = ground arith;
  self = ground arith;
  largest = λ c a b e.
      let two : (c ≡ 2 * i) ⊎ (c ≡ 2 * i + 1) = omega arith in
      elim two [ inl l ↦ ground arith | inr r ↦ ground arith ];
  strict = ground arith;
}

swapped-DownInv :
    (h : Heap) (i m : ℕ) → DownInv h i → IsLargest h i m → m ≢ i → DownInv (swapped h i m) m
swapped-DownInv h i m v g ne = record {
  positive = omega (arith, v.positive, g.near);
  inside = g.inside;
  edges =
      λ c p q t. ground (arith, v.edges c, v.bridged c, g.largest c, g.self, g.near, v.bridged m);
  bridged = λ c p q e t. ground (arith, v.edges c, g.near);
}

settled-IsHeap :
    (h : Heap) (i m : ℕ)
    → DownInv h i
    → IsLargest h i m
    → m ≡ i
    → (c : ℕ) → 2 ≤ c
    → c ≤ h.size
    → h.entries.cell c ≤ℤ h.entries.cell (c / 2)
settled-IsHeap h i m v g e c p q = ground (arith, v.edges c, g.largest c)

pub heap_bubble_down_restores :
    (k : ℕ) (h : Heap) (i : ℕ)
    → h.size - i < k
    → Shape h
    → MapOk h
    → DownInv h i
    → Returns (Restored h) (heap_bubble_down k h i)
unfolding heap_bubble_down
heap_bubble_down_restores zero h i f s m v = absurd (omega arith)
heap_bubble_down_restores (suc k) h i f s m v =
    let hi = v.inside in
    let left : size_t (2 * i) ≡ 2 * i = omega (arith, s.fits, s.small) in
    let g = choice-IsLargest h i v.positive hi in
    let n = choice h i in
    rw
      (
        left,
        larger-ok h (2 * i) i s hi,
        larger-ok h (2 * i + 1) (left_choice h i) s (left_choice-le h i hi),
        heap_swap-ok h i n s hi g.inside,
      )
      (Returns-if (n == i) (λ e. returns (Kept-refl s m, settled-IsHeap h i n v g (ground arith)))
        (λ e.
          let ne : n ≢ i = ground arith in
          let deep : 0 < n = omega (arith, g.near, v.positive) in
          let kept = swapped-Kept h i n s v.positive hi deep g.inside (λ eq. ne (sym eq)) m in
          Restored-trans kept (
            heap_bubble_down_restores k (swapped h i n) n (omega (arith, g.near, g.inside))
              kept.shape kept.mapped (swapped-DownInv h i n v g ne))))

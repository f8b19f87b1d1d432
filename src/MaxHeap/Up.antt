-- ===== src/MaxHeap/Up.antt =====
-- src/loopyMaxHeap.c: `heapBubbleUp` restores the heap order above an entry.
use loopy.Prelude.{ℕ, zero, suc, ◌/◌, ◌≤◌, ◌<◌, ◌≡◌, ◌≢◌, true, arith, ltb}
use loopy.Prelude.Int.{◌≤ℤ◌, ltb_ℤ}
use loopy.Prelude.Run.{Run, Returns, returns, Returns-map, Returns-if}
use loopy.Prelude.Array.{load-ok}
use loopy.MaxHeap.{Heap, heap_bubble_up}
use loopy.MaxHeap.Order.{
  Shape, MapOk, IsHeap, Kept, Kept-refl, Kept-trans, swapped, heap_swap-ok, swapped-Kept,
}

-- The sizes and the values of `h`, in heap order.
abbrev pub Restored : Heap → Heap → Type 0
Restored h h' = Kept h h' × IsHeap h'

pub Restored-trans :
    {a b : Heap} {r : Run Heap} → Kept a b → Returns (Restored b) r → Returns (Restored a) r
Restored-trans k run = Returns-map run λ h s. (Kept-trans k s.0, s.1)

-- Only the edge above `i` may be out of order.
pub record UpInv (h : Heap) (i : ℕ) : Type 0 where
  pub positive : 0 < i
  pub inside : i ≤ h.size
  pub edges : (c : ℕ) → 2 ≤ c → c ≤ h.size → c ≢ i → h.entries.cell c ≤ℤ h.entries.cell (c / 2)
  pub bridged :
      (c : ℕ) → 2 ≤ c → c ≤ h.size → c / 2 ≡ i → 2 ≤ i → h.entries.cell c ≤ℤ h.entries.cell (i / 2)

swapped-UpInv :
    (h : Heap) (i : ℕ)
    → UpInv h i
    → 1 < i
    → ltb_ℤ (h.entries.cell (i / 2)) (h.entries.cell i) ≡ true
    → UpInv (swapped h i (i / 2)) (i / 2)
swapped-UpInv h i v big above = record {
  positive = omega arith;
  inside = omega (arith, v.inside);
  edges = λ c p q ne. ground (arith, v.edges c, v.bridged c);
  bridged = λ c p q e t. ground (arith, v.edges c, v.edges (i / 2));
}

pub heap_bubble_up_restores :
    (k : ℕ) (h : Heap) (i : ℕ)
    → i ≤ k
    → Shape h
    → MapOk h
    → UpInv h i
    → Returns (Restored h) (heap_bubble_up k h i)
unfolding heap_bubble_up
heap_bubble_up_restores zero h i f s m v = absurd (omega (arith, v.positive))
heap_bubble_up_restores (suc k) h i f s m v =
    Returns-if (ltb 1 i)
      (λ big.
        let p = i / 2 in
        let high : p ≤ h.size = omega (arith, v.inside) in
        let low : 0 < p = ground arith in
        rw
          (
            load-ok h.entries p (omega (arith, s.entries_len, s.fits)),
            load-ok h.entries i (omega (arith, s.entries_len, s.fits, v.inside)),
            heap_swap-ok h i p s v.inside high,
          )
          (Returns-if (ltb_ℤ (h.entries.cell p) (h.entries.cell i))
            (λ above.
              let kept = swapped-Kept h i p s v.positive v.inside low high (ground arith) m in
              Restored-trans kept (
                heap_bubble_up_restores k (swapped h i p) p (ground arith) kept.shape kept.mapped
                  (swapped-UpInv h i v (ground arith) above)))
            (λ settled. returns (Kept-refl s m, λ c q r. ground (arith, v.edges c)))))
      (λ root. returns (Kept-refl s m, λ c q r. v.edges c q r (ground arith)))

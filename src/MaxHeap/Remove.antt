-- ===== src/MaxHeap/Remove.antt =====
-- src/loopyMaxHeap.c: `loopyMaxHeapRemove`.
use loopy.Prelude.{
  ℕ, ◌+◌, ◌-◌, ◌/◌, ◌≤◌, ◌<◌, ◌≡◌, refl, ap, ◌∙◌, inl, inr, Bool, true, false, arith, ltb, ◌==◌,
  if◌then◌else◌, Bool-cases,
}
use loopy.Prelude.Int.{ℤ, ltb_ℤ, eqb_ℤ}
use loopy.Prelude.Run.{ok, ◌>>=◌, Returns, returns, Returns-bind, Returns-if}
use loopy.Prelude.Array.{Array, update, put, load-ok, store-ok}
use loopy.MaxHeap.{PosEntry, Heap, heap_bubble_up, heap_bubble_down}
use loopy.MaxHeap.Ops.{remove_at, remove}
use loopy.MaxHeap.Count.{hit, count-update, count-pred, count-absent}
use loopy.MaxHeap.Order.{
  Shape, MapOk, IsValid, amount, tracked, track-ok, len-tracked, index_of-tracked,
}
use loopy.MaxHeap.Up.{UpInv, Restored, heap_bubble_up_restores}
use loopy.MaxHeap.Down.{DownInv, heap_bubble_down_restores}
use loopy.MaxHeap.Find.{find_index-Located}

-- What `loopyMaxHeapRemove` answers: with true one occurrence of the value is gone; with false
-- there was none, and nothing changes.
pub record Removed (h : Heap) (v : ℤ) (r : Bool × Heap) : Type 0 where
  pub valid : IsValid r.1
  pub taken : r.0 ≡ true → (x : ℤ) → amount r.1 x + hit v x ≡ amount h x
  pub smaller : r.0 ≡ true → r.1.size + 1 ≡ h.size
  pub absent : r.0 ≡ false → (r.1 ≡ h) × (amount h v ≡ 0)

module _ (h : Heap) (v : ℤ) (i : ℕ) (valid : IsValid h) (pi : 0 < i) (hi : i ≤ h.size)
    (here : eqb_ℤ (h.entries.cell i) v ≡ true) where
  abbrev unmapped : Array PosEntry
  unmapped = tracked h.pos_map h.pos_map_size v 0

  len-unmapped : unmapped.len ≡ h.pos_map_size
  len-unmapped = len-tracked h.pos_map h.pos_map_size v 0 ∙ valid.shape.map_len

  -- The heap without its last entry.
  abbrev shortened : Heap
  shortened = record h { pos_map = unmapped; size = h.size - 1 }

  shortened-IsValid : i ≡ h.size → IsValid shortened
  shortened-IsValid e = record {
    shape = record {
      entries_len = valid.shape.entries_len;
      map_len = len-unmapped;
      fits = omega (arith, valid.shape.fits);
      small = valid.shape.small;
      map_small = valid.shape.map_small;
    };
    mapped =
        λ w p q. ground (arith, valid.mapped w, index_of-tracked h.pos_map h.pos_map_size v 0 w);
    heap = λ c p q. valid.heap c p (omega arith);
  }

  amount-shortened : i ≡ h.size → (x : ℤ) → amount shortened x + hit v x ≡ amount h x
  amount-shortened e x = ground (arith, count-pred h.entries.cell h.size x)

  -- The heap with its last entry at index `i`.
  abbrev last : ℤ
  last = h.entries.cell h.size

  abbrev moved : Heap
  moved = record h {
    entries = put h.entries i last;
    pos_map = tracked unmapped h.pos_map_size last i;
    size = h.size - 1;
  }

  module _ (inner : i < h.size) where
    moved-Shape : Shape moved
    moved-Shape = record {
      entries_len = valid.shape.entries_len;
      map_len = len-tracked unmapped h.pos_map_size last i ∙ len-unmapped;
      fits = omega (arith, valid.shape.fits);
      small = valid.shape.small;
      map_small = valid.shape.map_small;
    }

    moved-MapOk : MapOk moved
    moved-MapOk w p q = ground (
      arith,
      valid.mapped w,
      index_of-tracked unmapped h.pos_map_size last i w,
      index_of-tracked h.pos_map h.pos_map_size v 0 w,
    )

    amount-moved : (x : ℤ) → amount moved x + hit v x ≡ amount h x
    amount-moved x = ground (
      arith,
      count-update h.entries.cell (h.size - 1) i last x,
      count-pred h.entries.cell h.size x,
    )

    moved-UpInv : 1 < i → ltb_ℤ (h.entries.cell (i / 2)) last ≡ true → UpInv moved i
    moved-UpInv big above = record {
      positive = pi;
      inside = omega arith;
      edges = λ c p q ne. ground (arith, valid.heap c, valid.heap i);
      bridged = λ c p q e t. ground (arith, valid.heap c, valid.heap i);
    }

    moved-DownInv : (1 < i → ltb_ℤ (h.entries.cell (i / 2)) last ≡ false) → DownInv moved i
    moved-DownInv below = record {
      positive = pi;
      inside = omega arith;
      edges = λ c p q ne. elim (Bool-cases (c == i)) [
        | inl e ↦ ground (arith, below (ground arith))
        | inr e ↦ ground (arith, valid.heap c)
      ];
      bridged = λ c p q e t. ground (arith, valid.heap c, valid.heap i);
    }

    -- `if (i > 1 && data[i] > data[PARENT(i)])`: up, and otherwise down.
    moved-sifts :
        (b : Bool)
        → (b ≡ true → (1 < i) × (ltb_ℤ (h.entries.cell (i / 2)) last ≡ true))
        → (b ≡ false → 1 < i → ltb_ℤ (h.entries.cell (i / 2)) last ≡ false)
        → Returns
            (Restored moved)
            (if b then heap_bubble_up i moved i else heap_bubble_down (h.size - 1 + 1) moved i)
    moved-sifts b up down =
        Returns-if b
          (λ e.
            heap_bubble_up_restores i moved i (omega arith) moved-Shape moved-MapOk
              (moved-UpInv (up e).0 (up e).1))
          (λ e.
            heap_bubble_down_restores (h.size - 1 + 1) moved i (omega arith) moved-Shape moved-MapOk
              (moved-DownInv (down e)))

  removed : {r : Heap} → i < h.size → Restored moved r → Removed h v (true, r)
  removed inner r = record {
    valid = record { shape = r.0.shape; mapped = r.0.mapped; heap = r.1 };
    taken = λ _ x. ap (λ n. n + hit v x) (r.0.same_amount x) ∙ amount-moved inner x;
    smaller = λ _. omega (arith, r.0.same_size);
    absent = λ t. cc;
  }

  moved-Removed :
      i < h.size
      → (b : Bool) → (b ≡ true → (1 < i) × (ltb_ℤ (h.entries.cell (i / 2)) last ≡ true))
      → (b ≡ false → 1 < i → ltb_ℤ (h.entries.cell (i / 2)) last ≡ false)
      → Returns (Removed h v) (
          (if b then heap_bubble_up i moved i else heap_bubble_down (h.size - 1 + 1) moved i)
          >>= λ h₂. ok (true, h₂))
  moved-Removed inner b up down =
      Returns-bind (moved-sifts inner b up down) (λ h₂ r. returns (removed inner r))

  remove_at-Removed : Returns (Removed h v) (remove_at h v i)
  unfolding remove_at
  remove_at-Removed =
      let s = valid.shape in
      rw (track-ok h.pos_map h.pos_map_size v 0 s.map_len) (
        Returns-if (i == h.size)
          (λ e.
            let end : i ≡ h.size = ground arith in
            returns (record {
              valid = shortened-IsValid end;
              taken = λ _ x. amount-shortened end x;
              smaller = λ _. omega arith;
              absent = λ t. cc;
            }))
          (λ e.
            let inner : i < h.size = ground arith in
            let d = put h.entries i last in
            let self : update h.entries.cell i last i ≡ last = ground arith in
            rw
              (
                load-ok h.entries h.size (omega (arith, s.entries_len, s.fits)),
                store-ok h.entries i last (omega (arith, s.entries_len, s.fits)),
                track-ok unmapped h.pos_map_size last i len-unmapped,
                load-ok d i (omega (arith, s.entries_len, s.fits)),
                self,
              )
              (elim (Bool-cases (ltb 1 i)) [
                | inl big ↦
                    let parent : update h.entries.cell i last (i / 2) ≡ h.entries.cell (i / 2) =
                      ground arith in
                    rw (big, load-ok d (i / 2) (omega (arith, s.entries_len, s.fits)), parent)
                      (moved-Removed inner (ltb_ℤ (h.entries.cell (i / 2)) last)
                        (λ t. (ground arith, t)) (λ t _. t))
                | inr root ↦
                    rw root (moved-Removed inner false (λ t. cc) (λ _ t. absurd (ground arith)))
              ])))

-- `loopyMaxHeapRemove` on a valid heap returns. It removes one occurrence of the value, or answers
-- false where the heap does not hold it.
pub remove-Removed : (h : Heap) (v : ℤ) → IsValid h → Returns (Removed h v) (remove h v)
unfolding remove
remove-Removed h v valid =
    Returns-if (h.size == 0)
      (λ e.
        returns (nothing (count-absent h.entries.cell h.size v (λ i p q. absurd (ground arith)))))
      (λ e. Returns-bind (find_index-Located h v valid) (λ i l. elim l [
        | inl (z, none_held) ↦ rw z (returns (nothing none_held))
        | inr (p, q, here, _) ↦
            let nz : (i == 0) ≡ false = ground arith in
            rw nz (remove_at-Removed h v i valid p q here)
      ]))
  where
    nothing : amount h v ≡ 0 → Removed h v (false, h)
    nothing z = record {
      valid = valid;
      taken = λ t. cc;
      smaller = λ t. cc;
      absent = λ _. (refl, z);
    }

-- ===== src/MaxHeap/Insert.antt =====
-- src/loopyMaxHeap.c: `loopyMaxHeapInit` and `loopyMaxHeapInsert`.
use loopy.Prelude.{
  ℕ, ◌+◌, ◌*◌, ◌^◌, ◌≤◌, ◌<◌, ◌≡◌, refl, sym, ap, ◌∙◌, inl, inr, Bool, true, false, not, arith, leb,
  ◌==◌, if◌then◌else◌, Bool-cases,
}
use mathlib.Core.Path.{subst}
use loopy.Prelude.Int.{ℤ, pos_part, IsInt32}
use loopy.Prelude.Run.{ok, ◌>>=◌, Returns, returns, Returns-map, Returns-bind, Returns-if}
use loopy.Prelude.Array.{Array, put, store-ok}
use loopy.Prelude.Allocator.{Allocator, IsAllocator}
use mathlib.Core.Bool.{false≢true}
use loopy.MaxHeap.{PosEntry, Heap, size_t, is_tracked, heap_grow, ensure_pos_map_capacity}
use loopy.MaxHeap.Ops.{cleared, no_entries, no_map, init, record_entry, append_value, insert}
use loopy.MaxHeap.Count.{hit, count-update_past, count-pred}
use loopy.MaxHeap.Order.{Shape, MapOk, IsValid, amount}
use loopy.MaxHeap.Up.{UpInv, heap_bubble_up_restores}
use loopy.MaxHeap.Capacity.{
  SameValues, SameValues-refl, DataRefused, MapRefused, heap_grow-Resized,
  ensure_pos_map_capacity-Mapped,
}

-- The state that `loopyMaxHeapInit` builds for `n` entries.
abbrev fresh_heap : Bool → ℕ → Heap
fresh_heap was n = record (cleared was) {
  entries = record no_entries { len = size_t (n + 1) };
  pos_map = record no_map { len = n };
  capacity = n;
  pos_map_size = n;
}

fresh_heap-IsValid : (was : Bool) (n : ℕ) → n ≤ 2 ^ 59 → IsValid (fresh_heap was n)
fresh_heap-IsValid was n small = record {
  shape = record {
    entries_len = omega arith;
    map_len = refl;
    fits = omega arith;
    small = omega arith;
    map_small = small;
  };
  mapped = λ w p q. absurd (q refl);
  heap = λ c p q. absurd (omega arith);
}

-- `loopyMaxHeapInit` answers true only with a valid heap that holds no value.
init-IsValid :
    (a : Allocator) (h : Heap) (n : ℕ)
    → IsAllocator a
    → (init a h n).0 ≡ true
    → IsValid (init a h n).1 × ((init a h n).1.size ≡ 0)
unfolding init
init-IsValid a h n law =
    let m = if n == 0 then 16 else n in
    elim (Bool-cases (a.zcalloc (size_t (m + 1)) 4)) [
      | inl e ↦ elim (Bool-cases (a.zcalloc m 16)) [
        | inl f ↦
            rw (e, f)
              (λ _.
                (fresh_heap-IsValid h.allocated m (omega (arith, law.zcalloc_fits m 16 f)), refl))
        | inr f ↦ rw (e, f) (λ t. cc)
      ]
      | inr e ↦ rw e (λ t. cc)
    ]

-- The map that `loopyMaxHeapInsert` writes: it has the entry of a value that it tracks.
abbrev recorded : Heap → ℤ → Array PosEntry
recorded h v =
    if is_tracked h.pos_map_size v
    then put h.pos_map (pos_part v) (record { value = v; heap_index = h.size + 1 })
    else h.pos_map

-- The heap with the value at its end, before it is moved up.
abbrev appended : Heap → ℤ → Heap
appended h v = record h {
  size = h.size + 1;
  entries = put h.entries (h.size + 1) v;
  pos_map = recorded h v;
}

record_entry-ok : (h : Heap) (v : ℤ) → Shape h → record_entry h v (h.size + 1) ≡ ok (recorded h v)
unfolding record_entry
record_entry-ok h v s = elim (Bool-cases (is_tracked h.pos_map_size v)) [
  | inl t ↦ rw (t, store-ok h.pos_map (pos_part v) _ (ground (arith, s.map_len)))
  | inr f ↦ rw f
]

module _ (h : Heap) (v : ℤ) (valid : IsValid h) (room : h.size < h.capacity) where
  appended-Shape : Shape (appended h v)
  appended-Shape =
      let s = valid.shape in
      record {
        entries_len = s.entries_len;
        map_len = ground (arith, s.map_len);
        fits = omega arith;
        small = s.small;
        map_small = s.map_small;
      }

  appended-MapOk : MapOk (appended h v)
  appended-MapOk w p q = ground (arith, valid.mapped w)

  appended-UpInv : UpInv (appended h v) (h.size + 1)
  appended-UpInv = record {
    positive = omega arith;
    inside = omega arith;
    edges = λ c p q ne. ground (arith, valid.heap c);
    bridged = λ c p q e t. absurd (omega arith);
  }

  amount-appended : (x : ℤ) → amount (appended h v) x ≡ amount h x + hit v x
  amount-appended x = ground (
    arith,
    count-pred (appended h v).entries.cell (h.size + 1) x (omega arith),
    count-update_past h.entries.cell h.size (h.size + 1) v x,
  )

  -- With room in both arrays the value is added.
  append_value-adds :
      Returns
        (λ (r : Bool × Heap).
          (r.0 ≡ true)
          × IsValid r.1
          × (r.1.size ≡ h.size + 1)
          × ((x : ℤ) → amount r.1 x ≡ amount h x + hit v x))
        (append_value h v)
  unfolding append_value
  append_value-adds =
      let s = valid.shape in
      let exact : size_t (h.size + 1) ≡ h.size + 1 = omega (arith, s.small) in
      rw
        (
          exact,
          store-ok h.entries (h.size + 1) v (omega (arith, s.entries_len)),
          record_entry-ok h v s,
        )
        (Returns-bind
          (heap_bubble_up_restores (h.size + 1) (appended h v) (h.size + 1) (omega arith)
            appended-Shape appended-MapOk appended-UpInv)
          (λ h' r. returns (
            refl,
            record { shape = r.0.shape; mapped = r.0.mapped; heap = r.1 },
            r.0.same_size,
            λ x. r.0.same_amount x ∙ amount-appended x,
          )))

-- The allocator has refused one of the two requests of `loopyMaxHeapInsert`: that of a full heap for
-- a `data` array of twice its capacity, or that for a position map with an entry of the value.
pub data Refusal (a : Allocator) (h : Heap) (v : ℤ) : Type 0 where
  data_refused :
      h.capacity ≤ h.size
      → DataRefused a (if h.capacity == 0 then 16 else h.capacity * 2)
      → Refusal a h v
  map_refused : MapRefused a h.pos_map_size v → Refusal a h v

-- What `loopyMaxHeapInsert` answers: with true the value is added once; with false the allocator
-- has refused a request that it made, and no value changes.
pub record Inserted (a : Allocator) (h : Heap) (v : ℤ) (r : Bool × Heap) : Type 0 where
  pub valid : IsValid r.1
  pub added : r.0 ≡ true → (x : ℤ) → amount r.1 x ≡ amount h x + hit v x
  pub grown : r.0 ≡ true → r.1.size ≡ h.size + 1
  pub refused : r.0 ≡ false → SameValues h r.1 × Refusal a h v

module _ (a : Allocator) (law : IsAllocator a) where
  insert_refused :
      (h h' : Heap) (v : ℤ) → SameValues h h' → Refusal a h v → Inserted a h v (false, h')
  insert_refused h h' v s c = record {
    valid = s.valid;
    added = λ t. cc;
    grown = λ t. cc;
    refused = λ _. (s, c);
  }

  -- The part behind `heapGrow`.
  insert_tail :
      (h h₁ : Heap) (v : ℤ)
      → SameValues h h₁
      → h₁.pos_map_size ≡ h.pos_map_size
      → h₁.size < h₁.capacity
      → IsInt32 v
      → Returns (Inserted a h v) (do
        (mapped, h₂) ← ensure_pos_map_capacity a h₁ v
        if mapped then append_value h₂ v else ok (false, h₂))
  insert_tail h h₁ v s map room int =
      Returns-bind (ensure_pos_map_capacity-Mapped a law h₁ v s.valid int) (λ (b, h₂) m.
        let s₂ : SameValues h h₂ = record {
          valid = m.same.valid;
          same_size = m.same.same_size ∙ s.same_size;
          same_amount = λ x. m.same.same_amount x ∙ s.same_amount x;
        } in
        Returns-if b
          (λ yes'.
            Returns-map
              (append_value-adds h₂ v m.same.valid
                (omega (arith, m.same.same_size, m.same_capacity)))
              (λ r q. record {
                valid = q.1;
                added = λ _ x. q.3 x ∙ ap (λ n. n + hit v x) (s₂.same_amount x);
                grown = λ _. omega (arith, q.2, s₂.same_size);
                refused = λ t. absurd (false≢true (sym t ∙ q.0));
              }))
          (λ no'. returns (
            insert_refused h h₂ v s₂
              (map_refused (subst (λ size. MapRefused a size v) map (m.refused no'))))))

  -- Insertion of a 32-bit value into a valid heap returns for every answer of an allocator that
  -- gives no block above 2^63 bytes; it adds the value once and keeps the heap valid, or no
  -- value changes and the allocator has refused the request that the insertion makes: on a full
  -- heap that for twice the capacity, or, for a value that the position map does not cover, that
  -- for the doubled map.
  pub insert-Inserted :
      (h : Heap) (v : ℤ) → IsValid h → IsInt32 v → Returns (Inserted a h v) (insert a h v)
  unfolding insert
  insert-Inserted h v valid int = elim (Bool-cases (leb h.capacity h.size)) [
    | inl full ↦
        let g = heap_grow-Resized a law h valid in
        rw full (
          Returns-if (not (heap_grow a h).0)
            (λ refused.
              let c : (heap_grow a h).0 ≡ false = ground arith in
              returns (
                insert_refused h (heap_grow a h).1 v g.same
                  (data_refused (ground arith) (g.refused c).1)))
            (λ grown.
              insert_tail h (heap_grow a h).1 v g.same g.same_map
                (ground (arith, g.done, g.same.same_size, valid.shape.fits)) int))
    | inr room ↦ rw room (insert_tail h h v (SameValues-refl valid) refl (ground arith) int)
  ]

-- ===== src/MaxHeap/Capacity.antt =====
-- src/loopyMaxHeap.c: growing the two arrays keeps the heap (`heapGrow`, `ensurePosMapCapacity`,
-- `loopyMaxHeapReserve`).
use loopy.Prelude.{
  ℕ, zero, suc, ◌+◌, ◌-◌, ◌*◌, ◌/◌, ◌^◌, ◌≤◌, ◌<◌, ◌≡◌, refl, ◌⊎◌, inl, inr, Bool, true, false,
  none, arith, ltb, leb, ◌==◌, if◌then◌else◌, Bool-cases, Option-cases,
}
use loopy.Prelude.Int.{ℤ, pos_part, is_nonneg, IsInt32}
use loopy.Prelude.Run.{ok, Returns, returns, Returns-value, Returns-map, Returns-if}
use loopy.Prelude.Array.{resized}
use loopy.Prelude.Allocator.{Allocator, IsAllocator}
use loopy.MaxHeap.{
  Heap, size_t, zero_entry, double_until, ensure_pos_map_capacity, with_capacity, heap_grow,
}
use loopy.MaxHeap.Ops.{reserve}
use loopy.MaxHeap.Order.{IsValid, amount}
use loopy.MaxHeap.Count.{count-eq}

-- `h'` is valid and holds the values of `h`.
pub record SameValues (h h' : Heap) : Type 0 where
  pub valid : IsValid h'
  pub same_size : h'.size ≡ h.size
  pub same_amount : (x : ℤ) → amount h' x ≡ amount h x

pub SameValues-refl : {h : Heap} → IsValid h → SameValues h h
SameValues-refl v = record { valid = v; same_size = refl; same_amount = λ x. refl }

resized-SameValues :
    (h : Heap) (n : ℕ) (fresh : ℕ → ℤ)
    → IsValid h
    → h.size ≤ n
    → n < 2 ^ 61
    → SameValues h (record h { entries = resized h.entries (size_t (n + 1)) fresh; capacity = n })
resized-SameValues h n fresh v fits small =
    let s = v.shape in
    let old : (i : ℕ)
        → i ≤ h.size
        → (if ltb i h.entries.len then h.entries.cell i else fresh i) ≡ h.entries.cell i =
      λ i p. ground (arith, s.entries_len, s.fits) in
    record {
      valid = record {
        shape = record {
          entries_len = omega arith;
          map_len = s.map_len;
          fits = fits;
          small = small;
          map_small = s.map_small;
        };
        mapped = λ w p q. ground (arith, v.mapped w, old (h.pos_map.cell w).heap_index);
        heap = λ c p q. ground (arith, v.heap c, old c, old (c / 2));
      };
      same_size = refl;
      same_amount = λ x. count-eq _ h.entries.cell h.size x old;
    }

-- The allocator has refused the request for a `data` array of `n` values.
abbrev pub DataRefused : Allocator → ℕ → Type 0
DataRefused a n = a.zrealloc (size_t ((n + 1) * 4)) ≡ none

-- The size from which the position map is doubled, and the size that an entry of `v` needs
abbrev pub first_size : ℕ → ℕ
first_size size = if size == 0 then 16 else size_t (size * 2)

abbrev pub needed_size : ℤ → ℕ
needed_size v = size_t (pos_part v + 1)

-- A position map of this size has no entry for `v`, and the allocator has refused the request for
-- the doubled one.
pub record MapRefused (a : Allocator) (size : ℕ) (v : ℤ) : Type 0 where
  pub tracked : is_nonneg v ≡ true
  pub short : size ≤ pos_part v
  pub next : ℕ
  pub doubled : double_until (needed_size v + 1) (needed_size v) (first_size size) ≡ ok next
  pub enough : pos_part v < next
  pub refused : a.zrealloc (size_t (next * 16)) ≡ none

-- What a request for a larger `data` array answers.
pub record Resized (a : Allocator) (h : Heap) (n : ℕ) (r : Bool × Heap) : Type 0 where
  pub same : SameValues h r.1
  pub done : r.0 ≡ true → r.1.capacity ≡ n
  pub refused : r.0 ≡ false → (r.1 ≡ h) × DataRefused a n
  pub same_map : r.1.pos_map_size ≡ h.pos_map_size

module _ (a : Allocator) (law : IsAllocator a) where
  with_capacity-Resized :
      (h : Heap) (n : ℕ)
      → IsValid h
      → h.size ≤ n
      → n < 2 ^ 62 - 1
      → Resized a h n (with_capacity a h n)
  unfolding with_capacity
  with_capacity-Resized h n v fits small = elim (Option-cases (a.zrealloc (size_t ((n + 1) * 4)))) [
    | inl e ↦
        rw (e, with_capacity)
          (record {
            same = SameValues-refl v;
            done = λ t. cc;
            refused = λ _. (refl, e);
            same_map = refl;
          })
    | inr (fresh, e) ↦
        rw (e, with_capacity)
          (record {
            same = resized-SameValues h n fresh v fits (omega (arith, law.zrealloc_fits _ fresh e));
            done = λ _. refl;
            refused = λ t. cc;
            same_map = refl;
          })
  ]

  -- `heapGrow` keeps a valid heap's values, and on success there is room for one more.
  pub heap_grow-Resized :
      (h : Heap)
      → IsValid h
      → Resized a h (if h.capacity == 0 then 16 else h.capacity * 2) (heap_grow a h)
  unfolding heap_grow
  heap_grow-Resized h v =
      let s = v.shape in
      let wrap : size_t (h.capacity * 2) ≡ h.capacity * 2 = omega (arith, s.small) in
      rw (wrap, heap_grow)
        (with_capacity-Resized h _ v (ground (arith, s.fits)) (ground (arith, s.small)))

  -- `loopyMaxHeapReserve` keeps a valid heap's values, and answers true only with the capacity.
  reserve-SameValues :
      (h : Heap) (n : ℕ)
      → IsValid h
      → n < 2 ^ 62 - 1
      → SameValues h (reserve a h n).1 × ((reserve a h n).0 ≡ true → n ≤ (reserve a h n).1.capacity)
  unfolding reserve
  reserve-SameValues h n v small = elim (Bool-cases (leb n h.capacity)) [
    | inl e ↦ rw (e, reserve) (SameValues-refl v, λ t. ground arith)
    | inr e ↦
        let r = with_capacity-Resized h n v (ground (arith, v.shape.fits)) small in
        rw (e, reserve) (r.same, λ t. omega (arith, r.done t))
  ]

-- `while (newSize < needed) newSize *= 2` ends, and leaves a size that is large enough.
pub double_until-ends :
    (k needed n : ℕ)
    → needed - n < k
    → 0 < n
    → needed ≤ 2 ^ 32
    → Returns (λ r. (needed ≤ r) × (n ≤ r) × ((r ≡ n) ⊎ (r < 2 ^ 33))) (double_until k needed n)
unfolding double_until
double_until-ends zero needed n f p b = absurd (omega arith)
double_until-ends (suc k) needed n f p b = elim (Bool-cases (ltb n needed)) [
  | inl e ↦
      let below : n < needed = ground arith in
      let wrap : size_t (n * 2) ≡ n * 2 = omega arith in
      rw (e, wrap)
        (Returns-map (double_until-ends k needed (n * 2) (omega arith) (omega arith) b)
          (λ r q. (q.0, omega arith, inr (omega arith))))
  | inr e ↦ rw e (returns (ground arith, omega arith, inl refl))
]

-- What a request for a larger position map answers: on success the value has an entry.
pub record Mapped (a : Allocator) (h : Heap) (v : ℤ) (r : Bool × Heap) : Type 0 where
  pub same : SameValues h r.1
  pub same_capacity : r.1.capacity ≡ h.capacity
  pub refused : r.0 ≡ false → MapRefused a h.pos_map_size v
  pub covers : r.0 ≡ true → is_nonneg v ≡ true → pos_part v < r.1.pos_map_size

larger_map-SameValues :
    (h : Heap) (n : ℕ)
    → IsValid h
    → h.pos_map_size ≤ n
    → n ≤ 2 ^ 59
    → SameValues h (record h { pos_map = resized h.pos_map n (λ _. zero_entry); pos_map_size = n })
larger_map-SameValues h n v more small =
    let s = v.shape in
    record {
      valid = record {
        shape = record {
          entries_len = s.entries_len;
          map_len = refl;
          fits = s.fits;
          small = s.small;
          map_small = small;
        };
        mapped = λ w p q. ground (arith, v.mapped w, s.map_len);
        heap = v.heap;
      };
      same_size = refl;
      same_amount = λ x. refl;
    }

module _ (a : Allocator) (law : IsAllocator a) where
  -- `ensurePosMapCapacity` returns, and keeps a valid heap's values.
  pub ensure_pos_map_capacity-Mapped :
      (h : Heap) (v : ℤ)
      → IsValid h
      → IsInt32 v
      → Returns (Mapped a h v) (ensure_pos_map_capacity a h v)
  unfolding ensure_pos_map_capacity
  ensure_pos_map_capacity-Mapped h v valid int =
      let s = valid.shape in
      let needed = needed_size v in
      let exact : needed ≡ pos_part v + 1 = omega (arith, int.0) in
      let first = first_size h.pos_map_size in
      let unchanged : (is_nonneg v ≡ true → pos_part v < h.pos_map_size) → Mapped a h v (true, h) =
        λ c. record {
          same = SameValues-refl valid;
          same_capacity = refl;
          refused = λ t. cc;
          covers = λ _. c;
        } in
      Returns-if (is_nonneg v)
        (λ tracked.
          Returns-if (leb needed h.pos_map_size) (λ room. returns (unchanged (λ _. ground arith)))
            (λ small.
              let start : (0 < first) × (h.pos_map_size ≤ first) × (first ≤ 2 ^ 33) =
                ground (arith, int.0, exact) in
              let (n, doubled, q) = Returns-value (
                double_until-ends (needed + 1) needed first (omega arith) start.0
                  (omega (arith, int.0))) in
              rw doubled (elim (Option-cases (a.zrealloc (size_t (n * 16)))) [
                | inl e ↦ rw e (
                    returns (record {
                      same = SameValues-refl valid;
                      same_capacity = refl;
                      refused = λ _. record {
                        tracked = tracked;
                        short = ground (arith, exact);
                        next = n;
                        doubled = doubled;
                        enough = omega (arith, q.0, exact);
                        refused = e;
                      };
                      covers = λ t. cc;
                    }))
                | inr (fresh, e) ↦ rw e (
                    returns (record {
                      same =
                          larger_map-SameValues h n valid (omega (arith, q.1, start.1))
                            (omega (arith, law.zrealloc_fits _ fresh e, start.2, q.2));
                      same_capacity = refl;
                      refused = λ t. cc;
                      covers = λ _ _. omega (arith, q.0);
                    }))
              ])))
        (λ negative. returns (unchanged (λ t. cc)))

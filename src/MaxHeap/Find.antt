-- ===== src/MaxHeap/Find.antt =====
-- src/loopyMaxHeap.c: looking a value up, in `loopyMaxHeapContains` and `loopyMaxHeapRemove`.
use loopy.Prelude.{
  ℕ, zero, suc, ◌+◌, ◌≤◌, ◌<◌, ◌≡◌, ◌≢◌, ◌↔◌, refl, ◌⊎◌, inl, inr, true, false, Option, none, some,
  arith, ltb, ◌==◌, if◌then◌else◌, Bool-cases,
}
use loopy.Prelude.Int.{ℤ, pos_part, eqb_ℤ}
use loopy.Prelude.Run.{ok, Returns, returns, Returns-map, Returns-bind}
use loopy.Prelude.Array.{Array, load-ok}
use loopy.MaxHeap.{Heap, is_tracked}
use loopy.MaxHeap.Ops.{linear_search, mapped_index, is_stale, find_index, contains}
use loopy.MaxHeap.Count.{count-absent, count-present}
use loopy.MaxHeap.Order.{IsValid, amount, index_of}

-- The index of an entry that is the value, at or behind `j`; or there is none.
abbrev Searched : Array ℤ → ℕ → ℕ → ℤ → Option ℕ → Type 0
Searched d j n v none = (i : ℕ) → j ≤ i → i ≤ n → eqb_ℤ (d.cell i) v ≡ false
Searched d j n v (some i) = (j ≤ i) × (i ≤ n) × (eqb_ℤ (d.cell i) v ≡ true)

Searched-step :
    (d : Array ℤ) (j n : ℕ) (v : ℤ) (o : Option ℕ)
    → eqb_ℤ (d.cell j) v ≡ false
    → Searched d (j + 1) n v o
    → Searched d j n v o
Searched-step d j n v none e h =
    λ i p q. elim (Bool-cases (i == j)) [ inl t ↦ ground arith | inr f ↦ h i (ground arith) q ]
Searched-step d j n v (some i) e h = (omega arith, h.1, h.2)

linear_search-Searched :
    (k : ℕ) (d : Array ℤ) (j n : ℕ) (v : ℤ)
    → j + k ≡ n + 1
    → n < d.len
    → Returns (Searched d j n v) (linear_search k d j v)
unfolding linear_search
linear_search-Searched zero d j n v e f = returns (λ i p q. absurd (omega arith))
linear_search-Searched (suc k) d j n v e f = elim (Bool-cases (eqb_ℤ (d.cell j) v)) [
  | inl here ↦ rw (load-ok d j (omega arith), here) (returns (omega arith, omega arith, here))
  | inr other ↦
      rw (load-ok d j (omega arith), other)
        (Returns-map (linear_search-Searched k d (j + 1) n v (omega arith) f)
          (λ o s. Searched-step d j n v o other s))
]

module _ (h : Heap) (v : ℤ) (valid : IsValid h) where
  abbrev mapped_at : ℕ
  mapped_at = if is_tracked h.pos_map_size v then index_of h.pos_map (pos_part v) else 0

  mapped_index-ok : mapped_index h v ≡ ok mapped_at
  unfolding mapped_index
  mapped_index-ok = elim (Bool-cases (is_tracked h.pos_map_size v)) [
    | inl t ↦ rw (t, load-ok h.pos_map (pos_part v) (ground (arith, valid.shape.map_len)))
    | inr f ↦ rw f
  ]

  -- An index that the position map has is never stale.
  mapped_at-hits :
      mapped_at ≢ 0
      → (0 < mapped_at) × (mapped_at ≤ h.size) × (eqb_ℤ (h.entries.cell mapped_at) v ≡ true)
  mapped_at-hits nz = ground (arith, valid.mapped (pos_part v))

  is_stale-ok : is_stale h v mapped_at ≡ ok (mapped_at == 0)
  unfolding is_stale
  is_stale-ok = elim (Bool-cases (mapped_at == 0)) [
    | inl z ↦ rw z
    | inr nz ↦
        let (p, q, e) = mapped_at-hits (ground arith) in
        let inside : ltb h.size mapped_at ≡ false = ground arith in
        rw (
          nz,
          inside,
          load-ok h.entries mapped_at (omega (arith, valid.shape.entries_len, valid.shape.fits)),
          e,
        )
  ]

  -- The index of the value, or 0 where the heap does not hold it.
  abbrev pub Located : ℕ → Type 0
  Located i =
      ((i ≡ 0) × (amount h v ≡ 0))
      ⊎ ((0 < i) × (i ≤ h.size) × (eqb_ℤ (h.entries.cell i) v ≡ true) × (0 < amount h v))

  Searched-Located :
      (o : Option ℕ) → Searched h.entries 1 h.size v o → Located (elim o [ none ↦ 0 | some i ↦ i ])
  Searched-Located none s = inl (refl, count-absent h.entries.cell h.size v s)
  Searched-Located (some i) s =
      inr (s.0, s.1, s.2, count-present h.entries.cell h.size i v s.0 s.1 s.2)

  search : Returns (Searched h.entries 1 h.size v) (linear_search h.size h.entries 1 v)
  search =
      linear_search-Searched h.size h.entries 1 h.size v (omega arith)
        (omega (arith, valid.shape.entries_len, valid.shape.fits))

  pub find_index-Located : Returns Located (find_index h v)
  unfolding find_index
  find_index-Located = elim (Bool-cases (mapped_at == 0)) [
    | inl z ↦
        let zero_index : mapped_at ≡ 0 = ground arith in
        rw (mapped_index-ok, is_stale-ok, z)
          (Returns-bind search (λ o.
            elim o
              as (λ r.
                Searched h.entries 1 h.size v r
                → Returns Located (elim r [ none ↦ ok mapped_at | some i ↦ ok i ])) [
                  | none ↦ λ s. returns (rw zero_index (Searched-Located none s))
                  | some i ↦ λ s. returns (Searched-Located (some i) s)
                ]))
    | inr nz ↦
        let (p, q, e) = mapped_at-hits (ground arith) in
        rw (mapped_index-ok, is_stale-ok, nz)
          (returns (inr (p, q, e, count-present h.entries.cell h.size mapped_at v p q e)))
  ]

  -- `loopyMaxHeapContains` on a valid heap returns, and answers whether the heap holds the value.
  pub contains_iff : Returns (λ b. (b ≡ true) ↔ (0 < amount h v)) (contains h v)
  unfolding contains
  contains_iff = elim (Bool-cases (h.size == 0)) [
    | inl e ↦
        let absent : amount h v ≡ 0 =
          count-absent h.entries.cell h.size v (λ i p q. absurd (ground arith)) in
        rw e (returns ((λ t. cc), (λ t. absurd (omega (arith, absent)))))
    | inr ne ↦ elim (Bool-cases (mapped_at == 0)) [
      | inl z ↦
          rw (ne, mapped_index-ok, is_stale-ok, z)
            (Returns-bind search (λ o.
              elim o
                as (λ r.
                  Searched h.entries 1 h.size v r
                  → Returns (λ b. (b ≡ true) ↔ (0 < amount h v))
                      (elim r [ none ↦ ok false | some _ ↦ ok true ])) [
                        | none ↦ λ s.
                            let absent : amount h v ≡ 0 = count-absent h.entries.cell h.size v s in
                            returns ((λ t. cc), (λ t. absurd (omega (arith, absent))))
                        | some i ↦ λ s. returns (
                          (λ _. count-present h.entries.cell h.size i v s.0 s.1 s.2),
                          (λ _. refl),
                        )
                      ]))
      | inr nz ↦
          let (p, q, e) = mapped_at-hits (ground arith) in
          rw (ne, mapped_index-ok, is_stale-ok, nz)
            (returns ((λ _. count-present h.entries.cell h.size mapped_at v p q e), (λ _. refl)))
    ]
  ]

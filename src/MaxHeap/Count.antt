-- ===== src/MaxHeap/Count.antt =====
-- How often a value stands in the used part of a heap's array: the heap as a bag of values.
use loopy.Prelude.{ℕ, zero, suc, ◌+◌, ◌-◌, ◌≤◌, ◌<◌, ◌≡◌, refl, true, false, arith, if◌then◌else◌}
use loopy.Prelude.Int.{ℤ, eqb_ℤ}
use loopy.Prelude.Array.{update}

abbrev pub hit : ℤ → ℤ → ℕ
hit v x = if eqb_ℤ v x then 1 else 0

-- How often `x` stands at the indices 1 to `n`.
pub count : (ℕ → ℤ) → ℕ → ℤ → ℕ
count f zero x = 0
count f (suc n) x = count f n x + hit (f (suc n)) x

pub count-update_past :
    (f : ℕ → ℤ) (n i : ℕ) (v x : ℤ) → n < i → count (update f i v) n x ≡ count f n x
unfolding count
count-update_past f zero i v x h = refl
count-update_past f (suc n) i v x h = ground (arith, count-update_past f n i v x)

-- A write trades the old value for the new one.
pub count-update :
    (f : ℕ → ℤ) (n i : ℕ) (v x : ℤ)
    → 0 < i
    → i ≤ n
    → count (update f i v) n x + hit (f i) x ≡ count f n x + hit v x
unfolding count
count-update f zero i v x p h = absurd (omega arith)
count-update f (suc n) i v x p h =
    ground (arith, count-update f n i v x, count-update_past f n i v x)

pub count-eq :
    (f g : ℕ → ℤ) (n : ℕ) (x : ℤ) → ((i : ℕ) → i ≤ n → f i ≡ g i) → count f n x ≡ count g n x
unfolding count
count-eq f g zero x h = refl
count-eq f g (suc n) x h =
    ground (arith, count-eq f g n x (λ i p. h i (omega arith)), h (suc n) (omega arith))

pub count-pred : (f : ℕ → ℤ) (n : ℕ) (x : ℤ) → 0 < n → count f n x ≡ count f (n - 1) x + hit (f n) x
unfolding count
count-pred f zero x p = absurd (omega arith)
count-pred f (suc n) x p = let e : suc n - 1 ≡ n = omega arith in rw e

pub count-absent :
    (f : ℕ → ℤ) (n : ℕ) (x : ℤ)
    → ((i : ℕ) → 0 < i → i ≤ n → eqb_ℤ (f i) x ≡ false)
    → count f n x ≡ 0
unfolding count
count-absent f zero x h = refl
count-absent f (suc n) x h = ground (
  arith,
  count-absent f n x (λ i p q. h i p (omega arith)),
  h (suc n) (omega arith) (omega arith),
)

pub count-present :
    (f : ℕ → ℤ) (n i : ℕ) (x : ℤ) → 0 < i → i ≤ n → eqb_ℤ (f i) x ≡ true → 0 < count f n x
unfolding count
count-present f zero i x p q e = absurd (omega arith)
count-present f (suc n) i x p q e = ground (arith, count-present f n i x)

-- ===== src/Prelude/Sums.antt =====
-- Sums of a function over the numbers below a bound.
use Prim.Native.Nat.{ℕ, zero, suc, ◌+◌, ◌≤◌, ◌<◌}
use mathlib.Core.Path.{◌≡◌, refl}
use mathlib.Core.Logic.{◌≢◌}
use native.Mathlib.Omega.{arith}
use native.Mathlib.Decide.{dec_lt}

pub sum_to : (ℕ → ℕ) → ℕ → ℕ
sum_to f zero = 0
sum_to f (suc n) = sum_to f n + f n

pub sum_to-eq : (f g : ℕ → ℕ) (n : ℕ) → ((j : ℕ) → j < n → g j ≡ f j) → sum_to g n ≡ sum_to f n
unfolding sum_to
sum_to-eq f g zero h = refl
sum_to-eq f g (suc n) h =
    omega (arith, sum_to-eq f g n (λ j p. h j (omega arith)), h n (omega arith))

-- A change at one place changes the sum by as much.
pub sum_to-change :
    (f g : ℕ → ℕ) (n i : ℕ)
    → i < n
    → ((j : ℕ) → j ≢ i → g j ≡ f j)
    → sum_to g n + f i ≡ sum_to f n + g i
unfolding sum_to
sum_to-change f g zero i p h = absurd (omega arith)
sum_to-change f g (suc n) i p h = elim (dec_lt i n) [
  | yes q ↦ omega (arith, sum_to-change f g n i q h, h n (omega arith))
  | no q ↦
      let last : i ≡ n = omega arith in
      rw last (omega (arith, sum_to-eq f g n (λ j r. h j (omega arith))))
]

pub le-sum_to : (f : ℕ → ℕ) (n i : ℕ) → i < n → f i ≤ sum_to f n
unfolding sum_to
le-sum_to f zero i p = absurd (omega arith)
le-sum_to f (suc n) i p = elim (dec_lt i n) [
  | yes q ↦ omega (arith, le-sum_to f n i q)
  | no q ↦ let last : i ≡ n = omega arith in rw last (omega arith)
]

pub sum_to-zero : (f : ℕ → ℕ) (n : ℕ) → ((j : ℕ) → j < n → f j ≡ 0) → sum_to f n ≡ 0
unfolding sum_to
sum_to-zero f zero h = refl
sum_to-zero f (suc n) h =
    omega (arith, sum_to-zero f n (λ j p. h j (omega arith)), h n (omega arith))

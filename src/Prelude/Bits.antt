-- ===== src/Prelude/Bits.antt =====
-- `&` with a mask of low bits, and bounds of `|`.
use Prim.Native.Nat.{
  ℕ, zero, suc, ◌+◌, ◌*◌, ◌/◌, ◌%◌, ◌^◌, ◌≤◌, ◌<◌, min, max, digits, bit_and, bit_and-bitwise,
  bit_or, bit_or-bitwise,
}
use mathlib.Core.Path.{◌≡◌, sym, ap, ◌∙◌}
use native.Mathlib.Nat.{
  pow-suc, one-le-pow, mod-add-div, div-div-eq-div-mul, mul_comm, mul_assoc, mul-one, add-zero,
  add-suc, zero-mod, zero-div, zero-mul,
}
use native.Mathlib.Omega.{arith}

-- A quotient by twice `p`
quotient_double : (x p : ℕ) → x / (p * 2) ≡ x / 2 / p
quotient_double x p = ap (λ n. x / n) (mul_comm p 2) ∙ sym (div-div-eq-div-mul x 2 p)

-- A remainder by twice `p`, from the lowest digit and the others.
mod_double : (x p : ℕ) → 0 < p → x % (p * 2) ≡ x / 2 % p * 2 + x % 2
mod_double x p h = omega (
  arith,
  mod-add-div x (p * 2),
  mod-add-div (x / 2) p,
  quotient_double x p,
  ap (λ (q : ℕ). p * 2 * q) (quotient_double x p),
  twice (x / 2 / p),
)
  where
    twice : (q : ℕ) → p * 2 * q ≡ 2 * (p * q)
    twice q = grind arith

-- The digits of `x` under a mask of `k` ones, for `fuel` digits and more than `x` has
masked_digits :
    (fuel k x m : ℕ) → x ≤ fuel → m + 1 ≡ 2 ^ k → digits (λ _. 0) min fuel x m ≡ x % 2 ^ k
masked_digits zero k zero m h e = sym (zero-mod (2 ^ k))
masked_digits zero k (suc x) m h e = absurd (omega (arith, h))
masked_digits (suc n) k zero m h e = sym (zero-mod (2 ^ k))
masked_digits (suc n) zero (suc x) m h e =
    omega (arith, masked_digits n zero (suc x / 2) (m / 2) (omega arith) (omega (arith, e)))
masked_digits (suc n) (suc k) (suc x) m h e = omega (
  arith,
  masked_digits n k (suc x / 2) (m / 2) (omega arith) (omega (arith, e, pow-suc 2 k)),
  mod_double (suc x) (2 ^ k) (one-le-pow k 2 (omega arith)),
  ap (λ c. suc x % c) (pow-suc 2 k),
  e,
  pow-suc 2 k,
  one-le-pow k 2 (omega arith),
)

pub bit_and-mod : (k x m : ℕ) → m + 1 ≡ 2 ^ k → bit_and x m ≡ x % 2 ^ k
bit_and-mod k x m e = bit_and-bitwise x m ∙ masked_digits x k x m (omega arith) e

-- The same for `|`: the result is no less than the first number,
ored_digits_ge : (fuel x y : ℕ) → x ≤ fuel → x ≤ digits (λ b. b) max fuel x y
ored_digits_ge zero zero y h = omega arith
ored_digits_ge zero (suc x) y h = absurd (omega (arith, h))
ored_digits_ge (suc n) zero y h = omega arith
ored_digits_ge (suc n) (suc x) y h =
    omega (arith, ored_digits_ge n (suc x / 2) (y / 2) (omega arith))

-- and below a power of two above both,
ored_digits_lt :
    (fuel k x y : ℕ) → x ≤ fuel → x < 2 ^ k → y < 2 ^ k → digits (λ b. b) max fuel x y < 2 ^ k
ored_digits_lt zero k x y h p q = ground arith
ored_digits_lt (suc n) k zero y h p q = q
ored_digits_lt (suc n) zero (suc x) y h p q = absurd (omega (arith, p))
ored_digits_lt (suc n) (suc k) (suc x) y h p q = omega (
  arith,
  ored_digits_lt n k (suc x / 2) (y / 2) (omega arith) (omega (arith, p, pow-suc 2 k))
      (omega (arith, q, pow-suc 2 k)),
  pow-suc 2 k,
)

-- and, where the second number has `k` digits, no less than it with the digits above of the first.
ored_digits_high :
    (fuel k x y : ℕ) → x ≤ fuel → y < 2 ^ k → x / 2 ^ k * 2 ^ k + y ≤ digits (λ b. b) max fuel x y
ored_digits_high zero k zero y h q =
    omega (arith, ap (λ c. c * 2 ^ k) (zero-div (2 ^ k)), zero-mul (2 ^ k))
ored_digits_high zero k (suc x) y h q = absurd (omega (arith, h))
ored_digits_high (suc n) k zero y h q =
    omega (arith, ap (λ c. c * 2 ^ k) (zero-div (2 ^ k)), zero-mul (2 ^ k))
ored_digits_high (suc n) zero (suc x) y h q =
    omega (arith, q, ored_digits_high n zero (suc x / 2) (y / 2) (omega arith) (omega (arith, q)))
ored_digits_high (suc n) (suc k) (suc x) y h q = omega (
  arith,
  ored_digits_high n k (suc x / 2) (y / 2) (omega arith) (omega (arith, q, pow-suc 2 k)),
  halved,
)
  where
    halved : suc x / 2 ^ suc k * 2 ^ suc k ≡ suc x / 2 / 2 ^ k * 2 ^ k * 2
    halved =
        ap (λ p. suc x / p * p) (pow-suc 2 k)
        ∙ ap (λ c. c * (2 ^ k * 2)) (quotient_double (suc x) (2 ^ k))
        ∙ sym (mul_assoc (suc x / 2 / 2 ^ k) (2 ^ k) 2)

pub le-bit_or : (x y : ℕ) → x ≤ bit_or x y
le-bit_or x y = rw (bit_or-bitwise x y) (ored_digits_ge x x y (omega arith))

pub bit_or_lt : (k x y : ℕ) → x < 2 ^ k → y < 2 ^ k → bit_or x y < 2 ^ k
bit_or_lt k x y p q = rw (bit_or-bitwise x y) (ored_digits_lt x k x y (omega arith) p q)

pub bit_or_high : (k x y : ℕ) → y < 2 ^ k → x / 2 ^ k * 2 ^ k + y ≤ bit_or x y
bit_or_high k x y q = rw (bit_or-bitwise x y) (ored_digits_high x k x y (omega arith) q)

pub pow_add : (a b : ℕ) → 2 ^ (a + b) ≡ 2 ^ a * 2 ^ b
pow_add a zero = ap (λ n. 2 ^ n) (add-zero a) ∙ sym (mul-one (2 ^ a))
pow_add a (suc b) =
    ap (λ n. 2 ^ n) (add-suc a b)
    ∙ pow-suc 2 (a + b)
    ∙ ap (λ n. n * 2) (pow_add a b)
    ∙ mul_assoc (2 ^ a) (2 ^ b) 2
    ∙ ap (λ n. 2 ^ a * n) (sym (pow-suc 2 b))

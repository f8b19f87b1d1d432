-- ===== src/Channel/Spsc/Powers.antt =====
-- src/loopyChannel.c: `nextPowerOf2`, and the ring that `spscInit` makes with it.
use native.Mathlib.Nat.{
  one-mul, add-mul, mul-add, zero-mul, mul_comm, div-le_self, mul-le-mul_right, pow-suc, one-le-pow,
  le-div_iff_mul-le, div-lt_iff_lt-mul, pow-le-pow_right,
}
use loopy.Prelude.{
  ℕ, zero, suc, ◌+◌, ◌-◌, ◌*◌, ◌/◌, ◌^◌, ◌≤◌, ◌<◌, ◌≡◌, refl, sym, ap, ◌∙◌, arith, ltb, ◌==◌, true,
  false, Bool-cases, inl, inr,
}
use loopy.Prelude.Bits.{le-bit_or, bit_or_lt, bit_or_high, pow_add}
use loopy.Channel.Spsc.{smear, smear_all, next_power_of_2}

-- The `j` highest of `k` digits of `n` are ones, or all of them where there are fewer.
pub record Filled (k j n : ℕ) : Type 0 where
  pub below : n < 2 ^ k
  pub ones : 2 ^ k ≤ n + 2 ^ (k - j)

-- With `p` = 2 ^ j, `q` = 2 ^ (k - j) and `r` = 2 ^ (k - 2 * j)
quotient_high : (n p q r : ℕ) → 0 < p → p * q ≤ n + q → q ≤ p * r → q ≤ n / p + r
quotient_high n p q r pos h w =
    omega (arith, (le-div_iff_mul-le {k = p} {x = q - r} {y = n} pos).1 small)
  where
    parts : (d : ℕ) → q ≡ d + r → p * q ≡ d * p + p * r
    parts d e = ap (λ x. p * x) e ∙ mul-add p d r ∙ ap (λ x. x + p * r) (mul_comm p d)

    small : (q - r) * p ≤ n
    small = elim (Bool-cases (ltb r q)) [
      | inl e ↦ omega (arith, h, w, parts (q - r) (ground arith))
      | inr e ↦ rw (none_left e) (omega (arith, zero-mul p))
    ]
      where
        none_left : ltb r q ≡ false → q - r ≡ 0
        none_left e = ground arith

top_high : (n p q : ℕ) → 0 < q → p * q ≤ n + q → p * q ≤ n / q * q + q
top_high n p q pos h = omega (
  arith,
  h,
  mul-le-mul_right q ((le-div_iff_mul-le {k = q} {x = p - 1} {y = n} pos).1 small),
  one_less,
)
  where
    one_less : p * q ≤ (p - 1) * q + q
    one_less = elim (Bool-cases (p == 0)) [
      | inl e ↦ omega (arith, ap (λ x. x * q) (none e), zero-mul q)
      | inr e ↦ omega (arith, ap (λ x. x * q) (one_more e), add-mul (p - 1) 1 q, one-mul q)
    ]
      where
        none : p == 0 ≡ true → p ≡ 0
        none e = ground arith

        one_more : p == 0 ≡ false → p ≡ p - 1 + 1
        one_more e = ground arith

    small : (p - 1) * q ≤ n
    small = elim (Bool-cases (p == 0)) [
      | inl e ↦ omega (arith, ap (λ x. (x - 1) * q) (none e), zero-mul q)
      | inr e ↦ omega (arith, h, ap (λ x. x * q) (one_more e), add-mul (p - 1) 1 q, one-mul q)
    ]
      where
        none : p == 0 ≡ true → p ≡ 0
        none e = ground arith

        one_more : p == 0 ≡ false → p ≡ p - 1 + 1
        one_more e = ground arith

module _ (k j n : ℕ) (f : Filled k j n) where
  small_quotient : n / 2 ^ j < 2 ^ k
  small_quotient = omega (arith, f.below, div-le_self n (2 ^ j))

  smear-Filled_all : k ≤ j → Filled k (j + j) (smear j n)
  unfolding smear
  smear-Filled_all h = record {
    below = bit_or_lt k n (n / 2 ^ j) f.below small_quotient;
    ones = omega (arith, f.ones, le-bit_or n (n / 2 ^ j), same);
  }
    where
      same : 2 ^ (k - j) ≡ 2 ^ (k - (j + j))
      same = ap (λ e. 2 ^ e) (none_left ∙ sym none_left')
        where
          none_left : k - j ≡ 0
          none_left = omega (arith, h)

          none_left' : k - (j + j) ≡ 0
          none_left' = omega (arith, h)

  smear-Filled_more : j < k → Filled k (j + j) (smear j n)
  unfolding smear
  smear-Filled_more h = record {
    below = bit_or_lt k n (n / 2 ^ j) f.below small_quotient;
    ones = omega (
      arith,
      bit_or_high (k - j) n (n / 2 ^ j) digits_left,
      top_high n (2 ^ j) (2 ^ (k - j)) (one-le-pow (k - j) 2 (omega arith)) ones,
      quotient_high n (2 ^ j) (2 ^ (k - j)) (2 ^ (k - (j + j))) (one-le-pow j 2 (omega arith)) ones
          wide,
      whole,
    );
  }
    where
      whole : 2 ^ k ≡ 2 ^ j * 2 ^ (k - j)
      whole = ap (λ e. 2 ^ e) parts ∙ pow_add j (k - j)
        where
          parts : k ≡ j + (k - j)
          parts = omega (arith, h)

      ones : 2 ^ j * 2 ^ (k - j) ≤ n + 2 ^ (k - j)
      ones = omega (arith, f.ones, whole)

      digits_left : n / 2 ^ j < 2 ^ (k - j)
      digits_left =
          (div-lt_iff_lt-mul {k = 2 ^ j} {x = n} (one-le-pow j 2 (omega arith))).1
            (omega (arith, f.below, whole, mul_comm (2 ^ j) (2 ^ (k - j))))

      wide : 2 ^ (k - j) ≤ 2 ^ j * 2 ^ (k - (j + j))
      wide = omega (
        arith,
        pow-le-pow_right {n = 2} (omega arith) {i = k - j} {j = j + (k - (j + j))} (omega arith),
        pow_add j (k - (j + j)),
      )

smear-Filled : (k j n : ℕ) → Filled k j n → Filled k (j + j) (smear j n)
smear-Filled k j n f = elim (Bool-cases (ltb j k)) [
  | inl e ↦ smear-Filled_more k j n f (ground arith)
  | inr e ↦ smear-Filled_all k j n f (ground arith)
]

-- The number of digits of `n`
digits_of : (fuel n : ℕ) → n ≤ fuel → 0 < n → (k : ℕ) × (2 ^ k ≤ n) × (n < 2 ^ suc k)
digits_of zero n h p = absurd (omega (arith, h, p))
digits_of (suc fuel) n h p = elim (Bool-cases (ltb n 2)) [
  | inl e ↦ (0, omega arith, ground arith)
  | inr e ↦
      let (k, low, high) = digits_of fuel (n / 2) (ground arith) (ground arith) in
      (suc k, omega (arith, low, pow-suc 2 k), omega (arith, high, pow-suc 2 (suc k)))
]

-- Six rounds fill up to 64 digits.
smear_all-pow : (k n : ℕ) → k < 64 → 2 ^ k ≤ n → n < 2 ^ suc k → smear_all n + 1 ≡ 2 ^ suc k
unfolding smear_all
smear_all-pow k n h low high = omega (arith, filled.below, filled.ones, no_more)
  where
    first : Filled (suc k) 1 n
    first = record { below = high; ones = omega (arith, low, high, pow-suc 2 k, last) }
      where
        last : 2 ^ (suc k - 1) ≡ 2 ^ k
        last = ap (λ e. 2 ^ e) exponent
          where
            exponent : suc k - 1 ≡ k
            exponent = omega arith

    filled : Filled (suc k) 64 (smear 32 (smear 16 (smear 8 (smear 4 (smear 2 (smear 1 n))))))
    filled = smear-Filled (suc k) 32 _ (
        smear-Filled (suc k) 16 _ (
          smear-Filled (suc k) 8 _
            (smear-Filled (suc k) 4 _ (smear-Filled (suc k) 2 _ (smear-Filled (suc k) 1 n first)))))

    no_more : 2 ^ (suc k - 64) ≡ 1
    no_more = ap (λ e. 2 ^ e) exponent
      where
        exponent : suc k - 64 ≡ 0
        exponent = omega (arith, h)

pow-le-pow : (i j : ℕ) → i ≤ j → 2 ^ i ≤ 2 ^ j
pow-le-pow i j h = pow-le-pow_right {n = 2} (omega arith) {i = i} {j = j} h

few_digits : (k n : ℕ) → 2 ^ k ≤ n → n < 2 ^ 63 → k < 63
few_digits k n low h = elim (Bool-cases (ltb k 63)) [
  | inl e ↦ ground arith
  | inr e ↦ absurd (omega (arith, low, h, pow-le-pow 63 k (ground arith)))
]

next_power_of_2-one : next_power_of_2 1 ≡ 1
unfolding next_power_of_2
next_power_of_2-one = refl

next_power_of_2-more :
    (k n : ℕ) → 0 < n → k < 63 → smear_all (n - 1) + 1 ≡ 2 ^ suc k → next_power_of_2 n ≡ 2 ^ suc k
unfolding next_power_of_2
next_power_of_2-more k n p h e = rw nonzero (omega (arith, e, pow-le-pow (suc k) 63 (omega arith)))
  where
    nonzero : n == 0 ≡ false
    nonzero = ground arith

-- For a number from 1 to 2^63 the code finds the power of two that is no less than it, and less than
-- twice it.
pub next_power_of_2_lem :
    (n : ℕ)
    → 0 < n
    → n ≤ 2 ^ 63
    → (k : ℕ) × (k < 64)
      × (next_power_of_2 n ≡ 2 ^ k)
      × (n ≤ next_power_of_2 n)
      × (next_power_of_2 n < 2 * n)
next_power_of_2_lem n p h = elim (Bool-cases (ltb n 2)) [
  | inl e ↦ one (small e)
  | inr e ↦
      let (k, low, high) = digits_of (n - 1) (n - 1) (omega arith) (ground arith) in
      more k (ground arith) low high (few_digits k (n - 1) low (ground (arith, h)))
]
  where
    Found : Type 0
    Found =
        (k : ℕ) × (k < 64)
        × (next_power_of_2 n ≡ 2 ^ k)
        × (n ≤ next_power_of_2 n)
        × (next_power_of_2 n < 2 * n)

    small : ltb n 2 ≡ true → n ≡ 1
    small e = ground (arith, p)

    one : n ≡ 1 → Found
    one e = (0, omega arith, eq, omega (arith, eq, e), omega (arith, eq, e))
      where
        eq : next_power_of_2 n ≡ 1
        eq = ap next_power_of_2 e ∙ next_power_of_2-one

    more : (k : ℕ) → 2 ≤ n → 2 ^ k ≤ n - 1 → n - 1 < 2 ^ suc k → k < 63 → Found
    more k two low high few = (
      suc k,
      omega (arith, few),
      eq,
      omega (arith, eq, high),
      omega (arith, eq, low, two, pow-suc 2 k),
    )
      where
        eq : next_power_of_2 n ≡ 2 ^ suc k
        eq = next_power_of_2-more k n p few (smear_all-pow k (n - 1) (omega (arith, few)) low high)

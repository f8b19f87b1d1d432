-- ===== src/Channel/Spsc/Masks.antt =====
-- src/loopyChannel.c: positions that wrap at 2^64, taken by a mask of low bits to places in a ring.
use Prim.Native.Nat.{bit_and, ◌∣◌}
use mathlib.Core.Path.{subst}
use native.Mathlib.Nat.{
  mod-lt, mod-eq_of_lt, mod_self, mod-mod_of_dvd, mod-add-mod, dvd_refl, le_of_dvd, pow-suc,
  dvd-mul_right_of_dvd,
}
use loopy.Prelude.{
  ℕ, zero, suc, ◌+◌, ◌-◌, ◌%◌, ◌^◌, ◌≤◌, ◌<◌, ◌≡◌, sym, ◌∙◌, ap, arith, ◌==◌, true, Bool-cases, inl,
  inr,
}
use loopy.Prelude.Bits.{bit_and-mod}
use loopy.Prelude.Words.{word, add_word, sub_word}
use loopy.Prelude.Ring.{next}

-- A mask of at most 64 ones.
pub record IsMask (m : ℕ) : Type 0 where
  pub ones : ℕ
  pub power : m + 1 ≡ 2 ^ ones
  pub fits : ones ≤ 64

pow_dvd : (k j : ℕ) → 2 ^ k ∣ 2 ^ (k + j)
pow_dvd k zero = subst (λ n. 2 ^ k ∣ 2 ^ n) (omega arith) (dvd_refl (2 ^ k))
pow_dvd k (suc j) =
    subst (λ n. 2 ^ k ∣ n) (sym (pow-suc 2 (k + j)) ∙ ap (λ n. 2 ^ n) (omega arith))
      (dvd-mul_right_of_dvd (2 ^ k) (pow_dvd k j) 2)

-- One step on, from a place in a ring of `c`
place-next : (c i : ℕ) → i < c → (i + 1) % c ≡ next c i
place-next c i h = elim (Bool-cases (i + 1 == c)) [
  | inl e ↦ rw (e, ends e) (mod_self c)
  | inr e ↦ rw e (mod-eq_of_lt (ground arith))
]
  where
    ends : i + 1 == c ≡ true → i + 1 ≡ c
    ends e = ground arith

module _ (m : ℕ) (v : IsMask m) where
  pub dvd_word : m + 1 ∣ word
  dvd_word =
      subst (λ n. n ∣ word) (sym v.power)
        (subst (λ n. 2 ^ v.ones ∣ 2 ^ n) whole (pow_dvd v.ones (64 - v.ones)))
    where
      whole : v.ones + (64 - v.ones) ≡ 64
      whole = omega (arith, v.fits)

  pub mask_lt : m < word
  mask_lt = omega (arith, le_of_dvd {m = m + 1} {n = word} (omega arith) dvd_word)

  pub index_lt : (x : ℕ) → x % (m + 1) < m + 1
  index_lt x = mod-lt x (omega arith)

  pub bit_and-index : (x : ℕ) → bit_and x m ≡ x % (m + 1)
  bit_and-index x = bit_and-mod v.ones x m v.power ∙ ap (λ c. x % c) (sym v.power)

  -- The next position is in the next place.
  pub index-next : (x : ℕ) → add_word x 1 % (m + 1) ≡ next (m + 1) (x % (m + 1))
  index-next x =
      mod-mod_of_dvd (m + 1) (x + 1) dvd_word
      ∙ sym (mod-add-mod x (m + 1) 1)
      ∙ place-next (m + 1) (x % (m + 1)) (index_lt x)

  -- The number of positions from `t` to the one `n` behind it
  pub distance_lem : (t n : ℕ) → t < word → n ≤ m → bit_and (sub_word (add_word t n) t) m ≡ n
  distance_lem t n h k =
      bit_and-index (sub_word (add_word t n) t)
      ∙ ap (λ x. x % (m + 1)) (omega (arith, mask_lt))
      ∙ mod-eq_of_lt (omega arith)

-- ===== src/Prelude/Doubles.antt =====
-- The `double` arithmetic of the C compiler and of `fmin`, which the limiters use: a parameter.
use Prim.Native.Nat.{ℕ, ◌<◌}
use mathlib.Core.Path.{◌≡◌}
use mathlib.Core.Bool.{Bool, true}
use loopy.Prelude.Words.{word}

pub record Doubles : Type 1 where
  pub Double : Type 0
  pub add : Double → Double → Double
  pub sub : Double → Double → Double
  pub mul : Double → Double → Double
  pub div : Double → Double → Double
  pub fmin : Double → Double → Double
  -- `a < b` and `a <= b`
  pub lt : Double → Double → Bool
  pub le : Double → Double → Bool
  -- the conversions from and to `uint64_t`
  pub of_word : ℕ → Double
  pub to_word : Double → ℕ

-- What the limiters rely on: IEEE 754 arithmetic, `Finite` for a double that is a finite number.
pub record IsArithmetic (d : Doubles) (Finite : d.Double → Type 0) : Type 0 where
  pub le_trans : (a b c : d.Double) → d.le a b ≡ true → d.le b c ≡ true → d.le a c ≡ true
  pub lt_le : (a b : d.Double) → d.lt a b ≡ true → d.le a b ≡ true
  -- between zero and a finite number
  pub between :
      (a b : d.Double) → d.le (d.of_word 0) a ≡ true → d.le a b ≡ true → Finite b → Finite a
  -- `fmin` passes over what is not a number.
  pub fmin_le : (a b : d.Double) → Finite a → d.le (d.fmin a b) a ≡ true
  pub le_fmin : (a b c : d.Double) → d.le c a ≡ true → d.le c b ≡ true → d.le c (d.fmin a b) ≡ true
  pub add_nonneg :
      (a b : d.Double)
      → d.le (d.of_word 0) a ≡ true
      → d.le (d.of_word 0) b ≡ true
      → d.le (d.of_word 0) (d.add a b) ≡ true
  -- a quotient of two words, of which the second is not 0, times a finite number
  pub scale_nonneg :
      (n m : ℕ) (a : d.Double)
      → n < word
      → 0 < m
      → m < word
      → Finite a
      → d.le (d.of_word 0) a ≡ true
      → d.le (d.of_word 0) (d.mul (d.div (d.of_word n) (d.of_word m)) a) ≡ true
  pub sub_le :
      (a b : d.Double)
      → Finite a
      → d.le (d.of_word 0) b ≡ true
      → d.le b a ≡ true
      → d.le (d.sub a b) a ≡ true
  pub le_sub : (a b : d.Double) → Finite a → d.le b a ≡ true → d.le (d.of_word 0) (d.sub a b) ≡ true

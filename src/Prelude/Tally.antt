-- ===== src/Prelude/Tally.antt =====
-- Sums over what a radix tree holds: pairs of a key and a pointer.
use Prim.Native.String.{String}
use Prim.Native.Nat.{ℕ, ◌+◌, ◌*◌, ◌≤◌}
use mathlib.Core.Path.{◌≡◌}
use mathlib.Core.Logic.{◌≢◌, inl, inr}
use mathlib.Core.List.{List, [], ◌∷◌, ◌++◌}
use native.Mathlib.Omega.{arith}
use loopy.Prelude.Tests.{◌==◌, if◌then◌else◌, Bool-cases}

-- The sum of a function over the pointers in a tree.
unfoldable pub tally : (ℕ → ℕ) → List (String × ℕ) → ℕ
tally f [] = 0
tally f ((k, u) ∷ es) = f u + tally f es

-- How often a pointer stands in the tree.
abbrev pub occurs : ℕ → List (String × ℕ) → ℕ
occurs u = tally (λ w. if w == u then 1 else 0)

pub tally-append :
    (f : ℕ → ℕ) (xs ys : List (String × ℕ)) → tally f (xs ++ ys) ≡ tally f xs + tally f ys
unfolding tally
tally-append f [] ys = omega arith
tally-append f ((k, u) ∷ xs) ys = omega (arith, tally-append f xs ys)

pub tally-insert :
    (f : ℕ → ℕ) (xs ys : List (String × ℕ)) (k : String) (u : ℕ)
    → tally f (xs ++ ((k, u) ∷ ys)) ≡ tally f (xs ++ ys) + f u
unfolding tally
tally-insert f xs ys k u = omega (arith, tally-append f xs ys, tally-append f xs ((k, u) ∷ ys))

-- A change at one pointer changes the sum by as much, for each place of the pointer.
pub tally-change :
    (f g : ℕ → ℕ) (u : ℕ) (es : List (String × ℕ))
    → ((v : ℕ) → v ≢ u → g v ≡ f v)
    → tally g es + occurs u es * f u ≡ tally f es + occurs u es * g u
unfolding tally
tally-change f g u [] h = omega arith
tally-change f g u ((k, w) ∷ es) h = elim (Bool-cases (w == u)) [
  | inl e ↦ let same : w ≡ u = ground arith in rw (e, same) (omega (arith, tally-change f g u es h))
  | inr e ↦
      let other : w ≢ u = ground arith in rw (e, h w other) (omega (arith, tally-change f g u es h))
]

-- The number at a pointer is part of the sum.
pub tally-le : (f : ℕ → ℕ) (u : ℕ) (es : List (String × ℕ)) → occurs u es ≡ 1 → f u ≤ tally f es
unfolding tally
tally-le f u [] e = absurd (omega arith)
tally-le f u ((k, w) ∷ es) e = ground (arith, tally-le f u es)

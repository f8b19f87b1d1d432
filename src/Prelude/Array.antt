-- ===== src/Prelude/Array.antt =====
-- C arrays: a block of `len` cells. An access at or past `len` is a fault.
use Prim.Native.Nat.{ℕ, ◌<◌}
use mathlib.Core.Path.{◌≡◌}
use native.Mathlib.Omega.{arith}
use loopy.Prelude.Tests.{ltb, ◌==◌, if◌then◌else◌}
use loopy.Prelude.Run.{Run, ok, fault}

pub record Array {ℓ} (A : Type ℓ) : Type ℓ where
  pub len : ℕ
  pub cell : ℕ → A

module _ {ℓ} {A : Type ℓ} where
  abbrev pub update : (ℕ → A) → ℕ → A → ℕ → A
  update f i v j = if i == j then v else f j

  -- `a[i] = v` where it is known to be in bounds
  abbrev pub put : Array A → ℕ → A → Array A
  put a i v = record a { cell = update a.cell i v }

  unfoldable pub load : Array A → ℕ → Run A
  load a i = if ltb i a.len then ok (a.cell i) else fault

  unfoldable pub store : Array A → ℕ → A → Run (Array A)
  store a i v = if ltb i a.len then ok (put a i v) else fault

  -- A block of `n` cells: those of `a`, and past them what `fresh` says.
  abbrev pub resized : Array A → ℕ → (ℕ → A) → Array A
  resized a n fresh = record { len = n; cell = λ i. if ltb i a.len then a.cell i else fresh i }

  pub load-ok : (a : Array A) (i : ℕ) → i < a.len → load a i ≡ ok (a.cell i)
  unfolding load
  load-ok a i h = ground arith

  pub store-ok : (a : Array A) (i : ℕ) (v : A) → i < a.len → store a i v ≡ ok (put a i v)
  unfolding store
  store-ok a i v h = ground arith

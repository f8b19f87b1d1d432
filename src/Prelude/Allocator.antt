-- ===== src/Prelude/Allocator.antt =====
-- The allocator of the datakit library (`zcalloc`, `zrealloc`), which is not part of this
-- repository: a parameter of whatever allocates.
use Prim.Native.Nat.{ℕ, ◌*◌, ◌^◌, ◌≤◌}
use mathlib.Core.Path.{◌≡◌}
use mathlib.Core.Bool.{Bool, true}
use mathlib.Core.Option.{Option, some}
use loopy.Prelude.Int.{ℤ}

pub record Allocator : Type 0 where
  -- `zcalloc(count, size)` gives a zeroed block, or NULL for `false`.
  pub zcalloc : ℕ → ℕ → Bool
  -- `zrealloc(block, bytes)` gives NULL for `none`; the new cells hold what the function says.
  pub zrealloc : ℕ → Option (ℕ → ℤ)

-- No block is larger than half of the address space (PTRDIFF_MAX), also not one whose size in
-- bytes overflows.
pub record IsAllocator (m : Allocator) : Type 0 where
  pub zcalloc_fits : (n s : ℕ) → m.zcalloc n s ≡ true → n * s ≤ 2 ^ 63
  pub zrealloc_fits : (bytes : ℕ) (fresh : ℕ → ℤ) → m.zrealloc bytes ≡ some fresh → bytes ≤ 2 ^ 63

-- ===== src/Prelude/Words.antt =====
-- Arithmetic on `size_t` and `uint64_t`, which are 64 bits wide, and the atomic maximum.
use Prim.Native.Nat.{ℕ, ◌+◌, ◌-◌, ◌%◌, ◌^◌}
use loopy.Prelude.Tests.{ltb, if◌then◌else◌}

abbrev pub word : ℕ
word = 2 ^ 64

-- `a + b`, `atomic_fetch_add`
abbrev pub add_word : ℕ → ℕ → ℕ
add_word a b = (a + b) % word

-- `a - b`, `atomic_fetch_sub`
abbrev pub sub_word : ℕ → ℕ → ℕ
sub_word a b = (a + word - b) % word

-- A compare-and-exchange loop that raises a peak to `current`: its one successful exchange.
abbrev pub raise : ℕ → ℕ → ℕ
raise peak current = if ltb peak current then current else peak

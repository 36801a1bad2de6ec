-- ===== src/Prelude/Int64.antt =====
-- The int64 of Go: the sum and difference of two wrap around.
use Prim.Native.Nat.{ℕ, ◌+◌, ◌-◌, ◌%◌, ◌^◌, ◌<◌}
use mathlib.Core.Path.{◌≡◌}
use mathlib.Core.Bool.{Bool, ◌&&◌}
use native.Mathlib.Omega.{arith}
use modular_monolith.Prelude.Tests.{ltb, leb, if◌then◌else◌}
use modular_monolith.Prelude.Int.{ℤ, pos, negsuc, pos_part, neg_part}

-- The low 64 bits, read as two's complement.
abbrev signed : ℕ → ℤ
signed u = if ltb u (2 ^ 63) then pos u else negsuc (2 ^ 64 - 1 - u)

unfoldable pub int64 : ℤ → ℤ
int64 i = signed ((pos_part i + (2 ^ 64 - neg_part i % 2 ^ 64)) % 2 ^ 64)

-- -2^63 ≤ i < 2^63
abbrev pub in_int64 : ℤ → Bool
in_int64 i = ltb (pos_part i) (2 ^ 63) && leb (neg_part i) (2 ^ 63)

pub int64_in_range : (i : ℤ) → pos_part i < 2 ^ 63 → neg_part i < 2 ^ 63 → int64 i ≡ i
unfolding int64
int64_in_range (pos n) h k = ground arith
int64_in_range (negsuc n) h k = ground arith

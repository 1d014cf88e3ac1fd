-- ===== src/Words.antt =====
-- 32-bit machine words as native numbers below 2 ^ 32, and the C operations on them.
pub mod Bits
use Prim.Native.Nat.{bit_and}
use mathlib.Core.Bool.{xor}
use pandos_phase.Prelude.{
  ℕ, ◌+◌, ◌-◌, ◌*◌, ◌/◌, ◌%◌, ◌^◌, Bool, true, not, leb, ◌==◌, if◌then◌else◌,
}

abbrev pub w32 : ℕ
w32 = 2 ^ 32

-- (int) w < 0
abbrev pub is_negative : ℕ → Bool
is_negative w = leb (2 ^ 31) w

-- (int) w <= 0
abbrev pub is_le_zero : ℕ → Bool
is_le_zero w = if w == 0 then true else is_negative w

-- (int) w > 0
abbrev pub is_positive : ℕ → Bool
is_positive w = not (is_le_zero w)

abbrev pub add32 : ℕ → ℕ → ℕ
add32 a b = (a + b) % w32

abbrev pub sub32 : ℕ → ℕ → ℕ
sub32 a b = (a + w32 - b) % w32

abbrev pub mul32 : ℕ → ℕ → ℕ
mul32 a b = a * b % w32

-- |(int) w|
abbrev magnitude : ℕ → ℕ
magnitude w = if is_negative w then w32 - w else w

-- (int) a / (int) b for b ≠ 0, which rounds towards zero.
abbrev pub sdiv32 : ℕ → ℕ → ℕ
sdiv32 a b =
    let q = magnitude a / magnitude b in
    if xor (is_negative a) (is_negative b) then (w32 - q) % w32 else q % w32

-- (w & m) != 0
abbrev pub test_bits : ℕ → ℕ → Bool
test_bits w m = not (bit_and w m == 0)

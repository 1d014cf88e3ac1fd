-- ===== src/Words/Bits.antt =====
-- The bits that a mask of the nucleus picks out of a word.
use Prim.Native.Nat.{min, bit_and, digits, bit_and-bitwise}
use pandos_phase.Prelude.{ℕ, zero, suc, ◌+◌, ◌*◌, ◌/◌, ◌%◌, ◌≤◌, ◌≡◌, refl, arith}

-- Any fuel that is no less than the first number gives the same digits.
digits_fuel :
    (f g a b : ℕ) → a ≤ f → a ≤ g → digits (λ d. zero) min f a b ≡ digits (λ d. zero) min g a b
digits_fuel zero zero a b h k = refl
digits_fuel zero (suc g) zero b h k = refl
digits_fuel (suc f) zero zero b h k = refl
digits_fuel (suc f) (suc g) zero b h k = refl
digits_fuel zero (suc g) (suc a) b h k = absurd (omega arith)
digits_fuel (suc f) zero (suc a) b h k = absurd (omega arith)
digits_fuel (suc f) (suc g) (suc a) b h k =
    omega (arith, digits_fuel f g (suc a / 2) (b / 2) (omega arith) (omega arith))

-- The lowest bit, and the others.
bit_and-halves : (a b : ℕ) → bit_and a b ≡ min (a % 2) (b % 2) + 2 * bit_and (a / 2) (b / 2)
bit_and-halves zero b = omega (arith, bit_and-bitwise 0 b, bit_and-bitwise 0 (b / 2))
bit_and-halves (suc a) b =
    let h : suc a / 2 ≤ a = omega arith in
    omega (
      arith,
      digits_fuel a (suc a / 2) (suc a / 2) (b / 2) h (omega arith),
      bit_and-bitwise (suc a / 2) (b / 2),
      bit_and-bitwise (suc a) b,
    )

bit_and-none : (n a : ℕ) → a ≤ n → bit_and a 0 ≡ 0
bit_and-none n zero h = omega (arith, bit_and-bitwise 0 0)
bit_and-none zero (suc a) h = absurd (omega arith)
bit_and-none (suc n) (suc a) h =
    omega (arith, bit_and-halves (suc a) 0, bit_and-none n (suc a / 2) (omega arith))

pub bit_and-one : (a : ℕ) → bit_and a 1 ≡ a % 2
bit_and-one a = omega (arith, bit_and-halves a 1, bit_and-none (a / 2) (a / 2) (omega arith))

-- A mask shifted by one place picks the bits of the word shifted back.
pub bit_and-double : (a b : ℕ) → bit_and a (2 * b) ≡ 2 * bit_and (a / 2) b
bit_and-double a b =
    let e : 2 * b / 2 ≡ b = omega arith in rw (bit_and-halves a (2 * b), e) (omega arith)

-- A mask with one more bit at its end.
pub bit_and-odd : (a b : ℕ) → bit_and a (2 * b + 1) ≡ 2 * bit_and (a / 2) b + a % 2
bit_and-odd a b =
    let e : (2 * b + 1) / 2 ≡ b = omega arith in rw (bit_and-halves a (2 * b + 1), e) (omega arith)

-- ===== src/Interrupts/Priority.antt =====
-- `getHighestPriorityInterrupt` and `getHighestPriorityDevice`, and the lowest line and device.
use Prim.Native.Nat.{bit_and}
use native.Mathlib.Nat.{pow-succ', mul_assoc}
use pandos_phase.Prelude.{
  ℕ, zero, suc, ◌+◌, ◌-◌, ◌*◌, ◌/◌, ◌%◌, ◌^◌, ◌≤◌, ◌<◌, ◌≡◌, ◌≢◌, refl, sym, ap, ◌∙◌, ◌⊎◌, inl, inr,
  some, Bool, true, false, ◌==◌, Bool-cases, arith, ==→eq,
}
use pandos_phase.Types
use pandos_phase.Words.{w32, test_bits}
use pandos_phase.Words.Bits.{bit_and-one, bit_and-double, bit_and-odd}
use pandos_phase.Run.{Returns, returns}
use pandos_phase.Kernel.{Kernel}
use pandos_phase.Interrupts.{
  lowest_line, highest_priority_interrupt, lowest_bit, highest_priority_device, int_dev_bitmap_addr,
}

-- Whether the interrupt line i is pending: bit i of the field Cause.IP, which starts at bit 8.
abbrev pub pending : ℕ → ℕ → Bool
pending cause i = cause / 2 ^ (8 + i) % 2 == 1

-- `r` is the first number from `i` to `n` that passes the test, -1 if none does.
abbrev pub IsFirst : (ℕ → Bool) → (i n r : ℕ) → Type 0
IsFirst t i n r =
    ((r ≡ w32 - 1) × ((j : ℕ) → i ≤ j → j ≤ n → t j ≡ false))
    ⊎ ((i ≤ r) × (r ≤ n) × (t r ≡ true) × ((j : ℕ) → i ≤ j → j < r → t j ≡ false))

low_byte : (w : ℕ) → bit_and w 0xFF ≡ w % 256
low_byte w = omega (
  arith,
  bit_and-odd w 127,
  bit_and-odd (w / 2) 63,
  bit_and-odd (w / 2 / 2) 31,
  bit_and-odd (w / 2 / 2 / 2) 15,
  bit_and-odd (w / 2 / 2 / 2 / 2) 7,
  bit_and-odd (w / 2 / 2 / 2 / 2 / 2) 3,
  bit_and-odd (w / 2 / 2 / 2 / 2 / 2 / 2) 1,
  bit_and-one (w / 2 / 2 / 2 / 2 / 2 / 2 / 2),
)

pending_field : (cause : ℕ) → bit_and cause Types.ipmask / 2 ^ 8 ≡ cause / 256 % 256
pending_field cause = omega (
  arith,
  bit_and-double cause 0x7F80,
  bit_and-double (cause / 2) 0x3FC0,
  bit_and-double (cause / 2 / 2) 0x1FE0,
  bit_and-double (cause / 2 / 2 / 2) 0xFF0,
  bit_and-double (cause / 2 / 2 / 2 / 2) 0x7F8,
  bit_and-double (cause / 2 / 2 / 2 / 2 / 2) 0x3FC,
  bit_and-double (cause / 2 / 2 / 2 / 2 / 2 / 2) 0x1FE,
  bit_and-double (cause / 2 / 2 / 2 / 2 / 2 / 2 / 2) 0xFF,
  low_byte (cause / 2 / 2 / 2 / 2 / 2 / 2 / 2 / 2),
)

IsFirst-step : (t : ℕ → Bool) (i n r : ℕ) → t i ≡ false → IsFirst t (i + 1) n r → IsFirst t i n r
IsFirst-step t i n r e (inl (m, clear)) = inl (
  m,
  λ j h l. elim (Bool-cases (j == i)) [
    | inl same ↦ rw (==→eq j i same) e
    | inr other ↦ clear j (ground arith) l
  ],
)
IsFirst-step t i n r e (inr (h, l, at, before)) = inr (
  omega arith,
  l,
  at,
  λ j g k. elim (Bool-cases (j == i)) [
    | inl same ↦ rw (==→eq j i same) e
    | inr other ↦ before j (ground arith) k
  ],
)

lowest_line-IsFirst :
    (k i n w : ℕ) → i + k ≡ n + 1 → IsFirst (λ j. test_bits w (2 ^ j)) i n (lowest_line k i w)
unfolding lowest_line
lowest_line-IsFirst zero i n w s = inl (refl, λ j h l. absurd (omega arith))
lowest_line-IsFirst (suc k) i n w s = elim (Bool-cases (test_bits w (2 ^ i))) [
  | inl e ↦ rw e (inr (omega arith, omega arith, e, λ j h l. absurd (omega arith)))
  | inr e ↦ rw e (
      IsFirst-step (λ j. test_bits w (2 ^ j)) i n (lowest_line k (i + 1) w) e
        (lowest_line-IsFirst k (i + 1) n w (omega arith)))
]

bit_1 : (w : ℕ) → bit_and w 2 ≡ 2 * (w / 2 % 2)
bit_1 w = omega (arith, bit_and-double w 1, bit_and-one (w / 2))

bit_2 : (w : ℕ) → bit_and w 4 ≡ 4 * (w / 4 % 2)
bit_2 w = omega (arith, bit_and-double w 2, bit_1 (w / 2))

bit_3 : (w : ℕ) → bit_and w 8 ≡ 8 * (w / 8 % 2)
bit_3 w = omega (arith, bit_and-double w 4, bit_2 (w / 2))

bit_4 : (w : ℕ) → bit_and w 16 ≡ 16 * (w / 16 % 2)
bit_4 w = omega (arith, bit_and-double w 8, bit_3 (w / 2))

bit_5 : (w : ℕ) → bit_and w 32 ≡ 32 * (w / 32 % 2)
bit_5 w = omega (arith, bit_and-double w 16, bit_4 (w / 2))

bit_6 : (w : ℕ) → bit_and w 64 ≡ 64 * (w / 64 % 2)
bit_6 w = omega (arith, bit_and-double w 32, bit_5 (w / 2))

bit_7 : (w : ℕ) → bit_and w 128 ≡ 128 * (w / 128 % 2)
bit_7 w = omega (arith, bit_and-double w 64, bit_6 (w / 2))

-- The test of the loop is the one of the line.
test-pending :
    (cause j : ℕ) → 1 ≤ j → j ≤ 7 → test_bits (cause / 256 % 256) (2 ^ j) ≡ pending cause j
test-pending cause zero h l = absurd (omega arith)
test-pending cause (suc zero) h l = ground (arith, bit_1 (cause / 256 % 256))
test-pending cause (suc (suc zero)) h l = ground (arith, bit_2 (cause / 256 % 256))
test-pending cause (suc (suc (suc zero))) h l = ground (arith, bit_3 (cause / 256 % 256))
test-pending cause (suc (suc (suc (suc zero)))) h l = ground (arith, bit_4 (cause / 256 % 256))
test-pending cause (suc (suc (suc (suc (suc zero))))) h l =
    ground (arith, bit_5 (cause / 256 % 256))
test-pending cause (suc (suc (suc (suc (suc (suc zero)))))) h l =
    ground (arith, bit_6 (cause / 256 % 256))
test-pending cause (suc (suc (suc (suc (suc (suc (suc zero))))))) h l =
    ground (arith, bit_7 (cause / 256 % 256))
test-pending cause (suc (suc (suc (suc (suc (suc (suc (suc j)))))))) h l = absurd (omega arith)

IsFirst-same :
    (t u : ℕ → Bool) (i n r : ℕ)
    → ((j : ℕ) → i ≤ j → j ≤ n → t j ≡ u j)
    → IsFirst t i n r
    → IsFirst u i n r
IsFirst-same t u i n r same (inl (m, clear)) = inl (m, λ j h l. sym (same j h l) ∙ clear j h l)
IsFirst-same t u i n r same (inr (h, l, at, before)) =
    inr (h, l, sym (same r h l) ∙ at, λ j g k. sym (same j g (omega arith)) ∙ before j g k)

-- `getHighestPriorityInterrupt` returns the lowest of the interrupt lines 1 to 7 that is pending in
-- the cause register, and -1 if none is.
pub highest_priority_interrupt-IsFirst :
    (cause : ℕ) → IsFirst (pending cause) 1 7 (highest_priority_interrupt cause)
unfolding highest_priority_interrupt
highest_priority_interrupt-IsFirst cause =
    let w = bit_and cause Types.ipmask / 2 ^ 8 in
    IsFirst-same (λ j. test_bits w (2 ^ j)) (pending cause) 1 7 (lowest_line 7 1 w)
      (λ j h l. ap (λ v. test_bits v (2 ^ j)) (pending_field cause) ∙ test-pending cause j h l)
      (lowest_line-IsFirst 7 1 7 w refl)

-- The lowest bit of `b` that is set is bit r: b is an odd number shifted by r places.
pub record IsLowestBit (b r : ℕ) : Type 0 where
  pub high : ℕ
  pub shifted : b ≡ 2 ^ r * (2 * high + 1)

-- What the loop of `getHighestPriorityDevice` finds in `b`.
record Found (k b dev : ℕ) : Type 0 where
  place : ℕ
  near : place < k
  lowest : IsLowestBit b place
  run : lowest_bit k b dev ≡ some (dev + place)

Found-even :
    (k b dev : ℕ) → b % 2 ≡ 0 → dev + 1 < w32 → Found k (b / 2) (dev + 1) → Found (suc k) b dev
unfolding lowest_bit
Found-even k b dev e l f =
    let d : (dev + 1) % w32 ≡ dev + 1 = omega arith in
    let z : (bit_and b 1 == 0) ≡ true = rw (bit_and-one b, e) refl in
    let two : b ≡ 2 * (b / 2) = omega arith in
    record {
      place = suc f.place;
      near = omega (arith, f.near);
      lowest = record {
        high = f.lowest.high;
        shifted =
            two
            ∙ (ap (λ v. 2 * v) f.lowest.shifted
                ∙ (sym (mul_assoc 2 (2 ^ f.place) (2 * f.lowest.high + 1))
                    ∙ ap (λ v. v * (2 * f.lowest.high + 1)) (sym (pow-succ' 2 f.place))));
      };
      run = rw (z, d, f.run) (ap some (omega arith));
    }

lowest_bit-Found : (k b dev : ℕ) → b ≢ 0 → b < 2 ^ k → dev + k < w32 → Found k b dev
unfolding lowest_bit
lowest_bit-Found zero b dev n l s = absurd (omega (arith, n, l))
lowest_bit-Found (suc k) b dev n l s = elim (Bool-cases (b % 2 == 0)) [
  | inl e ↦ Found-even k b dev (ground arith) (omega arith) (
      lowest_bit-Found k (b / 2) (dev + 1) (ground (arith, n)) (omega (arith, l, pow-succ' 2 k))
        (omega arith))
  | inr e ↦ record {
    place = 0;
    near = omega arith;
    lowest = record { high = b / 2; shifted = ground arith };
    run = rw (bit_and-one b, e) (ap some (omega arith));
  }
]

-- For a line whose bitmap is a word that is not zero, `getHighestPriorityDevice` stops and returns
-- the number of its lowest set bit; it returns -1 for the bitmap zero. It changes nothing.
pub highest_priority_device-IsLowestBit :
    (k : Kernel) (line : ℕ)
    → k.word (int_dev_bitmap_addr line) < w32
    → Returns
        (λ r k'.
          (k' ≡ k)
          × (((k.word (int_dev_bitmap_addr line) ≡ 0) × (r ≡ w32 - 1))
              ⊎ ((r < 32) × IsLowestBit (k.word (int_dev_bitmap_addr line)) r)))
        (highest_priority_device line k)
unfolding highest_priority_device
highest_priority_device-IsLowestBit k line h =
    let b = k.word (int_dev_bitmap_addr line) in
    elim (Bool-cases (b == 0)) [
      | inl e ↦ rw e (returns (refl, inl (==→eq b 0 e, refl)))
      | inr e ↦
          let f = lowest_bit-Found 32 b 0 (ground arith) h (omega arith) in
          let run : lowest_bit 32 b 0 ≡ some f.place = f.run ∙ ap some (omega arith) in
          rw (e, run) (returns (refl, inr (f.near, f.lowest)))
    ]

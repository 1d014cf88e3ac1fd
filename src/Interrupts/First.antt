-- ===== src/Interrupts/First.antt =====
-- There is one first line and one lowest device, so that the searches find it.
use native.Mathlib.Nat.{pow-succ', mul_assoc}
use pandos_phase.Prelude.{
  ℕ, zero, suc, ◌+◌, ◌-◌, ◌*◌, ◌/◌, ◌%◌, ◌^◌, ◌<◌, ◌≡◌, ◌≢◌, refl, sym, ap, ◌∙◌, inl, inr, Bool,
  Bool-cases, arith, ltb,
}
use pandos_phase.Words.{w32}
use pandos_phase.Run.{Run, ok, Returns, returns}
use pandos_phase.Kernel.{Kernel}
use pandos_phase.Interrupts.{
  highest_priority_interrupt, highest_priority_device, int_dev_bitmap_addr,
}
use pandos_phase.Interrupts.Priority.{
  pending, IsFirst, IsLowestBit, highest_priority_interrupt-IsFirst,
  highest_priority_device-IsLowestBit,
}

-- Only one number is the first.
IsFirst-unique :
    (t : ℕ → Bool) (i n r r' : ℕ) → n < w32 - 1 → IsFirst t i n r → IsFirst t i n r' → r ≡ r'
IsFirst-unique t i n r r' l (inl (m, clear)) (inl (m', clear')) = m ∙ sym m'
IsFirst-unique t i n r r' l (inl (m, clear)) (inr (h, k, at, before)) =
    absurd (cc (clear r' h k, at))
IsFirst-unique t i n r r' l (inr (h, k, at, before)) (inl (m, clear)) =
    absurd (cc (clear r h k, at))
IsFirst-unique t i n r r' l (inr (h, k, at, before)) (inr (h', k', at', before')) =
    elim (Bool-cases (ltb r r')) [
      | inl a ↦ absurd (cc (before' r h (ground (arith, a)), at))
      | inr a ↦ elim (Bool-cases (ltb r' r)) [
        | inl b ↦ absurd (cc (before r' h' (ground (arith, b)), at'))
        | inr b ↦ ground (arith, a, b)
      ]
    ]

double-halves : (b x : ℕ) → b ≡ 2 * x → (b % 2 ≡ 0) × (b / 2 ≡ x)
double-halves b x e = (omega arith, omega arith)

IsLowestBit-half : (b r : ℕ) → IsLowestBit b (suc r) → (b % 2 ≡ 0) × IsLowestBit (b / 2) r
IsLowestBit-half b r l =
    let x = 2 ^ r * (2 * l.high + 1) in
    let e : b ≡ 2 * x =
      l.shifted
      ∙ (ap (λ v. v * (2 * l.high + 1)) (pow-succ' 2 r) ∙ mul_assoc 2 (2 ^ r) (2 * l.high + 1)) in
    let (even, half) = double-halves b x e in (even, record { high = l.high; shifted = half })

IsLowestBit-odd : (b : ℕ) → IsLowestBit b 0 → b % 2 ≡ 1
IsLowestBit-odd b l = omega (arith, l.shifted)

IsLowestBit-nonzero : (b r : ℕ) → IsLowestBit b r → b ≢ 0
IsLowestBit-nonzero b zero l e = absurd (omega (arith, IsLowestBit-odd b l, e))
IsLowestBit-nonzero b (suc r) l e =
    IsLowestBit-nonzero (b / 2) r (IsLowestBit-half b r l).1 (omega (arith, e))

-- A number has one lowest bit.
IsLowestBit-unique : (b r r' : ℕ) → IsLowestBit b r → IsLowestBit b r' → r ≡ r'
IsLowestBit-unique b zero zero l l' = refl
IsLowestBit-unique b zero (suc r') l l' =
    absurd (omega (arith, IsLowestBit-odd b l, (IsLowestBit-half b r' l').0))
IsLowestBit-unique b (suc r) zero l l' =
    absurd (omega (arith, IsLowestBit-odd b l', (IsLowestBit-half b r l).0))
IsLowestBit-unique b (suc r) (suc r') l l' =
    ap suc (IsLowestBit-unique (b / 2) r r' (IsLowestBit-half b r l).1 (IsLowestBit-half b r' l').1)

-- What the searches come to where the first line and the lowest device are known.
pub highest_priority_interrupt-first :
    (cause line : ℕ) → IsFirst (pending cause) 1 7 line → highest_priority_interrupt cause ≡ line
highest_priority_interrupt-first cause line f =
    IsFirst-unique (pending cause) 1 7 (highest_priority_interrupt cause) line (omega arith)
      (highest_priority_interrupt-IsFirst cause) f

Returns-run :
    {S A : Type 0} {P : A → S → Type 0} {r : Run S A}
    → Returns P r
    → (a : A) × (s : S) × (r ≡ ok a s) × P a s
Returns-run (returns {a} {s} p) = (a, s, refl, p)

pub highest_priority_device-first :
    (k : Kernel) (line dev : ℕ)
    → k.word (int_dev_bitmap_addr line) < w32
    → IsLowestBit (k.word (int_dev_bitmap_addr line)) dev
    → highest_priority_device line k ≡ ok dev k
highest_priority_device-first k line dev h l =
    let b = k.word (int_dev_bitmap_addr line) in
    let (r, k', e, w) = Returns-run (highest_priority_device-IsLowestBit k line h) in
    elim w.1 [
      | inl (z, m) ↦ absurd (IsLowestBit-nonzero b dev l z)
      | inr (s, m) ↦ e ∙ (rw w.0 (ap (λ v. ok v k) (IsLowestBit-unique b r dev m l)))
    ]

-- ===== src/Memcopy.antt =====
-- `memcopy` of phase2/exceptions.c, on a memory of bytes by address.
use pandos_phase.Prelude.{
  ℕ, zero, suc, ◌+◌, ◌≤◌, ◌<◌, ◌≡◌, ◌⊎◌, inl, inr, refl, sym, ap, ne→==, ◌∙◌, ◌==◌, false, arith,
  Bool-cases, ==→eq, update,
}

-- while (n--) *d++ = *s++
pub memcopy : (n d s : ℕ) → (ℕ → ℕ) → ℕ → ℕ
memcopy zero d s m = m
memcopy (suc n) d s m = memcopy n (d + 1) (s + 1) (update m d (m s))

-- The n bytes at `d` and the n bytes at `s` do not overlap.
abbrev pub AreDisjoint : (n d s : ℕ) → Type 0
AreDisjoint n d s = (d + n ≤ s) ⊎ (s + n ≤ d)

memcopy-outside : (n d s a : ℕ) (m : ℕ → ℕ) → (a < d) ⊎ (d + n ≤ a) → memcopy n d s m a ≡ m a
unfolding memcopy
memcopy-outside zero d s a m o = refl
memcopy-outside (suc n) d s a m o =
    memcopy-outside n (d + 1) (s + 1) a (update m d (m s)) (omega (arith, o)) ∙ ground (arith, o)

memcopy-inside :
    (n d s a b : ℕ) (m : ℕ → ℕ)
    → AreDisjoint n d s
    → d ≤ a
    → a < d + n
    → a + s ≡ b + d
    → memcopy n d s m a ≡ m b
unfolding memcopy
memcopy-inside zero d s a b m o l h e = absurd (omega arith)
memcopy-inside (suc n) d s a b m o l h e = elim (Bool-cases (a == d)) [
  | inl same ↦
      let at : a ≡ d = ==→eq a d same in
      let from : b ≡ s = omega (arith, e, at) in
      memcopy-outside n (d + 1) (s + 1) a (update m d (m s)) (inl (omega (arith, at)))
      ∙ (rw same refl ∙ ap m (sym from))
  | inr other ↦
      let past : d + 1 ≤ a = ground (arith, l) in
      let kept : (b == d) ≡ false = ne→== b d (omega (arith, o, e, l, h)) in
      memcopy-inside n (d + 1) (s + 1) a b (update m d (m s)) (omega (arith, o)) past
        (omega (arith, h)) (omega (arith, e))
      ∙ rw kept refl
]

-- If the two blocks of n bytes do not overlap, `memcopy` copies the one at `s` to the one at `d`, and
-- changes no other byte.
pub memcopy-AreDisjoint :
    (n d s : ℕ) (m : ℕ → ℕ)
    → AreDisjoint n d s
    → ((i : ℕ) → i < n → memcopy n d s m (d + i) ≡ m (s + i))
      × ((a : ℕ) → (a < d) ⊎ (d + n ≤ a) → memcopy n d s m a ≡ m a)
memcopy-AreDisjoint n d s m o = (
  λ i h. memcopy-inside n d s (d + i) (s + i) m o (omega arith) (omega arith) (omega arith),
  λ a h. memcopy-outside n d s a m h,
)

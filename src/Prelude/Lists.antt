-- ===== src/Prelude/Lists.antt =====
-- Lists of table indices: length, membership as a test, distinct entries.
use Prim.Native.Nat.{ℕ, suc, zero, ◌+◌, ◌<◌, ◌≤◌}
use mathlib.Core.Path.{◌≡◌, refl}
use mathlib.Core.Bool.{Bool, true, false, ◌||◌}
use mathlib.Core.Logic.{inl, inr}
use mathlib.Core.List.{List, [], ◌∷◌, ◌++◌}
use native.Mathlib.Omega.{arith}
use pandos_phase.Prelude.Tests.{◌==◌, if◌then◌else◌, Bool-cases, ==→eq}

module _ {ℓ} {A : Type ℓ} where
  abbrev pub length : List A → ℕ
  length [] = 0
  length (x ∷ xs) = suc (length xs)

  abbrev pub is_empty : List A → Bool
  is_empty [] = true
  is_empty (x ∷ xs) = false

  pub length-append : (xs ys : List A) → length (xs ++ ys) ≡ length xs + length ys
  length-append [] ys = omega arith
  length-append (x ∷ xs) ys = omega (arith, length-append xs ys)

  abbrev pub All {κ} : (A → Type κ) → List A → Type κ
  All P [] = Unit
  All P (x ∷ xs) = P x × All P xs

module _ {ℓ κ} {A : Type ℓ} (P : A → Type κ) where
  pub All-parts : (xs ys : List A) → All P (xs ++ ys) → All P xs × All P ys
  All-parts [] ys h = (tt, h)
  All-parts (x ∷ xs) ys h = let r = All-parts xs ys h.1 in ((h.0, r.0), r.1)

abbrev pub has : ℕ → List ℕ → Bool
has a [] = false
has a (x ∷ xs) = (a == x) || has a xs

infix 40 ◌∈◌ ◌∉◌
abbrev pub ◌∈◌ : ℕ → List ℕ → Type 0
a ∈ xs = has a xs ≡ true

abbrev pub ◌∉◌ : ℕ → List ℕ → Type 0
a ∉ xs = has a xs ≡ false

abbrev pub Distinct : List ℕ → Type 0
Distinct [] = Unit
Distinct (x ∷ xs) = (x ∉ xs) × Distinct xs

pub has-append : (a : ℕ) (xs ys : List ℕ) → has a (xs ++ ys) ≡ (has a xs || has a ys)
has-append a [] ys = refl
has-append a (x ∷ xs) ys = ground (arith, has-append a xs ys)

pub ne_of_has : (p y : ℕ) (xs : List ℕ) → p ∉ xs → y ∈ xs → (y == p) ≡ false
ne_of_has p y [] o i = ground arith
ne_of_has p y (x ∷ xs) o i = ground (arith, ne_of_has p y xs)

-- The list without the first `p`.
abbrev pub erase : ℕ → List ℕ → List ℕ
erase p [] = []
erase p (x ∷ xs) = if x == p then xs else x ∷ erase p xs

-- The lists around the first `p` of `xs`.
pub record Split (p : ℕ) (xs : List ℕ) : Type 0 where
  pub before : List ℕ
  pub after : List ℕ
  pub whole : xs ≡ before ++ p ∷ after
  pub erased : erase p xs ≡ before ++ after
  pub first : p ∉ before

Split-cons : (p x : ℕ) (xs : List ℕ) → (x == p) ≡ false → Split p xs → Split p (x ∷ xs)
Split-cons p x xs n r = record {
  before = x ∷ r.before;
  after = r.after;
  whole = ground (arith, r.whole);
  erased = ground (arith, r.erased);
  first = ground (arith, r.first);
}

pub split : (p : ℕ) (xs : List ℕ) → p ∈ xs → Split p xs
split p [] i = absurd (ground arith)
split p (x ∷ xs) i = elim (Bool-cases (x == p)) [
  | inl e ↦ record {
    before = [];
    after = xs;
    whole = ground arith;
    erased = ground arith;
    first = refl;
  }
  | inr n ↦ Split-cons p x xs n (split p xs (ground arith))
]

-- What distinctness of `xs ++ ys` says of the two lists.
pub record Apart (xs ys : List ℕ) : Type 0 where
  pub left : Distinct xs
  pub right : Distinct ys
  pub apart : (y : ℕ) → y ∈ xs → y ∉ ys

pub Distinct-Apart : (xs ys : List ℕ) → Distinct (xs ++ ys) → Apart xs ys
Distinct-Apart [] ys d = record { left = tt; right = d; apart = λ y i. ground arith }
Distinct-Apart (x ∷ xs) ys d =
    let r = Distinct-Apart xs ys d.1 in
    record {
      left = (ground (arith, has-append x xs ys, d.0), r.left);
      right = r.right;
      apart = λ y i. ground (arith, has-append x xs ys, d.0, r.apart y);
    }

pub Apart-Distinct : (xs ys : List ℕ) → Apart xs ys → Distinct (xs ++ ys)
Apart-Distinct [] ys r = r.right
Apart-Distinct (x ∷ xs) ys r = (
  ground (arith, has-append x xs ys, r.left, r.apart x),
  Apart-Distinct xs ys
      (record { left = r.left.1; right = r.right; apart = λ y i. r.apart y (ground arith) }),
)

pub has-erase : (y p : ℕ) (xs : List ℕ) → y ∈ erase p xs → y ∈ xs
has-erase y p [] i = i
has-erase y p (x ∷ xs) i = ground (arith, has-erase y p xs)

pub has-erase-other : (y p : ℕ) (xs : List ℕ) → (y == p) ≡ false → y ∈ xs → y ∈ erase p xs
has-erase-other y p [] n i = i
has-erase-other y p (x ∷ xs) n i = ground (arith, has-erase-other y p xs n)

pub erase_missing : (p : ℕ) (xs : List ℕ) → p ∉ xs → erase p xs ≡ xs
erase_missing p [] o = refl
erase_missing p (x ∷ xs) o = ground (arith, erase_missing p xs)

pub length-erase : (p : ℕ) (xs : List ℕ) → p ∈ xs → suc (length (erase p xs)) ≡ length xs
length-erase p [] i = absurd (ground arith)
length-erase p (x ∷ xs) i = ground (arith, length-erase p xs)

pub Distinct-erase : (p : ℕ) (xs : List ℕ) → Distinct xs → Distinct (erase p xs) × (p ∉ erase p xs)
Distinct-erase p [] d = (tt, refl)
Distinct-erase p (x ∷ xs) d = elim (Bool-cases (x == p)) [
  | inl e ↦ ground (arith, ==→eq x p)
  | inr n ↦ ground (arith, Distinct-erase p xs d.1, has-erase x p xs)
]

pub All-erase {κ} : (P : ℕ → Type κ) (p : ℕ) (xs : List ℕ) → All P xs → All P (erase p xs)
All-erase P p [] h = tt
All-erase P p (x ∷ xs) h = elim (Bool-cases (x == p)) [
  | inl e ↦ rw e h.1
  | inr n ↦ rw n (h.0, All-erase P p xs h.1)
]

pub length-erase-le : (p : ℕ) (xs : List ℕ) → length xs ≤ suc (length (erase p xs))
length-erase-le p [] = omega arith
length-erase-le p (x ∷ xs) = ground (arith, length-erase-le p xs)

All-lower : (n : ℕ) (xs : List ℕ) → All (λ x. x < suc n) xs → n ∉ xs → All (λ x. x < n) xs
All-lower n [] h o = tt
All-lower n (x ∷ xs) h o = (ground (arith, h.0), All-lower n xs h.1 (ground arith))

-- Distinct indices below n are at most n.
pub Distinct-length : (n : ℕ) (xs : List ℕ) → Distinct xs → All (λ x. x < n) xs → length xs ≤ n
Distinct-length zero [] d h = omega arith
Distinct-length zero (x ∷ xs) d h = absurd (omega (arith, h.0))
Distinct-length (suc n) xs d h =
    let e = Distinct-erase n xs d in
    let low = All-lower n (erase n xs) (All-erase (λ x. x < suc n) n xs h) e.1 in
    omega (arith, length-erase-le n xs, Distinct-length n (erase n xs) e.0 low)

pub lt_of_has : (n y : ℕ) (xs : List ℕ) → All (λ x. x < n) xs → y ∈ xs → y < n
lt_of_has n y [] h i = absurd (ground arith)
lt_of_has n y (x ∷ xs) h i = elim (Bool-cases (y == x)) [
  | inl e ↦ ground (arith, h.0)
  | inr m ↦ lt_of_has n y xs h.1 (ground arith)
]

pub not-mem_of_lt : (n y : ℕ) (xs : List ℕ) → All (λ x. x < n) xs → n ≤ y → y ∉ xs
not-mem_of_lt n y [] h k = refl
not-mem_of_lt n y (x ∷ xs) h k = ground (arith, h.0, not-mem_of_lt n y xs h.1 k)

-- An entry taken out of the middle of a list, and put in.
module _ (y : ℕ) where
  pub Distinct-pull :
      (xs zs : List ℕ) → Distinct (xs ++ y ∷ zs) → (y ∉ xs ++ zs) × Distinct (xs ++ zs)
  Distinct-pull [] zs d = d
  Distinct-pull (x ∷ xs) zs d =
      let r = Distinct-pull xs zs d.1 in
      (
        ground (arith, r.0, d.0, has-append x xs (y ∷ zs)),
        (ground (arith, d.0, has-append x xs (y ∷ zs), has-append x xs zs), r.1),
      )

  pub Distinct-push :
      (xs zs : List ℕ) → y ∉ xs ++ zs → Distinct (xs ++ zs) → Distinct (xs ++ y ∷ zs)
  Distinct-push [] zs o d = (o, d)
  Distinct-push (x ∷ xs) zs o d = (
    ground (arith, o, d.0, has-append x xs (y ∷ zs), has-append x xs zs),
    Distinct-push xs zs (ground arith) d.1,
  )

module _ {ℓ κ} {A : Type ℓ} (P : A → Type κ) where
  pub All-join : (xs ys : List A) → All P xs → All P ys → All P (xs ++ ys)
  All-join [] ys h k = k
  All-join (x ∷ xs) ys h k = (h.0, All-join xs ys h.1 k)

pub All-weaken {ℓ κ} :
    (P : ℕ → Type ℓ) (Q : ℕ → Type κ) (xs : List ℕ)
    → ((y : ℕ) → y ∈ xs → P y → Q y)
    → All P xs
    → All Q xs
All-weaken P Q [] f h = tt
All-weaken P Q (x ∷ xs) f h =
    (f x (ground arith) h.0, All-weaken P Q xs (λ y i. f y (ground arith)) h.1)

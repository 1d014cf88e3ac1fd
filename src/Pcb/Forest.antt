-- ===== src/Pcb/Forest.antt =====
-- Processes with all of their progeny.
pub mod Cut
pub mod Graft
pub mod Hook
pub mod Rest
pub mod Sprout
use pandos_phase.Prelude.{
  ℕ, suc, ◌+◌, ◌≡◌, refl, List, [], ◌∷◌, ◌++◌, ◌∈◌, ◌∉◌, Distinct, Distinct-Apart, arith, erase,
  has-append, length, length-append, has-erase, has-erase-other, ne_of_has, has, erase_missing,
  Bool-cases, inl, inr,
}
use pandos_phase.Types.{Ptr}
use pandos_phase.Pcb.{Pcbs}
use pandos_phase.Pcb.Siblings.{IsChildren, IsChildren-frame, SameLinks}

-- Siblings from the youngest on, each with the forest of its children.
pub data Forest : Type 0 where
  leaf : Forest
  node : (p : Ptr) (children siblings : Forest) → Forest

abbrev pub roots : Forest → List Ptr
roots leaf = []
roots (node p cs rest) = p ∷ roots rest

abbrev pub members : Forest → List Ptr
members leaf = []
members (node p cs rest) = p ∷ members cs ++ members rest

abbrev pub size : Forest → ℕ
size leaf = 0
size (node p cs rest) = suc (size cs + size rest)

-- The links of the table say who is whose child.
abbrev pub IsForest : Pcbs → Forest → Type 0
IsForest s leaf = Unit
IsForest s (node p cs rest) = IsChildren s p (roots cs) × IsForest s cs × IsForest s rest

-- A list without the members of the forest.
abbrev pub survivors : Forest → List Ptr → List Ptr
survivors leaf xs = xs
survivors (node p cs rest) xs = survivors rest (erase p (survivors cs xs))

-- The members in front of a list, the one that is visited last by a walk in postorder first.
abbrev pub buried : Forest → List Ptr → List Ptr
buried leaf fs = fs
buried (node p cs rest) fs = buried rest (p ∷ buried cs fs)

pub length-members : (f : Forest) → length (members f) ≡ size f
length-members leaf = refl
length-members (node p cs rest) =
    omega (arith, length-append (members cs) (members rest), length-members cs, length-members rest)

pub roots-members : (y : Ptr) (f : Forest) → y ∈ roots f → y ∈ members f
roots-members y leaf i = i
roots-members y (node p cs rest) i =
    ground (arith, has-append y (members cs) (members rest), roots-members y rest)

pub has-survivors : (y : Ptr) (f : Forest) (xs : List Ptr) → y ∈ survivors f xs → y ∈ xs
has-survivors y leaf xs i = i
has-survivors y (node p cs rest) xs i =
    has-survivors y cs xs
      (has-erase y p (survivors cs xs) (has-survivors y rest (erase p (survivors cs xs)) i))

pub survivors-other :
    (y : Ptr) (f : Forest) (xs : List Ptr) → y ∉ members f → y ∈ xs → y ∈ survivors f xs
survivors-other y leaf xs o i = i
survivors-other y (node p cs rest) xs o i =
    let a = has-append y (members cs) (members rest) in
    survivors-other y rest (erase p (survivors cs xs)) (ground arith) (
      has-erase-other y p (survivors cs xs) (ground arith)
        (survivors-other y cs xs (ground arith) i))

pub not-mem-buried :
    (y : Ptr) (f : Forest) (fs : List Ptr) → y ∉ members f → y ∉ fs → y ∉ buried f fs
not-mem-buried y leaf fs o i = i
not-mem-buried y (node p cs rest) fs o i =
    let a = has-append y (members cs) (members rest) in
    let c = not-mem-buried y cs fs (ground arith) i in
    not-mem-buried y rest (p ∷ buried cs fs) (ground arith) (ground arith)

pub has-buried : (y : Ptr) (f : Forest) (fs : List Ptr) → y ∈ fs → y ∈ buried f fs
has-buried y leaf fs i = i
has-buried y (node p cs rest) fs i =
    has-buried y rest (p ∷ buried cs fs) (ground (arith, has-buried y cs fs i))

pub members-buried : (y : Ptr) (f : Forest) (fs : List Ptr) → y ∈ members f → y ∈ buried f fs
members-buried y leaf fs i = absurd (ground arith)
members-buried y (node p cs rest) fs i = elim (Bool-cases (has y (members rest))) [
  | inl r ↦ members-buried y rest (p ∷ buried cs fs) r
  | inr r ↦
      has-buried y rest (p ∷ buried cs fs)
        (ground (arith, has-append y (members cs) (members rest), members-buried y cs fs))
]

pub length-buried : (f : Forest) (fs : List Ptr) → length (buried f fs) ≡ size f + length fs
length-buried leaf fs = omega arith
length-buried (node p cs rest) fs =
    omega (arith, length-buried rest (p ∷ buried cs fs), length-buried cs fs)

pub survivors-missing :
    (f : Forest) (xs : List Ptr) → ((y : Ptr) → y ∈ members f → y ∉ xs) → survivors f xs ≡ xs
survivors-missing leaf xs o = refl
survivors-missing (node p cs rest) xs o =
    let m = λ (y : Ptr). has-append y (members cs) (members rest) in
    rw
      (
        survivors-missing cs xs (λ y i. o y (ground (arith, m y))),
        erase_missing p xs (o p (ground arith)),
      )
      (survivors-missing rest xs (λ y i. o y (ground (arith, m y))))

pub survivors-nil : (f : Forest) → survivors f [] ≡ []
survivors-nil f = survivors-missing f [] (λ y i. refl)

-- What distinctness says of the parts of a forest.
pub record Parts (p : Ptr) (cs rest : Forest) : Type 0 where
  pub children : Distinct (members cs)
  pub siblings : Distinct (members rest)
  pub not_child : p ∉ members cs
  pub not_sibling : p ∉ members rest
  pub apart : (y : Ptr) → y ∈ members cs → y ∉ members rest

pub Distinct-Parts :
    (p : Ptr) (cs rest : Forest) → Distinct (members (node p cs rest)) → Parts p cs rest
Distinct-Parts p cs rest d =
    let a = has-append p (members cs) (members rest) in
    let r = Distinct-Apart (members cs) (members rest) d.1 in
    record {
      children = r.left;
      siblings = r.right;
      not_child = ground (arith, d.0);
      not_sibling = ground (arith, d.0);
      apart = r.apart;
    }

-- A change of the links of the roots, and of other blocks, leaves the forest as it is.
pub IsForest-frame :
    (s s' : Pcbs) (f : Forest)
    → IsForest s f
    → Distinct (members f)
    → ((y : Ptr) → y ∈ members f → s'.p_child y ≡ s.p_child y)
    → ((y : Ptr) → y ∈ members f → y ∉ roots f → SameLinks s s' y)
    → IsForest s' f
IsForest-frame s s' leaf h d child links = tt
IsForest-frame s s' (node p cs rest) h d child links =
    let v = Distinct-Parts p cs rest d in
    let m = λ (y : Ptr). has-append y (members cs) (members rest) in
    let inner : (y : Ptr) → y ∈ members cs → SameLinks s s' y = λ y i.
      links y (ground (arith, m y)) (
        ground
          (arith, v.apart y i, roots-members y rest, ne_of_has p y (members cs) v.not_child i)) in
    (
      IsChildren-frame s s' p (roots cs) h.0 (child p (ground arith))
          (λ y i. inner y (roots-members y cs i)),
      IsForest-frame s s' cs h.1 v.children (λ y i. child y (ground (arith, m y)))
          (λ y i o. inner y i),
      IsForest-frame s s' rest h.2 v.siblings (λ y i. child y (ground (arith, m y)))
          (λ y i o.
            links y (ground (arith, m y))
              (ground (arith, ne_of_has p y (members rest) v.not_sibling i))),
    )

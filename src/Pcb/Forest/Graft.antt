-- ===== src/Pcb/Forest/Graft.antt =====
-- A forest with a new process.
use pandos_phase.Prelude.{
  ◌≡◌, refl, ap, sym, subst, List, ◌∷◌, ◌==◌, ◌||◌, ◌∈◌, ◌∉◌, false, has, has-append, Distinct,
  Apart-Distinct, Bool-cases, inl, inr, ==_refl, ==→eq, arith, if◌then◌else◌, ne_of_has,
}
use pandos_phase.Types.{Ptr}
use pandos_phase.Pcb.{Pcbs}
use pandos_phase.Pcb.Siblings.{IsChildren}
use pandos_phase.Pcb.Forest.{
  Forest, leaf, node, roots, members, IsForest, Distinct-Parts, roots-members,
}
use pandos_phase.Pcb.Forest.Cut.{progeny}

-- The forest with `x` as the youngest child of `c`.
abbrev pub graft : (c x : Ptr) → Forest → Forest
graft c x leaf = leaf
graft c x (node y cs rest) =
    if y == c
    then node y (node x leaf cs) rest
    else if has c (members cs)
    then node y (graft c x cs) rest
    else node y cs (graft c x rest)

-- The second forest has `x` as a new child of `c`, which had the children `xs`.
pub data Grafted (c x : Ptr) : List Ptr → Forest → Forest → Type 0 where
  here : (cs rest : Forest) → Grafted c x (roots cs) (node c cs rest) (node c (node x leaf cs) rest)
  below :
      (y : Ptr) {xs : List Ptr} {cs cs' : Forest} (rest : Forest)
      → Grafted c x xs cs cs'
      → Grafted c x xs (node y cs rest) (node y cs' rest)
  beside :
      (y : Ptr) {xs : List Ptr} (cs : Forest) {rest rest' : Forest}
      → Grafted c x xs rest rest'
      → Grafted c x xs (node y cs rest) (node y cs rest')

pub has-Grafted :
    (c x : Ptr) (t : Forest) → c ∈ members t → Grafted c x (roots (progeny c t)) t (graft c x t)
has-Grafted c x leaf i = absurd (ground arith)
has-Grafted c x (node y cs rest) i = elim (Bool-cases (y == c)) [
  | inl e ↦ rw e (
      subst (λ v. Grafted c x (roots cs) (node v cs rest) (node v (node x leaf cs) rest))
        (sym (==→eq y c e)) (here cs rest))
  | inr n ↦ elim (Bool-cases (has c (members cs))) [
    | inl m ↦ rw (n, m) (below y rest (has-Grafted c x cs m))
    | inr m ↦
        rw (n, m)
          (beside y cs
            (has-Grafted c x rest (ground (arith, has-append c (members cs) (members rest), n, i))))
  ]
]

pub Grafted-members :
    (z c x : Ptr) (xs : List Ptr) (t t' : Forest)
    → Grafted c x xs t t'
    → has z (members t') ≡ ((z == x) || has z (members t))
Grafted-members z c x xs t t' (here cs rest) =
    ground (
      arith,
      has-append z (members cs) (members rest),
      has-append z (x ∷ members cs) (members rest),
    )
Grafted-members z c x xs t t' (below y {cs} {cs'} rest g) = ground (
  arith,
  has-append z (members cs) (members rest),
  has-append z (members cs') (members rest),
  Grafted-members z c x xs cs cs' g,
)
Grafted-members z c x xs t t' (beside y cs {rest} {rest'} g) = ground (
  arith,
  has-append z (members cs) (members rest),
  has-append z (members cs) (members rest'),
  Grafted-members z c x xs rest rest' g,
)

pub Grafted-roots :
    (c x : Ptr) (xs : List Ptr) (t t' : Forest) → Grafted c x xs t t' → roots t' ≡ roots t
Grafted-roots c x xs t t' (here cs rest) = refl
Grafted-roots c x xs t t' (below y rest g) = refl
Grafted-roots c x xs t t' (beside y cs {rest} {rest'} g) =
    ap (λ ys. y ∷ ys) (Grafted-roots c x xs rest rest' g)

pub Grafted-IsChildren :
    (s : Pcbs) (c x : Ptr) (xs : List Ptr) (t t' : Forest)
    → Grafted c x xs t t'
    → IsForest s t
    → IsChildren s c xs
Grafted-IsChildren s c x xs t t' (here cs rest) h = h.0
Grafted-IsChildren s c x xs t t' (below y {cs} {cs'} rest g) h =
    Grafted-IsChildren s c x xs cs cs' g h.1
Grafted-IsChildren s c x xs t t' (beside y cs {rest} {rest'} g) h =
    Grafted-IsChildren s c x xs rest rest' g h.2

-- The parent is a member, and its children are members, but no roots.
pub Grafted-parent :
    (c x : Ptr) (xs : List Ptr) (t t' : Forest) → Grafted c x xs t t' → c ∈ members t
Grafted-parent c x xs t t' (here cs rest) = rw (==_refl c) refl
Grafted-parent c x xs t t' (below y {cs} {cs'} rest g) =
    ground (arith, has-append c (members cs) (members rest), Grafted-parent c x xs cs cs' g)
Grafted-parent c x xs t t' (beside y cs {rest} {rest'} g) =
    ground (arith, has-append c (members cs) (members rest), Grafted-parent c x xs rest rest' g)

pub Grafted-siblings :
    (z c x : Ptr) (xs : List Ptr) (t t' : Forest)
    → Grafted c x xs t t'
    → Distinct (members t)
    → z ∈ xs
    → (z ∈ members t) × (z ∉ roots t)
Grafted-siblings z c x xs t t' (here cs rest) d i =
    let v = Distinct-Parts c cs rest d in
    let m = roots-members z cs i in
    (
      ground (arith, has-append z (members cs) (members rest)),
      ground (arith, ne_of_has c z (members cs) v.not_child m, v.apart z m, roots-members z rest),
    )
Grafted-siblings z c x xs t t' (below y {cs} {cs'} rest g) d i =
    let v = Distinct-Parts y cs rest d in
    let m = (Grafted-siblings z c x xs cs cs' g v.children i).0 in
    (
      ground (arith, has-append z (members cs) (members rest)),
      ground (arith, ne_of_has y z (members cs) v.not_child m, v.apart z m, roots-members z rest),
    )
Grafted-siblings z c x xs t t' (beside y cs {rest} {rest'} g) d i =
    let v = Distinct-Parts y cs rest d in
    let (m, o) = Grafted-siblings z c x xs rest rest' g v.siblings i in
    (
      ground (arith, has-append z (members cs) (members rest)),
      ground (arith, ne_of_has y z (members rest) v.not_sibling m, o),
    )

pub Grafted-Distinct :
    (c x : Ptr) (xs : List Ptr) (t t' : Forest)
    → Grafted c x xs t t'
    → x ∉ members t
    → Distinct (members t)
    → Distinct (members t')
Grafted-Distinct c x xs t t' (here cs rest) o d =
    let v = Distinct-Parts c cs rest d in
    let n : (c == x) ≡ false = ground (arith, o) in (rw n d.0, (ground (arith, o), d.1))
Grafted-Distinct c x xs t t' (below y {cs} {cs'} rest g) o d =
    let v = Distinct-Parts y cs rest d in
    let a = has-append x (members cs) (members rest) in
    (
      ground (
        arith,
        has-append y (members cs') (members rest),
        Grafted-members y c x xs cs cs' g,
        v.not_child,
        v.not_sibling,
        o,
      ),
      Apart-Distinct (members cs') (members rest) (record {
        left = Grafted-Distinct c x xs cs cs' g (ground (arith, a, o)) v.children;
        right = v.siblings;
        apart =
            λ z i. ground (arith, Grafted-members z c x xs cs cs' g, i, v.apart z, a, o, ==→eq z x);
      }),
    )
Grafted-Distinct c x xs t t' (beside y cs {rest} {rest'} g) o d =
    let v = Distinct-Parts y cs rest d in
    let a = has-append x (members cs) (members rest) in
    (
      ground (
        arith,
        has-append y (members cs) (members rest'),
        Grafted-members y c x xs rest rest' g,
        v.not_child,
        v.not_sibling,
        o,
      ),
      Apart-Distinct (members cs) (members rest') (record {
        left = v.children;
        right = Grafted-Distinct c x xs rest rest' g (ground (arith, a, o)) v.siblings;
        apart = λ z i.
            ground (arith, Grafted-members z c x xs rest rest' g, i, v.apart z i, a, o, ==→eq z x);
      }),
    )

-- ===== src/Pcb/Forest/Cut.antt =====
-- A process and its progeny within a forest, and the forest without them.
use pandos_phase.Prelude.{
  ◌≡◌, sym, subst, ◌⊎◌, inl, inr, List, ◌∷◌, ◌==◌, ◌||◌, ◌∈◌, ◌∉◌, has, has-append, Distinct,
  Apart-Distinct, Bool-cases, ==_refl, ==→eq, arith, if◌then◌else◌, ne_of_has,
}
use pandos_phase.Types.{Ptr}
use pandos_phase.Pcb.Forest.{Forest, leaf, node, roots, members, Parts, Distinct-Parts}

-- The progeny of `p`.
abbrev pub progeny : Ptr → Forest → Forest
progeny p leaf = leaf
progeny p (node x cs rest) =
    if x == p then cs else if has p (members cs) then progeny p cs else progeny p rest

-- The forest without `p` and its progeny.
abbrev pub prune : Ptr → Forest → Forest
prune p leaf = leaf
prune p (node x cs rest) =
    if x == p
    then rest
    else if has p (members cs)
    then node x (prune p cs) rest
    else node x cs (prune p rest)

-- `p` with the progeny `f` is one of the first siblings of the first forest; the second one is
-- without them.
pub data Top (p : Ptr) (f : Forest) : Forest → Forest → Type 0 where
  here : (rest : Forest) → Top p f (node p f rest) rest
  next :
      (x : Ptr) (cs : Forest) {rest rest' : Forest}
      → Top p f rest rest'
      → Top p f (node x cs rest) (node x cs rest')

-- `p` is one of the children `xs` of `parent`.
pub data Under (p : Ptr) (f : Forest) (parent : Ptr) : List Ptr → Forest → Forest → Type 0 where
  child :
      {cs cs' : Forest} (rest : Forest)
      → Top p f cs cs'
      → Under p f parent (roots cs) (node parent cs rest) (node parent cs' rest)
  below :
      (x : Ptr) {xs : List Ptr} {cs cs' : Forest} (rest : Forest)
      → Under p f parent xs cs cs'
      → Under p f parent xs (node x cs rest) (node x cs' rest)
  beside :
      (x : Ptr) {xs : List Ptr} (cs : Forest) {rest rest' : Forest}
      → Under p f parent xs rest rest'
      → Under p f parent xs (node x cs rest) (node x cs rest')

-- Where `p` stands.
abbrev pub Cut : Ptr → Forest → Type 0
Cut p t =
    Top p (progeny p t) t (prune p t)
    ⊎ ((parent : Ptr) × (xs : List Ptr) × Under p (progeny p t) parent xs t (prune p t))

pub has-Cut : (p : Ptr) (t : Forest) → p ∈ members t → Cut p t
has-Cut p leaf i = absurd (ground arith)
has-Cut p (node x cs rest) i = elim (Bool-cases (x == p)) [
  | inl e ↦ rw e (inl (subst (λ v. Top p cs (node v cs rest) rest) (sym (==→eq x p e)) (here rest)))
  | inr n ↦ elim (Bool-cases (has p (members cs))) [
    | inl m ↦
        rw (n, m)
          (elim (has-Cut p cs m) [
            | inl t ↦ inr (x, roots cs, child rest t)
            | inr (parent, xs, u) ↦ inr (parent, xs, below x rest u)
          ])
    | inr m ↦
        rw (n, m)
          (elim (has-Cut p rest (ground (arith, has-append p (members cs) (members rest), n, i))) [
            | inl t ↦ inl (next x cs t)
            | inr (parent, xs, u) ↦ inr (parent, xs, beside x cs u)
          ])
  ]
]

-- The members are those of the part and those of the rest.
pub Top-members :
    (y p : Ptr) (f t t' : Forest)
    → Top p f t t'
    → has y (members t) ≡ (has y (p ∷ members f) || has y (members t'))
Top-members y p f t t' (here rest) = ground (arith, has-append y (members f) (members rest))
Top-members y p f t t' (next x cs {rest} {rest'} u) = ground (
  arith,
  has-append y (members cs) (members rest),
  has-append y (members cs) (members rest'),
  Top-members y p f rest rest' u,
)

pub Under-members :
    (y p : Ptr) (f : Forest) (parent : Ptr) (xs : List Ptr) (t t' : Forest)
    → Under p f parent xs t t'
    → has y (members t) ≡ (has y (p ∷ members f) || has y (members t'))
Under-members y p f parent xs t t' (child {cs} {cs'} rest u) = ground (
  arith,
  has-append y (members cs) (members rest),
  has-append y (members cs') (members rest),
  Top-members y p f cs cs' u,
)
Under-members y p f parent xs t t' (below x {cs} {cs'} rest u) = ground (
  arith,
  has-append y (members cs) (members rest),
  has-append y (members cs') (members rest),
  Under-members y p f parent xs cs cs' u,
)
Under-members y p f parent xs t t' (beside x cs {rest} {rest'} u) = ground (
  arith,
  has-append y (members cs) (members rest),
  has-append y (members cs) (members rest'),
  Under-members y p f parent xs rest rest' u,
)

-- What distinctness says of the two.
pub record Cleft (p : Ptr) (f t' : Forest) : Type 0 where
  pub part : Distinct (members f)
  pub rest : Distinct (members t')
  pub not_part : p ∉ members f
  pub not_rest : p ∉ members t'
  pub apart : (y : Ptr) → y ∈ members f → y ∉ members t'

-- The place is below a node, or beside it.
Cleft-node :
    (p x : Ptr) (f cs cs' rest : Forest)
    → Cleft p f cs'
    → Parts x cs rest
    → ((y : Ptr) → has y (members cs) ≡ (has y (p ∷ members f) || has y (members cs')))
    → Cleft p f (node x cs' rest)
Cleft-node p x f cs cs' rest c v m =
    let a = λ (y : Ptr). has-append y (members cs') (members rest) in
    record {
      part = c.part;
      rest = (
        ground (arith, a x, m x, v.not_child, v.not_sibling),
        Apart-Distinct (members cs') (members rest) (record {
          left = c.rest;
          right = v.siblings;
          apart = λ y i. ground (arith, v.apart y, i, m y);
        }),
      );
      not_part = c.not_part;
      not_rest = ground (
        arith,
        a p,
        m p,
        ==_refl p,
        v.not_child,
        v.apart p,
        c.not_rest,
        ne_of_has x p (members cs) v.not_child,
      );
      apart = λ y i.
          ground
            (arith, a y, m y, i, v.apart y, c.apart y i, ne_of_has x y (members cs) v.not_child);
    }

Cleft-beside :
    (p x : Ptr) (f cs rest rest' : Forest)
    → Cleft p f rest'
    → Parts x cs rest
    → ((y : Ptr) → has y (members rest) ≡ (has y (p ∷ members f) || has y (members rest')))
    → Cleft p f (node x cs rest')
Cleft-beside p x f cs rest rest' c v m =
    let a = λ (y : Ptr). has-append y (members cs) (members rest') in
    record {
      part = c.part;
      rest = (
        ground (arith, a x, m x, v.not_child, v.not_sibling),
        Apart-Distinct (members cs) (members rest') (record {
          left = v.children;
          right = c.rest;
          apart = λ y i. ground (arith, v.apart y i, m y);
        }),
      );
      not_part = c.not_part;
      not_rest = ground (
        arith,
        a p,
        m p,
        ==_refl p,
        v.not_sibling,
        v.apart p,
        c.not_rest,
        ne_of_has x p (members rest) v.not_sibling,
      );
      apart = λ y i.
          ground (
            arith,
            a y,
            m y,
            i,
            v.apart y,
            c.apart y i,
            ne_of_has x y (members rest) v.not_sibling,
          );
    }

pub Top-Cleft : (p : Ptr) (f t t' : Forest) → Top p f t t' → Distinct (members t) → Cleft p f t'
Top-Cleft p f t t' (here rest) d =
    let v = Distinct-Parts p f rest d in
    record {
      part = v.children;
      rest = v.siblings;
      not_part = v.not_child;
      not_rest = v.not_sibling;
      apart = v.apart;
    }
Top-Cleft p f t t' (next x cs {rest} {rest'} u) d =
    let v = Distinct-Parts x cs rest d in
    Cleft-beside p x f cs rest rest' (Top-Cleft p f rest rest' u v.siblings) v
      (λ y. Top-members y p f rest rest' u)

pub Under-Cleft :
    (p : Ptr) (f : Forest) (parent : Ptr) (xs : List Ptr) (t t' : Forest)
    → Under p f parent xs t t'
    → Distinct (members t)
    → Cleft p f t'
Under-Cleft p f parent xs t t' (child {cs} {cs'} rest u) d =
    let v = Distinct-Parts parent cs rest d in
    Cleft-node p parent f cs cs' rest (Top-Cleft p f cs cs' u v.children) v
      (λ y. Top-members y p f cs cs' u)
Under-Cleft p f parent xs t t' (below x {cs} {cs'} rest u) d =
    let v = Distinct-Parts x cs rest d in
    Cleft-node p x f cs cs' rest (Under-Cleft p f parent xs cs cs' u v.children) v
      (λ y. Under-members y p f parent xs cs cs' u)
Under-Cleft p f parent xs t t' (beside x cs {rest} {rest'} u) d =
    let v = Distinct-Parts x cs rest d in
    Cleft-beside p x f cs rest rest' (Under-Cleft p f parent xs rest rest' u v.siblings) v
      (λ y. Under-members y p f parent xs rest rest' u)

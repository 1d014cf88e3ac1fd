-- ===== src/Pcb/Forest/Hook.antt =====
-- A forest of the table without a process and its progeny.
use pandos_phase.Prelude.{
  ◌≡◌, refl, ap, sym, subst, List, ◌∷◌, ◌==◌, ◌∈◌, ◌∉◌, false, has-append, erase, Distinct, ==_refl,
  arith, ne_of_has, has-erase-other,
}
use pandos_phase.Types.{Ptr}
use pandos_phase.Pcb.{Pcbs}
use pandos_phase.Pcb.Siblings.{IsChildren}
use pandos_phase.Pcb.Forest.{Forest, roots, members, IsForest, Distinct-Parts, roots-members}
use pandos_phase.Pcb.Forest.Cut.{Top, here, next, Under, child, below, beside}

pub Top-root : (p : Ptr) (f t t' : Forest) → Top p f t t' → p ∈ roots t
Top-root p f t t' (here rest) = rw (==_refl p) refl
Top-root p f t t' (next x cs {rest} {rest'} u) = ground (arith, Top-root p f rest rest' u)

pub Top-roots :
    (p : Ptr) (f t t' : Forest) → Top p f t t' → Distinct (members t) → roots t' ≡ erase p (roots t)
Top-roots p f t t' (here rest) d = rw (==_refl p) refl
Top-roots p f t t' (next x cs {rest} {rest'} u) d =
    let v = Distinct-Parts x cs rest d in
    let n : (x == p) ≡ false = ground (
      arith,
      ne_of_has x p (members rest) v.not_sibling,
      roots-members p rest,
      Top-root p f rest rest' u,
    ) in
    rw n (ap (λ xs. x ∷ xs) (Top-roots p f rest rest' u v.siblings))

-- The part is a forest, and so is what is left before anything is changed.
pub Top-IsForest :
    (s : Pcbs) (p : Ptr) (f t t' : Forest)
    → Top p f t t'
    → IsForest s t
    → IsForest s f × IsChildren s p (roots f) × IsForest s t'
Top-IsForest s p f t t' (here rest) h = (h.1, h.0, h.2)
Top-IsForest s p f t t' (next x cs {rest} {rest'} u) h =
    let (a, b, c) = Top-IsForest s p f rest rest' u h.2 in (a, b, (h.0, h.1, c))

pub Under-IsForest :
    (s : Pcbs) (p : Ptr) (f : Forest) (parent : Ptr) (xs : List Ptr) (t t' : Forest)
    → Under p f parent xs t t'
    → IsForest s t
    → IsForest s f × IsChildren s p (roots f) × IsChildren s parent xs
Under-IsForest s p f parent xs t t' (child {cs} {cs'} rest u) h =
    let (a, b, c) = Top-IsForest s p f cs cs' u h.1 in (a, b, h.0)
Under-IsForest s p f parent xs t t' (below x {cs} {cs'} rest u) h =
    Under-IsForest s p f parent xs cs cs' u h.1
Under-IsForest s p f parent xs t t' (beside x cs {rest} {rest'} u) h =
    Under-IsForest s p f parent xs rest rest' u h.2

pub Under-roots :
    (p : Ptr) (f : Forest) (parent : Ptr) (xs : List Ptr) (t t' : Forest)
    → Under p f parent xs t t'
    → roots t' ≡ roots t
Under-roots p f parent xs t t' (child rest u) = refl
Under-roots p f parent xs t t' (below x rest u) = refl
Under-roots p f parent xs t t' (beside x cs {rest} {rest'} u) =
    ap (λ ys. x ∷ ys) (Under-roots p f parent xs rest rest' u)

pub Under-parent :
    (p : Ptr) (f : Forest) (parent : Ptr) (xs : List Ptr) (t t' : Forest)
    → Under p f parent xs t t'
    → parent ∈ members t'
Under-parent p f parent xs t t' (child rest u) = rw (==_refl parent) refl
Under-parent p f parent xs t t' (below x {cs} {cs'} rest u) =
    ground
      (arith, has-append parent (members cs') (members rest), Under-parent p f parent xs cs cs' u)
Under-parent p f parent xs t t' (beside x cs {rest} {rest'} u) =
    ground (
      arith,
      has-append parent (members cs) (members rest'),
      Under-parent p f parent xs rest rest' u,
    )

pub Under-sibling :
    (p : Ptr) (f : Forest) (parent : Ptr) (xs : List Ptr) (t t' : Forest)
    → Under p f parent xs t t'
    → p ∈ xs
Under-sibling p f parent xs t t' (child {cs} {cs'} rest u) = Top-root p f cs cs' u
Under-sibling p f parent xs t t' (below x {cs} {cs'} rest u) = Under-sibling p f parent xs cs cs' u
Under-sibling p f parent xs t t' (beside x cs {rest} {rest'} u) =
    Under-sibling p f parent xs rest rest' u

-- The siblings are members, but no roots.
pub Under-siblings :
    (y p : Ptr) (f : Forest) (parent : Ptr) (xs : List Ptr) (t t' : Forest)
    → Under p f parent xs t t'
    → Distinct (members t)
    → y ∈ xs
    → (y ∈ members t) × (y ∉ roots t)
Under-siblings y p f parent xs t t' (child {cs} {cs'} rest u) d i =
    let v = Distinct-Parts parent cs rest d in
    let m = roots-members y cs i in
    (
      ground (arith, has-append y (members cs) (members rest)),
      ground
          (arith, ne_of_has parent y (members cs) v.not_child m, v.apart y m, roots-members y rest),
    )
Under-siblings y p f parent xs t t' (below x {cs} {cs'} rest u) d i =
    let v = Distinct-Parts x cs rest d in
    let m = (Under-siblings y p f parent xs cs cs' u v.children i).0 in
    (
      ground (arith, has-append y (members cs) (members rest)),
      ground (arith, ne_of_has x y (members cs) v.not_child m, v.apart y m, roots-members y rest),
    )
Under-siblings y p f parent xs t t' (beside x cs {rest} {rest'} u) d i =
    let v = Distinct-Parts x cs rest d in
    let (m, o) = Under-siblings y p f parent xs rest rest' u v.siblings i in
    (
      ground (arith, has-append y (members cs) (members rest)),
      ground (arith, ne_of_has x y (members rest) v.not_sibling m),
    )

-- No sibling but `p` is gone.
pub Under-apart :
    (y p : Ptr) (f : Forest) (parent : Ptr) (xs : List Ptr) (t t' : Forest)
    → Under p f parent xs t t'
    → Distinct (members t)
    → y ∈ xs
    → (y == p) ≡ false
    → y ∈ members t'
Under-apart y p f parent xs t t' (child {cs} {cs'} rest u) d i n =
    let v = Distinct-Parts parent cs rest d in
    let r : y ∈ roots cs' =
      subst (λ ys. y ∈ ys) (sym (Top-roots p f cs cs' u v.children))
        (has-erase-other y p (roots cs) n i) in
    ground (arith, has-append y (members cs') (members rest), roots-members y cs' r)
Under-apart y p f parent xs t t' (below x {cs} {cs'} rest u) d i n =
    let v = Distinct-Parts x cs rest d in
    ground (
      arith,
      has-append y (members cs') (members rest),
      Under-apart y p f parent xs cs cs' u v.children i n,
    )
Under-apart y p f parent xs t t' (beside x cs {rest} {rest'} u) d i n =
    let v = Distinct-Parts x cs rest d in
    ground (
      arith,
      has-append y (members cs) (members rest'),
      Under-apart y p f parent xs rest rest' u v.siblings i n,
    )

-- ===== src/Pcb/Forest/Rest.antt =====
-- The forest that is left in the table once a process and its progeny are gone.
use pandos_phase.Prelude.{
  ◌≡◌, refl, sym, subst, List, [], ◌∷◌, ◌∈◌, ◌∉◌, erase, Distinct, arith, ne_of_has,
  has-erase-other,
}
use pandos_phase.Types.{Ptr}
use pandos_phase.Pcb.{Pcbs}
use pandos_phase.Pcb.Siblings.{IsChildren, IsChildren-frame, SameLinks}
use pandos_phase.Pcb.Forest.{
  Forest, roots, members, IsForest, IsForest-frame, Distinct-Parts, roots-members,
}
use pandos_phase.Pcb.Forest.Cut.{
  Top, Under, child, below, beside, Top-members, Under-members, Top-Cleft, Under-Cleft,
}
use pandos_phase.Pcb.Forest.Hook.{
  Top-root, Top-roots, Top-IsForest, Under-roots, Under-parent, Under-siblings,
}

-- The table after the process has left its parent: only links of it and its progeny and of its
-- siblings are changed, and the first child of the parent.
pub record Left (s s' : Pcbs) (p : Ptr) (f : Forest) (parent : Ptr) (xs : List Ptr) : Type 0 where
  pub siblings : p ∈ xs → IsChildren s' parent (erase p xs)
  pub links : (y : Ptr) → y ∉ xs → y ∉ p ∷ members f → SameLinks s s' y
  pub child : (y : Ptr) → y ∉ parent ∷ p ∷ members f → s'.p_child y ≡ s.p_child y

-- A part of the forest that has nothing to do with it.
Left-IsForest :
    (s s' : Pcbs) (p : Ptr) (f : Forest) (parent : Ptr) (xs : List Ptr) (g : Forest)
    → Left s s' p f parent xs
    → IsForest s g
    → Distinct (members g)
    → ((y : Ptr) → y ∈ members g → y ∉ parent ∷ p ∷ members f)
    → ((y : Ptr) → y ∈ members g → y ∉ roots g → y ∉ xs)
    → IsForest s' g
Left-IsForest s s' p f parent xs g l h d a o =
    IsForest-frame s s' g h d (λ y i. l.child y (a y i))
      (λ y i r. l.links y (o y i r) (ground (arith, a y i)))

-- The forest that is left is one of the new table.
pub Under-Left :
    (s s' : Pcbs) (p : Ptr) (f : Forest) (parent : Ptr) (xs : List Ptr) (t t' : Forest)
    → Under p f parent xs t t'
    → Left s s' p f parent xs
    → Distinct (members t)
    → IsForest s t
    → IsForest s' t'
Under-Left s s' p f parent xs t t' (child {cs} {cs'} rest u) l d h =
    let v = Distinct-Parts parent cs rest d in
    let c = Top-Cleft p f cs cs' u v.children in
    let e = Top-roots p f cs cs' u v.children in
    let m = λ (y : Ptr). Top-members y p f cs cs' u in
    (
      subst (IsChildren s' parent) (sym e) (l.siblings (Top-root p f cs cs' u)),
      Left-IsForest s s' p f parent (roots cs) cs' l (Top-IsForest s p f cs cs' u h.1).2 c.rest
          (λ y i. ground (
            arith,
            ne_of_has parent y (members cs) v.not_child,
            m y,
            i,
            c.apart y,
            ne_of_has p y (members cs') c.not_rest i,
          ))
          (λ y i r. ground (
            arith,
            subst (λ ys. y ∉ ys) e r,
            has-erase-other y p (roots cs) (ne_of_has p y (members cs') c.not_rest i),
          )),
      Left-IsForest s s' p f parent (roots cs) rest l h.2 v.siblings
          (λ y i.
            ground (arith, ne_of_has parent y (members rest) v.not_sibling i, m y, v.apart y, i))
          (λ y i r. ground (arith, v.apart y, roots-members y cs, i)),
    )
Under-Left s s' p f parent xs t t' (below x {cs} {cs'} rest u) l d h =
    let v = Distinct-Parts x cs rest d in
    let c = Under-Cleft p f parent xs cs cs' u v.children in
    let m = λ (y : Ptr). Under-members y p f parent xs cs cs' u in
    let e = Under-roots p f parent xs cs cs' u in
    let w = Under-parent p f parent xs cs cs' u in
    let b = λ (y : Ptr). Under-siblings y p f parent xs cs cs' u v.children in
    (
      subst (IsChildren s' x) (sym e) (
          IsChildren-frame s s' x (roots cs) h.0
            (l.child x (
              ground (
                arith,
                v.not_child,
                m x,
                m parent,
                w,
                ne_of_has x parent (members cs) v.not_child,
              )))
            (λ y i.
              let r : y ∈ members cs' = roots-members y cs' (subst (λ ys. y ∈ ys) (sym e) i) in
              l.links y (ground (arith, b y, i))
                (ground (arith, c.apart y, r, ne_of_has p y (members cs') c.not_rest r)))),
      Under-Left s s' p f parent xs cs cs' u l v.children h.1,
      Left-IsForest s s' p f parent xs rest l h.2 v.siblings
          (λ y i. ground (
            arith,
            v.apart y,
            m y,
            i,
            v.apart parent,
            m parent,
            w,
            ne_of_has parent y (members rest),
          ))
          (λ y i r. ground (arith, v.apart y, b y, i)),
    )
Under-Left s s' p f parent xs t t' (beside x cs {rest} {rest'} u) l d h =
    let v = Distinct-Parts x cs rest d in
    let c = Under-Cleft p f parent xs rest rest' u v.siblings in
    let m = λ (y : Ptr). Under-members y p f parent xs rest rest' u in
    let w = Under-parent p f parent xs rest rest' u in
    let b = λ (y : Ptr). Under-siblings y p f parent xs rest rest' u v.siblings in
    (
      IsChildren-frame s s' x (roots cs) h.0
          (l.child x (
            ground (
              arith,
              v.not_sibling,
              m x,
              m parent,
              w,
              ne_of_has x parent (members rest) v.not_sibling,
            )))
          (λ y i.
            let r = roots-members y cs i in
            l.links y (ground (arith, b y, v.apart y r)) (ground (arith, m y, v.apart y r))),
      Left-IsForest s s' p f parent xs cs l h.1 v.children
          (λ y i.
            ground (
              arith,
              v.apart y i,
              m y,
              m parent,
              w,
              ne_of_has parent y (members cs),
              v.apart parent,
            ))
          (λ y i r. ground (arith, v.apart y i, b y)),
      Under-Left s s' p f parent xs rest rest' u l v.siblings h.2,
    )

-- The process had no parent.
pub Top-Left :
    (s s' : Pcbs) (p : Ptr) (f : Forest) (parent : Ptr) (t t' : Forest)
    → Top p f t t'
    → Left s s' p f parent []
    → parent ∉ members t
    → Distinct (members t)
    → IsForest s t
    → IsForest s' t'
Top-Left s s' p f parent t t' u l o d h =
    let c = Top-Cleft p f t t' u d in
    Left-IsForest s s' p f parent [] t' l (Top-IsForest s p f t t' u h).2 c.rest
      (λ y i. ground (
        arith,
        Top-members y p f t t' u,
        Top-members parent p f t t' u,
        o,
        i,
        c.apart y,
        ne_of_has p y (members t') c.not_rest i,
        ne_of_has parent y (members t'),
      ))
      (λ y i r. refl)

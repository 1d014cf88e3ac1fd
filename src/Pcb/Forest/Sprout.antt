-- ===== src/Pcb/Forest/Sprout.antt =====
-- The table with a new process has the forest with it.
use pandos_phase.Prelude.{
  ◌≡◌, sym, subst, List, ◌∷◌, ◌==◌, ◌∈◌, ◌∉◌, false, has-append, Distinct, arith, ne_of_has,
}
use pandos_phase.Types.{Ptr, null}
use pandos_phase.Pcb.{Pcbs}
use pandos_phase.Pcb.Siblings.{IsChildren, IsChildren-frame, SameLinks}
use pandos_phase.Pcb.Forest.{
  Forest, roots, members, IsForest, IsForest-frame, Distinct-Parts, roots-members,
}
use pandos_phase.Pcb.Forest.Graft.{
  Grafted, Grafted-roots, Grafted-parent, Grafted-siblings, here, below, beside,
}

-- The table with `x` as a new child of `c`: only links of it and of its siblings are changed, and the
-- first child of the parent.
pub record Joined (s s' : Pcbs) (c x : Ptr) (xs : List Ptr) : Type 0 where
  pub siblings : IsChildren s' c (x ∷ xs)
  pub alone : s'.p_child x ≡ null
  pub links : (y : Ptr) → y ∉ x ∷ xs → SameLinks s s' y
  pub child : (y : Ptr) → (y == c) ≡ false → (y == x) ≡ false → s'.p_child y ≡ s.p_child y

-- A part of the forest that has nothing to do with it.
Joined-IsForest :
    (s s' : Pcbs) (c x : Ptr) (xs : List Ptr) (g : Forest)
    → Joined s s' c x xs
    → IsForest s g
    → Distinct (members g)
    → x ∉ members g
    → c ∉ members g
    → ((y : Ptr) → y ∈ members g → y ∉ roots g → y ∉ xs)
    → IsForest s' g
Joined-IsForest s s' c x xs g j h d o o' a =
    IsForest-frame s s' g h d
      (λ y i. j.child y (ne_of_has c y (members g) o' i) (ne_of_has x y (members g) o i))
      (λ y i r. j.links y (ground (arith, a y i r, ne_of_has x y (members g) o i)))

pub Grafted-Joined :
    (s s' : Pcbs) (c x : Ptr) (xs : List Ptr) (t t' : Forest)
    → Grafted c x xs t t'
    → Joined s s' c x xs
    → x ∉ members t
    → Distinct (members t)
    → IsForest s t
    → IsForest s' t'
Grafted-Joined s s' c x xs t t' (here cs rest) j o d h =
    let v = Distinct-Parts c cs rest d in
    let a = has-append x (members cs) (members rest) in
    (
      j.siblings,
      (
        record { chain = j.alone; distinct = tt; inside = tt },
        tt,
        Joined-IsForest s s' c x (roots cs) cs j h.1 v.children (ground (arith, a, o)) v.not_child
            (λ y i r. r),
      ),
      Joined-IsForest s s' c x (roots cs) rest j h.2 v.siblings (ground (arith, a, o)) v.not_sibling
          (λ y i r. ground (arith, v.apart y, roots-members y cs, i)),
    )
Grafted-Joined s s' c x xs t t' (below y {cs} {cs'} rest g) j o d h =
    let v = Distinct-Parts y cs rest d in
    let a = has-append x (members cs) (members rest) in
    let w = Grafted-parent c x xs cs cs' g in
    let b = λ (z : Ptr). Grafted-siblings z c x xs cs cs' g v.children in
    (
      subst (IsChildren s' y) (sym (Grafted-roots c x xs cs cs' g)) (
          IsChildren-frame s s' y (roots cs) h.0
            (j.child y (ground (arith, v.not_child, w, ne_of_has y c (members cs)))
              (ground (arith, o)))
            (λ z i.
              j.links z
                (ground (arith, b z, i, a, o, roots-members z cs, ne_of_has x z (members cs))))),
      Grafted-Joined s s' c x xs cs cs' g j (ground (arith, a, o)) v.children h.1,
      Joined-IsForest s s' c x xs rest j h.2 v.siblings (ground (arith, a, o)) (v.apart c w)
          (λ z i r. ground (arith, v.apart z, b z, i)),
    )
Grafted-Joined s s' c x xs t t' (beside y cs {rest} {rest'} g) j o d h =
    let v = Distinct-Parts y cs rest d in
    let a = has-append x (members cs) (members rest) in
    let w = Grafted-parent c x xs rest rest' g in
    let b = λ (z : Ptr). Grafted-siblings z c x xs rest rest' g v.siblings in
    (
      IsChildren-frame s s' y (roots cs) h.0
          (j.child y (ground (arith, v.not_sibling, w, ne_of_has y c (members rest)))
            (ground (arith, o)))
          (λ z i.
            let r = roots-members z cs i in
            j.links z (ground (arith, b z, v.apart z r, a, o, ne_of_has x z (members cs)))),
      Joined-IsForest s s' c x xs cs j h.1 v.children (ground (arith, a, o))
          (ground (arith, v.apart c, w)) (λ z i r. ground (arith, v.apart z i, b z)),
      Grafted-Joined s s' c x xs rest rest' g j (ground (arith, a, o)) v.siblings h.2,
    )

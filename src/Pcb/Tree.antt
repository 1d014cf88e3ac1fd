-- ===== src/Pcb/Tree.antt =====
-- `insertChild`, `removeChild` and `emptyChild` on the list of a process's children.
use pandos_phase.Prelude.{
  ◌<◌, ◌≡◌, inl, inr, refl, List, [], ◌∷◌, arith, ◌==◌, ◌∉◌, lt→ltb, ne→==, update, is_empty,
  if◌then◌else◌, ne_of_has, subst, ==_refl,
}
use pandos_phase.Types.{Ptr, null, maxproc}
use pandos_phase.Run.{ok, Returns, returns, access}
use pandos_phase.Pcb.{Pcbs, empty_child, insert_child, out_child, remove_child}
use pandos_phase.Pcb.Siblings.{Siblings, IsChildren, Siblings-frame}
use pandos_phase.Pcb.Detach.{IsNullOr, TreeOnly, Detached, out_child-erase}

-- `emptyChild` tells whether a process has no children, and changes nothing.
pub empty_child-nil :
    (s : Pcbs) (parent : Ptr) (xs : List Ptr)
    → IsChildren s parent xs
    → parent < maxproc
    → empty_child parent s ≡ ok (is_empty xs) s
unfolding empty_child access
empty_child-nil s parent [] h q = rw (lt→ltb _ _ q, h.chain) refl
empty_child-nil s parent (x ∷ xs) h q =
    rw (lt→ltb _ _ q, h.chain.0, ne→== x null (omega (arith, h.inside.0))) refl

remove_child_run :
    (s : Pcbs) (parent x : Ptr) (xs : List Ptr)
    → IsChildren s parent (x ∷ xs)
    → parent < maxproc
    → remove_child parent s ≡ out_child x s
unfolding remove_child access
remove_child_run s parent x xs h q =
    rw (empty_child-nil s parent (x ∷ xs) h q, lt→ltb _ _ q, h.chain.0) refl

-- `removeChild` takes out the youngest child.
pub remove_child-cons :
    (s : Pcbs) (parent x : Ptr) (xs : List Ptr)
    → IsChildren s parent (x ∷ xs)
    → parent < maxproc
    → Returns (Detached s parent x (x ∷ xs) xs) (remove_child parent s)
remove_child-cons s parent x xs h q =
    let r = out_child-erase s parent x (x ∷ xs) h q (ground arith) in
    rw (remove_child_run s parent x xs h q) (rw (==_refl x) at r)

-- Of a process without children `removeChild` returns NULL and changes nothing.
pub remove_child-nil :
    (s : Pcbs) (parent : Ptr)
    → IsChildren s parent []
    → parent < maxproc
    → remove_child parent s ≡ ok null s
unfolding remove_child
remove_child-nil s parent h q = rw (empty_child-nil s parent [] h q) refl

abbrev adopted : Pcbs → (parent p : Ptr) → Pcbs
adopted s parent p = record s {
  p_child = update s.p_child parent p;
  p_prnt = update s.p_prnt p parent;
  p_sib_right = update s.p_sib_right p (s.p_child parent);
  p_sib_left =
      if s.p_child parent == null
      then update s.p_sib_left p null
      else update (update s.p_sib_left p null) (s.p_child parent) p;
}

insert_child_run :
    (s : Pcbs) (parent p : Ptr)
    → parent < maxproc
    → p < maxproc
    → IsNullOr (s.p_child parent)
    → insert_child parent p s ≡ ok tt (adopted s parent p)
unfolding insert_child access
insert_child_run s parent p q h (inl e) =
    rw (ne→== parent null (omega arith), ne→== p null (omega arith), lt→ltb _ _ q, lt→ltb _ _ h, e)
      refl
insert_child_run s parent p q h (inr c) =
    rw
      (
        ne→== parent null (omega arith),
        ne→== p null (omega arith),
        lt→ltb _ _ q,
        lt→ltb _ _ h,
        ne→== (s.p_child parent) null (omega arith),
        lt→ltb _ _ c,
      )
      refl

abbrev pub Adopted : Pcbs → (parent p : Ptr) → List Ptr → Pcbs → Type 0
Adopted s parent p xs s' = IsChildren s' parent (p ∷ xs) × TreeOnly parent (p ∷ xs) s s'

adopted-Adopted :
    (s : Pcbs) (parent p : Ptr) (xs : List Ptr)
    → IsChildren s parent xs
    → p < maxproc
    → p ∉ xs
    → Adopted s parent p xs (adopted s parent p)
adopted-Adopted s parent p [] h hp o = (
  record {
    chain = (ground arith, ground (arith, h.chain), ground arith, ground (arith, h.chain));
    distinct = (refl, tt);
    inside = (hp, tt);
  },
  record { fields = refl; links = λ y m. ground (arith, h.chain); child = λ y n. ground arith },
)
adopted-Adopted s parent p (x ∷ xs) h hp o =
    let s' = adopted s parent p in
    let c = h.chain in
    let frame = Siblings-frame s s' parent x (s.p_sib_right x) xs c.3 (λ y i.
      let n = ne_of_has p y xs (ground arith) i in
      let m = ne_of_has x y xs h.distinct.0 i in
      record { left = ground (arith, c.0); right = ground arith; prnt = ground arith }) in
    (
      record {
        chain = (
          ground arith,
          ground (arith, c.0),
          ground arith,
          (
            ground (arith, c.0),
            ground (arith, c.0, h.inside.0),
            ground (arith, c.2),
            subst (λ r. Siblings s' parent x r xs) (ground arith) frame,
          ),
        );
        distinct = (o, h.distinct);
        inside = (hp, h.inside);
      },
      record {
        fields = refl;
        links =
            λ y m. record { left = ground (arith, c.0); right = ground arith; prnt = ground arith };
        child = λ y n. ground arith;
      },
    )

child-IsNullOr :
    (s : Pcbs) (parent : Ptr) (xs : List Ptr) → IsChildren s parent xs → IsNullOr (s.p_child parent)
child-IsNullOr s parent [] h = inl h.chain
child-IsNullOr s parent (x ∷ xs) h = inr (rw (h.chain.0) (h.inside.0))

-- `insertChild` makes a block that is not among the children of the parent its youngest child, and
-- changes no other link than those of the children and the new one.
pub insert_child-cons :
    (s : Pcbs) (parent p : Ptr) (xs : List Ptr)
    → IsChildren s parent xs
    → parent < maxproc
    → p < maxproc
    → p ∉ xs
    → Returns (λ _ s'. Adopted s parent p xs s') (insert_child parent p s)
insert_child-cons s parent p xs h q hp o =
    rw (insert_child_run s parent p q hp (child-IsNullOr s parent xs h))
      (returns (adopted-Adopted s parent p xs h hp o))

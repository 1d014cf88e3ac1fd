-- ===== src/Pcb/Detach.antt =====
-- `outChild` on the list of a process's children.
use pandos_phase.Prelude.{
  ◌<◌, ◌≡◌, ◌⊎◌, inl, inr, refl, sym, List, [], ◌∷◌, ◌++◌, arith, ◌==◌, ◌∉◌, ◌∈◌, All, Distinct,
  lt→ltb, ne→==, false, update, if◌then◌else◌, ne_of_has, has-append, subst, erase, split,
  Distinct-erase, All-erase, lt_of_has, not-mem_of_lt, All-parts, Distinct-Apart,
}
use pandos_phase.Types.{Ptr, null, maxproc}
use pandos_phase.Run.{ok, Returns, returns, access}
use pandos_phase.Pcb.{Pcbs, bypass_child, bypass_left, bypass_right, out_child}
use pandos_phase.Pcb.Siblings.{
  Siblings, IsChildren, SameLinks, bypassed, detached, detached-Siblings, left-mem, right-mem,
  rest-Siblings,
}

abbrev pub IsNullOr : Ptr → Type 0
IsNullOr p = (p ≡ null) ⊎ (p < maxproc)

bypass_child_run :
    (s : Pcbs) (p : Ptr)
    → p < maxproc
    → s.p_prnt p < maxproc
    → bypass_child p s
      ≡ ok tt (record s {
        p_child =
            if s.p_child (s.p_prnt p) == p
            then update s.p_child (s.p_prnt p) (s.p_sib_right p)
            else s.p_child;
      })
unfolding bypass_child access
bypass_child_run s p h q = ground arith

bypass_left_run :
    (s : Pcbs) (p : Ptr)
    → p < maxproc
    → IsNullOr (s.p_sib_left p)
    → bypass_left p s
      ≡ ok tt (record s {
        p_sib_right =
            if s.p_sib_left p == null
            then s.p_sib_right
            else update s.p_sib_right (s.p_sib_left p) (s.p_sib_right p);
      })
unfolding bypass_left access
bypass_left_run s p h n = ground arith

bypass_right_run :
    (s : Pcbs) (p : Ptr)
    → p < maxproc
    → IsNullOr (s.p_sib_right p)
    → bypass_right p s
      ≡ ok tt (record s {
        p_sib_left =
            if s.p_sib_right p == null
            then s.p_sib_left
            else update s.p_sib_left (s.p_sib_right p) (s.p_sib_left p);
      })
unfolding bypass_right access
bypass_right_run s p h n = ground arith

-- The second write leaves `p->p_sib_right` as it was.
right_kept :
    (s : Pcbs) (p : Ptr)
    → (p == s.p_sib_left p) ≡ false
    → (bypassed s p).p_sib_right p ≡ s.p_sib_right p
right_kept s p n = ground arith

out_child_run :
    (s : Pcbs) (p : Ptr)
    → p < maxproc
    → s.p_prnt p < maxproc
    → IsNullOr (s.p_sib_left p)
    → IsNullOr (s.p_sib_right p)
    → (p == s.p_sib_left p) ≡ false
    → out_child p s ≡ ok p (detached s p)
unfolding out_child access
out_child_run s p h q l r n =
    let s1 = record s { p_child = (bypassed s p).p_child } in
    let s2 = record s1 { p_sib_right = (bypassed s p).p_sib_right } in
    let k = right_kept s p n in
    let third = bypass_right_run s2 p h (subst IsNullOr (sym k) r) in
    rw
      (
        ne→== p null (omega arith),
        lt→ltb _ _ h,
        ne→== (s.p_prnt p) null (omega arith),
        bypass_child_run s p h q,
        bypass_left_run s1 p h l,
        third,
      )
      (rw k refl)

-- `s'` differs from `s` at most in the tree links of the blocks `xs` and the first child of `parent`.
pub record TreeOnly (parent : Ptr) (xs : List Ptr) (s s' : Pcbs) : Type 0 where
  pub fields : s' ≡ record s {
    p_child = s'.p_child;
    p_prnt = s'.p_prnt;
    p_sib_left = s'.p_sib_left;
    p_sib_right = s'.p_sib_right;
  }
  pub links : (y : Ptr) → y ∉ xs → SameLinks s s' y
  pub child : (y : Ptr) → (y == parent) ≡ false → s'.p_child y ≡ s.p_child y

-- What `outChild` does when it takes `p` from the children `xs` of `parent` and leaves `ys`.
pub record Detached (s : Pcbs) (parent p : Ptr) (xs ys : List Ptr) (r : Ptr) (s' : Pcbs)
    : Type 0 where
  pub result : r ≡ p
  pub children : IsChildren s' parent ys
  pub prnt_null : s'.p_prnt p ≡ null
  pub left_null : s'.p_sib_left p ≡ null
  pub right_null : s'.p_sib_right p ≡ null
  pub rest : TreeOnly parent xs s s'

prnt-of :
    (s : Pcbs) (parent l c p : Ptr) (ys zs : List Ptr)
    → Siblings s parent l c (ys ++ p ∷ zs)
    → s.p_prnt p ≡ parent
prnt-of s parent l c p [] zs h = h.2
prnt-of s parent l c p (y ∷ ys) zs h = prnt-of s parent y (s.p_sib_right y) p ys zs h.3

module _ (s : Pcbs) (parent p : Ptr) (ys zs : List Ptr) (h : IsChildren s parent (ys ++ p ∷ zs))
    (hq : parent < maxproc) where
  inside_parts : All (λ x. x < maxproc) ys × All (λ x. x < maxproc) (p ∷ zs)
  inside_parts = All-parts (λ x. x < maxproc) ys (p ∷ zs) h.inside

  left-in : (s.p_sib_left p ≡ null) ⊎ (s.p_sib_left p ∈ ys)
  left-in = ground (arith, left-mem s parent null (s.p_child parent) p ys zs h.chain)

  right-in : (s.p_sib_right p ≡ null) ⊎ (s.p_sib_right p ∈ zs)
  right-in =
      let r = rest-Siblings s parent null (s.p_child parent) p ys zs h.chain in
      ground (arith, right-mem s parent p (s.p_sib_right p) zs r)

  left-IsNullOr : IsNullOr (s.p_sib_left p)
  left-IsNullOr = elim left-in [
    | inl e ↦ inl e
    | inr m ↦ inr (lt_of_has maxproc (s.p_sib_left p) ys inside_parts.0 m)
  ]

  right-IsNullOr : IsNullOr (s.p_sib_right p)
  right-IsNullOr = elim right-in [
    | inl e ↦ inl e
    | inr m ↦ inr (lt_of_has maxproc (s.p_sib_right p) zs inside_parts.1.1 m)
  ]

  self-ne-left : (p == s.p_sib_left p) ≡ false
  self-ne-left =
      let o = (Distinct-Apart ys (p ∷ zs) h.distinct).apart p in
      elim left-in [
        | inl e ↦ ground (arith, inside_parts.1.0)
        | inr m ↦ ground (arith, ne_of_has p (s.p_sib_left p) ys)
      ]

  run_at : out_child p s ≡ ok p (detached s p)
  run_at =
      let q = prnt-of s parent null (s.p_child parent) p ys zs h.chain in
      out_child_run s p inside_parts.1.0 (rw q hq) left-IsNullOr right-IsNullOr self-ne-left

  IsChildren-at : erase p (ys ++ p ∷ zs) ≡ ys ++ zs → IsChildren (detached s p) parent (ys ++ zs)
  IsChildren-at er =
      let xs = ys ++ p ∷ zs in
      let q = prnt-of s parent null (s.p_child parent) p ys zs h.chain in
      record {
        chain =
            subst (λ c. Siblings (detached s p) parent null c (ys ++ zs)) (ground (arith, q))
              (detached-Siblings s parent p null (s.p_child parent) ys zs h.chain h.distinct
                (not-mem_of_lt maxproc null xs h.inside (omega arith)) h.inside);
        distinct = subst Distinct er (Distinct-erase p xs h.distinct).0;
        inside = subst (All (λ x. x < maxproc)) er (All-erase (λ x. x < maxproc) p xs h.inside);
      }

  ne-left : (y : Ptr) → y ∉ ys → (s.p_sib_left p == null) ≡ false → (y == s.p_sib_left p) ≡ false
  ne-left y o n = elim left-in [
    | inl e ↦ absurd (ground arith)
    | inr m ↦ ground (arith, ne_of_has y (s.p_sib_left p) ys o m)
  ]

  ne-right : (y : Ptr) → y ∉ zs → (s.p_sib_right p == null) ≡ false → (y == s.p_sib_right p) ≡ false
  ne-right y o n = elim right-in [
    | inl e ↦ absurd (ground arith)
    | inr m ↦ ground (arith, ne_of_has y (s.p_sib_right p) zs o m)
  ]

  links_at : (y : Ptr) → y ∉ ys ++ p ∷ zs → SameLinks s (detached s p) y
  links_at y o =
      let a = has-append y ys (p ∷ zs) in
      let oy : y ∉ ys = ground arith in
      let oz : y ∉ p ∷ zs = ground arith in
      record {
        left = ground (arith, oz, ne-right y);
        right = ground (arith, oz, ne-left y oy);
        prnt = ground (arith, oz);
      }

  detached_at :
      erase p (ys ++ p ∷ zs) ≡ ys ++ zs
      → Detached s parent p (ys ++ p ∷ zs) (ys ++ zs) p (detached s p)
  detached_at er =
      let q = prnt-of s parent null (s.p_child parent) p ys zs h.chain in
      record {
        result = refl;
        children = IsChildren-at er;
        prnt_null = ground arith;
        left_null = ground arith;
        right_null = ground arith;
        rest = record { fields = refl; links = links_at; child = λ y n. ground (arith, q, n) };
      }

-- `outChild` takes a child out of its parent's children, wherever it stands, clears its parent and
-- sibling links and returns it; the others keep their order, and no other link is changed.
pub out_child-erase :
    (s : Pcbs) (parent p : Ptr) (xs : List Ptr)
    → IsChildren s parent xs
    → parent < maxproc
    → p ∈ xs
    → Returns (Detached s parent p xs (erase p xs)) (out_child p s)
out_child-erase s parent p xs h hq i =
    let r = split p xs i in
    let k = subst (IsChildren s parent) r.whole h in
    let er = subst (λ l. erase p l ≡ r.before ++ r.after) r.whole r.erased in
    let d = detached_at s parent p r.before r.after k hq er in
    rw (run_at s parent p r.before r.after k hq) (
      returns
        (subst (λ l. Detached s parent p l (erase p l) p (detached s p)) (sym r.whole) (rw er d)))

-- A block with no parent, or NULL, leaves `outChild` with NULL, and nothing is changed.
pub out_child-orphan :
    (s : Pcbs) (p : Ptr)
    → (p ≡ null) ⊎ ((p < maxproc) × (s.p_prnt p ≡ null))
    → out_child p s ≡ ok null s
unfolding out_child access
out_child-orphan s p (inl e) = rw e refl
out_child-orphan s p (inr (h, e)) = rw (ne→== p null (omega arith), lt→ltb _ _ h, e) refl

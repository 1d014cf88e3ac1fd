-- ===== src/Pcb/Siblings.antt =====
-- The children of a process as the list that `p_child` and `p_sib_right` lead through.
use pandos_phase.Prelude.{
  ◌<◌, ◌≡◌, List, [], ◌∷◌, ◌++◌, arith, ◌==◌, ◌∉◌, ◌∈◌, All, Distinct, false, update, if◌then◌else◌,
  ne_of_has, has-append, ==_refl, subst, ◌∙◌,
}
use pandos_phase.Types.{Ptr, null, maxproc}
use pandos_phase.Pcb.{Pcbs}

-- From `c` the right siblings are `xs`, all children of `parent`; the first one's left sibling is `l`.
abbrev pub Siblings : Pcbs → (parent l c : Ptr) → List Ptr → Type 0
Siblings s parent l c [] = c ≡ null
Siblings s parent l c (x ∷ xs) =
    (c ≡ x)
    × (s.p_sib_left x ≡ l)
    × (s.p_prnt x ≡ parent)
    × Siblings s parent x (s.p_sib_right x) xs

-- The children of `parent` are the blocks `xs`, the youngest first.
pub record IsChildren (s : Pcbs) (parent : Ptr) (xs : List Ptr) : Type 0 where
  pub chain : Siblings s parent null (s.p_child parent) xs
  pub distinct : Distinct xs
  pub inside : All (λ x. x < maxproc) xs

-- The two states have the same sibling and parent links at `y`.
pub record SameLinks (s s' : Pcbs) (y : Ptr) : Type 0 where
  pub left : s'.p_sib_left y ≡ s.p_sib_left y
  pub right : s'.p_sib_right y ≡ s.p_sib_right y
  pub prnt : s'.p_prnt y ≡ s.p_prnt y

pub Siblings-frame :
    (s s' : Pcbs) (parent l c : Ptr) (xs : List Ptr)
    → Siblings s parent l c xs
    → ((y : Ptr) → y ∈ xs → SameLinks s s' y)
    → Siblings s' parent l c xs
Siblings-frame s s' parent l c [] h same = h
Siblings-frame s s' parent l c (x ∷ xs) h same =
    let e = same x (ground arith) in
    (
      h.0,
      e.left ∙ h.1,
      e.prnt ∙ h.2,
      rw (e.right)
          (Siblings-frame s s' parent x (s.p_sib_right x) xs h.3 (λ y i. same y (ground arith))),
    )

-- The children of a process depend on its first child and on their own links.
pub IsChildren-frame :
    (s s' : Pcbs) (parent : Ptr) (xs : List Ptr)
    → IsChildren s parent xs
    → s'.p_child parent ≡ s.p_child parent
    → ((y : Ptr) → y ∈ xs → SameLinks s s' y)
    → IsChildren s' parent xs
IsChildren-frame s s' parent xs h c same = record {
  chain = rw c (Siblings-frame s s' parent null (s.p_child parent) xs h.chain same);
  distinct = h.distinct;
  inside = h.inside;
}

-- The state after the three tests of `outChild` on the block p.
abbrev pub bypassed : Pcbs → Ptr → Pcbs
bypassed s p = record s {
  p_child =
      if s.p_child (s.p_prnt p) == p
      then update s.p_child (s.p_prnt p) (s.p_sib_right p)
      else s.p_child;
  p_sib_right =
      if s.p_sib_left p == null
      then s.p_sib_right
      else update s.p_sib_right (s.p_sib_left p) (s.p_sib_right p);
  p_sib_left =
      if s.p_sib_right p == null
      then s.p_sib_left
      else update s.p_sib_left (s.p_sib_right p) (s.p_sib_left p);
}

-- The state once the links of p are reset, too.
abbrev pub detached : Pcbs → Ptr → Pcbs
detached s p = record s {
  p_child = (bypassed s p).p_child;
  p_sib_right = update (bypassed s p).p_sib_right p null;
  p_sib_left = update (bypassed s p).p_sib_left p null;
  p_prnt = update s.p_prnt p null;
}

pub right-mem :
    (s : Pcbs) (parent l c : Ptr) (xs : List Ptr)
    → Siblings s parent l c xs
    → (c == null) ≡ false
    → c ∈ xs
right-mem s parent l c [] h n = absurd (ground arith)
right-mem s parent l c (x ∷ xs) h n = ground (arith, h.0)

pub left-mem :
    (s : Pcbs) (parent l c p : Ptr) (ys zs : List Ptr)
    → Siblings s parent l c (ys ++ p ∷ zs)
    → s.p_sib_left p ∈ l ∷ ys
left-mem s parent l c p [] zs h = ground (arith, h.1)
left-mem s parent l c p (y ∷ ys) zs h =
    ground (arith, left-mem s parent y (s.p_sib_right y) p ys zs h.3)

pub rest-Siblings :
    (s : Pcbs) (parent l c p : Ptr) (ys zs : List Ptr)
    → Siblings s parent l c (ys ++ p ∷ zs)
    → Siblings s parent p (s.p_sib_right p) zs
rest-Siblings s parent l c p [] zs h = h.3
rest-Siblings s parent l c p (y ∷ ys) zs h = rest-Siblings s parent y (s.p_sib_right y) p ys zs h.3

module _ (s : Pcbs) (parent p : Ptr) where
  -- A block that is not p and no neighbour of p keeps its links.
  pub far-SameLinks :
      (y : Ptr)
      → (y == p) ≡ false
      → (y == s.p_sib_left p) ≡ false
      → (y == s.p_sib_right p) ≡ false
      → SameLinks s (detached s p) y
  far-SameLinks y n l r = ground arith

  -- What follows p in the list, once p is detached.
  after_detached :
      (l : Ptr) (zs : List Ptr)
      → Siblings s parent p (s.p_sib_right p) zs
      → s.p_sib_left p ≡ l
      → p ∉ zs
      → l ∉ zs
      → Distinct zs
      → All (λ x. x < maxproc) zs
      → Siblings (detached s p) parent l (s.p_sib_right p) zs
  after_detached l [] h e o o' d b = h
  after_detached l (z ∷ zs) h e o o' d b = (
    h.0,
    ground (arith, h.0, b.0),
    ground (arith, h.2),
    subst (λ c. Siblings (detached s p) parent z c zs) (ground arith)
        (Siblings-frame s (detached s p) parent z (s.p_sib_right z) zs h.3 (λ y i.
          far-SameLinks y (ne_of_has p y zs (ground arith) i)
            (ground (arith, ne_of_has l y zs (ground arith) i))
            (ground (arith, h.0, ne_of_has z y zs d.0 i)))),
  )

  pub detached-Siblings :
      (l c : Ptr) (ys zs : List Ptr)
      → Siblings s parent l c (ys ++ p ∷ zs)
      → Distinct (ys ++ p ∷ zs)
      → l ∉ ys ++ p ∷ zs
      → All (λ x. x < maxproc) (ys ++ p ∷ zs)
      → Siblings (detached s p) parent l (if c == p then s.p_sib_right p else c) (ys ++ zs)
  detached-Siblings l c [] zs h d o b =
      rw (h.0, ==_refl p) (after_detached l zs h.3 h.1 d.0 (ground arith) d.1 b.1)
  detached-Siblings l c (y ∷ []) zs h d o b =
      let r = right-mem s parent p (s.p_sib_right p) zs h.3.3 in
      (
        ground (arith, h.0, d.0),
        ground (arith, h.1, d.0, r, ne_of_has y (s.p_sib_right p) zs),
        ground (arith, h.2, d.0),
        subst (λ c. Siblings (detached s p) parent y c zs) (ground (arith, h.3.1, d.0, b.0))
            (after_detached y zs h.3.3 h.3.1 d.1.0 (ground arith) d.1.1 b.1.1),
      )
  detached-Siblings l c (y ∷ x ∷ ys) zs h d o b =
      let r =
        right-mem s parent p (s.p_sib_right p) zs
          (rest-Siblings s parent l c p (y ∷ x ∷ ys) zs h) in
      let m = left-mem s parent x (s.p_sib_right x) p ys zs h.3.3 in
      let hy = has-append y ys (p ∷ zs) in
      let hx = has-append x ys (p ∷ zs) in
      let e : (if s.p_sib_right y == p then s.p_sib_right p else s.p_sib_right y)
          ≡ (detached s p).p_sib_right y =
        ground (arith, h.3.0, m, hx, hy, d.0, d.1.0, ne_of_has y (s.p_sib_left p) (x ∷ ys)) in
      (
        ground (arith, h.0, d.0, hy),
        ground (arith, h.1, d.0, hy, r, ne_of_has y (s.p_sib_right p) zs),
        ground (arith, h.2, d.0, hy),
        subst (λ c. Siblings (detached s p) parent y c (x ∷ ys ++ zs)) e
            (detached-Siblings y (s.p_sib_right y) (x ∷ ys) zs h.3 d.1 d.0 b.1),
      )

-- ===== src/Nucleus/Terminate/Subtree.antt =====
-- What `sysTerminate` requires and achieves on the progeny of a process.
use pandos_phase.Prelude.{
  ℕ, suc, ◌+◌, ◌^◌, ◌%◌, ◌<◌, ◌≡◌, refl, ap, ◌∙◌, inl, List, [], ◌∷◌, ◌++◌, ◌∈◌, ◌∉◌, erase, arith,
  ◌||◌, if◌then◌else◌, ◌==◌, false, All, All-parts, Distinct, has-append, has, ne_of_has,
}
use pandos_phase.Types.{Ptr, null, maxproc}
use pandos_phase.Words.{w32}
use pandos_phase.Pcb.{Pcbs}
use pandos_phase.Pcb.Siblings.{IsChildren, IsChildren-frame, SameLinks}
use pandos_phase.Pcb.Detach.{Detached}
use pandos_phase.Pcb.Forest.{
  Forest, leaf, node, roots, members, size, IsForest, survivors, buried, roots-members,
  has-survivors, survivors-other, not-mem-buried, Parts, Distinct-Parts, IsForest-frame,
}
use pandos_phase.Kernel.{Kernel}
use pandos_phase.Nucleus.{IsNucleus}
use pandos_phase.Nucleus.Touch.{IsNucleus-tree}
use pandos_phase.Nucleus.Terminate.Depart.{Balance, IsPlaced, soft_blocked}
use pandos_phase.Nucleus.Terminate.Bury.{SameRest, Buried}
use pandos_phase.Nucleus.Terminate.Unhook.{IsHooked}

-- The progeny `f` of `parent`: each process of it stands on the queue that its block says, none of
-- the blocks is free, and there are other processes.
pub record IsDoomed (k : Kernel) (parent : Ptr) (f : Forest) (rq : List Ptr) (q : Ptr → List Ptr)
    (fs : List Ptr) : Type 0 where
  pub nucleus : IsNucleus k rq q fs
  pub forest : IsForest k.asl.pcbs f
  pub children : IsChildren k.asl.pcbs parent (roots f)
  pub valid : parent < maxproc
  pub not_member : parent ∉ members f
  pub distinct : Distinct (members f)
  pub inside : All (λ y. y < maxproc) (members f)
  pub used : (y : Ptr) → y ∈ members f → y ∉ fs
  pub placed : (y : Ptr) → y ∈ members f → IsPlaced k.asl.pcbs q y
  pub others : size f < k.process_count
  pub small : k.process_count < 2 ^ 31

-- How many processes of the forest are counted as soft-blocked.
abbrev pub soft_members : ℕ → (Ptr → Ptr) → Forest → ℕ
soft_members base sem leaf = 0
soft_members base sem (node p cs rest) =
    soft_members base sem cs + soft_blocked base sem p + soft_members base sem rest

-- The progeny `f` of `parent` is gone: none of it is ready or blocked, all of its blocks are free,
-- and the semaphores and counts are as if they had never been there.
pub record IsCleared (k : Kernel) (parent : Ptr) (f : Forest) (rq : List Ptr) (q : Ptr → List Ptr)
    (fs : List Ptr) (k' : Kernel) : Type 0 where
  pub state : IsNucleus k' (survivors f rq) (λ b. survivors f (q b)) (buried f fs)
  pub childless : IsChildren k'.asl.pcbs parent []
  pub links : (y : Ptr) → y ∉ members f → SameLinks k.asl.pcbs k'.asl.pcbs y
  pub child :
      (y : Ptr)
      → (y == parent) ≡ false
      → y ∉ members f
      → k'.asl.pcbs.p_child y ≡ k.asl.pcbs.p_child y
  pub sem : k'.asl.pcbs.p_sem_add ≡ k.asl.pcbs.p_sem_add
  pub rest : SameRest k k'
  pub runs :
      k'.current_process ≡ (if has k.current_process (members f) then null else k.current_process)
  pub balance : Balance k.device_semaphores k.word q k'.word (λ b. survivors f (q b))
  pub soft :
      (k'.soft_block_count + soft_members k.device_semaphores k.asl.pcbs.p_sem_add f) % w32
      ≡ k.soft_block_count % w32
  pub count : k'.process_count + size f ≡ k.process_count

pub SameLinks-trans : {s t u : Pcbs} (y : Ptr) → SameLinks s t y → SameLinks t u y → SameLinks s u y
SameLinks-trans y a b = record {
  left = b.left ∙ a.left;
  right = b.right ∙ a.right;
  prnt = b.prnt ∙ a.prnt;
}

-- Where a process that survives stands.
pub IsPlaced-survivor :
    (s t : Pcbs) (q : Ptr → List Ptr) (f : Forest) (y : Ptr)
    → t.p_sem_add ≡ s.p_sem_add
    → y ∉ members f
    → IsPlaced s q y
    → IsPlaced t (λ b. survivors f (q b)) y
IsPlaced-survivor s t q f y e o h = record {
  blocked = λ n.
      rw (ap (λ g. g y) e)
        (survivors-other y f (q (s.p_sem_add y)) o (h.blocked (rw (← ap (λ g. g y) e) n)));
  unblocked =
      λ n b. ground (arith, has-survivors y f (q b), h.unblocked (rw (← ap (λ g. g y) e) n) b);
}

-- The youngest child `c` of `parent` is taken from it.
module _ (k : Kernel) (parent c : Ptr) (cs rest : Forest) (rq : List Ptr) (q : Ptr → List Ptr)
    (fs : List Ptr) (h : IsDoomed k parent (node c cs rest) rq q fs) where
  parts : Parts c cs rest
  parts = Distinct-Parts c cs rest h.distinct

  pub has-members :
      (y : Ptr) → has y (members cs ++ members rest) ≡ (has y (members cs) || has y (members rest))
  has-members y = has-append y (members cs) (members rest)

  child-ne-parent : (c == parent) ≡ false
  child-ne-parent = ground (arith, h.not_member)

  -- The state in which the child is an orphan.
  module _ (t : Pcbs) (d : Detached k.asl.pcbs parent c (c ∷ roots rest) (roots rest) c t) where
    abbrev pub orphaned : Kernel
    orphaned = record k { asl = record (k.asl) { pcbs = t } }

    orphaned-IsNucleus : IsNucleus orphaned rq q fs
    orphaned-IsNucleus =
        let e = d.rest.fields in
        IsNucleus-tree k orphaned rq q fs refl refl
          (λ y. record {
            next = ap (λ (u : Pcbs). u.p_next y) e;
            prev = ap (λ (u : Pcbs). u.p_prev y) e;
            sem = ap (λ (u : Pcbs). u.p_sem_add y) e;
          })
          (ap (λ (u : Pcbs). u.pcb_free_h) e) h.nucleus

    -- The links that are changed are those of the siblings.
    child-not-root : (y : Ptr) → y ∈ members cs → y ∉ c ∷ roots rest
    child-not-root y i =
        let v = parts in
        ground (arith, v.apart y i, roots-members y rest, ne_of_has c y (members cs) v.not_child i)

    child-ne : (y : Ptr) → y ∈ members cs → (y == parent) ≡ false
    child-ne y i =
        ground
          (arith, has-members y, has-members parent, h.not_member, ne_of_has parent y (members cs))

    orphaned-IsPlaced : (y : Ptr) → y ∈ members (node c cs rest) → IsPlaced t q y
    orphaned-IsPlaced y i =
        IsPlaced-survivor k.asl.pcbs t q leaf y (ap (λ (u : Pcbs). u.p_sem_add) d.rest.fields) refl
          (h.placed y i)

    pub first-IsDoomed : IsDoomed orphaned c cs rq q fs
    first-IsDoomed =
        let v = parts in
        record {
          nucleus = orphaned-IsNucleus;
          forest =
              IsForest-frame k.asl.pcbs t cs h.forest.1 v.children
                (λ y i. d.rest.child y (child-ne y i))
                (λ y i o. d.rest.links y (child-not-root y i));
          children =
              IsChildren-frame k.asl.pcbs t c (roots cs) h.forest.0 (d.rest.child c child-ne-parent)
                (λ y i. d.rest.links y (child-not-root y (roots-members y cs i)));
          valid = h.inside.0;
          not_member = v.not_child;
          distinct = v.children;
          inside = (All-parts (λ y. y < maxproc) (members cs) (members rest) h.inside.1).0;
          used = λ y i. h.used y (ground (arith, has-members y));
          placed = λ y i. orphaned-IsPlaced y (ground (arith, has-members y));
          others = omega (arith, h.others);
          small = h.small;
        }

    -- Its own progeny is gone in `k2`, and the child itself in `k3`.
    module _ (k2 : Kernel) (w : IsCleared orphaned c cs rq q fs k2) where
      pub child-IsHooked : IsHooked k2.asl.pcbs c c []
      child-IsHooked = inl ((w.links c parts.not_child).prnt ∙ d.prnt_null, refl)

      pub child-IsPlaced : IsPlaced k2.asl.pcbs (λ b. survivors cs (q b)) c
      child-IsPlaced =
          IsPlaced-survivor t k2.asl.pcbs q cs c w.sem parts.not_child
            (orphaned-IsPlaced c (ground arith))

      pub child-used : c ∉ buried cs fs
      child-used = not-mem-buried c cs fs parts.not_child (h.used c (ground arith))

      pub several_left : 1 < k2.process_count
      several_left = omega (arith, w.count, h.others)

      pub still_small : k2.process_count < 2 ^ 31
      still_small = omega (arith, w.count, h.small)

      module _ (k3 : Kernel)
          (b : Buried k2 c c [] (survivors cs rq) (λ b. survivors cs (q b)) (buried cs fs) k3)
          (less : suc k3.process_count ≡ k2.process_count) where
        pub later_links : (y : Ptr) → y ∉ members cs → SameLinks t k3.asl.pcbs y
        later_links y o = SameLinks-trans y (w.links y o) (b.tree.links y refl)

        pub later_child :
            (y : Ptr) → (y == c) ≡ false → y ∉ members cs → k3.asl.pcbs.p_child y ≡ t.p_child y
        later_child y n o = b.tree.child y n ∙ w.child y n o

        sibling-apart : (y : Ptr) → y ∈ members rest → y ∉ members cs
        sibling-apart y i = let v = parts in ground (arith, v.apart y)

        sibling-ne : (y : Ptr) → y ∈ members rest → (y == c) ≡ false
        sibling-ne y i = ne_of_has c y (members rest) parts.not_sibling i

        sibling-child : (y : Ptr) → y ∈ members rest → k3.asl.pcbs.p_child y ≡ k.asl.pcbs.p_child y
        sibling-child y i =
            later_child y (sibling-ne y i) (sibling-apart y i)
            ∙ d.rest.child y (
                ground (arith, has-members parent, h.not_member, ne_of_has parent y (members rest)))

        pub sem_kept : k3.asl.pcbs.p_sem_add ≡ k.asl.pcbs.p_sem_add
        sem_kept = b.tree.sem ∙ (w.sem ∙ ap (λ (u : Pcbs). u.p_sem_add) d.rest.fields)

        pub rest-IsDoomed :
            IsDoomed k3 parent rest
              (erase c (survivors cs rq))
              (λ b. erase c (survivors cs (q b)))
              (c ∷ buried cs fs)
        rest-IsDoomed =
            let v = parts in
            record {
              nucleus = b.state;
              forest =
                  IsForest-frame k.asl.pcbs k3.asl.pcbs rest h.forest.2 v.siblings sibling-child
                    (λ y i o.
                      SameLinks-trans y (d.rest.links y (ground (arith, sibling-ne y i)))
                        (later_links y (sibling-apart y i)));
              children =
                  IsChildren-frame t k3.asl.pcbs parent (roots rest) d.children
                    (later_child parent (ground (arith, h.not_member))
                      (ground (arith, has-members parent, h.not_member)))
                    (λ y i. later_links y (sibling-apart y (roots-members y rest i)));
              valid = h.valid;
              not_member = ground (arith, has-members parent, h.not_member);
              distinct = v.siblings;
              inside = (All-parts (λ y. y < maxproc) (members cs) (members rest) h.inside.1).1;
              used = λ y i. ground (
                arith,
                sibling-ne y i,
                not-mem-buried y cs fs (sibling-apart y i)
                    (h.used y (ground (arith, has-members y))),
              );
              placed = λ y i.
                  IsPlaced-survivor k.asl.pcbs k3.asl.pcbs q (node c cs leaf) y sem_kept
                    (ground
                      (arith, has-append y (members cs) [], sibling-ne y i, sibling-apart y i))
                    (h.placed y (ground (arith, has-members y)));
              others = omega (arith, h.others, w.count, less);
              small = omega (arith, h.small, w.count, less);
            }

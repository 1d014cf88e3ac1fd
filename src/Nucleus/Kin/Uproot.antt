-- ===== src/Nucleus/Kin/Uproot.antt =====
-- The tree that `sysTerminate` is called on, and what it leaves of it.
use pandos_phase.Prelude.{
  suc, ◌^◌, ◌<◌, ◌≡◌, refl, ap, ◌∙◌, sym, subst, inl, inr, List, [], ◌∷◌, ◌==◌, ◌||◌, ◌∈◌, ◌∉◌, has,
  All, arith, ==→eq, ==_refl, Bool-cases, ne_of_has, has-erase,
}
use pandos_phase.Types.{Ptr, null, maxproc}
use pandos_phase.Pcb.{Pcbs}
use pandos_phase.Pcb.Siblings.{Siblings, IsChildren}
use pandos_phase.Pcb.Forest.{
  Forest, leaf, node, roots, members, size, survivors, buried, IsForest, roots-members,
}
use pandos_phase.Pcb.Forest.Cut.{
  progeny, prune, has-Cut, Top, Under, Top-members, Under-members, Cleft, Top-Cleft, Under-Cleft,
}
use pandos_phase.Pcb.Forest.Hook.{
  Top-IsForest, Under-IsForest, Under-parent, Under-sibling, Under-apart, Under-roots,
  Under-siblings, Top-roots, Top-root,
}
use pandos_phase.Pcb.Forest.Rest.{Left, Under-Left, Top-Left}
use pandos_phase.Kernel.{Kernel}
use pandos_phase.Nucleus.Sound.{IsSound}
use pandos_phase.Nucleus.Terminate.{IsTree}
use pandos_phase.Nucleus.Terminate.Depart.{IsPlaced}
use pandos_phase.Nucleus.Terminate.Subtree.{IsDoomed}
use pandos_phase.Nucleus.Kin.{IsFamily}
use pandos_phase.Nucleus.Kin.Change.{Cut-IsFamily}

-- The tree that `sysTerminate` is called on, and what it leaves.
module _ (k : Kernel) (rq : List Ptr) (q : Ptr → List Ptr) (fs : List Ptr) (t : Forest)
    (h : IsSound k rq q fs) (g : IsFamily k.asl.pcbs t q fs) where
  family-IsPlaced : (y : Ptr) → y ∈ members t → IsPlaced k.asl.pcbs q y
  family-IsPlaced y i =
      let n = h.nucleus in
      record {
        blocked = λ z. elim (Bool-cases (has y rq)) [
          | inl r ↦
              let e = g.unmarked y i (λ b. n.ready_blocked y b r) in absurd (ground (arith, z, e))
          | inr r ↦ elim (Bool-cases (y == k.current_process)) [
            | inl c ↦ elim h.running [
              | inl o ↦ absurd (ground (arith, g.inside y i, c, o))
              | inr o ↦
                  let e = g.unmarked y i (λ b.
                    subst (λ v. v ∉ q b) (sym (==→eq y k.current_process c)) (o.not_blocked b)) in
                  absurd (ground (arith, z, e))
            ]
            | inr c ↦
                let (b, m) = h.accounted y (g.inside y i) (g.used y i) r c in
                subst (λ v. y ∈ q v) (sym (n.asl.blocks.knows b y m)) m
          ]
        ];
        unblocked = λ z b. elim (Bool-cases (has y (q b))) [
          | inl m ↦
              let e : b ≡ null =
                sym (n.asl.blocks.knows b y m) ∙ ==→eq (k.asl.pcbs.p_sem_add y) null z in
              let m' : y ∈ [] = subst (λ ys. y ∈ ys) (ap q e ∙ g.no_null) m in
              absurd (ground (arith, m'))
          | inr m ↦ m
        ];
      }

  small : k.process_count < 2 ^ 31
  small = omega (arith, h.count)

All-has : (xs : List Ptr) → ((y : Ptr) → y ∈ xs → y < maxproc) → All (λ y. y < maxproc) xs
All-has [] f = tt
All-has (x ∷ xs) f = (f x (rw (==_refl x) refl), All-has xs (λ y i. f y (ground arith)))

Siblings-parent :
    (s : Pcbs) (parent l c y : Ptr) (xs : List Ptr)
    → Siblings s parent l c xs
    → y ∈ xs
    → s.p_prnt y ≡ parent
Siblings-parent s parent l c y [] h i = absurd (ground arith)
Siblings-parent s parent l c y (x ∷ xs) h i = elim (Bool-cases (y == x)) [
  | inl e ↦ ap s.p_prnt (==→eq y x e) ∙ h.2
  | inr n ↦ Siblings-parent s parent x (s.p_sib_right x) y xs h.3 (ground arith)
]

-- What is left of the tree once `p` has left its parent.
abbrev pub Prunes :
    Pcbs → (p parent : Ptr) → List Ptr → Forest → (q : Ptr → List Ptr) → (fs : List Ptr) → Type 0
Prunes s p parent xs t q fs =
    (s1 : Pcbs)
    → Left s s1 p (progeny p t) parent xs
    → s1.p_sem_add ≡ s.p_sem_add
    → IsFamily s1 (prune p t) (λ b. survivors (node p (progeny p t) leaf) (q b))
        (buried (node p (progeny p t) leaf) fs)

-- The place of `p` in the tree, as `sysTerminate` finds it, and the tree without it.
abbrev pub Uprooted :
    Kernel → (p : Ptr) → Forest → (rq : List Ptr) → (q : Ptr → List Ptr) → (fs : List Ptr) → Type 0
Uprooted k p t rq q fs =
    (parent : Ptr) × (xs : List Ptr) × IsTree k p parent xs (progeny p t) rq q fs
    × Prunes k.asl.pcbs p parent xs t q fs

module _ (k : Kernel) (rq : List Ptr) (q : Ptr → List Ptr) (fs : List Ptr) (t : Forest)
    (h : IsSound k rq q fs) (g : IsFamily k.asl.pcbs t q fs) (p : Ptr) (i : p ∈ members t)
    (others : suc (size (progeny p t)) < k.process_count) where
  family-IsDoomed :
      IsForest k.asl.pcbs (progeny p t)
      → IsChildren k.asl.pcbs p (roots (progeny p t))
      → ((y : Ptr)
          → has y (members t) ≡ (has y (p ∷ members (progeny p t)) || has y (members (prune p t))))
      → Cleft p (progeny p t) (prune p t)
      → IsDoomed k p (progeny p t) rq q fs
  family-IsDoomed a b m c = record {
    nucleus = h.nucleus;
    forest = a;
    children = b;
    valid = g.inside p i;
    not_member = c.not_part;
    distinct = c.part;
    inside = All-has (members (progeny p t)) (λ y j. g.inside y (ground (arith, m y)));
    used = λ y j. g.used y (ground (arith, m y));
    placed = λ y j. family-IsPlaced k rq q fs t h g y (ground (arith, m y));
    others = omega (arith, others);
    small = small k rq q fs t h g;
  }

  -- It has no parent,
  root-Uprooted : Top p (progeny p t) t (prune p t) → Uprooted k p t rq q fs
  root-Uprooted u =
      let m = λ (y : Ptr). Top-members y p (progeny p t) t (prune p t) u in
      let c = Top-Cleft p (progeny p t) t (prune p t) u g.distinct in
      let (a, b, r) = Top-IsForest k.asl.pcbs p (progeny p t) t (prune p t) u g.forest in
      let no : null ∉ members t = elim (Bool-cases (has null (members t))) [
        | inl j ↦ absurd (omega (arith, g.inside null j))
        | inr n ↦ n
      ] in
      (
        null,
        [],
        record {
          progeny = family-IsDoomed a b m c;
          used = g.used p i;
          placed = family-IsPlaced k rq q fs t h g p i;
          hooked = inl (g.orphans p (Top-root p (progeny p t) t (prune p t) u), refl);
          parent_apart = ground (arith, no, m null);
          siblings_apart = λ y j. absurd (ground arith);
        },
        λ s1 w sem.
            Cut-IsFamily k.asl.pcbs s1 p t q fs g m c
              (Top-Left k.asl.pcbs s1 p (progeny p t) null t (prune p t) u w no g.distinct g.forest)
              (λ y j.
                let z = roots-members y (prune p t) j in
                let e = Top-roots p (progeny p t) t (prune p t) u g.distinct in
                (w.links y refl (
                  ground
                    (arith, c.apart y, z, ne_of_has p y (members (prune p t)) c.not_rest z))).prnt
                ∙ g.orphans y (has-erase y p (roots t) (subst (λ ys. y ∈ ys) e j)))
              sem,
      )

  -- or it has one.
  child-Uprooted :
      (parent : Ptr) (xs : List Ptr)
      → Under p (progeny p t) parent xs t (prune p t)
      → Uprooted k p t rq q fs
  child-Uprooted parent xs u =
      let m = λ (y : Ptr). Under-members y p (progeny p t) parent xs t (prune p t) u in
      let c = Under-Cleft p (progeny p t) parent xs t (prune p t) u g.distinct in
      let (a, b, d) =
        Under-IsForest k.asl.pcbs p (progeny p t) parent xs t (prune p t) u g.forest in
      let w0 = Under-parent p (progeny p t) parent xs t (prune p t) u in
      let among = Under-sibling p (progeny p t) parent xs t (prune p t) u in
      (
        parent,
        xs,
        record {
          progeny = family-IsDoomed a b m c;
          used = g.used p i;
          placed = family-IsPlaced k rq q fs t h g p i;
          hooked = inr (record {
            mine =
                Siblings-parent k.asl.pcbs parent null (k.asl.pcbs.p_child parent) p xs d.chain
                  among;
            siblings = d;
            among = among;
            valid = g.inside parent (ground (arith, m parent));
          });
          parent_apart =
              ground
                (arith, c.apart parent, w0, ne_of_has p parent (members (prune p t)) c.not_rest w0);
          siblings_apart = λ y j. elim (Bool-cases (y == p)) [
            | inl e ↦ subst (λ v. v ∉ members (progeny p t)) (sym (==→eq y p e)) c.not_part
            | inr n ↦ ground (
              arith,
              c.apart y,
              Under-apart y p (progeny p t) parent xs t (prune p t) u g.distinct j n,
            )
          ];
        },
        λ s1 w sem.
            Cut-IsFamily k.asl.pcbs s1 p t q fs g m c
              (Under-Left k.asl.pcbs s1 p (progeny p t) parent xs t (prune p t) u w g.distinct
                g.forest)
              (λ y j.
                let z = roots-members y (prune p t) j in
                let e = Under-roots p (progeny p t) parent xs t (prune p t) u in
                let j' : y ∈ roots t = subst (λ ys. y ∈ ys) e j in
                (w.links y
                  (ground (
                    arith,
                    Under-siblings y p (progeny p t) parent xs t (prune p t) u g.distinct,
                    j',
                  ))
                  (ground
                    (arith, c.apart y, z, ne_of_has p y (members (prune p t)) c.not_rest z))).prnt
                ∙ g.orphans y j')
              sem,
      )

  pub family-Uprooted : Uprooted k p t rq q fs
  family-Uprooted = elim (has-Cut p t i) [
    | inl u ↦ root-Uprooted u
    | inr (parent, xs, u) ↦ child-Uprooted parent xs u
  ]

-- ===== src/Nucleus/Kin/Change.antt =====
-- The process tree when processes begin and end.
use pandos_phase.Prelude.{
  ◌<◌, ◌≡◌, ap, ◌∙◌, sym, subst, inl, inr, List, [], ◌∷◌, ◌==◌, ◌||◌, ◌∈◌, ◌∉◌, false, has,
  has-append, arith, ==→eq, Bool-cases, ne_of_has,
}
use pandos_phase.Types.{Ptr, null, maxproc}
use pandos_phase.Pcb.{Pcbs}
use pandos_phase.Pcb.Forest.{
  Forest, leaf, node, roots, members, survivors, buried, IsForest, has-buried, members-buried,
  not-mem-buried, survivors-nil, survivors-other, roots-members,
}
use pandos_phase.Pcb.Forest.Cut.{progeny, prune, Cleft}
use pandos_phase.Pcb.Forest.Graft.{
  graft, has-Grafted, Grafted-members, Grafted-roots, Grafted-Distinct, Grafted-siblings,
}
use pandos_phase.Pcb.Forest.Sprout.{Grafted-Joined, Joined}
use pandos_phase.Nucleus.Kin.{IsFamily}

-- A new process `x` of `c`.
pub Joined-IsFamily :
    (s s' : Pcbs) (c x : Ptr) (t : Forest) (q : Ptr → List Ptr) (fs : List Ptr)
    → IsFamily s t q (x ∷ fs)
    → c ∈ members t
    → x < maxproc
    → x ∉ fs
    → Joined s s' c x (roots (progeny c t))
    → s'.p_sem_add x ≡ null
    → ((y : Ptr) → (y == x) ≡ false → s'.p_sem_add y ≡ s.p_sem_add y)
    → IsFamily s' (graft c x t) q fs
Joined-IsFamily s s' c x t q fs g i v o j e same =
    let r = has-Grafted c x t i in
    let xs = roots (progeny c t) in
    let t' = graft c x t in
    let new : x ∉ members t = elim (Bool-cases (has x (members t))) [
      | inl m ↦ absurd (ground (arith, g.used x m))
      | inr n ↦ n
    ] in
    let m = λ (y : Ptr). Grafted-members y c x xs t t' r in
    record {
      forest = Grafted-Joined s s' c x xs t t' r j new g.distinct g.forest;
      distinct = Grafted-Distinct c x xs t t' r new g.distinct;
      inside = λ y k. elim (Bool-cases (y == x)) [
        | inl z ↦ subst (λ w. w < maxproc) (sym (==→eq y x z)) v
        | inr z ↦ g.inside y (ground (arith, m y))
      ];
      used = λ y k. elim (Bool-cases (y == x)) [
        | inl z ↦ subst (λ w. w ∉ fs) (sym (==→eq y x z)) o
        | inr z ↦ ground (arith, m y, g.used y)
      ];
      complete = λ y l u. elim (Bool-cases (y == x)) [
        | inl z ↦ ground (arith, m y)
        | inr z ↦ ground (arith, m y, g.complete y l (ground arith))
      ];
      orphans = λ y k.
          let k' : y ∈ roots t = subst (λ ys. y ∈ ys) (Grafted-roots c x xs t t' r) k in
          let d : (y == x) ≡ false = ne_of_has x y (members t) new (roots-members y t k') in
          (j.links y (ground (arith, Grafted-siblings y c x xs t t' r g.distinct, k'))).prnt
          ∙ g.orphans y k';
      no_null = g.no_null;
      unmarked = λ y k f. elim (Bool-cases (y == x)) [
        | inl z ↦ ap s'.p_sem_add (==→eq y x z) ∙ e
        | inr z ↦ same y z ∙ g.unmarked y (ground (arith, m y)) f
      ];
    }

-- The process `p` and its progeny have left.
module _ (s s' : Pcbs) (p : Ptr) (t : Forest) (q : Ptr → List Ptr) (fs : List Ptr)
    (g : IsFamily s t q fs) where
  abbrev gone : Forest
  gone = node p (progeny p t) leaf

  pub Cut-IsFamily :
      ((y : Ptr)
        → has y (members t) ≡ (has y (p ∷ members (progeny p t)) || has y (members (prune p t))))
      → Cleft p (progeny p t) (prune p t)
      → IsForest s' (prune p t)
      → ((y : Ptr) → y ∈ roots (prune p t) → s'.p_prnt y ≡ null)
      → s'.p_sem_add ≡ s.p_sem_add
      → IsFamily s' (prune p t) (λ b. survivors gone (q b)) (buried gone fs)
  Cut-IsFamily m c h o e =
      let a = λ (y : Ptr). has-append y (members (progeny p t)) [] in
      record {
        forest = h;
        distinct = c.rest;
        inside = λ y i. g.inside y (ground (arith, m y));
        used = λ y i.
            not-mem-buried y gone fs
              (ground (arith, a y, c.apart y, i, ne_of_has p y (members (prune p t)) c.not_rest i))
              (g.used y (ground (arith, m y)));
        complete = λ y v u. ground (
          arith,
          m y,
          a y,
          members-buried y gone fs,
          g.complete y v (ground (arith, has-buried y gone fs, u)),
          u,
        );
        orphans = o;
        no_null = ap (survivors gone) g.no_null ∙ survivors-nil gone;
        unmarked = λ y i f.
            ap (λ w. w y) e
            ∙ g.unmarked y (ground (arith, m y)) (λ b. elim (Bool-cases (has y (q b))) [
              | inl z ↦ absurd (
                  ground (
                    arith,
                    f b,
                    survivors-other y gone (q b)
                        (ground (
                          arith,
                          a y,
                          c.apart y,
                          i,
                          ne_of_has p y (members (prune p t)) c.not_rest i,
                        ))
                        z,
                  ))
              | inr z ↦ z
            ]);
      }

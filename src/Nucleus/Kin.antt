-- ===== src/Nucleus/Kin.antt =====
-- The process tree: its forest, and what the block of a process says of the queue that it is on.
pub mod Change
pub mod Uproot
use pandos_phase.Prelude.{
  ◌∷◌, Bool-cases, sym, subst, if◌then◌else◌, ◌<◌, ◌≡◌, ◌⊎◌, refl, ap, ◌∙◌, inl, inr, List, [],
  ◌==◌, ◌∈◌, ◌∉◌, true, false, Distinct, All, arith, ==→eq,
}
use pandos_phase.Types.{Ptr, null, maxproc}
use pandos_phase.Pcb.{Pcbs}
use pandos_phase.Asl.Dequeue.{left_with}
use pandos_phase.Pcb.Forest.{Forest, roots, members, IsForest, IsForest-frame}
use pandos_phase.Nucleus.{families}

-- Who is on no queue of blocked processes has its `p_semAdd` cleared, or is as it was.
pub record Marked (s s' : Ptr → Ptr) (q q' : Ptr → List Ptr) : Type 0 where
  pub mark :
      (y : Ptr) → ((b : Ptr) → y ∉ q' b) → (s' y ≡ null) ⊎ ((s' y ≡ s y) × ((b : Ptr) → y ∉ q b))

pub Marked-same : (s s' : Ptr → Ptr) (q : Ptr → List Ptr) → s' ≡ s → Marked s s' q q
Marked-same s s' q e = record { mark = λ y o. inr (ap (λ f. f y) e, o) }

pub Marked-trans :
    {s s' s'' : Ptr → Ptr} {q q' q'' : Ptr → List Ptr}
    → Marked s s' q q'
    → Marked s' s'' q' q''
    → Marked s s'' q q''
Marked-trans m n = record {
  mark = λ y o. elim (n.mark y o) [
    | inl e ↦ inl e
    | inr (e, o') ↦ elim (m.mark y o') [ inl i ↦ inl (e ∙ i) | inr (i, o'') ↦ inr (e ∙ i, o'') ]
  ];
}

-- The first process `p` of the queue of `a` is woken.
pub woken-Marked :
    (s s' : Ptr → Ptr) (q : Ptr → List Ptr) (a p : Ptr) (xs : List Ptr)
    → q a ≡ p ∷ xs
    → s' p ≡ null
    → ((y : Ptr) → (y == p) ≡ false → s' y ≡ s y)
    → Marked s s' q (left_with q a xs)
woken-Marked s s' q a p xs e c same = record {
  mark = λ y o. elim (Bool-cases (y == p)) [
    | inl i ↦ inl (ap s' (==→eq y p i) ∙ c)
    | inr n ↦ inr (
      same y n,
      λ b. elim (Bool-cases (b == a)) [
        | inl i ↦
            let m : y ∉ xs = rw i at (o b) in subst (λ v. y ∉ q v) (sym (==→eq b a i)) (rw (e, n) m)
        | inr i ↦ let m : y ∉ q b = rw i at (o b) in m
      ],
    )
  ];
}

-- The processes are the forest `t`, and all blocks are free but theirs. A process that is blocked
-- nowhere has `p_semAdd` cleared.
pub record IsFamily (s : Pcbs) (t : Forest) (q : Ptr → List Ptr) (fs : List Ptr) : Type 0 where
  pub forest : IsForest s t
  pub distinct : Distinct (members t)
  pub inside : (y : Ptr) → y ∈ members t → y < maxproc
  pub used : (y : Ptr) → y ∈ members t → y ∉ fs
  pub complete : (y : Ptr) → y < maxproc → y ∉ fs → y ∈ members t
  pub orphans : (y : Ptr) → y ∈ roots t → s.p_prnt y ≡ null
  pub no_null : q null ≡ []
  pub unmarked : (y : Ptr) → y ∈ members t → ((b : Ptr) → y ∉ q b) → s.p_sem_add y ≡ null

pub IsFamily-steady :
    {s s' : Pcbs} {t : Forest} {q q' : Ptr → List Ptr} {fs : List Ptr}
    → families s' ≡ families s
    → Marked s.p_sem_add s'.p_sem_add q q'
    → q' null ≡ []
    → IsFamily s t q fs
    → IsFamily s' t q' fs
IsFamily-steady {s} {s'} {t} e m z g = record {
  forest =
      IsForest-frame s s' t g.forest g.distinct (λ y i. ap (λ f. f.1 y) e)
        (λ y i o. record {
          left = ap (λ f. f.2 y) e;
          right = ap (λ f. f.3 y) e;
          prnt = ap (λ f. f.0 y) e;
        });
  distinct = g.distinct;
  inside = g.inside;
  used = g.used;
  complete = g.complete;
  orphans = λ y i. ap (λ f. f.0 y) e ∙ g.orphans y i;
  no_null = z;
  unmarked = λ y i o. elim (m.mark y o) [ inl z ↦ z | inr (z, o') ↦ z ∙ g.unmarked y i o' ];
}

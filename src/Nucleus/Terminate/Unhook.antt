-- ===== src/Nucleus/Terminate/Unhook.antt =====
-- `sysTerminate` on one process that is on no queue: it leaves its parent, and its block is freed.
use pandos_phase.Prelude.{
  ◌<◌, ◌≡◌, ◌⊎◌, refl, ap, ◌∙◌, subst, sym, inl, inr, List, [], ◌∷◌, ◌∈◌, ◌∉◌, erase, arith, lt→ltb,
  ne→==, Bool-cases, false, ◌==◌, ne_of_has, not, if◌then◌else◌,
}
use pandos_phase.Types.{Ptr, null, maxproc}
use pandos_phase.Run.{
  ◌>>=◌, ◌>>◌, unless, access, Returns, returns, Returns-bind, Returns-put_back,
  Returns-put_back_last,
}
use pandos_phase.Pcb.{Pcbs, free_pcb}
use pandos_phase.Pcb.Free.{IsFree, Freed, free_pcb-cons}
use pandos_phase.Pcb.Siblings.{IsChildren-frame, IsChildren, SameLinks}
use pandos_phase.Pcb.Detach.{Detached, out_child-erase}
use pandos_phase.Kernel.{Kernel, current, set_current, on_pcb}
use pandos_phase.Processes.{leave_tree}
use pandos_phase.Nucleus.{IsNucleus, IsLoose}
use pandos_phase.Asl.Invariant.{IsAsl}
use pandos_phase.Pcb.Chain.{IsQueue}
use pandos_phase.Nucleus.Frame.{SameQueue, IsQueue-same, IsAsl-same, IsFree-same}

-- `p` is one of the children `xs` of `parent`.
pub record HasParent (s : Pcbs) (p parent : Ptr) (xs : List Ptr) : Type 0 where
  pub mine : s.p_prnt p ≡ parent
  pub siblings : IsChildren s parent xs
  pub among : p ∈ xs
  pub valid : parent < maxproc

-- Either `p` has no parent, or it is one of the children `xs` of `parent`.
abbrev pub IsHooked : Pcbs → (p parent : Ptr) → List Ptr → Type 0
IsHooked s p parent xs = ((s.p_prnt p ≡ null) × (xs ≡ [])) ⊎ HasParent s p parent xs

-- The tree without `p`: only links of the siblings and the first child of the parent are changed.
pub record Unhooked (s : Pcbs) (p parent : Ptr) (xs : List Ptr) (t : Pcbs) : Type 0 where
  pub children : p ∈ xs → IsChildren t parent (erase p xs)
  pub links : (y : Ptr) → y ∉ xs → SameLinks s t y
  pub child : (y : Ptr) → (y == parent) ≡ false → t.p_child y ≡ s.p_child y
  pub sem : t.p_sem_add ≡ s.p_sem_add

-- The block `p` is free, and whoever else ran goes on.
pub record Left (k : Kernel) (p parent : Ptr) (xs rq : List Ptr) (q : Ptr → List Ptr)
    (fs : List Ptr) (k' : Kernel) : Type 0 where
  pub state : IsNucleus k' rq q (p ∷ fs)
  pub tree : Unhooked k.asl.pcbs p parent xs k'.asl.pcbs
  pub fields : k' ≡ record k { asl = k'.asl; current_process = k'.current_process }
  pub runs : k'.current_process ≡ (if p == k.current_process then null else k.current_process)

-- A block that is on no queue becomes the first free one.
freed-IsNucleus :
    (k k' : Kernel) (p : Ptr) (rq : List Ptr) (q : Ptr → List Ptr) (fs : List Ptr)
    → IsNucleus k rq q fs
    → IsLoose p rq q fs
    → k'.asl ≡ record (k.asl) { pcbs = k'.asl.pcbs }
    → k'.ready_queue ≡ k.ready_queue
    → ((y : Ptr) → (y == p) ≡ false → SameQueue k.asl.pcbs k'.asl.pcbs y)
    → IsFree k'.asl.pcbs (p ∷ fs)
    → IsNucleus k' rq q (p ∷ fs)
freed-IsNucleus k k' p rq q fs n o asl_eq ready_eq same f = record {
  asl =
      subst (λ s. IsAsl s q) (sym asl_eq)
        (IsAsl-same k.asl k'.asl.pcbs q (λ b y m. same y (ne_of_has p y (q b) (o.not_blocked b) m))
          n.asl);
  ready =
      subst (λ tp. IsQueue k'.asl.pcbs tp rq) (sym ready_eq)
        (IsQueue-same k.asl.pcbs k'.asl.pcbs k.ready_queue rq
          (λ y m. same y (ne_of_has p y rq o.not_ready m)) n.ready);
  free = f;
  ready_blocked = n.ready_blocked;
  free_ready = λ y m. ground (arith, n.free_ready y, o.not_ready);
  free_blocked = λ y b m. ground (arith, n.free_blocked y b, o.not_blocked b);
}

-- The unhooked block `p` in `t`, and `u` with the block freed.
module _ (k : Kernel) (p parent : Ptr) (xs rq : List Ptr) (q : Ptr → List Ptr) (fs : List Ptr)
    (n : IsNucleus k rq q fs) (o : IsLoose p rq q fs) where
  -- What `outChild` may change.
  abbrev TreeLinks : Pcbs → Type 0
  TreeLinks t = t ≡ record (k.asl.pcbs) {
    p_child = t.p_child;
    p_prnt = t.p_prnt;
    p_sib_left = t.p_sib_left;
    p_sib_right = t.p_sib_right;
  }

  Freed-Unhooked :
      (t u : Pcbs)
      → Unhooked k.asl.pcbs p parent xs t
      → Freed t p fs u
      → Unhooked k.asl.pcbs p parent xs u
  Freed-Unhooked t u h f =
      let same : (y : Ptr) → SameLinks t u y = λ y. record {
        left = ap (λ (v : Pcbs). v.p_sib_left y) f.fields;
        right = ap (λ (v : Pcbs). v.p_sib_right y) f.fields;
        prnt = ap (λ (v : Pcbs). v.p_prnt y) f.fields;
      } in
      record {
        children = λ m.
            IsChildren-frame t u parent (erase p xs) (h.children m)
              (ap (λ (v : Pcbs). v.p_child parent) f.fields) (λ y i. same y);
        links = λ y m.
            let a = h.links y m in
            let b = same y in
            record { left = b.left ∙ a.left; right = b.right ∙ a.right; prnt = b.prnt ∙ a.prnt };
        child = λ y m. ap (λ (v : Pcbs). v.p_child y) f.fields ∙ h.child y m;
        sem = ap (λ (v : Pcbs). v.p_sem_add) f.fields ∙ h.sem;
      }

  Left-at :
      (t u : Pcbs) (c : Ptr)
      → TreeLinks t
      → Unhooked k.asl.pcbs p parent xs t
      → Freed t p fs u
      → c ≡ (if p == k.current_process then null else k.current_process)
      → Left k p parent xs rq q fs
          (record k { asl = record (k.asl) { pcbs = u }; current_process = c })
  Left-at t u c e h f r = record {
    state =
        freed-IsNucleus k (record k { asl = record (k.asl) { pcbs = u }; current_process = c }) p rq
          q fs n o refl refl
          (λ y m. record {
            next = f.others y m ∙ ap (λ (v : Pcbs). v.p_next y) e;
            prev = ap (λ (v : Pcbs). v.p_prev y) f.fields ∙ ap (λ (v : Pcbs). v.p_prev y) e;
            sem = ap (λ (v : Pcbs). v.p_sem_add y) f.fields ∙ ap (λ (v : Pcbs). v.p_sem_add y) e;
          })
          f.list;
    tree = Freed-Unhooked t u h f;
    fields = refl;
    runs = r;
  }

  -- What is left of `leave_tree` once the block is unhooked.
  leave_run :
      (t : Pcbs)
      → TreeLinks t
      → Unhooked k.asl.pcbs p parent xs t
      → Returns
          (λ _. Left k p parent xs rq q fs)
          ((do c ← current; unless (not (p == c)) (set_current null); on_pcb (free_pcb p))
            (record k { asl = record (k.asl) { pcbs = t } }))
  leave_run t e h =
      let free =
        free_pcb-cons t p fs
          (IsFree-same k.asl.pcbs t fs (λ y m. ap (λ (v : Pcbs). v.p_next y) e)
            (ap (λ (v : Pcbs). v.pcb_free_h) e) n.free)
          o.valid o.not_free in
      elim (Bool-cases (p == k.current_process)) [
        | inl z ↦ rw z (Returns-put_back_last _ free (λ r u f. Left-at t u null e h f (rw z refl)))
        | inr z ↦ rw z (
            Returns-put_back_last _ free (λ r u f. Left-at t u k.current_process e h f (rw z refl)))
      ]

  Detached-Unhooked :
      (t : Pcbs)
      → Detached k.asl.pcbs parent p xs (erase p xs) p t
      → Unhooked k.asl.pcbs p parent xs t
  Detached-Unhooked t d = record {
    children = λ m. d.children;
    links = d.rest.links;
    child = d.rest.child;
    sem = ap (λ (v : Pcbs). v.p_sem_add) d.rest.fields;
  }

  -- A process that is on no queue leaves its parent, if it has one, and its block is freed.
  pub leave_tree-Left :
      IsHooked k.asl.pcbs p parent xs → Returns (λ _. Left k p parent xs rq q fs) (leave_tree p k)
  unfolding leave_tree access
  leave_tree-Left (inl (e, none)) =
      rw (lt→ltb _ _ o.valid, e)
        (leave_run k.asl.pcbs refl (record {
          children = λ m. absurd (ground (arith, none));
          links = λ y m. record { left = refl; right = refl; prnt = refl };
          child = λ y m. refl;
          sem = refl;
        }))
  leave_tree-Left (inr h) =
      rw (lt→ltb _ _ o.valid, h.mine, ne→== parent null (omega (arith, h.valid)))
        (Returns-put_back _ _
          (Returns-bind {Q = λ _. Detached k.asl.pcbs parent p xs (erase p xs) p}
            (out_child-erase k.asl.pcbs parent p xs h.siblings h.valid h.among)
            (λ r t d.
              returns (subst (λ r. Detached k.asl.pcbs parent p xs (erase p xs) r t) d.result d)))
          (λ _ t d. leave_run t d.rest.fields (Detached-Unhooked t d)))

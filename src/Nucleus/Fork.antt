-- ===== src/Nucleus/Fork.antt =====
-- `sysCreateProcess`.
use pandos_phase.Prelude.{
  ℕ, ◌-◌, ◌<◌, ◌≡◌, refl, ap, subst, ◌∙◌, List, [], ◌∷◌, ◌++◌, ◌==◌, ◌∈◌, ◌∉◌, false, arith, ne→==,
  ne_of_has, lt→ltb, ==_refl, update,
}
use pandos_phase.Types.{Ptr, null, maxproc}
use pandos_phase.Words.{w32, add32}
use pandos_phase.Run.{ok, access, Returns, returns, Returns-bind, Returns-put_back}
use pandos_phase.Pcb.{Pcbs}
use pandos_phase.Pcb.Free.{IsFree, Allocated, alloc_pcb-cons, alloc_pcb-nil}
use pandos_phase.Pcb.Siblings.{IsChildren, IsChildren-frame}
use pandos_phase.Pcb.Forest.Sprout.{Joined}
use pandos_phase.Pcb.Tree.{Adopted, insert_child-cons}
use pandos_phase.Kernel.{Kernel}
use pandos_phase.Processes.{sys_create_process}
use pandos_phase.Nucleus.{IsNucleus, IsLoose}
use pandos_phase.Nucleus.Frame.{SameQueue, IsAsl-same, IsFree-same, IsQueue-same}
use pandos_phase.Nucleus.Ready.{Readied, insert_ready-IsNucleus}

-- The process `x` is a new child of the running one, and ready.
pub record Forked (k : Kernel) (statep supportp x : Ptr) (xs rq : List Ptr) (q : Ptr → List Ptr)
    (fs : List Ptr) (r : ℕ) (k' : Kernel) : Type 0 where
  pub result : r ≡ 0
  pub state : IsNucleus k' (rq ++ x ∷ []) q fs
  pub children : IsChildren k'.asl.pcbs k.current_process (x ∷ xs)
  pub starts : k'.asl.pcbs.p_s x ≡ k.state_at statep
  pub support : k'.asl.pcbs.p_support_struct x ≡ supportp
  pub no_time : k'.asl.pcbs.p_time x ≡ 0
  pub count : k'.process_count ≡ add32 k.process_count 1
  pub current_same : k'.current_process ≡ k.current_process
  pub word_same : k'.word ≡ k.word
  pub saved_same : k'.saved ≡ k.saved
  pub devices_same : k'.device_semaphores ≡ k.device_semaphores
  pub joined : Joined k.asl.pcbs k'.asl.pcbs k.current_process x xs
  pub unmarked : k'.asl.pcbs.p_sem_add x ≡ null
  pub marks_same : (y : Ptr) → (y == x) ≡ false → k'.asl.pcbs.p_sem_add y ≡ k.asl.pcbs.p_sem_add y

-- The new block once its fields are set; `s` is what `allocPcb` leaves.
abbrev set_up : Kernel → (statep supportp x : Ptr) → Pcbs → Pcbs
set_up k statep supportp x s = record s {
  p_s = update s.p_s x (k.state_at statep);
  p_support_struct = update s.p_support_struct x supportp;
  p_time = update s.p_time x 0;
  p_sem_add = update s.p_sem_add x null;
}

-- With no free block nothing is changed, and the result is -1.
pub sys_create_process-nil :
    (k : Kernel) (statep supportp : Ptr)
    → IsFree k.asl.pcbs []
    → sys_create_process statep supportp k ≡ ok (w32 - 1) k
unfolding sys_create_process
sys_create_process-nil k statep supportp f = rw (alloc_pcb-nil k.asl.pcbs f) refl

module _ (k : Kernel) (statep supportp x : Ptr) (xs rq : List Ptr) (q : Ptr → List Ptr)
    (fs : List Ptr) (n : IsNucleus k rq q (x ∷ fs)) (running : k.current_process < maxproc)
    (not_free : k.current_process ∉ x ∷ fs) (h : IsChildren k.asl.pcbs k.current_process xs)
    (no_child : x ∉ xs) (given : (statep == null) ≡ false) where
  other_blocks :
      (s t : Pcbs)
      → Allocated k.asl.pcbs x fs x s
      → Adopted (set_up k statep supportp x s) k.current_process x xs t
      → (y : Ptr) → (y == x) ≡ false
      → SameQueue k.asl.pcbs t y
  other_blocks s t al ad y m =
      let o = al.others y m in
      record {
        next = ap (λ (u : Pcbs). u.p_next y) ad.1.fields ∙ o.next;
        prev = ap (λ (u : Pcbs). u.p_prev y) ad.1.fields ∙ o.prev;
        sem = ap (λ (u : Pcbs). u.p_sem_add y) ad.1.fields ∙ (rw m refl ∙ o.sem_add);
      }

  Allocated-IsNucleus :
      (s t : Pcbs)
      → Allocated k.asl.pcbs x fs x s
      → Adopted (set_up k statep supportp x s) k.current_process x xs t
      → IsNucleus (record k { asl = record (k.asl) { pcbs = t } }) rq q fs
  Allocated-IsNucleus s t al ad =
      let i : x ∈ x ∷ fs = rw (==_refl x) refl in
      record {
        asl =
            IsAsl-same k.asl t q
              (λ b y m. other_blocks s t al ad y (ne_of_has x y (q b) (n.free_blocked x b i) m))
              n.asl;
        ready =
            IsQueue-same k.asl.pcbs t k.ready_queue rq
              (λ y m. other_blocks s t al ad y (ne_of_has x y rq (n.free_ready x i) m)) n.ready;
        free =
            IsFree-same s t fs (λ y m. ap (λ (u : Pcbs). u.p_next y) ad.1.fields)
              (ap (λ (u : Pcbs). u.pcb_free_h) ad.1.fields) al.rest;
        ready_blocked = n.ready_blocked;
        free_ready = λ y m. n.free_ready y (ground (arith, m));
        free_blocked = λ y b m. n.free_blocked y b (ground (arith, m));
      }

  x-IsLoose : IsLoose x rq q fs
  x-IsLoose =
      let i : x ∈ x ∷ fs = rw (==_refl x) refl in
      record {
        valid = n.free.inside.0;
        not_ready = n.free_ready x i;
        not_blocked = λ b. n.free_blocked x b i;
        not_free = n.free.distinct.0;
      }

  IsChildren-kept :
      (s : Pcbs)
      → Allocated k.asl.pcbs x fs x s
      → IsChildren (set_up k statep supportp x s) k.current_process xs
  IsChildren-kept s al =
      let c : (k.current_process == x) ≡ false = ground arith in
      IsChildren-frame k.asl.pcbs (set_up k statep supportp x s) k.current_process xs h
        (al.others k.current_process c).child
        (λ y m.
          let o = al.others y (ne_of_has x y xs no_child m) in
          record { left = o.sib_left; right = o.sib_right; prnt = o.prnt })

  IsChildren-same :
      (s t : Pcbs) (c : Ptr) (ys : List Ptr)
      → t ≡ record s { p_next = t.p_next; p_prev = t.p_prev; p_sem_add = t.p_sem_add }
      → IsChildren s c ys
      → IsChildren t c ys
  IsChildren-same s t c ys e g =
      IsChildren-frame s t c ys g (ap (λ (u : Pcbs). u.p_child c) e) (λ y m. record {
        left = ap (λ (u : Pcbs). u.p_sib_left y) e;
        right = ap (λ (u : Pcbs). u.p_sib_right y) e;
        prnt = ap (λ (u : Pcbs). u.p_prnt y) e;
      })

  Forked-at :
      (s t : Pcbs) (k1 : Kernel)
      → Allocated k.asl.pcbs x fs x s
      → Adopted (set_up k statep supportp x s) k.current_process x xs t
      → Readied (record k { asl = record (k.asl) { pcbs = t } }) x rq q fs k1
      → Forked k statep supportp x xs rq q fs 0
          (record k1 { process_count = add32 k1.process_count 1 })
  Forked-at s t k1 al ad w =
      let other : (x == k.current_process) ≡ false = ground arith in
      record {
        result = refl;
        state = record {
          asl = w.state.asl;
          ready = w.state.ready;
          free = w.state.free;
          ready_blocked = w.state.ready_blocked;
          free_ready = w.state.free_ready;
          free_blocked = w.state.free_blocked;
        };
        children = IsChildren-same t k1.asl.pcbs k.current_process (x ∷ xs) w.only.pcbs ad.0;
        starts =
            ap (λ (u : Pcbs). u.p_s x) w.only.pcbs
            ∙ (ap (λ (u : Pcbs). u.p_s x) ad.1.fields ∙ rw (==_refl x) refl);
        support =
            ap (λ (u : Pcbs). u.p_support_struct x) w.only.pcbs
            ∙ (ap (λ (u : Pcbs). u.p_support_struct x) ad.1.fields ∙ rw (==_refl x) refl);
        no_time =
            ap (λ (u : Pcbs). u.p_time x) w.only.pcbs
            ∙ (ap (λ (u : Pcbs). u.p_time x) ad.1.fields ∙ rw (==_refl x) refl);
        count = ap (λ (u : Kernel). add32 u.process_count 1) w.only.fields;
        current_same = ap (λ (u : Kernel). u.current_process) w.only.fields;
        word_same = w.word_same;
        saved_same = ap (λ (u : Kernel). u.saved) w.only.fields;
        devices_same = ap (λ (u : Kernel). u.device_semaphores) w.only.fields;
        joined = record {
          siblings = IsChildren-same t k1.asl.pcbs k.current_process (x ∷ xs) w.only.pcbs ad.0;
          alone =
              ap (λ (u : Pcbs). u.p_child x) w.only.pcbs ∙ (ad.1.child x other ∙ al.fresh.child);
          links = λ y o.
              let l = ad.1.links y o in
              let b = al.others y (ground (arith, o)) in
              record {
                left = ap (λ (u : Pcbs). u.p_sib_left y) w.only.pcbs ∙ (l.left ∙ b.sib_left);
                right = ap (λ (u : Pcbs). u.p_sib_right y) w.only.pcbs ∙ (l.right ∙ b.sib_right);
                prnt = ap (λ (u : Pcbs). u.p_prnt y) w.only.pcbs ∙ (l.prnt ∙ b.prnt);
              };
          child = λ y c o.
              ap (λ (u : Pcbs). u.p_child y) w.only.pcbs ∙ (ad.1.child y c ∙ (al.others y o).child);
        };
        unmarked =
            ap (λ f. f x) w.marks_same
            ∙ (ap (λ (u : Pcbs). u.p_sem_add x) ad.1.fields ∙ rw (==_refl x) refl);
        marks_same = λ y o. ap (λ f. f y) w.marks_same ∙ (other_blocks s t al ad y o).sem;
      }

  -- With a free block the new process of SYS1 starts in the given state, with the given support
  -- structure and no CPU time, as the youngest child of the running process and as the last ready
  -- one; one more process is counted, and the result is 0. The queues of the nucleus are well
  -- formed, the free block is neither the running process nor one of its children, and the given
  -- state is not NULL.
  pub sys_create_process-Forked :
      Returns (Forked k statep supportp x xs rq q fs) (sys_create_process statep supportp k)
  unfolding sys_create_process access
  sys_create_process-Forked =
      Returns-put_back _ _ (alloc_pcb-cons k.asl.pcbs x fs n.free) (λ r s al.
        let al' = subst (λ r. Allocated k.asl.pcbs x fs r s) al.result al in
        rw
          (
            al.result,
            ne→== x null (omega (arith, n.free.inside.0)),
            lt→ltb _ _ n.free.inside.0,
            given,
          )
          (Returns-put_back _ _
            (insert_child-cons (set_up k statep supportp x s) (k.current_process) x xs
              (IsChildren-kept s al') running n.free.inside.0 no_child)
            (λ u t ad.
              Returns-bind
                (insert_ready-IsNucleus (record k { asl = record (k.asl) { pcbs = t } }) x rq q fs
                  (Allocated-IsNucleus s t al' ad) x-IsLoose)
                (λ u' k1 w. returns (Forked-at s t k1 al' ad w)))))

-- ===== src/Nucleus/Create.antt =====
-- `createProcess`, which `main` calls for the first process.
use pandos_phase.Prelude.{
  ℕ, ◌≡◌, refl, ap, subst, ◌∙◌, List, [], ◌∷◌, arith, ne→==, lt→ltb, ==_refl, update,
}
use pandos_phase.Types
use pandos_phase.Types.{Ptr, null, maxproc, Processor, set_reg}
use pandos_phase.Words.{add32}
use pandos_phase.Run.{access, Returns, returns, Returns-bind, Returns-put_back}
use pandos_phase.Pcb.{Pcbs}
use pandos_phase.Pcb.Free.{IsFree, Allocated, alloc_pcb-cons}
use pandos_phase.Asl.Invariant.{IsAsl}
use pandos_phase.Kernel.{Kernel}
use pandos_phase.Initial.{create_process, initial_status, ramtop}
use pandos_phase.Nucleus.{IsNucleus, IsLoose}
use pandos_phase.Nucleus.Frame.{IsAsl-same, IsFree-same}
use pandos_phase.Nucleus.Ready.{insert_ready-IsNucleus}

-- Nobody is blocked.
abbrev pub no_queues : Ptr → List Ptr
no_queues a = []

-- The state in which the first process starts.
abbrev first_state : (test top : ℕ) → Processor → Processor
first_state test top st =
    set_reg Types.s_t9 test
      (record (set_reg Types.s_sp top (record st { s_status = initial_status })) { s_pc = test })

-- `createProcess` has made the process `p` the only one that is ready.
pub record Created (k : Kernel) (test p : ℕ) (fs : List Ptr) (k' : Kernel) : Type 0 where
  pub state : IsNucleus k' (p ∷ []) no_queues fs
  pub status : (k'.asl.pcbs.p_s p).s_status ≡ initial_status
  pub pc : (k'.asl.pcbs.p_s p).s_pc ≡ test
  pub t9 : (k'.asl.pcbs.p_s p).s_reg Types.s_t9 ≡ test
  pub sp :
      (k'.asl.pcbs.p_s p).s_reg Types.s_sp
      ≡ add32 (k.word Types.ram_base_addr) (k.word Types.ram_base_size)
  pub orphan : k'.asl.pcbs.p_prnt p ≡ null
  pub childless : k'.asl.pcbs.p_child p ≡ null
  pub unmarked : k'.asl.pcbs.p_sem_add p ≡ null
  pub no_time : k'.asl.pcbs.p_time p ≡ 0
  pub no_support : k'.asl.pcbs.p_support_struct p ≡ null
  pub count : k'.process_count ≡ add32 k.process_count 1
  pub word_same : k'.word ≡ k.word
  pub soft_same : k'.soft_block_count ≡ k.soft_block_count
  pub pass_up_same : k'.pass_up ≡ k.pass_up
  pub devices_same : k'.device_semaphores ≡ k.device_semaphores

-- The state in which `createProcess` calls `insertProcQ`; `s` is what `allocPcb` leaves.
abbrev filled : Kernel → (test p : ℕ) → Pcbs → Kernel
filled k test p s =
    let top = add32 (k.word Types.ram_base_addr) (k.word Types.ram_base_size) in
    record k {
      asl = record (k.asl) {
        pcbs = record s {
          p_s = update s.p_s p (first_state test top (s.p_s p));
          p_prnt = update s.p_prnt p null;
          p_child = update s.p_child p null;
          p_sib_left = update s.p_sib_left p null;
          p_sib_right = update s.p_sib_right p null;
          p_time = update s.p_time p 0;
          p_sem_add = update s.p_sem_add p null;
          p_support_struct = update s.p_support_struct p null;
        };
      };
    }

module _ (k : Kernel) (test p : ℕ) (fs : List Ptr) (a : IsAsl k.asl no_queues)
    (f : IsFree k.asl.pcbs (p ∷ fs)) (r : k.ready_queue ≡ null) where
  filled-IsNucleus :
      (s : Pcbs) → Allocated k.asl.pcbs p fs p s → IsNucleus (filled k test p s) [] no_queues fs
  filled-IsNucleus s al = record {
    asl =
        IsAsl-same k.asl (filled k test p s).asl.pcbs no_queues (λ b y m. absurd (ground arith)) a;
    ready = record { tail = r; links = tt; distinct = tt; inside = tt };
    free = IsFree-same s (filled k test p s).asl.pcbs fs (λ y m. refl) refl al.rest;
    ready_blocked = λ y b m. refl;
    free_ready = λ y m. refl;
    free_blocked = λ y b m. refl;
  }

  p-IsLoose : IsLoose p [] no_queues fs
  p-IsLoose = record {
    valid = f.inside.0;
    not_ready = refl;
    not_blocked = λ b. refl;
    not_free = f.distinct.0;
  }

  -- `createProcess` makes a block of the free list the only ready process: it starts at `test`, with
  -- its stack at the top of the memory, with interrupts and the local timer on in kernel mode, and
  -- has no parent, no children, no CPU time and no support structure; one more process is counted.
  pub create_process-Created : Returns (λ _. Created k test p fs) (create_process test k)
  unfolding create_process ramtop access
  create_process-Created = Returns-put_back _ _ (alloc_pcb-cons k.asl.pcbs p fs f) (λ x s al.
      rw (al.result, ne→== p null (omega (arith, f.inside.0)), lt→ltb _ _ f.inside.0)
        (Returns-bind
          (insert_ready-IsNucleus (filled k test p s) p [] no_queues fs
            (filled-IsNucleus s (subst (λ x. Allocated k.asl.pcbs p fs x s) al.result al))
            p-IsLoose)
          (λ u k1 w.
            let st : k1.asl.pcbs.p_s p
                ≡ first_state test (add32 (k.word Types.ram_base_addr) (k.word Types.ram_base_size))
                    (s.p_s p) =
              ap (λ (x : Pcbs). x.p_s p) w.only.pcbs ∙ rw (==_refl p) refl in
            returns (record {
              state = record {
                asl = w.state.asl;
                ready = w.state.ready;
                free = w.state.free;
                ready_blocked = w.state.ready_blocked;
                free_ready = w.state.free_ready;
                free_blocked = w.state.free_blocked;
              };
              status = ap (λ (x : Processor). x.s_status) st;
              pc = ap (λ (x : Processor). x.s_pc) st;
              t9 = ap (λ (x : Processor). x.s_reg Types.s_t9) st;
              sp = ap (λ (x : Processor). x.s_reg Types.s_sp) st;
              orphan = ap (λ (x : Pcbs). x.p_prnt p) w.only.pcbs ∙ rw (==_refl p) refl;
              childless = ap (λ (x : Pcbs). x.p_child p) w.only.pcbs ∙ rw (==_refl p) refl;
              unmarked = ap (λ f. f p) w.marks_same ∙ rw (==_refl p) refl;
              no_time = ap (λ (x : Pcbs). x.p_time p) w.only.pcbs ∙ rw (==_refl p) refl;
              no_support =
                  ap (λ (x : Pcbs). x.p_support_struct p) w.only.pcbs ∙ rw (==_refl p) refl;
              count = ap (λ (x : Kernel). add32 x.process_count 1) w.only.fields;
              word_same = w.word_same;
              soft_same = ap (λ (x : Kernel). x.soft_block_count) w.only.fields;
              pass_up_same = ap (λ (x : Kernel). x.pass_up) w.only.fields;
              devices_same = ap (λ (x : Kernel). x.device_semaphores) w.only.fields;
            }))))

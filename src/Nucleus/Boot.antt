-- ===== src/Nucleus/Boot.antt =====
-- `main`: the nucleus from any state of the memory to the start of the first process.
use pandos_phase.Prelude.{
  ℕ, zero, suc, ◌+◌, ◌-◌, ◌*◌, ◌%◌, ◌≤◌, ◌<◌, ◌≡◌, refl, sym, ap, subst, ◌∙◌, inl, inr, [], ◌==◌,
  false, arith, Bool-cases, ==→eq, ==_refl, update, lt→ltb, ltb, true,
}
use pandos_phase.Types
use pandos_phase.Types.{Ptr, null, maxproc, Processor}
use pandos_phase.Words.{w32, add32, mul32}
use pandos_phase.Run.{
  access, Exit, ldst, Returns, returns, Returns-mono, Exits, Exits-after, Exits-put_back,
  Exits-stop, Exits-mono,
}
use pandos_phase.Pcb.Free.{IsFree, count_up, init_pcbs-IsFree}
use pandos_phase.Asl.{Asl}
use pandos_phase.Asl.Invariant.{IsAsl}
use pandos_phase.Asl.Init.{init_asl-IsAsl}
use pandos_phase.Kernel.{Kernel, ldit, PassUpVector}
use pandos_phase.Scheduler.{scheduler}
use pandos_phase.Initial.{main, clear_semaphores, initial_status}
use pandos_phase.Nucleus.{IsNucleus}
use pandos_phase.Nucleus.Create.{Created, create_process-Created, no_queues}
use pandos_phase.Nucleus.Dispatch.{scheduler-cons}

-- The address of the device semaphore i.
abbrev pub semaphore_at : Kernel → ℕ → ℕ
semaphore_at k i = (k.device_semaphores + 4 * i) % w32

-- What the loop over the device semaphores leaves.
record Cleared (k : Kernel) (n i : ℕ) (k' : Kernel) : Type 0 where
  fields : k' ≡ record k { word = k'.word }
  zeros : (j : ℕ) → i ≤ j → j < i + n → k'.word (semaphore_at k j) ≡ 0
  stays : (a : ℕ) → k.word a ≡ 0 → k'.word a ≡ 0

clear_semaphores-Cleared :
    (n i : ℕ) (k : Kernel)
    → i + n ≤ Types.num_devices + 1
    → Returns (λ _. Cleared k n i) (clear_semaphores n i k)
unfolding clear_semaphores access
clear_semaphores-Cleared zero i k b =
    returns (record { fields = refl; zeros = λ j h l. absurd (omega arith); stays = λ a e. e })
clear_semaphores-Cleared (suc n) i k b =
    let l : ltb i (Types.num_devices + 1) ≡ true =
      lt→ltb i (Types.num_devices + 1) (omega (arith, b)) in
    rw l (
      Returns-mono
        (clear_semaphores-Cleared n (i + 1) (record k { word = update k.word (semaphore_at k i) 0 })
          (omega (arith, b)))
        (λ u k' c. record {
          fields = c.fields;
          zeros = λ j h l. elim (Bool-cases (j == i)) [
            | inl e ↦ c.stays (semaphore_at k j) (rw (==→eq j i e, ==_refl (semaphore_at k i)) refl)
            | inr m ↦ c.zeros j (ground arith) (omega arith)
          ];
          stays = λ a e. c.stays a (ground (arith, e));
        }))

-- What `main` leaves to the machine: the first process runs, in the block 0.
pub record Booted (k : Kernel) (refill handler test : ℕ) (e : Exit) (k' : Kernel) : Type 0 where
  pub out : e ≡ ldst (k'.asl.pcbs.p_s 0)
  pub pc : (k'.asl.pcbs.p_s 0).s_pc ≡ test
  pub status : (k'.asl.pcbs.p_s 0).s_status ≡ initial_status
  pub state : IsNucleus k' [] no_queues (count_up (maxproc - 1) 1)
  pub runs : k'.current_process ≡ 0
  pub orphan : k'.asl.pcbs.p_prnt 0 ≡ null
  pub childless : k'.asl.pcbs.p_child 0 ≡ null
  pub unmarked : k'.asl.pcbs.p_sem_add 0 ≡ null
  pub count : k'.process_count ≡ 1
  pub soft : k'.soft_block_count ≡ 0
  pub devices : k'.device_semaphores ≡ k.device_semaphores
  pub handlers : (k'.pass_up.exception_handler ≡ handler) × (k'.pass_up.tlb_refll_handler ≡ refill)
  pub stack_ptrs :
      (k'.pass_up.exception_stack_ptr ≡ 0x20001000) × (k'.pass_up.tlb_refll_stack_ptr ≡ 0x20001000)
  pub semaphores : (j : ℕ) → j < Types.num_devices + 1 → k'.word (semaphore_at k j) ≡ 0

-- The state in which the loop over the device semaphores starts.
abbrev cold : Kernel → (refill handler : ℕ) → Asl → Kernel
cold k refill handler s = record k {
  asl = s;
  process_count = 0;
  soft_block_count = 0;
  ready_queue = null;
  current_process = null;
  pass_up = record {
    tlb_refll_handler = refill;
    tlb_refll_stack_ptr = 0x20001000;
    exception_handler = handler;
    exception_stack_ptr = 0x20001000;
  };
}

abbrev ticking : Kernel → Kernel
ticking k = record k {
  word =
      update k.word Types.interval_tmr (mul32 Types.clock_interval (k.word Types.timescale_addr));
}

module _ (k : Kernel) (refill handler test : ℕ)
    (apart : (j : ℕ)
      → j < Types.num_devices + 1
      → (semaphore_at k j == Types.interval_tmr) ≡ false) where
  dispatched-Booted :
      (s : Asl) (k1 k2 : Kernel)
      → Cleared (cold k refill handler s) (Types.num_devices + 1) 0 k1
      → Created (ticking k1) test 0 (count_up (maxproc - 1) 1) k2
      → Exits (Booted k refill handler test) (scheduler k2)
  dispatched-Booted s k1 k2 c w =
      let f = c.fields in
      Exits-mono (scheduler-cons k2 0 [] no_queues (count_up (maxproc - 1) 1) w.state) (λ e k' d.
        let st = ap (λ g. g 0) d.state_same in
        record {
          out = d.loaded ∙ ap ldst (sym st);
          pc = ap (λ (x : Processor). x.s_pc) st ∙ w.pc;
          status = ap (λ (x : Processor). x.s_status) st ∙ w.status;
          state = d.state;
          runs = d.runs;
          orphan = ap (λ f. f.0 0) d.steady.family ∙ w.orphan;
          childless = ap (λ f. f.1 0) d.steady.family ∙ w.childless;
          unmarked = ap (λ f. f 0) d.marks_same ∙ w.unmarked;
          count = d.steady.count ∙ (w.count ∙ ap (λ (x : Kernel). add32 x.process_count 1) f);
          soft = d.soft_same ∙ (w.soft_same ∙ ap (λ (x : Kernel). x.soft_block_count) f);
          devices =
              d.steady.devices ∙ (w.devices_same ∙ ap (λ (x : Kernel). x.device_semaphores) f);
          handlers =
              let p = d.pass_up_same ∙ (w.pass_up_same ∙ ap (λ (x : Kernel). x.pass_up) f) in
              (
                ap (λ (v : PassUpVector). v.exception_handler) p,
                ap (λ (v : PassUpVector). v.tlb_refll_handler) p,
              );
          stack_ptrs =
              let p = d.pass_up_same ∙ (w.pass_up_same ∙ ap (λ (x : Kernel). x.pass_up) f) in
              (
                ap (λ (v : PassUpVector). v.exception_stack_ptr) p,
                ap (λ (v : PassUpVector). v.tlb_refll_stack_ptr) p,
              );
          semaphores = λ j h.
              ap (λ m. m (semaphore_at k j)) (d.word_same ∙ w.word_same)
              ∙ rw (apart j h) (c.zeros j (omega arith) h);
        })

  -- From any memory main sets up all lists, zeroes the semaphores of the devices and of the pseudo-
  -- clock, fills the four fields of the pass up vector, the two handlers and their stack pointers,
  -- 0x20001000 both, and starts the first process, the only one, at test; it never returns. The
  -- semaphores are supposed to lie elsewhere than the interval timer.
  pub main-Booted : Exits (Booted k refill handler test) (main refill handler test k)
  unfolding main ldit
  main-Booted = Exits-put_back _ _ (init_pcbs-IsFree k.asl.pcbs) (λ u t (fr, te).
      Exits-put_back _ _ (init_asl-IsAsl (record (k.asl) { pcbs = t })) (λ u' s (a, pe).
        Exits-after _
          (clear_semaphores-Cleared (Types.num_devices + 1) 0 (cold k refill handler s)
            (omega arith))
          (λ u'' k1 c.
            Exits-after _
              (create_process-Created (ticking k1) test 0 (count_up (maxproc - 1) 1)
                (subst (λ (x : Kernel). IsAsl x.asl no_queues) (sym c.fields) a)
                (subst (λ (x : Kernel). IsFree x.asl.pcbs (count_up maxproc 0)) (sym c.fields)
                  (subst (λ x. IsFree x (count_up maxproc 0)) (sym pe) fr))
                (ap (λ (x : Kernel). x.ready_queue) c.fields))
              (λ v k2 w. Exits-stop _ (dispatched-Booted s k1 k2 c w)))))

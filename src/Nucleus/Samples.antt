-- ===== src/Nucleus/Samples.antt =====
-- Runs of the nucleus on a small state.
pub mod Events
pub mod Family
pub mod Started
pub mod Turns
use pandos_phase.Prelude.{
  ◌≤◌, inl, ℕ, ◌+◌, ◌-◌, ◌<◌, ◌≡◌, ◌⊎◌, refl, inr, [], ◌∷◌, ◌==◌, false, arith, if◌then◌else◌,
  update,
}
use pandos_phase.Types
use pandos_phase.Types.{Ptr, null, maxproc, Processor, Support}
use pandos_phase.Words.{w32, sub32}
use pandos_phase.Run.{ldst, Exits, Returns}
use pandos_phase.Pcb.{Pcbs}
use pandos_phase.Pcb.Samples.{no_processor}
use pandos_phase.Asl.Samples.{busy, busy-IsAsl, waiting_on, blocked_pcbs}
use pandos_phase.Kernel.{Kernel}
use pandos_phase.Scheduler.{scheduler}
use pandos_phase.Processes.{sys_create_process, sys_terminate}
use pandos_phase.Semaphores.{sys_verhogen, sys_passeren, wait_io_index}
use pandos_phase.Interrupts.{
  handle_plt_interrupt, handle_interval_timer_interrupt, highest_priority_interrupt,
  highest_priority_device, device_index, device_verhogen, acknowledge, int_dev_bitmap_addr,
}
use pandos_phase.Interrupts.Priority.{
  IsFirst, pending, highest_priority_interrupt-IsFirst, IsLowestBit,
  highest_priority_device-IsLowestBit,
}
use pandos_phase.Interrupts.Index.{
  IsDevice, device_index-wait_io_index, wait_io_index-injective, acknowledge-device_index,
}
use pandos_phase.Exceptions.{exception_handler, syscall_handler}
use pandos_phase.Exceptions.PassUp.{HasSupport, PassedUp, behind_call, syscall_handler-PassedUp}
use pandos_phase.Memcopy.{memcopy, memcopy-AreDisjoint}
use pandos_phase.Nucleus.Calls.{called, exception_handler-Passed, exception_handler-Signalled}
use pandos_phase.Initial.{main}
use pandos_phase.Nucleus.{IsNucleus, IsLoose}
use pandos_phase.Nucleus.Frame.{IsAsl-same}
use pandos_phase.Nucleus.Dispatch.{Scheduled, scheduler-Scheduled}
use pandos_phase.Nucleus.Verhogen.{Counts, Signalled, sys_verhogen-Counts}
use pandos_phase.Nucleus.Passeren.{Passed, timed, sys_passeren-Passed, sys_passeren-Counts}
use pandos_phase.Nucleus.Clock.{Ticked, handle_interval_timer_interrupt-Ticked}
use pandos_phase.Nucleus.Slice.{Preempted, handle_plt_interrupt-Preempted}
use pandos_phase.Nucleus.Fork.{Forked, sys_create_process-Forked}
use pandos_phase.Nucleus.Childless.{Ended, sys_terminate-Ended}
use pandos_phase.Nucleus.Device.{Served, device_verhogen-Served}
use pandos_phase.Nucleus.Boot.{Booted, main-Booted}

-- Besides the blocked processes 4, 7 and 2, the processes 5 and 6 are ready, 8, a child of 5, runs,
-- and the blocks 9 and 10 are free.
abbrev pcbs : Pcbs
pcbs = record blocked_pcbs {
  p_next =
      λ p. if p == 5 then 6 else if p == 6 then 5 else if p == 9 then 10 else blocked_pcbs.p_next p;
  p_prev = λ p. if p == 5 then 6 else if p == 6 then 5 else blocked_pcbs.p_prev p;
  p_child = λ p. if p == 5 then 8 else null;
  p_prnt = λ p. if p == 8 then 5 else null;
  pcb_free_h = 9;
}

abbrev no_support : Support
no_support = record {
  sup_asid = 0;
  sup_except_state = λ _. no_processor;
  sup_except_context = λ _. record { c_stack_ptr = 0; c_status = 0; c_pc = 0 };
}

abbrev kernel : Kernel
kernel = record {
  asl = record busy { pcbs = pcbs };
  process_count = 6;
  soft_block_count = 1;
  ready_queue = 6;
  current_process = 8;
  device_semaphores = 8;
  word = λ a.
      if a == 100
      then w32 - 2
      else if a == 200
      then w32 - 1
      else if a == 300
      then 3
      else if a == Types.timescale_addr
      then 1
      else if a == 0x10000040
      then 12
      else if a == 0x10000254
      then 5
      else 0;
  state_at = λ _. no_processor;
  support_at = λ _. no_support;
  saved = no_processor;
  pass_up = record {
    tlb_refll_handler = 0;
    tlb_refll_stack_ptr = 0;
    exception_handler = 0;
    exception_stack_ptr = 0;
  };
  timer = 0;
  status = 0;
}

kernel-IsNucleus : IsNucleus kernel (5 ∷ 6 ∷ []) waiting_on (9 ∷ 10 ∷ [])
kernel-IsNucleus = record {
  asl =
      IsAsl-same busy pcbs waiting_on
        (λ b y m. record { next = ground arith; prev = ground arith; sem = refl }) busy-IsAsl;
  ready = record {
    tail = refl;
    links = (refl, refl, (refl, refl, tt));
    distinct = (refl, (refl, tt));
    inside = omega arith;
  };
  free = record {
    path = (refl, (refl, refl));
    distinct = (refl, (refl, tt));
    inside = omega arith;
  };
  ready_blocked = λ p b m. ground arith;
  free_ready = λ p m. ground arith;
  free_blocked = λ p b m. ground arith;
}

running-IsLoose : IsLoose 8 (5 ∷ 6 ∷ []) waiting_on (9 ∷ 10 ∷ [])
running-IsLoose = record {
  valid = omega arith;
  not_ready = refl;
  not_blocked = λ b. ground arith;
  not_free = refl;
}

scheduler-Scheduled_example :
    Exits (Scheduled kernel (5 ∷ 6 ∷ []) waiting_on (9 ∷ 10 ∷ [])) (scheduler kernel)
scheduler-Scheduled_example =
    scheduler-Scheduled kernel (5 ∷ 6 ∷ []) waiting_on (9 ∷ 10 ∷ []) kernel-IsNucleus

sys_verhogen-Counts_example :
    Returns
      (λ _. Signalled kernel 100 (5 ∷ 6 ∷ []) waiting_on (9 ∷ 10 ∷ []))
      (sys_verhogen 100 kernel)
sys_verhogen-Counts_example =
    sys_verhogen-Counts kernel 100 (5 ∷ 6 ∷ []) waiting_on (9 ∷ 10 ∷ []) kernel-IsNucleus refl refl
      (omega arith)

sys_passeren-Passed_example :
    Exits (Passed kernel 100 8 (5 ∷ 6 ∷ []) waiting_on (9 ∷ 10 ∷ [])) (sys_passeren 100 kernel)
sys_passeren-Passed_example =
    sys_passeren-Passed kernel 100 (5 ∷ 6 ∷ []) waiting_on (9 ∷ 10 ∷ []) kernel-IsNucleus
      running-IsLoose refl refl refl refl

sys_passeren-Counts_example :
    Returns
      (λ _ k'.
        (k' ≡ record (timed kernel 8) { word = update kernel.word 300 (sub32 (kernel.word 300) 1) })
        × IsNucleus k' (5 ∷ 6 ∷ []) waiting_on (9 ∷ 10 ∷ [])
        × Counts (k'.word 300) (waiting_on 300))
      (sys_passeren 300 kernel)
sys_passeren-Counts_example =
    sys_passeren-Counts kernel 300 (5 ∷ 6 ∷ []) waiting_on (9 ∷ 10 ∷ []) kernel-IsNucleus
      running-IsLoose refl refl (omega arith) refl

handle_interval_timer_interrupt-Ticked_example :
    Exits
      (Ticked kernel (5 ∷ 6 ∷ []) waiting_on (9 ∷ 10 ∷ []))
      (handle_interval_timer_interrupt kernel)
handle_interval_timer_interrupt-Ticked_example =
    handle_interval_timer_interrupt-Ticked kernel (5 ∷ 6 ∷ []) waiting_on (9 ∷ 10 ∷ [])
      kernel-IsNucleus refl

handle_plt_interrupt-Preempted_example :
    Exits (Preempted kernel 8 (5 ∷ 6 ∷ []) waiting_on (9 ∷ 10 ∷ [])) (handle_plt_interrupt kernel)
handle_plt_interrupt-Preempted_example =
    handle_plt_interrupt-Preempted kernel (5 ∷ 6 ∷ []) waiting_on (9 ∷ 10 ∷ []) kernel-IsNucleus
      running-IsLoose refl

sys_create_process-Forked_example :
    Returns
      (Forked kernel 500 null 9 [] (5 ∷ 6 ∷ []) waiting_on (10 ∷ []))
      (sys_create_process 500 null kernel)
sys_create_process-Forked_example =
    sys_create_process-Forked kernel 500 null 9 [] (5 ∷ 6 ∷ []) waiting_on (10 ∷ [])
      kernel-IsNucleus (omega arith) refl (record { chain = refl; distinct = tt; inside = tt }) refl
      refl

main-Booted_example : Exits (Booted kernel 1000 2000 3000) (main 1000 2000 3000 kernel)
main-Booted_example = main-Booted kernel 1000 2000 3000 (λ j h. ground arith)

highest_priority_interrupt-IsFirst_example : IsFirst (pending 0x1400) 1 7 2
unfolding highest_priority_interrupt
highest_priority_interrupt-IsFirst_example = highest_priority_interrupt-IsFirst 0x1400

highest_priority_device-IsLowestBit_example :
    Returns
      (λ r k'.
        (k' ≡ kernel)
        × (((kernel.word (int_dev_bitmap_addr 3) ≡ 0) × (r ≡ w32 - 1))
            ⊎ ((r < 32) × IsLowestBit (kernel.word (int_dev_bitmap_addr 3)) r)))
      (highest_priority_device 3 kernel)
unfolding int_dev_bitmap_addr
highest_priority_device-IsLowestBit_example =
    highest_priority_device-IsLowestBit kernel 3 (omega arith)

abbrev terminal : ℕ
terminal = 2

abbrev reading : ℕ
reading = 1

wait_io_index-injective_example :
    ((Types.termint ≡ Types.termint) × (terminal ≡ terminal) × (reading ≡ reading))
    × (wait_io_index Types.termint terminal reading < Types.num_devices)
wait_io_index-injective_example =
    let d : IsDevice Types.termint terminal = record {
      first = omega arith;
      last = omega arith;
      near = omega arith;
    } in
    wait_io_index-injective Types.termint terminal reading Types.termint terminal reading d d
      (omega arith) (omega arith) (λ n. absurd (n refl)) (λ n. absurd (n refl)) refl

acknowledge-device_index_example :
    Returns
      (λ status k'.
        (k' ≡ record kernel {
          word = update kernel.word (if false then 0x10000254 + 12 else 0x10000254 + 4) Types.ack;
        })
        × (status ≡ (if false then kernel.word (0x10000254 + 8) else kernel.word 0x10000254))
        × (device_index Types.termint 0 status ≡ wait_io_index Types.termint 0 0))
      (acknowledge Types.termint 0x10000254 kernel)
acknowledge-device_index_example =
    acknowledge-device_index kernel 0 0x10000254 (omega arith) (inr refl)

-- The process that runs makes the system call `n` on the semaphore at 100.
abbrev calling : ℕ → Kernel
calling n = record kernel {
  saved = record no_processor {
    s_cause = 32;
    s_reg = λ r. if r == Types.s_a0 then n else if r == Types.s_a1 then 100 else 0;
  };
}

calling-IsNucleus : (n : ℕ) → IsNucleus (calling n) (5 ∷ 6 ∷ []) waiting_on (9 ∷ 10 ∷ [])
calling-IsNucleus n =
    let w = kernel-IsNucleus in
    record {
      asl = w.asl;
      ready = w.ready;
      free = w.free;
      ready_blocked = w.ready_blocked;
      free_ready = w.free_ready;
      free_blocked = w.free_blocked;
    }

-- The process that runs has a support structure, and has caused the exception 1 in user mode.
abbrev supported : Kernel
supported = record kernel {
  asl = record (kernel.asl) { pcbs = record pcbs { p_support_struct = λ _. 700 } };
  saved = record no_processor { s_cause = 4; s_status = 8 };
}

supported-HasSupport : HasSupport supported
supported-HasSupport = record { valid = omega arith; some_support = refl }

syscall_handler-PassedUp_example :
    Exits
      (PassedUp supported Types.generalexcept (behind_call supported.saved))
      (syscall_handler supported)
syscall_handler-PassedUp_example = syscall_handler-PassedUp supported supported-HasSupport refl

memcopy-AreDisjoint_example :
    ((i : ℕ) → i < 3 → memcopy 3 10 20 (λ a. a) (10 + i) ≡ 20 + i)
    × ((a : ℕ) → (a < 10) ⊎ (10 + 3 ≤ a) → memcopy 3 10 20 (λ a. a) a ≡ a)
memcopy-AreDisjoint_example = memcopy-AreDisjoint 3 10 20 (λ a. a) (inl (omega arith))

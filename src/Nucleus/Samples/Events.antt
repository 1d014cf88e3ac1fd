-- ===== src/Nucleus/Samples/Events.antt =====
-- System calls and interrupts on the small state.
use pandos_phase.Prelude.{
  ◌+◌, ◌≡◌, refl, List, [], ◌∷◌, ◌==◌, false, true, arith, if◌then◌else◌, update,
}
use pandos_phase.Types
use pandos_phase.Types.{Ptr, maxint}
use pandos_phase.Words.{is_le_zero, add32}
use pandos_phase.Run.{ldst, Exits}
use pandos_phase.Pcb.Samples.{no_processor}
use pandos_phase.Asl.Samples.{waiting_on}
use pandos_phase.Kernel.{Kernel}
use pandos_phase.Semaphores.{wait_io_index}
use pandos_phase.Exceptions.{exception_handler, exception_code}
use pandos_phase.Nucleus.Touch.{IsNucleus-keep}
use pandos_phase.Nucleus.Calls.{called}
use pandos_phase.Nucleus.Passeren.{Passed}
use pandos_phase.Nucleus.Hardware.{answering}
use pandos_phase.Nucleus.Waits.{
  io_semaphore, Answered, softened, clocked, exception_handler-clock-Passed,
  exception_handler-io-Passed,
}
use pandos_phase.Nucleus.Samples.{
  kernel, kernel-IsNucleus, running-IsLoose, calling, calling-IsNucleus,
}

exception_handler-clock-Passed_example :
    Exits
      (λ e k'.
        Passed (clocked (calling 7)) 200 8 (5 ∷ 6 ∷ []) waiting_on (9 ∷ 10 ∷ []) e k'
        × (k'.soft_block_count ≡ 2))
      (exception_handler (calling 7))
unfolding exception_code
exception_handler-clock-Passed_example =
    exception_handler-clock-Passed (calling 7) (5 ∷ 6 ∷ []) waiting_on (9 ∷ 10 ∷ [])
      (calling-IsNucleus 7) running-IsLoose refl
      (record { code = refl; number = refl; kernel_mode = refl }) refl refl refl

-- SYS5 on the disk 0.
abbrev disk_call : Kernel
disk_call = record kernel {
  saved = record no_processor {
    s_cause = 32;
    s_reg = λ r. if r == Types.s_a0 then 5 else if r == Types.s_a1 then 3 else 0;
  };
}

exception_handler-io-Passed_example :
    (is_le_zero 0 ≡ true
      → Exits
          (λ e k'.
            Passed
              (softened (called disk_call))
              (io_semaphore disk_call)
              8
              (5 ∷ 6 ∷ [])
              waiting_on
              (9 ∷ 10 ∷ [])
              e
              k'
            × (k'.soft_block_count ≡ 2))
          (exception_handler disk_call))
    × (is_le_zero 0 ≡ false
        → Exits
            (λ e k'.
              (e ≡ ldst k'.saved) × Answered disk_call (5 ∷ 6 ∷ []) waiting_on (9 ∷ 10 ∷ []) k')
            (exception_handler disk_call))
unfolding exception_code wait_io_index
exception_handler-io-Passed_example =
    exception_handler-io-Passed disk_call (5 ∷ 6 ∷ []) waiting_on (9 ∷ 10 ∷ [])
      (IsNucleus-keep kernel disk_call (5 ∷ 6 ∷ []) waiting_on (9 ∷ 10 ∷ []) refl refl
        kernel-IsNucleus)
      running-IsLoose refl (record { code = refl; number = refl; kernel_mode = refl }) refl
      (omega arith) (omega arith)

-- The device 7 of the line 5, for which the processes 4 and 7 wait, has the status 9.
abbrev interrupted : Kernel
interrupted = record kernel {
  word = λ a.
      if a == 0x10000048 then 0x80 else if a == 0x10000054 + 0x100 + 0x70 then 9 else kernel.word a;
  saved = record no_processor { s_cause = 0x2000 };
}

abbrev fourth_and_seventh : List Ptr
fourth_and_seventh = 4 ∷ 7 ∷ []

abbrev disk_counted : Kernel
disk_counted = record (answering interrupted 5 7) {
  word = update (answering interrupted 5 7).word 100 (add32 (interrupted.word 100) 1);
}

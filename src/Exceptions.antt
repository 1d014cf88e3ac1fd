-- ===== src/Exceptions.antt =====
-- phase2/exceptions.c: the exception handlers, and pass up or die. `saved` is the state at
-- BIOSDATAPAGE, which is what every `savedState` points to.
pub mod PassUp
use Prim.Native.Nat.{bit_and}
use pandos_phase.Prelude.{ℕ, ◌/◌, Bool, not, ◌&&◌, leb, ◌==◌, if◌then◌else◌, update}
use pandos_phase.Types
use pandos_phase.Types.{Ptr, null, maxproc, Processor, Support, set_reg}
use pandos_phase.Run.{Cmd, unless, ldst, ldcxt, ◌>>=◌, ◌>>◌}
use pandos_phase.Words.{is_negative, add32, test_bits}
use pandos_phase.Pcb
use pandos_phase.Pcb.{
  Pcbs, alloc_pcb, free_pcb, out_proc_q, empty_child, insert_child, remove_child, out_child,
}
use pandos_phase.Kernel.{
  Kernel, on_pcb, leave, gets, modify, current, set_saved, saved, saved_reg, set_saved_reg,
}
use pandos_phase.Scheduler.{scheduler}
use pandos_phase.Processes.{sys_create_process, sys_terminate}
use pandos_phase.Semaphores.{
  sys_passeren, sys_verhogen, sys_wait_io, sys_get_cpu_time, sys_wait_clock,
}
use pandos_phase.Interrupts.{interrupt_handler}

unfoldable pub sys_get_support_ptr : Cmd Kernel ℕ
sys_get_support_ptr = do on_pcb (Pcb.load (λ s. s.p_support_struct) (← current))

-- The copy of the exception state into the support structure, and LDCXT of its context.
unfoldable pub pass_up : ℕ → ℕ → Cmd Kernel (Unit {0})
pass_up a type = do
  st ← saved
  modify λ k.
      let sup = k.support_at a in
      record k {
        support_at =
            update k.support_at a
              (record sup { sup_except_state = update sup.sup_except_state type st });
      }
  c ← gets λ k. (k.support_at a).sup_except_context type
  leave (ldcxt c.c_stack_ptr c.c_status c.c_pc)

unfoldable pub pass_up_or_die : ℕ → Cmd Kernel (Unit {0})
pass_up_or_die type = do
  p ← current
  a ← on_pcb (Pcb.load (λ s. s.p_support_struct) p)
  if a == null then (do sys_terminate p; scheduler) else pass_up a type

unfoldable pub program_trap_handler : Cmd Kernel (Unit {0})
program_trap_handler = pass_up_or_die Types.generalexcept

unfoldable pub tlb_exception_handler : Cmd Kernel (Unit {0})
tlb_exception_handler = pass_up_or_die Types.pgfaultexcept

-- The `switch` of `syscallHandler`.
unfoldable pub syscall : ℕ → Cmd Kernel (Unit {0})
syscall n =
    if n == 1
    then (do
      r ← sys_create_process (← saved_reg Types.s_a1) (← saved_reg Types.s_a2)
      set_saved_reg Types.s_v0 r)
    else if n == 2
    then (do sys_terminate (← current); scheduler)
    else if n == 3
    then (do sys_passeren (← saved_reg Types.s_a1))
    else if n == 4
    then (do sys_verhogen (← saved_reg Types.s_a1))
    else if n == 5
    then (do sys_wait_io (← saved_reg Types.s_a1) (← saved_reg Types.s_a2) (← saved_reg Types.s_a3))
    else if n == 6
    then sys_get_cpu_time
    else if n == 7
    then sys_wait_clock
    else if n == 8
    then (do set_saved_reg Types.s_v0 (← sys_get_support_ptr))
    else (do sys_terminate (← current); scheduler)

unfoldable pub syscall_handler : Cmd Kernel (Unit {0})
syscall_handler = do
  set_saved λ st. record st { s_pc = add32 st.s_pc 4 }
  st ← saved
  unless (not (test_bits st.s_status Types.kupbiton)) (pass_up_or_die Types.generalexcept)
  syscall (← saved_reg Types.s_a0)
  leave (ldst (← saved))

-- (cause & CAUSEMASK) >> 2
unfoldable pub exception_code : ℕ → ℕ
exception_code cause = bit_and cause Types.causemask / 4

-- (int) a0 >= 9
unfoldable pub is_high_syscall : ℕ → Bool
is_high_syscall w = not (is_negative w) && leb 9 w

-- The `switch` of `exceptionHandler`.
unfoldable pub exception_handler : Cmd Kernel (Unit {0})
exception_handler = do
  st ← saved
  let code = exception_code st.s_cause
  if code == 0
      then interrupt_handler
      else if leb code 3
      then tlb_exception_handler
      else if code == 8
      then (if is_high_syscall (st.s_reg Types.s_a0)
          then pass_up_or_die Types.generalexcept
          else syscall_handler)
      else if leb code 12
      then program_trap_handler
      else (do sys_terminate (← current); scheduler)

-- ===== src/Nucleus/Calls.antt =====
-- The semaphore operations from the exception to the process that runs next.
use pandos_phase.Prelude.{
  ℕ, ◌-◌, ◌^◌, ◌<◌, ◌≡◌, ◌≢◌, ap, List, ◌==◌, leb, not, ◌&&◌, true, false, arith,
}
use pandos_phase.Types
use pandos_phase.Types.{Ptr, maxint, Processor}
use pandos_phase.Words.{is_le_zero, is_negative, test_bits}
use pandos_phase.Run.{exit, ldst, and_then, Exits, exits, Exits-after, Exits-stop}
use pandos_phase.Kernel.{Kernel}
use pandos_phase.Exceptions.{
  exception_handler, exception_code, is_high_syscall, syscall_handler, syscall,
}
use pandos_phase.Exceptions.PassUp.{behind_call}
use pandos_phase.Nucleus.{IsNucleus, IsLoose}
use pandos_phase.Nucleus.Passeren.{Passed, sys_passeren-Passed}
use pandos_phase.Nucleus.Verhogen.{Counts, Signalled, sys_verhogen-Counts}

-- The exception is the system call `n` of a process in kernel mode.
pub record IsCall (k : Kernel) (n : ℕ) : Type 0 where
  pub code : exception_code k.saved.s_cause ≡ 8
  pub number : k.saved.s_reg Types.s_a0 ≡ n
  pub kernel_mode : test_bits k.saved.s_status Types.kupbiton ≡ false

-- The nucleus with the program counter of the caller behind the call.
abbrev pub called : Kernel → Kernel
called k = record k { saved = behind_call k.saved }

pub exception_handler_call :
    (k : Kernel) (n : ℕ)
    → IsCall k n
    → n < 9
    → exception_handler k ≡ and_then (syscall n (called k)) (λ _ k'. exit (ldst k'.saved) k')
unfolding exception_handler syscall_handler is_high_syscall
exception_handler_call k n c l =
    let w = k.saved.s_reg Types.s_a0 in
    let small : w < 9 = omega (arith, c.number, l) in
    let low : (not (is_negative w) && leb 9 w) ≡ false = ground (arith, small) in
    rw (c.code, low, c.kernel_mode)
      (ap (λ v. and_then (syscall v (called k)) (λ _ k'. exit (ldst k'.saved) k')) c.number)

module _ (k : Kernel) (rq : List Ptr) (q : Ptr → List Ptr) (fs : List Ptr) (n : IsNucleus k rq q fs)
    (address : (maxint == k.saved.s_reg Types.s_a1) ≡ false)
    (counted : Counts (k.word (k.saved.s_reg Types.s_a1)) (q (k.saved.s_reg Types.s_a1))) where
  called-IsNucleus : IsNucleus (called k) rq q fs
  called-IsNucleus = record {
    asl = n.asl;
    ready = n.ready;
    free = n.free;
    ready_blocked = n.ready_blocked;
    free_ready = n.free_ready;
    free_blocked = n.free_blocked;
  }

  -- SYS3 on a semaphore that is not positive blocks the caller on it; its program counter is
  -- behind the call when it goes on, and the scheduler chooses who runs next. The call is made in
  -- kernel mode, the queues of the nucleus are well formed, the caller is on none of them, the
  -- time scale is not zero, and the address of the semaphore is not MAXINT.
  pub exception_handler-Passed :
      IsCall k 3
      → IsLoose k.current_process rq q fs
      → (k.word Types.timescale_addr == 0) ≡ false
      → is_le_zero (k.word (k.saved.s_reg Types.s_a1)) ≡ true
      → Exits
          (Passed (called k) (k.saved.s_reg Types.s_a1) k.current_process rq q fs)
          (exception_handler k)
  unfolding syscall
  exception_handler-Passed c o scale z = rw (exception_handler_call k 3 c (omega arith)) (
      Exits-stop _ (
        sys_passeren-Passed (called k) (k.saved.s_reg Types.s_a1) rq q fs called-IsNucleus o scale
          address counted z))

  -- After SYS4 the caller goes on behind its call, and the process that is blocked on the
  -- semaphore for the longest time, if there is one, is the last ready one. The call is made in
  -- kernel mode, the queues of the nucleus are well formed, and the address of the semaphore is
  -- not MAXINT.
  pub exception_handler-Signalled :
      IsCall k 4
      → k.word (k.saved.s_reg Types.s_a1) ≢ 2 ^ 31 - 1
      → Exits
          (λ e k'.
            (e ≡ ldst (behind_call k.saved))
            × Signalled (called k) (k.saved.s_reg Types.s_a1) rq q fs k')
          (exception_handler k)
  unfolding syscall
  exception_handler-Signalled c o = rw (exception_handler_call k 4 c (omega arith)) (
      Exits-after _
        (sys_verhogen-Counts (called k) (k.saved.s_reg Types.s_a1) rq q fs called-IsNucleus address
          counted o)
        (λ u k' s. exits (ap ldst s.saved_same, s)))

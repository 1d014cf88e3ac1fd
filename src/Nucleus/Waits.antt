-- ===== src/Nucleus/Waits.antt =====
-- SYS5 to SYS8: the waits for devices and for the clock, and what a process asks of the nucleus.
use pandos_phase.Prelude.{
  ℕ, ◌+◌, ◌*◌, ◌%◌, ◌<◌, ◌≡◌, ◌⊎◌, inl, inr, refl, ap, List, ◌==◌, false, true, arith, update,
  lt→ltb,
}
use pandos_phase.Types
use pandos_phase.Types.{Ptr, maxint, maxproc, set_reg}
use pandos_phase.Words.{w32, is_le_zero, add32, sub32}
use pandos_phase.Run.{
  Returns-bind, returns, ldst, exit, access, Exits, exits, Exits-after, Exits-mono, Exits-stop,
}
use pandos_phase.Kernel.{Kernel, stck}
use pandos_phase.Semaphores.{
  dev_reg_addr, wait_io_index, sys_wait_clock, sys_wait_io, sys_get_cpu_time,
}
use pandos_phase.Exceptions.{exception_handler, syscall, sys_get_support_ptr}
use pandos_phase.Exceptions.PassUp.{behind_call, support_of}
use pandos_phase.Nucleus.{IsNucleus, IsLoose, Steady, families}
use pandos_phase.Nucleus.Touch.{IsNucleus-touch, IsNucleus-keep}
use pandos_phase.Nucleus.Calls.{IsCall, called, exception_handler_call}
use pandos_phase.Nucleus.Clock.{clock_semaphore}
use pandos_phase.Nucleus.Passeren.{
  Passed, timed, clock, update_cpu_time_run, sys_passeren-Passed, sys_passeren-Counts,
}
use pandos_phase.Nucleus.Verhogen.{Counts}

-- The index and the address of the semaphore, and of the field d_status, of the device that the arguments of SYS5
-- name.
abbrev pub io_index : Kernel → ℕ
io_index k =
    wait_io_index (k.saved.s_reg Types.s_a1) (k.saved.s_reg Types.s_a2) (k.saved.s_reg Types.s_a3)

abbrev pub io_semaphore : Kernel → ℕ
io_semaphore k = (k.device_semaphores + 4 * io_index k) % w32

abbrev pub io_status : Kernel → ℕ
io_status k = dev_reg_addr (k.saved.s_reg Types.s_a1) (k.saved.s_reg Types.s_a2)

-- The device has answered before: the caller of SYS5 does not wait for it.
pub record Answered (k : Kernel) (rq : List Ptr) (q : Ptr → List Ptr) (fs : List Ptr) (k' : Kernel)
    : Type 0 where
  pub saved : k'.saved ≡ set_reg Types.s_v0 (k'.word (io_status k)) (behind_call k.saved)
  pub state : IsNucleus k' rq q fs
  pub value : k'.word ≡ update k.word (io_semaphore k) (sub32 (k.word (io_semaphore k)) 1)
  pub counts : Counts (k'.word (io_semaphore k)) (q (io_semaphore k))
  pub current_same : k'.current_process ≡ k.current_process
  pub marks_same : k'.asl.pcbs.p_sem_add ≡ k.asl.pcbs.p_sem_add
  pub steady : Steady k k'
  pub soft : k'.soft_block_count ≡ add32 k.soft_block_count 1

-- The caller is counted as soft-blocked.
abbrev pub softened : Kernel → Kernel
softened k = record k { soft_block_count = add32 k.soft_block_count 1 }

-- The caller of SYS7 has its CPU time brought up to date as well.
abbrev pub clocked : Kernel → Kernel
clocked k = softened (timed (called k) k.current_process)

module _ (k : Kernel) (rq : List Ptr) (q : Ptr → List Ptr) (fs : List Ptr) (n : IsNucleus k rq q fs)
    (o : IsLoose k.current_process rq q fs)
    (scale : (k.word Types.timescale_addr == 0) ≡ false) where
  clocked-IsNucleus : IsNucleus (clocked k) rq q fs
  clocked-IsNucleus =
      IsNucleus-touch k (clocked k) k.current_process rq q fs n o refl refl refl refl refl
        (λ y d. refl)

  -- SYS7 counts the caller as soft-blocked and blocks it on the semaphore of the pseudo-clock, with
  -- its program counter behind the call; the scheduler chooses who runs next. The call is made in
  -- kernel mode, the queues of the nucleus are well formed, the caller is on none of them, the
  -- semaphore is zero or counts the processes that wait for the clock, the time scale is not zero,
  -- and the address of the semaphore is not MAXINT.
  pub exception_handler-clock-Passed :
      IsCall k 7
      → (maxint == clock_semaphore k) ≡ false
      → Counts (k.word (clock_semaphore k)) (q (clock_semaphore k))
      → is_le_zero (k.word (clock_semaphore k)) ≡ true
      → Exits
          (λ e k'.
            Passed (clocked k) (clock_semaphore k) k.current_process rq q fs e k'
            × (k'.soft_block_count ≡ add32 k.soft_block_count 1))
          (exception_handler k)
  unfolding syscall sys_wait_clock access
  exception_handler-clock-Passed c address counted z =
      rw
        (
          exception_handler_call k 7 c (omega arith),
          update_cpu_time_run (called k) k.current_process refl o.valid scale,
        )
        (Exits-stop _ (
          Exits-mono
            (sys_passeren-Passed (clocked k) (clock_semaphore k) rq q fs clocked-IsNucleus o scale
              address counted z)
            (λ e k' w. (w, w.soft_same))))

  softened-IsNucleus : IsNucleus (softened (called k)) rq q fs
  softened-IsNucleus = IsNucleus-keep k (softened (called k)) rq q fs refl refl n

  module _ (c : IsCall k 5) (address : (maxint == io_semaphore k) ≡ false)
      (counted : Counts (k.word (io_semaphore k)) (q (io_semaphore k)))
      (near : io_index k < Types.num_devices + 1) where
    -- SYS5 counts the caller as soft-blocked. On a semaphore of the device that is zero or counts
    -- the processes that wait for it the caller is blocked, and the scheduler chooses who runs
    -- next. If the semaphore is positive, one is taken from it, and the caller goes on behind the
    -- call with the first word of the device's register, d_status, as the result: the status of a
    -- device that is no terminal, and the receiver's status for both halves of a terminal. The call
    -- is made in kernel mode, the queues of the nucleus are well formed, the caller is on none of
    -- them, the time scale is not zero, the arguments name a semaphore of the table, and its
    -- address is not MAXINT.
    pub exception_handler-io-Passed :
        let a = io_semaphore k in
        (is_le_zero (k.word a) ≡ true
          → Exits
              (λ e k'.
                Passed (softened (called k)) a k.current_process rq q fs e k'
                × (k'.soft_block_count ≡ add32 k.soft_block_count 1))
              (exception_handler k))
        × (is_le_zero (k.word a) ≡ false
            → Exits (λ e k'. (e ≡ ldst k'.saved) × Answered k rq q fs k') (exception_handler k))
    unfolding syscall sys_wait_io access
    exception_handler-io-Passed = (
      λ z.
          rw (exception_handler_call k 5 c (omega arith), lt→ltb _ _ near)
            (Exits-stop _ (
              Exits-stop _ (
                Exits-mono
                  (sys_passeren-Passed (softened (called k)) (io_semaphore k) rq q fs
                    softened-IsNucleus o scale address counted z)
                  (λ e k' w. (w, w.soft_same))))),
      λ z.
          rw (exception_handler_call k 5 c (omega arith), lt→ltb _ _ near)
            (Exits-after _
              (Returns-bind {Q = λ _. Answered k rq q fs}
                (sys_passeren-Counts (softened (called k)) (io_semaphore k) rq q fs
                  softened-IsNucleus o scale address counted z)
                (λ u k1 w. returns (record {
                  saved =
                      ap (λ (x : Kernel). set_reg Types.s_v0 (k1.word (io_status k)) x.saved) w.0;
                  state =
                      IsNucleus-keep k1
                        (record k1 { saved = set_reg Types.s_v0 (k1.word (io_status k)) k1.saved })
                        rq q fs refl refl w.1;
                  value = ap (λ (x : Kernel). x.word) w.0;
                  counts = w.2;
                  current_same = ap (λ (x : Kernel). x.current_process) w.0;
                  marks_same = ap (λ (x : Kernel). x.asl.pcbs.p_sem_add) w.0;
                  steady = record {
                    count = ap (λ (x : Kernel). x.process_count) w.0;
                    devices = ap (λ (x : Kernel). x.device_semaphores) w.0;
                    family = ap (λ (x : Kernel). families x.asl.pcbs) w.0;
                  };
                  soft = ap (λ (x : Kernel). x.soft_block_count) w.0;
                })))
              (λ u k' w. exits (refl, w))),
    )

  -- SYS6 gives the CPU time that the caller has used, the current time slice included; SYS8 gives the
  -- address of its support structure. The caller goes on behind the call, and nothing else is
  -- changed. The call is made in kernel mode, the caller is on no queue, and the time scale is not
  -- zero.
  pub exception_handler-asks :
      (w : ℕ)
      → (IsCall k 6
          × (w
              ≡ add32
                  (k.asl.pcbs.p_time k.current_process)
                  (sub32 (clock k) (k.asl.pcbs.p_start_tod k.current_process))))
        ⊎ (IsCall k 8 × (w ≡ support_of k))
      → let st = set_reg Types.s_v0 w (behind_call k.saved) in
        exception_handler k ≡ exit (ldst st) (record k { saved = st })
  unfolding syscall sys_get_cpu_time stck sys_get_support_ptr access
  exception_handler-asks w (inl (c, e)) =
      rw (exception_handler_call k 6 c (omega arith), scale, lt→ltb _ _ o.valid, e) refl
  exception_handler-asks w (inr (c, e)) =
      rw (exception_handler_call k 8 c (omega arith), lt→ltb _ _ o.valid, e) refl

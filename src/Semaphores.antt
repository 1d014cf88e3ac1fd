-- ===== src/Semaphores.antt =====
-- The system calls of phase2/exceptions.c on semaphores, devices, the clock and the CPU time.
use pandos_phase.Prelude.{ℕ, ◌*◌, ◌%◌, not, ◌==◌, if◌then◌else◌}
use pandos_phase.Types
use pandos_phase.Types.{Ptr, null, maxproc, Processor, Support, set_reg}
use pandos_phase.Run.{Cmd, pure, unless, ◌>>=◌, ◌>>◌}
use pandos_phase.Words.{w32, is_negative, is_le_zero, add32, sub32}
use pandos_phase.Pcb
use pandos_phase.Pcb.{
  Pcbs, alloc_pcb, free_pcb, out_proc_q, empty_child, insert_child, remove_child, out_child,
}
use pandos_phase.Asl.{insert_blocked, remove_blocked}
use pandos_phase.Kernel.{
  Kernel, on_pcb, on_asl, modify, current, fetch, assign, device_semaphore, stck, insert_ready,
  set_saved_reg, save_state, update_cpu_time,
}
use pandos_phase.Scheduler.{scheduler}

-- The block of `sysPasseren` for a negative semaphore.
unfoldable pub block_current : ℕ → Cmd Kernel (Unit {0})
block_current a = do
  p ← current
  save_state p
  on_pcb (Pcb.set_sem_add p a)
  on_asl (insert_blocked a p >>= λ _. pure tt)
  scheduler

unfoldable pub sys_passeren : ℕ → Cmd Kernel (Unit {0})
sys_passeren a = do
  update_cpu_time
  v ← fetch a
  assign a (sub32 v 1)
  v ← fetch a
  unless (not (is_negative v)) (block_current a)

unfoldable pub sys_verhogen : ℕ → Cmd Kernel (Unit {0})
sys_verhogen a = do
  v ← fetch a
  assign a (add32 v 1)
  v ← fetch a
  unless (not (is_le_zero v)) (do
    p ← on_asl (remove_blocked a)
    unless (p == null) (do on_pcb (Pcb.set_sem_add p null); insert_ready p))

-- The device index of `sysWaitIO`, in `int` arithmetic.
unfoldable pub wait_io_index : ℕ → ℕ → ℕ → ℕ
wait_io_index line dev read =
    if line == Types.termint
    then add32 (add32 (4 * Types.devperint) (dev * 2 % w32)) read
    else add32 (sub32 line 3 * Types.devperint % w32) dev

-- DEV_REG_ADDR
unfoldable pub dev_reg_addr : ℕ → ℕ → ℕ
dev_reg_addr line dev = add32 (add32 0x10000054 (sub32 line 3 * 0x80 % w32)) (dev * 0x10 % w32)

unfoldable pub sys_wait_io : ℕ → ℕ → ℕ → Cmd Kernel (Unit {0})
sys_wait_io line dev read = do
  a ← device_semaphore (wait_io_index line dev read)
  modify λ k. record k { soft_block_count = add32 k.soft_block_count 1 }
  sys_passeren a
  set_saved_reg Types.s_v0 (← fetch (dev_reg_addr line dev))

unfoldable pub sys_get_cpu_time : Cmd Kernel (Unit {0})
sys_get_cpu_time = do
  tod ← stck
  p ← current
  time ← on_pcb (Pcb.load (λ s. s.p_time) p)
  start ← on_pcb (Pcb.load (λ s. s.p_start_tod) p)
  set_saved_reg Types.s_v0 (add32 time (sub32 tod start))

unfoldable pub sys_wait_clock : Cmd Kernel (Unit {0})
sys_wait_clock = do
  update_cpu_time
  modify λ k. record k { soft_block_count = add32 k.soft_block_count 1 }
  sys_passeren (← device_semaphore Types.num_devices)

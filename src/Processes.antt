-- ===== src/Processes.antt =====
-- The system calls of phase2/exceptions.c that create and terminate processes.
use pandos_phase.Prelude.{ℕ, zero, suc, ◌+◌, ◌-◌, ◌*◌, Bool, not, ◌&&◌, leb, ◌==◌, if◌then◌else◌}
use pandos_phase.Types
use pandos_phase.Types.{Ptr, null, maxproc, Processor, Support, set_reg}
use pandos_phase.Run.{Cmd, out_of_fuel, pure, unless, halt, ◌>>=◌, ◌>>◌}
use pandos_phase.Words.{w32, is_le_zero, add32, sub32}
use pandos_phase.Pcb
use pandos_phase.Pcb.{
  Pcbs, alloc_pcb, free_pcb, out_proc_q, empty_child, insert_child, remove_child, out_child,
}
use pandos_phase.Asl.{out_blocked}
use pandos_phase.Kernel.{
  Kernel, on_pcb, on_asl, leave, gets, modify, current, set_current, ready, set_ready, fetch,
  assign, insert_ready, set_p_s, set_p_time, set_p_support, state_of,
}

unfoldable pub sys_create_process : ℕ → ℕ → Cmd Kernel ℕ
sys_create_process statep supportp = do
  p ← on_pcb alloc_pcb
  if p == null then pure (w32 - 1) else (do
    set_p_s p (← state_of statep)
    set_p_support p supportp
    set_p_time p 0
    on_pcb (Pcb.set_sem_add p null)
    on_pcb (insert_child (← current) p)
    insert_ready p
    modify λ k. record k { process_count = add32 k.process_count 1 }
    pure 0)

-- semAddr >= &deviceSemaphores[0] && semAddr <= &deviceSemaphores[NUM_DEVICES - 1]
unfoldable pub is_device_semaphore : ℕ → ℕ → Bool
is_device_semaphore base a = leb base a && leb a (base + 4 * (Types.num_devices - 1))

-- `sysTerminate` on a blocked process, up to the ready queue.
unfoldable pub unblock : Ptr → ℕ → Cmd Kernel (Unit {0})
unblock p a = do
  base ← gets λ k. k.device_semaphores
  unless (is_device_semaphore base a) (do v ← fetch a; assign a (add32 v 1))
  on_asl (out_blocked p >>= λ _. pure tt)
  unless (not (is_device_semaphore base a))
      (modify λ k. record k { soft_block_count = sub32 k.soft_block_count 1 })

-- `sysTerminate` behind the loop over the children: the process leaves the queue that it is on,
unfoldable pub leave_queues : Ptr → Cmd Kernel (Unit {0})
leave_queues p = do
  a ← on_pcb (Pcb.sem_add p)
  unless (a == null) (unblock p a)
  (_, q) ← on_pcb (out_proc_q (← ready) p)
  set_ready q

-- it leaves its parent, it runs no longer, and its block is freed,
unfoldable pub leave_tree : Ptr → Cmd Kernel (Unit {0})
leave_tree p = do
  parent ← on_pcb (Pcb.prnt p)
  unless (parent == null) (on_pcb (out_child p >>= λ _. pure tt))
  c ← current
  unless (not (p == c)) (set_current null)
  on_pcb (free_pcb p)

-- and it is counted out.
unfoldable pub count_out : Cmd Kernel (Unit {0})
count_out = do
  count ← gets λ k. k.process_count
  unless (is_le_zero count) (modify λ k. record k { process_count = sub32 count 1 })
  count ← gets λ k. k.process_count
  unless (not (count == 0)) (leave halt)

unfoldable pub bury : Ptr → Cmd Kernel (Unit {0})
bury p = do leave_queues p; leave_tree p; count_out

-- `sysTerminate` on fuel: each call and each round of the loop over the children takes one unit.
unfoldable mutual
  pub terminate : ℕ → Ptr → Cmd Kernel (Unit {0})
  terminate zero p = λ _. out_of_fuel
  terminate (suc f) p = if p == null then pure tt else (do terminate_children f p; bury p)

  -- while (!emptyChild(p)) sysTerminate(removeChild(p))
  pub terminate_children : ℕ → Ptr → Cmd Kernel (Unit {0})
  terminate_children zero p = λ _. out_of_fuel
  terminate_children (suc f) p = do
    e ← on_pcb (empty_child p)
    if e then pure tt else (do c ← on_pcb (remove_child p); terminate f c; terminate_children f p)

-- A tree of at most MAXPROC processes takes at most two units for each of them, and one more.
abbrev pub terminate_fuel : ℕ
terminate_fuel = 2 * maxproc + 1

unfoldable pub sys_terminate : Ptr → Cmd Kernel (Unit {0})
sys_terminate p = terminate terminate_fuel p

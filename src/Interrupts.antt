-- ===== src/Interrupts.antt =====
-- phase2/interrupts.c. `exception_handler` calls `interrupt_handler`.
pub mod First
pub mod Index
pub mod Priority
use Prim.Native.Nat.{bit_and}
use pandos_phase.Prelude.{
  ℕ, zero, suc, ◌+◌, ◌-◌, ◌*◌, ◌/◌, ◌%◌, ◌^◌, Option, none, some, not, leb, ◌==◌, if◌then◌else◌,
}
use pandos_phase.Types
use pandos_phase.Types.{Ptr, null, maxproc, Processor, Support, set_reg}
use pandos_phase.Run.{Cmd, out_of_fuel, pure, unless, ldst, panic, ◌>>=◌, ◌>>◌}
use pandos_phase.Words.{w32, is_le_zero, add32, sub32, test_bits}
use pandos_phase.Pcb
use pandos_phase.Pcb.{
  Pcbs, alloc_pcb, free_pcb, out_proc_q, empty_child, insert_child, remove_child, out_child,
}
use pandos_phase.Asl.{remove_blocked, head_blocked}
use pandos_phase.Kernel.{
  Kernel, on_pcb, on_asl, leave, modify, current, fetch, assign, device_semaphore, insert_ready,
  set_timer, ldit, set_p_s, saved, save_state, update_cpu_time,
}
use pandos_phase.Scheduler.{scheduler}
use pandos_phase.Semaphores.{dev_reg_addr}

-- The loop of `getHighestPriorityInterrupt` for i, i + 1, …, 7, by the rounds left; -1 as a word.
pub lowest_line : ℕ → ℕ → ℕ → ℕ
lowest_line zero i pending = w32 - 1
lowest_line (suc n) i pending =
    if test_bits pending (2 ^ i) then i else lowest_line n (i + 1) pending

unfoldable pub highest_priority_interrupt : ℕ → ℕ
unfolding lowest_line
highest_priority_interrupt cause = lowest_line 7 1 (bit_and cause Types.ipmask / 2 ^ 8)

-- The loop of `getHighestPriorityDevice`. A word that is not zero has its lowest set bit below 32.
pub lowest_bit : ℕ → ℕ → ℕ → Option ℕ
lowest_bit zero bitmap dev = none
lowest_bit (suc k) bitmap dev =
    let rest = lowest_bit k (bitmap / 2) (add32 dev 1) in
    if bit_and bitmap 1 == 0 then rest else some dev

-- INTDEVBITMAP_ADDR
unfoldable pub int_dev_bitmap_addr : ℕ → ℕ
int_dev_bitmap_addr line = add32 0x10000040 (sub32 line 3 * 0x04 % w32)

unfoldable pub highest_priority_device : ℕ → Cmd Kernel ℕ
unfolding lowest_bit
highest_priority_device line = do
  bitmap ← fetch (int_dev_bitmap_addr line)
  if bitmap == 0
      then pure (w32 - 1)
      else elim (lowest_bit 32 bitmap 0) [ none ↦ λ _. out_of_fuel | some dev ↦ pure dev ]

unfoldable pub handle_plt_interrupt : Cmd Kernel (Unit {0})
handle_plt_interrupt = do
  set_timer 5000
  p ← current
  unless (p == null) (do save_state p; update_cpu_time; insert_ready p)
  scheduler

-- The loop of `handleIntervalTimerInterrupt`. A round takes a process off the queue of the
-- pseudo-clock, so MAXPROC rounds and a last test are enough.
unfoldable pub wake_all : ℕ → ℕ → Cmd Kernel (Unit {0})
wake_all zero a = λ _. out_of_fuel
wake_all (suc k) a = do
  h ← on_asl (head_blocked a)
  if h == null
      then pure tt
      else (do p ← on_asl (remove_blocked a); unless (p == null) (insert_ready p); wake_all k a)

unfoldable pub handle_interval_timer_interrupt : Cmd Kernel (Unit {0})
handle_interval_timer_interrupt = do
  ldit Types.clock_interval
  a ← device_semaphore Types.num_devices
  wake_all (maxproc + 1) a
  assign a 0
  p ← current
  if p == null then scheduler else (do leave (ldst (← saved)))

-- The reading and the acknowledgement of the device register at `reg`: the status.
unfoldable pub acknowledge : ℕ → ℕ → Cmd Kernel ℕ
acknowledge line reg =
    if line == Types.termint
    then (do
      transm ← fetch (reg + 8)
      if test_bits transm 0xFF
          then (do assign (reg + 12) Types.ack; pure transm)
          else (do recv ← fetch reg; assign (reg + 4) Types.ack; pure recv))
    else (do status ← fetch reg; assign (reg + 4) Types.ack; pure status)

-- The device index of `handleDeviceInterrupt`.
unfoldable pub device_index : ℕ → ℕ → ℕ → ℕ
device_index line dev status =
    if line == Types.termint
    then add32 (add32 (4 * Types.devperint) (dev * 2 % w32))
        (if test_bits status 0xFF then 0 else 1)
    else add32 (sub32 line 3 * Types.devperint % w32) dev

-- The V operation of `handleDeviceInterrupt`, its second half.
unfoldable pub device_verhogen : ℕ → ℕ → Cmd Kernel (Unit {0})
device_verhogen a status = do
  v ← fetch a
  assign a (add32 v 1)
  v ← fetch a
  unless (not (is_le_zero v)) (do
    p ← on_asl (remove_blocked a)
    unless (p == null) (do
      st ← on_pcb (Pcb.load (λ s. s.p_s) p)
      set_p_s p (set_reg Types.s_v0 status st)
      modify λ k. record k { soft_block_count = sub32 k.soft_block_count 1 }
      insert_ready p)
    c ← current
    if c == null then scheduler else (do leave (ldst (← saved))))

unfoldable pub handle_device_interrupt : ℕ → Cmd Kernel (Unit {0})
handle_device_interrupt line = do
  dev ← highest_priority_device line
  status ← acknowledge line (dev_reg_addr line dev)
  device_verhogen (← device_semaphore (device_index line dev status)) status

unfoldable pub interrupt_handler : Cmd Kernel (Unit {0})
interrupt_handler = do
  st ← saved
  let line = highest_priority_interrupt st.s_cause
  if line == 0
      then pure tt
      else if line == 1
      then handle_plt_interrupt
      else if line == 2
      then handle_interval_timer_interrupt
      else if leb line 7
      then handle_device_interrupt line
      else leave panic
  leave (ldst (← saved))

-- ===== src/Scheduler.antt =====
-- phase2/scheduler.c. `wait` leaves the nucleus in WAIT(); what stands behind it is `dispatch`.
use pandos_phase.Prelude.{ℕ, ◌==◌, if◌then◌else◌}
use pandos_phase.Types.{null}
use pandos_phase.Run.{Cmd, halt, panic, wait, ldst, ◌>>=◌, ◌>>◌}
use pandos_phase.Words.{is_positive}
use pandos_phase.Pcb
use pandos_phase.Pcb.{remove_proc_q}
use pandos_phase.Kernel.{
  Kernel, on_pcb, leave, gets, current, set_current, ready, set_ready, set_timer, set_status,
}

-- (IECON | IM) & ~TEBITON
abbrev pub wait_status : ℕ
wait_status = 0xFF01

-- From setTIMER on: the current process is loaded.
unfoldable pub dispatch : Cmd Kernel (Unit {0})
dispatch = do set_timer 5000; st ← on_pcb (Pcb.load (λ s. s.p_s) (← current)); leave (ldst st)

-- No process is ready.
unfoldable pub idle : Cmd Kernel (Unit {0})
idle = do
  count ← gets λ k. k.process_count
  blocked ← gets λ k. k.soft_block_count
  if count == 0
      then leave halt
      else if is_positive blocked
      then (do set_status wait_status; leave wait)
      else leave panic

unfoldable pub scheduler : Cmd Kernel (Unit {0})
unfolding dispatch idle
scheduler = do
  (p, q) ← on_pcb (remove_proc_q (← ready))
  set_ready q
  set_current p
  if p == null then idle else dispatch

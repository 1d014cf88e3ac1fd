-- ===== src/Nucleus/Reach/Waiting.antt =====
-- SYS5 and SYS7 keep the invariant.
use pandos_phase.Prelude.{◌≤◌, refl, ap, ◌∙◌, inl, inr, List, arith, Bool-cases}
use pandos_phase.Types
use pandos_phase.Types.{Ptr, null, maxint, maxproc}
use pandos_phase.Words.{is_le_zero}
use pandos_phase.Run.{access, ldst, Exits, exits, Exits-after, Exits-mono}
use pandos_phase.Kernel.{Kernel}
use pandos_phase.Semaphores.{sys_wait_clock, wait_io_index}
use pandos_phase.Interrupts.Index.{IsDevice, wait_io_index-bound}
use pandos_phase.Nucleus.Reach.Onward.{resumes-GoesOn}
use pandos_phase.Exceptions.{exception_handler, syscall}
use pandos_phase.Nucleus.{Steady}
use pandos_phase.Nucleus.Passeren.{update_cpu_time_run, sys_passeren-Counts}
use pandos_phase.Nucleus.Calls.{called, exception_handler_call}
use pandos_phase.Nucleus.Clock.{clock_semaphore}
use pandos_phase.Nucleus.Waits.{
  io_semaphore, clocked, softened, exception_handler-clock-Passed, exception_handler-io-Passed,
}
use pandos_phase.Nucleus.Sound.{IsSound, IsSound-value, Passed-IsSound}
use pandos_phase.Nucleus.Reach.{Initialised, IsSemaphore, Calling}
use pandos_phase.Pcb.Forest.{Forest}
use pandos_phase.Nucleus.Kin.{IsFamily, IsFamily-steady, Marked-same}
use pandos_phase.Nucleus.Abstract.{Handled}
use pandos_phase.Nucleus.Reach.Calls.{
  runner, Counts-at, same-IsSound, table-IsSemaphore, IsSound-timed, passed, joined-null,
  still_runs, positive-Handled,
}

module _ (k : Kernel) (rq : List Ptr) (q : Ptr → List Ptr) (fs : List Ptr) (t : Forest)
    (h : IsSound k rq q fs) (g : IsFamily k.asl.pcbs t q fs) where
  -- SYS5.
  pub wait_io-Sound :
      Calling k 5
      → IsDevice (k.saved.s_reg Types.s_a1) (k.saved.s_reg Types.s_a2)
      → k.saved.s_reg Types.s_a3 ≤ 1
      → Initialised k (io_semaphore k)
      → Exits (Handled (passed k rq q fs t h g (io_semaphore k))) (exception_handler k)
  wait_io-Sound c d b i =
      let a = io_semaphore k in
      let r = k.saved.s_reg in
      let bound = wait_io_index-bound (r Types.s_a1) (r Types.s_a2) (r Types.s_a3) d b in
      let s : IsSemaphore k a =
        table-IsSemaphore k rq q fs h (wait_io_index (r Types.s_a1) (r Types.s_a2) (r Types.s_a3))
          (omega (arith, bound)) i in
      let o = runner k rq q fs h c.running in
      let v =
        exception_handler-io-Passed k rq q fs h.nucleus o c.scale c.call s.address
          (Counts-at k rq q fs h a s (q a) refl) (omega (arith, bound)) in
      elim (Bool-cases (is_le_zero (k.word a))) [
        | inl z ↦ Exits-mono (v.0 z) (λ e k' w. rw z (
          resumes-GoesOn (softened (called k)) k' e rq w.0.out w.0.runs h.nucleus.ready.inside,
          w.0.runs,
          Passed-IsSound (softened (called k)) rq q fs
              (same-IsSound k rq q fs h (softened (called k)) refl refl refl refl refl refl) a e k'
              s.in_ram o w.0,
          IsFamily-steady w.0.steady.family w.0.marks
              (joined-null k rq q fs t h g a k.current_process s.some) g,
        ))
        | inr z ↦ Exits-mono (v.1 z) (λ e k' w. rw z (
          still_runs k rq q fs t h g e k' c.running w.1.current_same,
          w.1.current_same,
          IsSound-value k rq q fs h a k' w.1.state w.1.current_same w.1.steady
              (λ b i. ap (λ f. f b) w.1.value ∙ rw i refl) w.1.counts,
          IsFamily-steady w.1.steady.family (Marked-same _ _ q w.1.marks_same) g.no_null g,
        ))
      ]

  -- SYS7.
  pub wait_clock-Sound :
      Calling k 7
      → Initialised k (clock_semaphore k)
      → Exits (Handled (passed k rq q fs t h g (clock_semaphore k))) (exception_handler k)
  unfolding syscall sys_wait_clock access
  wait_clock-Sound c i =
      let a = clock_semaphore k in
      let s : IsSemaphore k a = table-IsSemaphore k rq q fs h Types.num_devices (omega arith) i in
      let o = runner k rq q fs h c.running in
      let v = Counts-at k rq q fs h a s (q a) refl in
      let l = IsSound-timed k rq q fs h o in
      let same : Steady k (clocked k) = record { count = refl; devices = refl; family = refl } in
      elim (Bool-cases (is_le_zero (k.word a))) [
        | inl z ↦
            Exits-mono
              (exception_handler-clock-Passed k rq q fs h.nucleus o c.scale c.call s.address v z)
              (λ e k' w. rw z (
                resumes-GoesOn (clocked k) k' e rq w.0.out w.0.runs h.nucleus.ready.inside,
                w.0.runs,
                Passed-IsSound (clocked k) rq q fs l a e k' s.in_ram o w.0,
                IsFamily-steady w.0.steady.family w.0.marks
                    (joined-null k rq q fs t h g a k.current_process s.some) g,
              ))
        | inr z ↦
            rw
              (
                z,
                exception_handler_call k 7 c.call (omega arith),
                update_cpu_time_run (called k) k.current_process refl o.valid c.scale,
              )
              (Exits-after _
                (sys_passeren-Counts (clocked k) a rq q fs l.nucleus o c.scale s.address v z)
                (λ u k' w. exits (
                  positive-Handled k rq q fs t h g a (ldst k'.saved) (clocked k) k' c.running w.0
                    refl same refl refl w.1 w.2)))
      ]

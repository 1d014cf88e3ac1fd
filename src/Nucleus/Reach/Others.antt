-- ===== src/Nucleus/Reach/Others.antt =====
-- The interrupts, the exceptions that are passed up, and SYS6 and SYS8 keep the invariant.
use pandos_phase.Prelude.{
  ℕ, ◌-◌, ◌≤◌, ◌<◌, ◌≡◌, ◌⊎◌, refl, ap, sym, ◌∙◌, inl, inr, List, [], ◌∷◌, ◌++◌, ◌==◌, ==→eq, true,
  false, arith, All-join, Bool-cases, ne→==,
}
use pandos_phase.Types
use pandos_phase.Types.{Ptr, null, maxint, maxproc, Processor, set_reg}
use pandos_phase.Words.{w32, add32, sub32}
use pandos_phase.Run.{Exit, Exits, exits, Exits-mono}
use pandos_phase.Kernel.{Kernel}
use pandos_phase.Interrupts.{interrupt_handler, handle_plt_interrupt}
use pandos_phase.Exceptions.{exception_handler, exception_code}
use pandos_phase.Exceptions.PassUp.{
  HasSupport, IsTrap, PassedUp, exception_handler-PassedUp, syscall_handler-PassedUp, behind_call,
  support_of,
}
use pandos_phase.Nucleus.Clock.{clock_semaphore, handle_interval_timer_interrupt-Ticked}
use pandos_phase.Nucleus.Hardware.{Pending, Pending-line, slice_end, interval_end}
use pandos_phase.Nucleus.Passeren.{clock}
use pandos_phase.Nucleus.Slice.{handle_plt_interrupt-Preempted}
use pandos_phase.Nucleus.Touch.{IsNucleus-keep}
use pandos_phase.Nucleus.Waits.{exception_handler-asks}
use pandos_phase.Nucleus.Sound.{IsSound, ram_start}
use pandos_phase.Nucleus.Sound.Wake.{
  Scheduled-IsSound, woken-inside, Ticked-IsSound, Preempted-IsSound,
}
use pandos_phase.Nucleus.Reach.Onward.{resumes-GoesOn, readied-GoesOn, runs-GoesOn}
use pandos_phase.Nucleus.Die.{IsUserCall}
use pandos_phase.Nucleus.Dispatch.{scheduler-Scheduled}
use mathlib.Core.List.{append-nil}
use pandos_phase.Nucleus.Reach.{Calling}
use pandos_phase.Nucleus.{Steady, families}
use pandos_phase.Pcb.Forest.{Forest}
use pandos_phase.Nucleus.Kin.{IsFamily, IsFamily-steady, Marked-same}
use pandos_phase.Nucleus.Abstract.{Handled, turn, wake_all, resume}
use pandos_phase.Nucleus.Reach.Calls.{here, left-null, runner, same-IsSound}

module _ (k : Kernel) (rq : List Ptr) (q : Ptr → List Ptr) (fs : List Ptr) (t : Forest)
    (h : IsSound k rq q fs) (g : IsFamily k.asl.pcbs t q fs) where
  -- SYS6 and SYS8.
  pub asks-Sound :
      Calling k 6 ⊎ Calling k 8 → Exits (Handled (here k rq q fs t h g)) (exception_handler k)
  asks-Sound (inl c) =
      let w =
        add32 (k.asl.pcbs.p_time k.current_process)
          (sub32 (clock k) (k.asl.pcbs.p_start_tod k.current_process)) in
      rw
        (exception_handler-asks k rq q fs h.nucleus (runner k rq q fs h c.running) c.scale w
          (inl (c.call, refl)))
        (exits (
          c.running,
          refl,
          same-IsSound k rq q fs h (record k { saved = set_reg Types.s_v0 w (behind_call k.saved) })
              refl refl refl refl refl refl,
          g,
        ))
  asks-Sound (inr c) =
      rw
        (exception_handler-asks k rq q fs h.nucleus (runner k rq q fs h c.running) c.scale
          (support_of k) (inr (c.call, refl)))
        (exits (
          c.running,
          refl,
          same-IsSound k rq q fs h
              (record k { saved = set_reg Types.s_v0 (support_of k) (behind_call k.saved) }) refl
              refl refl refl refl refl,
          g,
        ))

  pub slice_end-Sound :
      Pending k 1
      → (k.current_process == null) ≡ false
      → (k.word Types.timescale_addr == 0) ≡ false
      → Exits (Handled (turn (here k rq q fs t h g))) (exception_handler k)
  slice_end-Sound p r s =
      let o = runner k rq q fs h r in
      slice_end k p.code (Pending-line k 1 p) (
        Exits-mono (handle_plt_interrupt-Preempted k rq q fs h.nucleus o s) (λ e k' w. (
          readied-GoesOn k' e rq k.current_process w.runs (
              All-join (λ y. y < maxproc) rq (k.current_process ∷ []) h.nucleus.ready.inside
                (o.valid, tt)),
          w.runs,
          Preempted-IsSound k rq q fs h e k' o w,
          IsFamily-steady w.steady.family (Marked-same _ _ q w.marks_same) g.no_null g,
        )))

  -- The local timer, when no process runs.
  pub idle_slice-Sound :
      Pending k 1
      → (k.current_process == null) ≡ true
      → Exits (Handled (resume (here k rq q fs t h g))) (exception_handler k)
  unfolding handle_plt_interrupt
  idle_slice-Sound p z =
      let k0 = record k { timer = 5000 } in
      let s0 : Steady k k0 = record { count = refl; devices = refl; family = refl } in
      slice_end k p.code (Pending-line k 1 p) (
        rw z (
          Exits-mono
            (scheduler-Scheduled k0 rq q fs (IsNucleus-keep k k0 rq q fs refl refl h.nucleus))
            (λ e k' w. (
              resumes-GoesOn k0 k' e rq w.out w.runs h.nucleus.ready.inside,
              w.runs,
              Scheduled-IsSound k rq q fs h k0 e k' (==→eq k.current_process null z) refl s0 w,
              IsFamily-steady w.steady.family (Marked-same _ _ q w.marks_same) g.no_null g,
            ))))

  -- No line is pending.
  pub spurious-Sound :
      Pending k (w32 - 1) → Exits (Handled (here k rq q fs t h g)) (exception_handler k)
  unfolding exception_handler interrupt_handler
  spurious-Sound p = rw (p.code, Pending-line k (w32 - 1) p) (exits (tt, refl, h, g))

  clock-in_ram : (ram_start ≤ clock_semaphore k) × ((maxint == clock_semaphore k) ≡ false)
  clock-in_ram = (
    omega (arith, h.devices, h.devices_end),
    ne→== maxint (clock_semaphore k) (omega (arith, h.devices, h.devices_end)),
  )

  clock-some : (null == clock_semaphore k) ≡ false
  clock-some = ne→== null (clock_semaphore k) (omega (arith, h.devices, h.devices_end))

  pub tick-Sound :
      Pending k 2
      → Exits
          (Handled (resume (wake_all (clock_semaphore k) (here k rq q fs t h g))))
          (exception_handler k)
  tick-Sound p =
      let a = clock_semaphore k in
      interval_end k p.code (Pending-line k 2 p) (
        Exits-mono (handle_interval_timer_interrupt-Ticked k rq q fs h.nucleus clock-in_ram.1)
          (λ e k' w. (
            elim (Bool-cases (k.current_process == null)) [
              | inl z ↦
                  resumes-GoesOn k k' e (rq ++ q a) (rw z at w.out) (rw z at w.runs)
                    (woken-inside k rq q fs h a (q a) [] (sym (append-nil (q a))))
              | inr z ↦
                  let r : k'.current_process ≡ k.current_process = rw z at w.runs in
                  runs-GoesOn e k' (ap (λ v. v == null) r ∙ z)
            ],
            w.runs,
            Ticked-IsSound k rq q fs h e k' clock-in_ram.0 w,
            IsFamily-steady w.steady.family w.marks (left-null k rq q fs t h g a [] clock-some) g,
          )))

  -- What is passed up moves no process.
  PassedUp-Handled :
      (type : ℕ) (st : Processor) (e : Exit) (k' : Kernel)
      → HasSupport k
      → PassedUp k type st e k'
      → Handled (here k rq q fs t h g) e k'
  PassedUp-Handled type st e k' s w =
      let c = ap (λ (x : Kernel). x.current_process) w.fields in
      (
        runs-GoesOn e k'
            (ap (λ v. v == null) c ∙ ne→== k.current_process null (omega (arith, s.valid))),
        c,
        same-IsSound k rq q fs h k' (ap (λ (x : Kernel). x.asl) w.fields)
            (ap (λ (x : Kernel). x.ready_queue) w.fields) c
            (ap (λ (x : Kernel). x.process_count) w.fields)
            (ap (λ (x : Kernel). x.device_semaphores) w.fields)
            (ap (λ (x : Kernel). x.word) w.fields),
        IsFamily-steady (ap (λ (x : Kernel). families x.asl.pcbs) w.fields)
            (Marked-same _ _ q (ap (λ (x : Kernel). x.asl.pcbs.p_sem_add) w.fields)) g.no_null g,
      )

  pub pass_up-Sound :
      (type : ℕ)
      → HasSupport k
      → IsTrap k (exception_code k.saved.s_cause) type
      → Exits (Handled (here k rq q fs t h g)) (exception_handler k)
  pass_up-Sound type s u =
      Exits-mono (exception_handler-PassedUp k type s u)
        (λ e k' w. PassedUp-Handled type k.saved e k' s w)

  pub pass_up_call-Sound :
      HasSupport k → IsUserCall k → Exits (Handled (here k rq q fs t h g)) (exception_handler k)
  unfolding exception_handler
  pass_up_call-Sound s u =
      rw (u.code, u.low)
        (Exits-mono (syscall_handler-PassedUp k s u.user_mode)
          (λ e k' w. PassedUp-Handled Types.generalexcept (behind_call k.saved) e k' s w))

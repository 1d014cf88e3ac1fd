-- ===== src/Nucleus/Reach/Effect.antt =====
-- What each exception does to the lists of processes.
use pandos_phase.Prelude.{◌≡◌, suc, ◌<◌, ◌==◌, ◌∈◌, ◌∉◌, true, false, ap, subst, List, inl, inr}
use pandos_phase.Types.{Ptr, null}
use pandos_phase.Pcb.Forest.{Forest, members, size}
use pandos_phase.Pcb.Forest.Cut.{progeny}
use pandos_phase.Processes.{is_device_semaphore}
use pandos_phase.Nucleus.Kin.{IsFamily, IsFamily-steady, Marked-same}
use pandos_phase.Nucleus.Kin.Uproot.{Prunes, Uprooted, family-Uprooted}
use pandos_phase.Run.{Exit, Exits, Exits-mono}
use pandos_phase.Kernel.{Kernel}
use pandos_phase.Exceptions.{exception_handler}
use pandos_phase.Nucleus.Abstract.{Abstract, view, Keeps, Handled, bury, ending}
use pandos_phase.Nucleus.Calls.{called}
use pandos_phase.Nucleus.Die.{
  IsDead, exception_handler-IsDead, exception_handler-call-IsDead, exception_handler-invalid-IsDead,
}
use pandos_phase.Nucleus.Reach.Onward.{resumes-GoesOn}
use pandos_phase.Nucleus.Sound.{IsSound}
use pandos_phase.Nucleus.Sound.Ends.{Ended-IsSound}
use pandos_phase.Nucleus.Reach.{
  Ending, trap, unknown, terminate, user_call, invalid, Event, effect, die, create, passeren,
  verhogen, wait_io, get_cpu_time, wait_clock, get_support_ptr, slice_end, idle_slice, tick, device,
  spurious, pass_up, pass_up_call,
}
use pandos_phase.Nucleus.Reach.Calls.{runner, called-IsSound, passeren-Sound, verhogen-Sound}
use pandos_phase.Nucleus.Reach.Others.{
  asks-Sound, slice_end-Sound, idle_slice-Sound, spurious-Sound, tick-Sound, pass_up-Sound,
  pass_up_call-Sound,
}
use pandos_phase.Nucleus.Reach.Devices.{device-Sound}
use pandos_phase.Nucleus.Reach.Waiting.{wait_io-Sound, wait_clock-Sound}
use pandos_phase.Nucleus.Reach.Create.{create-Sound}

-- What an end of the running process leaves.
IsDead-Handled :
    (k : Kernel) (rq : List Ptr) (q : Ptr → List Ptr) (fs : List Ptr) (t : Forest) (parent : Ptr)
    (xs : List Ptr)
    → IsSound k rq q fs
    → Prunes k.asl.pcbs k.current_process parent xs t q fs
    → ((y b : Ptr)
        → y ∈ members (ending (view k rq q fs t))
        → is_device_semaphore k.device_semaphores b ≡ true
        → y ∉ q b)
    → (e : Exit) (k' : Kernel) → IsDead k parent xs (progeny k.current_process t) rq q fs e k'
    → Handled (bury (view k rq q fs t)) e k'
IsDead-Handled k rq q fs t parent xs h after d e k' (k1, w, n, s) =
    let g =
      after k1.asl.pcbs (record { siblings = w.siblings; links = w.links; child = w.child })
        w.sem in
    (
      resumes-GoesOn k1 k' e _ s.out s.runs w.state.ready.inside,
      s.runs,
      Ended-IsSound k rq q fs h parent xs (progeny k.current_process t) d k1 w n e k' s,
      IsFamily-steady s.steady.family (Marked-same _ _ _ s.marks_same) g.no_null g,
    )

runner-Uprooted :
    (k : Kernel) (rq : List Ptr) (q : Ptr → List Ptr) (fs : List Ptr) (t : Forest)
    → IsSound k rq q fs
    → IsFamily k.asl.pcbs t q fs
    → (k.current_process == null) ≡ false
    → suc (size (progeny k.current_process t)) < k.process_count
    → Uprooted k k.current_process t rq q fs
runner-Uprooted k rq q fs t h g r o =
    let l = runner k rq q fs h r in
    family-Uprooted k rq q fs t h g k.current_process
      (g.complete k.current_process l.valid l.not_free) o

-- An exception that ends the running process.
die-Sound :
    (k : Kernel) (rq : List Ptr) (q : Ptr → List Ptr) (fs : List Ptr) (t : Forest)
    → IsSound k rq q fs
    → IsFamily k.asl.pcbs t q fs
    → Ending k
    → (k.current_process == null) ≡ false
    → suc (size (progeny k.current_process t)) < k.process_count
    → ((y b : Ptr)
        → y ∈ members (ending (view k rq q fs t))
        → is_device_semaphore k.device_semaphores b ≡ true
        → y ∉ q b)
    → Exits (Handled (bury (view k rq q fs t))) (exception_handler k)
die-Sound k rq q fs t h g (trap type u none) r o d =
    let z = runner-Uprooted k rq q fs t h g r o in
    Exits-mono
      (exception_handler-IsDead k z.0 z.1 (progeny k.current_process t) rq q fs z.2 o
        (inl (type, u, none)))
      (IsDead-Handled k rq q fs t z.0 z.1 h z.3 d)
die-Sound k rq q fs t h g (unknown above) r o d =
    let z = runner-Uprooted k rq q fs t h g r o in
    Exits-mono
      (exception_handler-IsDead k z.0 z.1 (progeny k.current_process t) rq q fs z.2 o (inr above))
      (IsDead-Handled k rq q fs t z.0 z.1 h z.3 d)
die-Sound k rq q fs t h g (terminate c) r o d =
    let z = runner-Uprooted k rq q fs t h g r o in
    Exits-mono
      (exception_handler-call-IsDead k z.0 z.1 (progeny k.current_process t) rq q fs z.2 o (inl c))
      (IsDead-Handled (called k) rq q fs t z.0 z.1 (called-IsSound k rq q fs h) z.3 d)
die-Sound k rq q fs t h g (user_call u none) r o d =
    let z = runner-Uprooted k rq q fs t h g r o in
    Exits-mono
      (exception_handler-call-IsDead k z.0 z.1 (progeny k.current_process t) rq q fs z.2 o
        (inr (u, none)))
      (IsDead-Handled (called k) rq q fs t z.0 z.1 (called-IsSound k rq q fs h) z.3 d)
die-Sound k rq q fs t h g (invalid i) r o d =
    let z = runner-Uprooted k rq q fs t h g r o in
    Exits-mono
      (exception_handler-invalid-IsDead k z.0 z.1 (progeny k.current_process t) rq q fs z.2 o i)
      (IsDead-Handled (called k) rq q fs t z.0 z.1 (called-IsSound k rq q fs h) z.3 d)

-- The event on the lists of a state.
view-effect :
    (k : Kernel) (rq : List Ptr) (q : Ptr → List Ptr) (fs : List Ptr) (t : Forest)
    → IsSound k rq q fs
    → IsFamily k.asl.pcbs t q fs
    → (ev : Event k (view k rq q fs t))
    → Exits (Handled (effect k (view k rq q fs t) ev)) (exception_handler k)
unfolding effect
view-effect k rq q fs t h g (die e r o d) = die-Sound k rq q fs t h g e r o d
view-effect k rq q fs t h g (create c a) = create-Sound k rq q fs t h g c a
view-effect k rq q fs t h g (passeren c s) = passeren-Sound k rq q fs t h g c s
view-effect k rq q fs t h g (verhogen c s o) = verhogen-Sound k rq q fs t h g c s o
view-effect k rq q fs t h g (wait_io c d r s) = wait_io-Sound k rq q fs t h g c d r s
view-effect k rq q fs t h g (get_cpu_time c) = asks-Sound k rq q fs t h g (inl c)
view-effect k rq q fs t h g (wait_clock c s) = wait_clock-Sound k rq q fs t h g c s
view-effect k rq q fs t h g (get_support_ptr c) = asks-Sound k rq q fs t h g (inr c)
view-effect k rq q fs t h g (slice_end p r s) = slice_end-Sound k rq q fs t h g p r s
view-effect k rq q fs t h g (idle_slice p r) = idle_slice-Sound k rq q fs t h g p r
view-effect k rq q fs t h g (tick p) = tick-Sound k rq q fs t h g p
view-effect k rq q fs t h g (device line dev i s v u) =
    device-Sound k rq q fs t h g line dev i s v u
view-effect k rq q fs t h g (spurious p) = spurious-Sound k rq q fs t h g p
view-effect k rq q fs t h g (pass_up type s u) = pass_up-Sound k rq q fs t h g type s u
view-effect k rq q fs t h g (pass_up_call s u) = pass_up_call-Sound k rq q fs t h g s u

pub exception_handler-effect :
    (k : Kernel) (s : Abstract)
    → Keeps s k
    → (ev : Event k s) → Exits (Handled (effect k s ev)) (exception_handler k)
exception_handler-effect k s h =
    subst
      (λ (t : Abstract). (ev : Event k t) → Exits (Handled (effect k t ev)) (exception_handler k))
      (ap (λ v. record s { running = v }) h.0)
      (view-effect k s.ready s.blocked s.free s.family h.1 h.2)

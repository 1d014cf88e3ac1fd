-- ===== src/Nucleus/Robin.antt =====
-- Round robin: how long a process that is ready waits for its turn.
use pandos_phase.Prelude.{
  ℕ, zero, suc, ◌≡◌, ap, ◌∙◌, subst, List, [], ◌∷◌, ◌++◌, ◌==◌, false, length, arith,
}
use mathlib.Core.List.{append_assoc}
use pandos_phase.Types
use pandos_phase.Types.{Ptr, null}
use pandos_phase.Run.{Exits, Exits-mono}
use pandos_phase.Kernel.{Kernel}
use pandos_phase.Interrupts.{highest_priority_interrupt}
use pandos_phase.Exceptions.{exception_handler, exception_code}
use pandos_phase.Nucleus.Hardware.{slice_end}
use pandos_phase.Nucleus.Slice.{handle_plt_interrupt-Preempted}
use pandos_phase.Nucleus.Sound.{IsSound}
use pandos_phase.Nucleus.Sound.Wake.{Preempted-IsSound}
use pandos_phase.Nucleus.Reach.{Meanwhile}
use pandos_phase.Nucleus.Reach.Calls.{runner}
use pandos_phase.Nucleus.Reach.Invariant.{IsSound-Meanwhile}

-- The local timer interrupts the process that runs.
pub record SliceEnd (k : Kernel) : Type 0 where
  pub code : exception_code k.saved.s_cause ≡ 0
  pub line : highest_priority_interrupt k.saved.s_cause ≡ 1
  pub scale : (k.word Types.timescale_addr == 0) ≡ false

-- Once `n` more time slices have ended, with no other exception in between, `P` holds: the handler
-- leaves each time, whatever the processes do in their slices.
abbrev pub AfterSlices : ℕ → (Kernel → Type 0) → Kernel → Type 0
AfterSlices zero P k = P k
AfterSlices (suc n) P k =
    (k1 : Kernel)
    → Meanwhile k k1
    → SliceEnd k1
    → Exits (λ e. AfterSlices n P) (exception_handler k1)

-- After a slice the first ready process `x` runs, and the one that ran is the last ready one.
slice_turn :
    (k k1 : Kernel) (x : Ptr) (xs : List Ptr) (q : Ptr → List Ptr) (fs : List Ptr)
    → IsSound k (x ∷ xs) q fs
    → (k.current_process == null) ≡ false
    → Meanwhile k k1
    → SliceEnd k1
    → Exits
        (λ e k2. IsSound k2 (xs ++ k.current_process ∷ []) q fs × (k2.current_process ≡ x))
        (exception_handler k1)
slice_turn k k1 x xs q fs h r m s =
    let c : k1.current_process ≡ k.current_process =
      ap (λ (y : Kernel). y.current_process) m.fields in
    let h1 = IsSound-Meanwhile k k1 m (x ∷ xs) q fs h in
    let o = runner k1 (x ∷ xs) q fs h1 (ap (λ p. p == null) c ∙ r) in
    subst
      (λ p.
        Exits (λ e k2. IsSound k2 (xs ++ p ∷ []) q fs × (k2.current_process ≡ x))
          (exception_handler k1))
      c
      (slice_end k1 s.code s.line (
        Exits-mono (handle_plt_interrupt-Preempted k1 (x ∷ xs) q fs h1.nucleus o s.scale)
          (λ e k' w. (Preempted-IsSound k1 (x ∷ xs) q fs h1 e k' o w, w.runs))))

-- A process with `n` others in front of it in the ready queue runs once `n + 1` time slices have
-- ended, with no other exception in between. A process runs, and the queues of the nucleus are well
-- formed; at the end of each slice the time scale is not zero, and in the slices no semaphore is
-- changed on which a process is blocked.
pub AfterSlices-turn :
    (ys : List Ptr) (k : Kernel) (p : Ptr) (zs : List Ptr) (q : Ptr → List Ptr) (fs : List Ptr)
    → IsSound k (ys ++ p ∷ zs) q fs
    → (k.current_process == null) ≡ false
    → AfterSlices (suc (length ys)) (λ k'. k'.current_process ≡ p) k
AfterSlices-turn [] k p zs q fs h r k1 m s =
    Exits-mono (slice_turn k k1 p zs q fs h r m s) (λ e k2 t. t.1)
AfterSlices-turn (y ∷ ys) k p zs q fs h r k1 m s =
    Exits-mono (slice_turn k k1 y (ys ++ p ∷ zs) q fs h r m s) (λ e k2 t.
      AfterSlices-turn ys k2 p (zs ++ k.current_process ∷ []) q fs
        (subst (λ xs. IsSound k2 xs q fs) (append_assoc ys (p ∷ zs) (k.current_process ∷ [])) t.0)
        (ap (λ v. v == null) t.1 ∙ ground (arith, h.nucleus.ready.inside.0)))

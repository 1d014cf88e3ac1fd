-- ===== src/Nucleus/Reach/Onward.antt =====
-- Behind an exception: a process runs where the handler leaves to one.
use pandos_phase.Prelude.{
  ◌<◌, ◌≡◌, ap, ◌∙◌, sym, subst, inl, inr, List, [], ◌∷◌, ◌++◌, ◌==◌, false, arith, Bool-cases,
  ne→==, All,
}
use pandos_phase.Types.{Ptr, null, maxproc}
use pandos_phase.Words.{is_positive}
use pandos_phase.Run.{Exit, ldst, ldcxt, halt, panic, wait}
use pandos_phase.Pcb.Fifo.{head_or_null}
use pandos_phase.Kernel.{Kernel}
use pandos_phase.Nucleus.Dispatch.{resumes, idle_exit}
use pandos_phase.Nucleus.Abstract.{GoesOn}

pub runs-GoesOn : (e : Exit) (k : Kernel) → (k.current_process == null) ≡ false → GoesOn e k
runs-GoesOn (ldst st) k r = r
runs-GoesOn (ldcxt stack_ptr status pc) k r = r
runs-GoesOn halt k r = tt
runs-GoesOn panic k r = tt
runs-GoesOn wait k r = tt

idle-GoesOn : (k k' : Kernel) → GoesOn (idle_exit k) k'
idle-GoesOn k k' = elim (Bool-cases (k.process_count == 0)) [
  | inl z ↦ rw z tt
  | inr z ↦ elim (Bool-cases (is_positive k.soft_block_count)) [
    | inl p ↦ rw (z, p) tt
    | inr p ↦ rw (z, p) tt
  ]
]

valid-runs :
    (k : Kernel) (x : Ptr)
    → k.current_process ≡ x
    → x < maxproc
    → (k.current_process == null) ≡ false
valid-runs k x r v = ap (λ y. y == null) r ∙ ne→== x null (omega (arith, v))

-- The scheduler loads a process only if it has made it the running one.
pub resumes-GoesOn :
    (k k' : Kernel) (e : Exit) (rq : List Ptr)
    → e ≡ resumes k rq
    → k'.current_process ≡ head_or_null rq
    → All (λ y. y < maxproc) rq
    → GoesOn e k'
resumes-GoesOn k k' e [] o r a = subst (λ v. GoesOn v k') (sym o) (idle-GoesOn k k')
resumes-GoesOn k k' e (x ∷ xs) o r a = runs-GoesOn e k' (valid-runs k' x r a.0)

-- A process that has just become ready is not the only choice, but there is one.
pub readied-GoesOn :
    (k : Kernel) (e : Exit) (rq : List Ptr) (p : Ptr)
    → k.current_process ≡ head_or_null (rq ++ p ∷ [])
    → All (λ y. y < maxproc) (rq ++ p ∷ [])
    → GoesOn e k
readied-GoesOn k e [] p r a = runs-GoesOn e k (valid-runs k p r a.0)
readied-GoesOn k e (y ∷ ys) p r a = runs-GoesOn e k (valid-runs k y r a.0)

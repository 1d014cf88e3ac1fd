-- ===== src/Asl/Return.antt =====
-- A process that is blocked and taken out again.
use pandos_phase.Prelude.{
  ◌≡◌, refl, subst, inl, inr, List, [], ◌∷◌, ◌++◌, ◌==◌, ◌∈◌, ◌∉◌, false, erase, arith, has-append,
  ==_refl, ==→eq, Bool-cases,
}
use mathlib.Core.Path.{fun_ext}
use pandos_phase.Types.{Ptr, null}
use pandos_phase.Run.{and_then, Returns, Returns-bind, Returns-mono}
use pandos_phase.Asl.{Asl, insert_blocked, out_blocked}
use pandos_phase.Asl.Enqueue.{joined}
use pandos_phase.Asl.Dequeue.{left_with}
use pandos_phase.Asl.Insert.{CanBlock, insert_blocked-IsAsl}
use pandos_phase.Asl.Invariant.{IsAsl}
use pandos_phase.Asl.Remove.{out_blocked-erase}

erase-append : (p : Ptr) (xs : List Ptr) → p ∉ xs → erase p (xs ++ p ∷ []) ≡ xs
erase-append p [] o = rw (==_refl p) refl
erase-append p (x ∷ xs) o = ground (arith, erase-append p xs)

module _ (s : Asl) (a p : Ptr) (q : Ptr → List Ptr) (i : IsAsl s q) (c : CanBlock a p q)
    (n : (a == null) ≡ false) where
  p-joined : p ∈ joined q a p a
  p-joined = rw (==_refl a) (ground (arith, has-append p (q a) (p ∷ [])))

  back_again : left_with (joined q a p) a (erase p (joined q a p a)) ≡ q
  back_again = fun_ext λ b. elim (Bool-cases (b == a)) [
    | inl m ↦ rw (m, ==_refl a, ==→eq b a m) (erase-append p (q a) (c.free a))
    | inr m ↦ rw m refl
  ]

  -- `insertBlocked` and then `outBlocked` of the same process leave every queue as it was, also
  -- where the semaphore gets a descriptor and loses it again; the process is returned, and keeps the
  -- semaphore in `p_semAdd`. The list is well formed, the process is not blocked, and the address of
  -- the semaphore is neither MAXINT nor NULL.
  pub insert_blocked-out_blocked :
      Returns
        (λ r s'. (r ≡ p) × IsAsl s' q × (s'.pcbs.p_sem_add p ≡ a))
        (and_then (insert_blocked a p s) (λ _. out_blocked p))
  insert_blocked-out_blocked = Returns-bind (insert_blocked-IsAsl s a p q i c) (λ r s1 e.
      Returns-mono (out_blocked-erase s1 a (joined q a p) e.state p p-joined n)
        (λ x s' d. (d.0, subst (IsAsl s') back_again d.1.state, d.1.sem_add)))

-- ===== src/Pcb/Fifo.antt =====
-- `removeProcQ`, `headProcQ` and `emptyProcQ` on a queue as a list.
use pandos_phase.Prelude.{
  ◌≡◌, refl, List, [], ◌∷◌, arith, is_empty, ◌<◌, ==_refl, lt_of_has, lt→ltb, ne→==,
}
use pandos_phase.Types.{Ptr, null, maxproc}
use pandos_phase.Run.{ok, Returns, access}
use pandos_phase.Pcb.{Pcbs, out_proc_q, remove_proc_q, head_proc_q, empty_proc_q}
use pandos_phase.Links.{last, has-last}
use pandos_phase.Pcb.Chain.{IsQueue}
use pandos_phase.Pcb.Remove.{Removed, out_proc_q-erase}

tail-lt : (s : Pcbs) (tp x : Ptr) (xs : List Ptr) → IsQueue s tp (x ∷ xs) → tp < maxproc
tail-lt s tp x xs q = rw (q.tail) (lt_of_has maxproc (last x xs) (x ∷ xs) q.inside (has-last x xs))

remove_proc_q_run :
    (s : Pcbs) (tp : Ptr) → tp < maxproc → remove_proc_q tp s ≡ out_proc_q tp (s.p_next tp) s
unfolding remove_proc_q access
remove_proc_q_run s tp ht = rw (ne→== tp null (omega arith), lt→ltb _ _ ht) refl

-- `removeProcQ` returns the head of a queue that is not empty and leaves the rest in order.
pub remove_proc_q-cons :
    (s : Pcbs) (tp x : Ptr) (xs : List Ptr)
    → IsQueue s tp (x ∷ xs)
    → Returns (Removed s x (x ∷ xs) xs) (remove_proc_q tp s)
remove_proc_q-cons s tp x xs q =
    let r = out_proc_q-erase s tp x (x ∷ xs) q (ground arith) in
    rw (remove_proc_q_run s tp (tail-lt s tp x xs q), q.links.0) (rw (==_refl x) at r)

-- On the empty queue `removeProcQ` returns NULL and changes nothing.
pub remove_proc_q-nil :
    (s : Pcbs) (tp : Ptr) → IsQueue s tp [] → remove_proc_q tp s ≡ ok (null, tp) s
unfolding remove_proc_q
remove_proc_q-nil s tp q = rw (q.tail) refl

abbrev pub head_or_null : List Ptr → Ptr
head_or_null [] = null
head_or_null (x ∷ xs) = x

-- `headProcQ` reads the head of the queue, NULL if it is empty, and changes nothing.
pub head_proc_q-head :
    (s : Pcbs) (tp : Ptr) (xs : List Ptr)
    → IsQueue s tp xs
    → head_proc_q tp s ≡ ok (head_or_null xs) s
unfolding head_proc_q access
head_proc_q-head s tp [] q = rw (q.tail) refl
head_proc_q-head s tp (x ∷ xs) q =
    let ht = tail-lt s tp x xs q in rw (ne→== tp null (omega arith), lt→ltb _ _ ht, q.links.0) refl

-- `emptyProcQ` tells the empty queue from the others.
pub empty_proc_q-nil :
    (s : Pcbs) (tp : Ptr) (xs : List Ptr) → IsQueue s tp xs → empty_proc_q tp ≡ is_empty xs
empty_proc_q-nil s tp [] q = rw (q.tail) refl
empty_proc_q-nil s tp (x ∷ xs) q = let ht = tail-lt s tp x xs q in ground arith

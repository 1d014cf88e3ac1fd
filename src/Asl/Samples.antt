-- ===== src/Asl/Samples.antt =====
-- Runs of asl.c on a small state.
use pandos_phase.Prelude.{
  ◌≡◌, refl, inl, inr, List, [], ◌∷◌, ◌+◌, ◌==◌, ltb, ◌∈◌, if◌then◌else◌, Bool-cases, true, false,
  arith,
}
use pandos_phase.Types.{Ptr, null, maxint}
use pandos_phase.Run.{and_then, Returns, ok}
use pandos_phase.Pcb.{Pcbs}
use pandos_phase.Pcb.Samples.{blank}
use pandos_phase.Pcb.Chain.{IsQueue}
use pandos_phase.Pcb.Free.{count_up, count_up-Distinct}
use pandos_phase.Asl.{Asl, find_semd, insert_blocked, remove_blocked, out_blocked, init_asl}
use pandos_phase.Asl.Invariant.{IsAsl, IsList, last_dummy}
use pandos_phase.Asl.Find.{find_semd_lem}
use pandos_phase.Asl.Enqueue.{Enqueued}
use pandos_phase.Asl.Insert.{insert_blocked-IsAsl}
use pandos_phase.Asl.Dequeue.{Dequeued}
use pandos_phase.Asl.Return.{insert_blocked-out_blocked}
use pandos_phase.Asl.Remove.{remove_blocked-cons, remove_blocked-nil, out_blocked-erase}
use pandos_phase.Asl.Init.{init_asl-IsAsl}

-- The processes 4 and 7 are blocked on the semaphore at 100, and 2 on the one at 200.
abbrev pub waiting_on : Ptr → List Ptr
waiting_on a = if a == 100 then 4 ∷ 7 ∷ [] else if a == 200 then 2 ∷ [] else []

abbrev pub blocked_pcbs : Pcbs
blocked_pcbs = record blank {
  p_next = λ p. if p == 4 then 7 else if p == 7 then 4 else if p == 2 then 2 else null;
  p_prev = λ p. if p == 4 then 7 else if p == 7 then 4 else if p == 2 then 2 else null;
  p_sem_add = λ p. if p == 4 then 100 else if p == 7 then 100 else if p == 2 then 200 else null;
}

-- Their descriptors are 3 and 1.
abbrev pub busy : Asl
busy = record {
  pcbs = blocked_pcbs;
  s_next = λ d.
      if d == 0
      then 3
      else if d == 3
      then 1
      else if d == 1
      then 21
      else if d == 2
      then 4
      else if ltb d 20
      then d + 1
      else null;
  s_sem_add = λ d. if d == 3 then 100 else if d == 1 then 200 else if d == 21 then maxint else 0;
  s_proc_q = λ d. if d == 3 then 7 else if d == 1 then 2 else null;
  semd_h = 0;
  semd_free_h = 2;
}

abbrev used : List Ptr
used = 3 ∷ 1 ∷ 21 ∷ []

abbrev unused : List Ptr
unused = 2 ∷ count_up 17 4

busy-IsList : IsList busy used unused
busy-IsList = record {
  head = refl;
  active = (refl, (refl, (refl, refl)));
  free = omega arith;
  distinct = (refl, (refl, (refl, (refl, (refl, count_up-Distinct 17 4)))));
  inside = omega arith;
  complete = refl;
  sorted = omega arith;
  dummy = refl;
  dummy_key = refl;
}

first-IsQueue : IsQueue blocked_pcbs 7 (4 ∷ 7 ∷ [])
first-IsQueue = record {
  tail = refl;
  links = (refl, refl, (refl, refl, tt));
  distinct = (refl, (refl, tt));
  inside = omega arith;
}

second-IsQueue : IsQueue blocked_pcbs 2 (2 ∷ [])
second-IsQueue = record {
  tail = refl;
  links = (refl, refl, tt);
  distinct = (refl, tt);
  inside = omega arith;
}

busy-queue :
    (d : Ptr)
    → d ∈ used
    → (d == last_dummy) ≡ false
    → IsQueue blocked_pcbs (busy.s_proc_q d) (waiting_on (busy.s_sem_add d))
busy-queue d m n = elim (Bool-cases (d == 3)) [
  | inl e ↦ rw e first-IsQueue
  | inr e ↦ let o : (d == 1) ≡ true = ground arith in rw (e, o) second-IsQueue
]

pub busy-IsAsl : IsAsl busy waiting_on
busy-IsAsl = record {
  ds = used;
  fs = unused;
  list = busy-IsList;
  blocks = record {
    queue = busy-queue;
    nobody = λ a n. ground arith;
    no_dummy = refl;
    apart = λ a b p n m. ground arith;
    knows = λ a p m. ground arith;
  };
  waiting = λ d m n. ground arith;
}

find_semd_lem_example : find_semd 200 busy ≡ ok 1 busy
find_semd_lem_example = find_semd_lem busy 200 used unused busy-IsList

insert_blocked-IsAsl_example : Returns (Enqueued busy 200 5 waiting_on) (insert_blocked 200 5 busy)
insert_blocked-IsAsl_example =
    insert_blocked-IsAsl busy 200 5 waiting_on busy-IsAsl
      (record { valid = omega arith; free = λ b. ground arith; address = refl })

remove_blocked-cons_example :
    Returns
      (λ r s'. (r ≡ 4) × Dequeued busy 100 4 waiting_on (7 ∷ []) null s')
      (remove_blocked 100 busy)
remove_blocked-cons_example = remove_blocked-cons busy 100 waiting_on busy-IsAsl 4 (7 ∷ []) refl

remove_blocked-nil_example : remove_blocked 150 busy ≡ ok null busy
remove_blocked-nil_example = remove_blocked-nil busy 150 waiting_on busy-IsAsl refl refl

out_blocked-erase_example :
    Returns (λ r s'. (r ≡ 2) × Dequeued busy 200 2 waiting_on [] 200 s') (out_blocked 2 busy)
out_blocked-erase_example = out_blocked-erase busy 200 waiting_on busy-IsAsl 2 refl refl

init_asl-IsAsl_example :
    Returns (λ _ s'. IsAsl s' (λ _. []) × (s'.pcbs ≡ busy.pcbs)) (init_asl busy)
init_asl-IsAsl_example = init_asl-IsAsl busy

insert_blocked-out_blocked_example :
    Returns
      (λ r s'. (r ≡ 5) × IsAsl s' waiting_on × (s'.pcbs.p_sem_add 5 ≡ 150))
      (and_then (insert_blocked 150 5 busy) (λ _. out_blocked 5))
insert_blocked-out_blocked_example =
    insert_blocked-out_blocked busy 150 5 waiting_on busy-IsAsl
      (record { valid = omega arith; free = λ b. ground arith; address = refl }) refl

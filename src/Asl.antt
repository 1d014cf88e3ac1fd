-- ===== src/Asl.antt =====
-- phase2/asl.c: the active semaphore list, a sorted list of semaphore descriptors between two
-- dummies, each descriptor with the queue of the processes that are blocked on its semaphore.
pub mod Activate
pub mod Dequeue
pub mod Enqueue
pub mod Find
pub mod Init
pub mod Insert
pub mod Invariant
pub mod Place
pub mod Remove
pub mod Retire
pub mod Return
pub mod Room
pub mod Samples
use pandos_phase.Prelude.{
  ℕ, zero, suc, ◌+◌, ◌-◌, Bool, true, false, not, ◌&&◌, ◌||◌, ltb, ◌==◌, if◌then◌else◌, update,
}
use pandos_phase.Types.{Ptr, null, maxproc, maxint}
use pandos_phase.Run.{Cmd, ok, out_of_fuel, pure, put_back, unless, access, ◌>>=◌, ◌>>◌}
use pandos_phase.Pcb
use pandos_phase.Pcb.{
  Pcbs, mk_empty_proc_q, empty_proc_q, insert_proc_q, remove_proc_q, out_proc_q, head_proc_q,
}

abbrev pub maxsemd : ℕ
maxsemd = maxproc

-- `semd_t semdTable[MAXSEMD + 2]`, a memory for each field of `semd_t`; the two list heads; and
-- the state of pcb.c, on which the operations work too.
pub record Asl : Type 0 where
  pub pcbs : Pcbs
  pub s_next : Ptr → Ptr
  pub s_sem_add : Ptr → Ptr
  pub s_proc_q : Ptr → Ptr
  pub semd_h : Ptr
  pub semd_free_h : Ptr

-- A call of pcb.c.
abbrev pub on_pcbs : {A : Type 0} → Cmd Pcbs A → Cmd Asl A
on_pcbs m s = put_back (λ t. record s { pcbs = t }) (m s.pcbs)

-- `d->f`, a fault unless `d` points into the table of descriptors.
abbrev load : (Asl → Ptr → Ptr) → Ptr → Cmd Asl Ptr
load f d = access (ltb d (maxsemd + 2)) λ s. ok (f s d) s

abbrev store : Ptr → (Asl → Asl) → Cmd Asl (Unit {0})
store d f = access (ltb d (maxsemd + 2)) λ s. ok tt (f s)

abbrev next : Ptr → Cmd Asl Ptr
next = load λ s. s.s_next

abbrev sem_add : Ptr → Cmd Asl Ptr
sem_add = load λ s. s.s_sem_add

abbrev proc_q : Ptr → Cmd Asl Ptr
proc_q = load λ s. s.s_proc_q

abbrev set_next : Ptr → Ptr → Cmd Asl (Unit {0})
set_next d e = store d λ s. record s { s_next = update s.s_next d e }

abbrev set_sem_add : Ptr → Ptr → Cmd Asl (Unit {0})
set_sem_add d a = store d λ s. record s { s_sem_add = update s.s_sem_add d a }

abbrev set_proc_q : Ptr → Ptr → Cmd Asl (Unit {0})
set_proc_q d q = store d λ s. record s { s_proc_q = update s.s_proc_q d q }

abbrev get_head : Cmd Asl Ptr
get_head s = ok s.semd_h s

abbrev get_free : Cmd Asl Ptr
get_free s = ok s.semd_free_h s

abbrev set_head : Ptr → Cmd Asl (Unit {0})
set_head d s = ok tt (record s { semd_h = d })

abbrev set_free : Ptr → Cmd Asl (Unit {0})
set_free d s = ok tt (record s { semd_free_h = d })

-- for (i = 1; i < MAXSEMD; i++) semdTable[i].s_next = &semdTable[i + 1], by the rounds left
pub link_semds : ℕ → ℕ → Cmd Asl (Unit {0})
link_semds zero i = pure tt
link_semds (suc n) i = set_next i (i + 1) >> link_semds n (i + 1)

pub init_asl : Cmd Asl (Unit {0})
init_asl = do
  set_head 0
  set_sem_add (← get_head) 0
  let tail : Ptr = maxsemd + 1
  set_sem_add tail maxint
  set_next (← get_head) tail
  set_next tail null
  set_free 1
  link_semds (maxsemd - 1) 1
  set_next maxsemd null

-- The loop of `findSemd`. The table has MAXSEMD + 2 descriptors, so as many rounds are enough.
find_loop : ℕ → Ptr → Ptr → Cmd Asl Ptr
find_loop zero a current = λ _. out_of_fuel
find_loop (suc k) a current = if current == null then pure null else (do
  b ← sem_add current
  if ltb b a then (do find_loop k a (← next current)) else pure current)

pub find_semd : Ptr → Cmd Asl Ptr
find_semd a = do
  current ← find_loop (maxsemd + 2) a (← next (← get_head))
  if current == null
      then pure null
      else (do b ← sem_add current; pure (if b == a then current else null))

-- The loop of `insertBlocked`: the last descriptor before the place of semaphore `a`.
pub place_loop : ℕ → Ptr → Ptr → Cmd Asl Ptr
place_loop zero a prev = λ _. out_of_fuel
place_loop (suc k) a prev = do
  n ← next prev
  if n == null
      then pure prev
      else (do b ← sem_add n; if ltb b a then place_loop k a n else pure prev)

-- `insertBlocked` from the test of `semdFree_h` to the insertion into the list, the
-- descriptor as the result.
pub activate : Ptr → Cmd Asl Ptr
activate a = do
  semd ← get_free
  set_free (← next semd)
  set_sem_add semd a
  set_proc_q semd mk_empty_proc_q
  prev ← place_loop (maxsemd + 2) a (← get_head)
  set_next semd (← next prev)
  set_next prev semd
  pure semd

-- The end of `insertBlocked`.
pub enqueue : Ptr → Ptr → Ptr → Cmd Asl Bool
enqueue a p semd = do
  q ← on_pcbs (insert_proc_q (← proc_q semd) p)
  set_proc_q semd q
  on_pcbs (Pcb.set_sem_add p a)
  pure false

-- TRUE is failure.
pub insert_blocked : Ptr → Ptr → Cmd Asl Bool
insert_blocked a p = if p == null then pure true else (do
  semd ← find_semd a
  if semd == null
      then (do free ← get_free; if free == null then pure true else (do enqueue a p (← activate a)))
      else enqueue a p semd)

-- The loop of `removeBlocked` and `outBlocked`: the descriptor before `semd`, or the last one.
pub before_loop : ℕ → Ptr → Ptr → Cmd Asl Ptr
before_loop zero semd prev = λ _. out_of_fuel
before_loop (suc k) semd prev = do
  n ← next prev
  if (n == null) || (n == semd) then pure prev else before_loop k semd n

-- What both do with a descriptor whose queue is empty.
pub retire : Ptr → Cmd Asl (Unit {0})
retire semd = do
  prev ← before_loop (maxsemd + 2) semd (← get_head)
  n ← next prev
  unless (not (n == semd)) (do set_next prev (← next semd))
  set_next semd (← get_free)
  set_free semd

pub remove_blocked : Ptr → Cmd Asl Ptr
remove_blocked a = do
  semd ← find_semd a
  if semd == null then pure null else (do
    (removed, q) ← on_pcbs (remove_proc_q (← proc_q semd))
    set_proc_q semd q
    if removed == null then pure null else (do
      on_pcbs (Pcb.set_sem_add removed null)
      q ← proc_q semd
      unless (not (empty_proc_q q)) (retire semd)
      pure removed))

pub out_blocked : Ptr → Cmd Asl Ptr
out_blocked p = if p == null then pure null else (do
  a ← on_pcbs (Pcb.sem_add p)
  if a == null then pure null else (do
    semd ← find_semd a
    if semd == null then pure null else (do
      (removed, q) ← on_pcbs (out_proc_q (← proc_q semd) p)
      set_proc_q semd q
      if removed == null
          then pure null
          else (do q ← proc_q semd; unless (not (empty_proc_q q)) (retire semd); pure p))))

pub head_blocked : Ptr → Cmd Asl Ptr
head_blocked a = do
  semd ← find_semd a
  if semd == null
      then pure null
      else (do q ← proc_q semd; if empty_proc_q q then pure null else on_pcbs (head_proc_q q))

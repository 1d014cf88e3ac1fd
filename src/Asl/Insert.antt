-- ===== src/Asl/Insert.antt =====
-- `insertBlocked` on every branch.
use pandos_phase.Prelude.{
  ◌+◌, ◌<◌, ◌≡◌, refl, sym, ap, subst, ◌∙◌, inl, inr, List, [], ◌∷◌, arith, ◌==◌, false, ◌∈◌, ◌∉◌,
  Bool-cases, ==→eq, if◌then◌else◌, lt_of_has, ne_of_has, ne→==, All-parts,
}
use pandos_phase.Types.{Ptr, null, maxint, maxproc}
use pandos_phase.Run.{ok, Returns, Returns-bind, Returns-mono, and_then}
use pandos_phase.Pcb.{Pcbs, mk_empty_proc_q}
use pandos_phase.Pcb.Chain.{IsQueue}
use pandos_phase.Asl.{Asl, maxsemd, enqueue, find_semd, insert_blocked, activate}
use pandos_phase.Asl.Room.{free-nonempty}
use pandos_phase.Asl.Find.{find_semd_lem}
use pandos_phase.Asl.Activate.{Activated, activate-IsList}
use pandos_phase.Asl.Enqueue.{QueueOnly, Joins, Enqueued, enqueue-IsAsl}
use pandos_phase.Asl.Invariant.{
  find_key, find_key_self, find_key-inside, IsList, IsAsl, ds-inside, last_dummy,
}

-- A process that can be blocked on `a`: it is on no queue, and `a` is not the key of the dummy.
pub record CanBlock (a p : Ptr) (q : Ptr → List Ptr) : Type 0 where
  pub valid : p < maxproc
  pub free : (b : Ptr) → p ∉ q b
  pub address : (maxint == a) ≡ false

insert_blocked_found :
    (s : Asl) (a p d : Ptr)
    → p < maxproc
    → find_semd a s ≡ ok d s
    → d < maxsemd + 2
    → insert_blocked a p s ≡ enqueue a p d s
unfolding insert_blocked
insert_blocked_found s a p d v f i =
    rw (ne→== p null (omega arith), f, ne→== d null (omega arith)) refl

insert_blocked_new :
    (s : Asl) (a p : Ptr)
    → p < maxproc
    → find_semd a s ≡ ok null s
    → s.semd_free_h < maxsemd + 2
    → insert_blocked a p s ≡ and_then (activate a s) (λ d. enqueue a p d)
unfolding insert_blocked
insert_blocked_new s a p v f i =
    rw (ne→== p null (omega arith), f, ne→== s.semd_free_h null (omega arith)) refl

-- The key of the last dummy is no address of a semaphore.
no_dummy_of_key :
    (s : Asl) (a d : Ptr)
    → s.s_sem_add d ≡ a
    → s.s_sem_add last_dummy ≡ maxint
    → (maxint == a) ≡ false
    → (d == last_dummy) ≡ false
no_dummy_of_key s a d k l n = elim (Bool-cases (d == last_dummy)) [
  | inl m ↦ ground (arith, ap s.s_sem_add (==→eq d last_dummy m))
  | inr m ↦ m
]

module _ (s : Asl) (a p : Ptr) (q : Ptr → List Ptr) (i : IsAsl s q) (c : CanBlock a p q) where
  -- The semaphore has a descriptor.
  Joins-found : (d : Ptr) → d ∈ i.ds → s.s_sem_add d ≡ a → Joins s a p d i.ds i.fs q
  Joins-found d m k = record {
    list = i.list;
    blocks = i.blocks;
    waiting = λ e k n o. i.waiting e k n;
    member = m;
    no_dummy = no_dummy_of_key s a d k i.list.dummy_key c.address;
    key = k;
    valid = c.valid;
    free = c.free;
  }

  -- It gets one; `s'` is the state after that.
  module _ (d r : Ptr) (fs : List Ptr) (s' : Asl) (none_yet : find_key s.s_sem_add a i.ds ≡ null)
      (act : Activated s a d i.ds fs r s') where
    key_of : (e : Ptr) → s'.s_sem_add e ≡ (if e == d then a else s.s_sem_add e)
    key_of e = ap (λ f. f e) act.keys

    queue_of : (e : Ptr) → s'.s_proc_q e ≡ (if e == d then mk_empty_proc_q else s.s_proc_q e)
    queue_of e = ap (λ f. f e) act.queues

    fresh-queue :
        (e : Ptr)
        → e ∈ act.ds'
        → (e == last_dummy) ≡ false
        → IsQueue s'.pcbs (s'.s_proc_q e) (q (s'.s_sem_add e))
    fresh-queue e m n = elim (Bool-cases (e == d)) [
      | inl k ↦
          rw (key_of e, queue_of e, k, i.blocks.nobody a none_yet)
            (record { tail = refl; links = tt; distinct = tt; inside = tt })
      | inr k ↦
          rw (key_of e, queue_of e, k)
            (subst (λ t. IsQueue t (s.s_proc_q e) (q (s.s_sem_add e))) (sym act.pcbs)
              (i.blocks.queue e (ground (arith, act.members e)) n))
    ]

    fresh-nobody : (b : Ptr) → find_key s'.s_sem_add b act.ds' ≡ null → q b ≡ []
    fresh-nobody b n = elim (find_key-inside s.s_sem_add b i.ds (ds-inside i.list)) [
      | inl k ↦ i.blocks.nobody b k
      | inr (m, k) ↦
          let e = find_key s.s_sem_add b i.ds in
          let o = ne_of_has d e i.ds act.fresh m in
          let same : s'.s_sem_add e ≡ b = ground (arith, key_of e) in
          let self =
            find_key_self s'.s_sem_add e act.ds' act.list.sorted (ground (arith, act.members e)) in
          ground (
            arith,
            lt_of_has (maxsemd + 2) e i.ds (ds-inside i.list) m,
            subst (λ k. find_key s'.s_sem_add k act.ds' ≡ e) same self,
          )
    ]

    Joins-fresh : Joins s' a p d act.ds' fs q
    Joins-fresh =
        let k : s'.s_sem_add d ≡ a = ground (arith, key_of d) in
        record {
          list = act.list;
          blocks = record {
            queue = fresh-queue;
            nobody = fresh-nobody;
            no_dummy = i.blocks.no_dummy;
            apart = i.blocks.apart;
            knows = λ b x m. ap (λ (t : Pcbs). t.p_sem_add x) act.pcbs ∙ i.blocks.knows b x m;
          };
          waiting = λ e m n o. rw (key_of e, o) (i.waiting e (ground (arith, act.members e)) n);
          member = ground (arith, act.members d);
          no_dummy = no_dummy_of_key s' a d k act.list.dummy_key c.address;
          key = k;
          valid = c.valid;
          free = c.free;
        }

    Enqueued-fresh : Returns (Enqueued s a p q) (enqueue a p r s')
    Enqueued-fresh = rw (act.result) (
        Returns-mono (enqueue-IsAsl s' a p d act.ds' fs q Joins-fresh) (λ b t e. record {
          result = e.result;
          state = e.state;
          rest = subst (λ u. QueueOnly (p ∷ q a) p u t.pcbs) act.pcbs e.rest;
        }))

  insert_blocked_none :
      (fs : List Ptr)
      → i.fs ≡ fs
      → find_key s.s_sem_add a i.ds ≡ null
      → Returns (Enqueued s a p q) (insert_blocked a p s)
  insert_blocked_none [] e n = absurd (free-nonempty s q i p c.valid c.free e)
  insert_blocked_none (d ∷ fs) e n =
      let l = subst (IsList s i.ds) e i.list in
      rw
        (insert_blocked_new s a p c.valid (find_semd_lem s a i.ds i.fs i.list ∙ ap (λ d. ok d s) n)
          (rw (l.free.0) (All-parts (λ e. e < maxsemd + 2) (0 ∷ i.ds) (d ∷ fs) l.inside).1.0))
        (Returns-bind (activate-IsList s a d i.ds fs l n)
          (λ r s' act. Enqueued-fresh d r fs s' n act))

  -- `insertBlocked` appends a process that is not blocked to the queue of the semaphore, which
  -- gets a descriptor if it has none, notes the semaphore in the process, and returns FALSE: it
  -- never runs out of descriptors. The other queues keep their processes. The list is well formed,
  -- and the address of the semaphore is not MAXINT.
  pub insert_blocked-IsAsl : Returns (Enqueued s a p q) (insert_blocked a p s)
  insert_blocked-IsAsl = elim (find_key-inside s.s_sem_add a i.ds (ds-inside i.list)) [
    | inl n ↦ insert_blocked_none i.fs refl n
    | inr (m, k) ↦
        let d = find_key s.s_sem_add a i.ds in
        rw
          (insert_blocked_found s a p d c.valid (find_semd_lem s a i.ds i.fs i.list)
            (lt_of_has (maxsemd + 2) d i.ds (ds-inside i.list) m))
          (enqueue-IsAsl s a p d i.ds i.fs q (Joins-found d m k))
  ]

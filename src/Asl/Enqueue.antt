-- ===== src/Asl/Enqueue.antt =====
-- The end of `insertBlocked`: a process joins the queue of a semaphore that has a descriptor.
use pandos_phase.Prelude.{
  ℕ, ◌+◌, ◌<◌, ◌≡◌, refl, sym, ap, subst, ◌∙◌, ◌⊎◌, inl, inr, List, [], ◌∷◌, ◌++◌, arith, ◌==◌,
  false, ◌∈◌, ◌∉◌, has-append, is_empty, Bool, Bool-cases, ==→eq, ==_refl, update, lt→ltb,
  lt_of_has, ne_of_has,
}
use pandos_phase.Types.{Ptr, maxint, maxproc}
use pandos_phase.Run.{access, Returns, returns, Returns-put_back}
use pandos_phase.Pcb.{Pcbs}
use pandos_phase.Pcb.Chain.{IsQueue, IsQueue-frame}
use pandos_phase.Pcb.Insert.{Inserted, insert_proc_q-append}
use pandos_phase.Asl.{Asl, maxsemd, enqueue}
use pandos_phase.Asl.Invariant.{
  find_key, find_key_self, IsList, Blocks, IsAsl, ds-inside, last_dummy,
}

-- `s'` differs from `s` at most in the queue links of the blocks `xs` and the `p_semAdd` of `p`.
pub record QueueOnly (xs : List Ptr) (p : Ptr) (s s' : Pcbs) : Type 0 where
  pub fields : s' ≡ record s { p_next = s'.p_next; p_prev = s'.p_prev; p_sem_add = s'.p_sem_add }
  pub next_same : (y : ℕ) → y ∉ xs → s'.p_next y ≡ s.p_next y
  pub prev_same : (y : ℕ) → y ∉ xs → s'.p_prev y ≡ s.p_prev y
  pub sem_same : (y : ℕ) → (y == p) ≡ false → s'.p_sem_add y ≡ s.p_sem_add y

pub IsQueue-label :
    (s : Pcbs) (m : Ptr → Ptr) (tp : Ptr) (xs : List Ptr)
    → IsQueue s tp xs
    → IsQueue (record s { p_sem_add = m }) tp xs
IsQueue-label s m tp xs q = record {
  tail = q.tail;
  links = q.links;
  distinct = q.distinct;
  inside = q.inside;
}

-- The process `p` can join the queue of the semaphore `a`, whose descriptor is `d`: no process is
-- on two queues, and only the queue of `d` may be empty.
pub record Joins (s : Asl) (a p d : Ptr) (ds fs : List Ptr) (q : Ptr → List Ptr) : Type 0 where
  pub list : IsList s ds fs
  pub blocks : Blocks s ds q
  pub waiting :
      (e : Ptr)
      → e ∈ ds
      → (e == last_dummy) ≡ false
      → (e == d) ≡ false
      → is_empty (q (s.s_sem_add e)) ≡ false
  pub member : d ∈ ds
  pub no_dummy : (d == last_dummy) ≡ false
  pub key : s.s_sem_add d ≡ a
  pub valid : p < maxproc
  pub free : (b : Ptr) → p ∉ q b

-- The queues once `p` has joined the one of `a`.
abbrev pub joined : (Ptr → List Ptr) → (a p : Ptr) → Ptr → List Ptr
joined q a p = update q a (q a ++ p ∷ [])

-- What the end of `insertBlocked` does.
pub record Enqueued (s : Asl) (a p : Ptr) (q : Ptr → List Ptr) (r : Bool) (s' : Asl) : Type 0 where
  pub result : r ≡ false
  pub state : IsAsl s' (joined q a p)
  pub rest : QueueOnly (p ∷ q a) p s.pcbs s'.pcbs

module _ (s : Asl) (a p d : Ptr) (ds fs : List Ptr) (q : Ptr → List Ptr)
    (j : Joins s a p d ds fs q) where
  d-inside : d < maxsemd + 2
  d-inside = lt_of_has (maxsemd + 2) d ds (ds-inside j.list) j.member

  other_key : (e : Ptr) → e ∈ ds → (e == d) ≡ false → (s.s_sem_add e == a) ≡ false
  other_key e i n = elim (Bool-cases (s.s_sem_add e == a)) [
    | inl m ↦
        let same : s.s_sem_add e ≡ s.s_sem_add d = ==→eq (s.s_sem_add e) a m ∙ sym j.key in
        ground (
          arith,
          find_key_self s.s_sem_add e ds j.list.sorted i,
          find_key_self s.s_sem_add d ds j.list.sorted j.member,
          ap (λ k. find_key s.s_sem_add k ds) same,
        )
    | inr m ↦ m
  ]

  no_maxint : (maxint == a) ≡ false
  no_maxint = ground (arith, other_key last_dummy j.list.dummy, j.no_dummy, j.list.dummy_key)

  found_self : find_key s.s_sem_add a ds ≡ d
  found_self =
      subst (λ k. find_key s.s_sem_add k ds ≡ d) j.key
        (find_key_self s.s_sem_add d ds j.list.sorted j.member)

  -- `tp'` and `t` are what `insertProcQ` leaves.
  module _ (tp' : Ptr) (t : Pcbs) (ins : Inserted s.pcbs p (q a) tp' t) where
    after : Asl
    after = record s {
      pcbs = record t { p_sem_add = update t.p_sem_add p a };
      s_proc_q = update s.s_proc_q d tp';
    }

    after-queue :
        (e : Ptr)
        → e ∈ ds
        → (e == last_dummy) ≡ false
        → IsQueue after.pcbs (after.s_proc_q e) (joined q a p (s.s_sem_add e))
    unfolding after
    after-queue e i n = elim (Bool-cases (e == d)) [
      | inl m ↦
          subst (λ v. IsQueue after.pcbs (after.s_proc_q v) (joined q a p (s.s_sem_add v)))
            (sym (==→eq e d m))
            (rw (==_refl d, j.key, ==_refl a)
              (IsQueue-label t (update t.p_sem_add p a) tp' (q a ++ p ∷ []) ins.0))
      | inr m ↦
          let o = other_key e i m in
          rw (m, o)
            (IsQueue-label t (update t.p_sem_add p a) (s.s_proc_q e) (q (s.s_sem_add e)) (
              IsQueue-frame s.pcbs t (s.s_proc_q e) (p ∷ q a) (q (s.s_sem_add e)) ins.1
                (λ y k. ground (
                  arith,
                  j.blocks.apart (s.s_sem_add e) a y o k,
                  ne_of_has p y (q (s.s_sem_add e)) (j.free (s.s_sem_add e)) k,
                ))
                (j.blocks.queue e i n)))
    ]

    after-apart : (b c x : Ptr) → (b == c) ≡ false → x ∈ joined q a p b → x ∉ joined q a p c
    after-apart b c x n i = ground (
      arith,
      has-append x (q a) (p ∷ []),
      j.blocks.apart b c x n,
      ne_of_has x p (p ∷ []),
      j.free b,
      j.free c,
    )

    after-knows : (b x : Ptr) → x ∈ joined q a p b → after.pcbs.p_sem_add x ≡ b
    unfolding after
    after-knows b x i = ground (
      arith,
      has-append x (q a) (p ∷ []),
      j.blocks.knows b x,
      ap (λ f. f x) (ap (λ (v : Pcbs). v.p_sem_add) ins.1.fields),
      j.free b,
    )

    after-Waiting : (xs : List Ptr) → is_empty (xs ++ p ∷ []) ≡ false
    after-Waiting [] = refl
    after-Waiting (x ∷ xs) = refl

    after-Blocks : Blocks after ds (joined q a p)
    unfolding after
    after-Blocks = record {
      queue = after-queue;
      nobody = λ b n. ground (arith, found_self, d-inside, j.blocks.nobody b n);
      no_dummy = rw no_maxint j.blocks.no_dummy;
      apart = after-apart;
      knows = after-knows;
    }

    after-IsList : IsList after ds fs
    unfolding after
    after-IsList =
        let l = j.list in
        record {
          head = l.head;
          active = l.active;
          free = l.free;
          distinct = l.distinct;
          inside = l.inside;
          complete = l.complete;
          sorted = l.sorted;
          dummy = l.dummy;
          dummy_key = l.dummy_key;
        }

    still_waiting :
        (e : Ptr)
        → (s.s_sem_add e ≡ a)
          ⊎ (((s.s_sem_add e == a) ≡ false) × (is_empty (q (s.s_sem_add e)) ≡ false))
        → is_empty (joined q a p (after.s_sem_add e)) ≡ false
    unfolding after
    still_waiting e (inl m) = rw (m, ==_refl a) (after-Waiting (q a))
    still_waiting e (inr n) = rw (n.0) n.1

    after-IsAsl : IsAsl after (joined q a p)
    after-IsAsl = record {
      ds = ds;
      fs = fs;
      list = after-IsList;
      blocks = after-Blocks;
      waiting = λ e i n. elim (Bool-cases (e == d)) [
        | inl m ↦ still_waiting e (inl (ap s.s_sem_add (==→eq e d m) ∙ j.key))
        | inr m ↦ still_waiting e (inr (other_key e i m, j.waiting e i n m))
      ];
    }

    after-QueueOnly : QueueOnly (p ∷ q a) p s.pcbs after.pcbs
    unfolding after
    after-QueueOnly = record {
      fields = ap (λ (v : Pcbs). record v { p_sem_add = update t.p_sem_add p a }) ins.1.fields;
      next_same = ins.1.next_same;
      prev_same = ins.1.prev_same;
      sem_same = λ y n. rw n (ap (λ (v : Pcbs). v.p_sem_add y) ins.1.fields);
    }

  -- A process that is not blocked joins the queue of the semaphore as its last one, and knows the
  -- semaphore; the other queues keep their processes.
  pub enqueue-IsAsl : Returns (Enqueued s a p q) (enqueue a p d s)
  unfolding enqueue access after
  enqueue-IsAsl = rw (lt→ltb _ _ d-inside) (
      Returns-put_back _ _
        (insert_proc_q-append s.pcbs (s.s_proc_q d) p (q a)
          (subst (λ k. IsQueue s.pcbs (s.s_proc_q d) (q k)) j.key
            (j.blocks.queue d j.member j.no_dummy))
          j.valid (j.free a))
        (λ tp' t ins. rw (lt→ltb _ _ j.valid) (
          returns (record {
            result = refl;
            state = after-IsAsl tp' t ins;
            rest = after-QueueOnly tp' t ins;
          }))))

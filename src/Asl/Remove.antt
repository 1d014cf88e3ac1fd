-- ===== src/Asl/Remove.antt =====
-- `removeBlocked`, `outBlocked` and `headBlocked`.
use pandos_phase.Prelude.{
  ◌+◌, ◌<◌, ◌≡◌, refl, sym, ap, subst, ◌∙◌, inl, inr, List, [], ◌∷◌, arith, ◌==◌, false, ◌∈◌,
  has-erase, Bool-cases, ==→eq, ==_refl, erase, is_empty, Distinct-erase, lt→ltb, lt_of_has, ne→==,
  update,
}
use pandos_phase.Types.{Ptr, null, maxint, maxproc}
use pandos_phase.Run.{ok, access, Returns, returns, Returns-bind, Returns-put_back}
use pandos_phase.Pcb.{Pcbs}
use pandos_phase.Pcb.Fifo.{empty_proc_q-nil, remove_proc_q-cons, head_proc_q-head, head_or_null}
use pandos_phase.Pcb.Chain.{IsQueue}
use pandos_phase.Pcb.Remove.{Removed, out_proc_q-erase}
use pandos_phase.Asl.{Asl, maxsemd, find_semd, remove_blocked, out_blocked, head_blocked}
use pandos_phase.Asl.Find.{find_semd_lem}
use pandos_phase.Asl.Dequeue.{Leaves, Dequeued, retire-Dequeued}
use pandos_phase.Asl.Invariant.{find_key, find_key-inside, IsAsl, ds-inside, last_dummy}

-- The descriptor of a semaphore that somebody is blocked on.
pub record IsOwner (s : Asl) (a d : Ptr) (q : Ptr → List Ptr) (i : IsAsl s q) : Type 0 where
  pub found : find_semd a s ≡ ok d s
  pub member : d ∈ i.ds
  pub valid : d < maxsemd + 2
  pub key : s.s_sem_add d ≡ a
  pub no_dummy : (d == last_dummy) ≡ false
  pub queue : IsQueue s.pcbs (s.s_proc_q d) (q a)

nonempty : (p : Ptr) (xs : List Ptr) → p ∈ xs → is_empty xs ≡ false
nonempty p [] m = absurd (ground arith)
nonempty p (x ∷ xs) m = refl

module _ (s : Asl) (a : Ptr) (q : Ptr → List Ptr) (i : IsAsl s q) where
  -- The address of a semaphore that is not the key of the dummy has a descriptor or nobody waits.
  key-no_dummy : (d : Ptr) → s.s_sem_add d ≡ a → (maxint == a) ≡ false → (d == last_dummy) ≡ false
  key-no_dummy d k n = elim (Bool-cases (d == last_dummy)) [
    | inl m ↦ ground (arith, ap s.s_sem_add (==→eq d last_dummy m), i.list.dummy_key)
    | inr m ↦ m
  ]

  found-IsOwner :
      (find_key s.s_sem_add a i.ds ∈ i.ds) × (s.s_sem_add (find_key s.s_sem_add a i.ds) ≡ a)
      → (maxint == a) ≡ false
      → IsOwner s a (find_key s.s_sem_add a i.ds) q i
  found-IsOwner (m, k) n =
      let d = find_key s.s_sem_add a i.ds in
      let o = key-no_dummy d k n in
      record {
        found = find_semd_lem s a i.ds i.fs i.list;
        member = m;
        valid = lt_of_has (maxsemd + 2) d i.ds (ds-inside i.list) m;
        key = k;
        no_dummy = o;
        queue = subst (λ k. IsQueue s.pcbs (s.s_proc_q d) (q k)) k (i.blocks.queue d m o);
      }

  maxint-ne : is_empty (q a) ≡ false → (maxint == a) ≡ false
  maxint-ne e = elim (Bool-cases (maxint == a)) [
    | inl m ↦ ground (arith, i.blocks.no_dummy, ap q (==→eq maxint a m))
    | inr m ↦ m
  ]

  owner : is_empty (q a) ≡ false → IsOwner s a (find_key s.s_sem_add a i.ds) q i
  owner e = elim (find_key-inside s.s_sem_add a i.ds (ds-inside i.list)) [
    | inl n ↦ absurd (ground (arith, i.blocks.nobody a n, e))
    | inr m ↦ found-IsOwner m (maxint-ne e)
  ]

  pub blocked-IsQueue :
      is_empty (q a) ≡ false → IsQueue s.pcbs (s.s_proc_q (find_key s.s_sem_add a i.ds)) (q a)
  blocked-IsQueue e = (owner e).queue

  no_owner : (maxint == a) ≡ false → q a ≡ [] → find_semd a s ≡ ok null s
  no_owner n e = elim (find_key-inside s.s_sem_add a i.ds (ds-inside i.list)) [
    | inl o ↦ find_semd_lem s a i.ds i.fs i.list ∙ ap (λ d. ok d s) o
    | inr m ↦
        let o = found-IsOwner m n in
        absurd (ground (arith, i.waiting (find_key s.s_sem_add a i.ds) m.0 o.no_dummy, ap q m.1, e))
  ]

  -- Where nobody is blocked, `removeBlocked` returns NULL and changes nothing. The list is well
  -- formed, and the address of the semaphore is not MAXINT.
  pub remove_blocked-nil : (maxint == a) ≡ false → q a ≡ [] → remove_blocked a s ≡ ok null s
  unfolding remove_blocked
  remove_blocked-nil n e = rw (no_owner n e) refl

  head_blocked_run :
      (d : Ptr)
      → IsOwner s a d q i
      → is_empty (q a) ≡ false
      → head_blocked a s ≡ ok (head_or_null (q a)) s
  unfolding head_blocked access
  head_blocked_run d o e =
      rw
        (
          o.found,
          ne→== d null (omega (arith, o.valid)),
          lt→ltb _ _ o.valid,
          empty_proc_q-nil s.pcbs (s.s_proc_q d) (q a) o.queue,
          e,
          head_proc_q-head s.pcbs (s.s_proc_q d) (q a) o.queue,
        )
        refl

  head_blocked_none : (maxint == a) ≡ false → q a ≡ [] → head_blocked a s ≡ ok null s
  unfolding head_blocked
  head_blocked_none n e = rw (no_owner n e) refl

  -- `headBlocked` returns the first process that is blocked on the semaphore, NULL if there is
  -- none, and changes nothing. The list is well formed, and the address of the semaphore is not
  -- MAXINT.
  pub head_blocked-head : (maxint == a) ≡ false → head_blocked a s ≡ ok (head_or_null (q a)) s
  head_blocked-head n = elim (Bool-cases (is_empty (q a))) [
    | inl e ↦
        let none : q a ≡ [] = ground arith in
        head_blocked_none n none ∙ ap (λ xs. ok (head_or_null xs) s) (sym none)
    | inr e ↦ head_blocked_run (find_key s.s_sem_add a i.ds) (owner e) e
  ]

  -- What the departure of the first process from the queue `p ∷ xs` is.
  module _ (p : Ptr) (xs : List Ptr) (e : q a ≡ p ∷ xs) where
    first-Leaves :
        (d : Ptr) (r : Ptr × Ptr) (t : Pcbs)
        → IsOwner s a d q i
        → Removed s.pcbs p (p ∷ xs) xs r t
        → Leaves s a p d q i xs r t (update t.p_sem_add p null)
    first-Leaves d r t o rem =
        let c = subst (IsQueue s.pcbs (s.s_proc_q d)) e o.queue in
        record {
          member = o.member;
          no_dummy = o.no_dummy;
          key = o.key;
          blocked = rw e (rw (==_refl p) refl);
          removed = subst (λ l. Removed s.pcbs p l xs r t) (sym e) rem;
          others = λ y m. rw e (ground (arith, m));
          gone = c.distinct.0;
          sem_same = λ y n. rw n refl;
        }

    -- The first process that is blocked on the semaphore leaves its queue and forgets the
    -- semaphore; the others stay blocked in order. The list is well formed.
    pub remove_blocked-cons :
        Returns (λ r s'. (r ≡ p) × Dequeued s a p q xs null s') (remove_blocked a s)
    unfolding remove_blocked access
    remove_blocked-cons =
        let d = find_key s.s_sem_add a i.ds in
        let o = owner (rw e refl) in
        let c = subst (IsQueue s.pcbs (s.s_proc_q d)) e o.queue in
        rw (o.found, ne→== d null (omega (arith, o.valid)), lt→ltb _ _ o.valid)
          (Returns-put_back _ _ (remove_proc_q-cons s.pcbs (s.s_proc_q d) p xs c) (λ r t rem.
            rw
              (
                rem.result,
                ne→== p null (omega (arith, c.inside.0)),
                lt→ltb _ _ c.inside.0,
                ==_refl d,
              )
              (Returns-bind
                (retire-Dequeued s a p d q i r t (update t.p_sem_add p null) xs
                  (first-Leaves d r t o rem))
                (λ u s' w.
                  returns (refl, subst (λ k. Dequeued s a p q xs k s') (rw (==_refl p) refl) w)))))

  module _ (p : Ptr) (m : p ∈ q a) (n : (a == null) ≡ false) where
    blocked-lt : p < maxproc
    blocked-lt = let o = owner (nonempty p (q a) m) in lt_of_has maxproc p (q a) o.queue.inside m

    out-Leaves :
        (d : Ptr) (r : Ptr × Ptr) (t : Pcbs)
        → IsOwner s a d q i
        → Removed s.pcbs p (q a) (erase p (q a)) r t
        → Leaves s a p d q i (erase p (q a)) r t t.p_sem_add
    out-Leaves d r t o rem = record {
      member = o.member;
      no_dummy = o.no_dummy;
      key = o.key;
      blocked = m;
      removed = rem;
      others = λ y k. has-erase y p (q a) k;
      gone = (Distinct-erase p (q a) o.queue.distinct).1;
      sem_same = λ y k. refl;
    }

    -- A blocked process leaves the queue of its semaphore, wherever it stands, and is returned;
    -- the others stay blocked in order, and `p_semAdd` stays as it was. The list is well formed,
    -- and the address of the semaphore is not NULL.
    pub out_blocked-erase :
        Returns (λ r s'. (r ≡ p) × Dequeued s a p q (erase p (q a)) a s') (out_blocked p s)
    unfolding out_blocked access
    out_blocked-erase =
        let d = find_key s.s_sem_add a i.ds in
        let o = owner (nonempty p (q a) m) in
        let v = blocked-lt in
        rw
          (
            ne→== p null (omega arith),
            lt→ltb _ _ v,
            i.blocks.knows a p m,
            n,
            o.found,
            ne→== d null (omega (arith, o.valid)),
            lt→ltb _ _ o.valid,
          )
          (Returns-put_back _ _ (out_proc_q-erase s.pcbs (s.s_proc_q d) p (q a) o.queue m)
            (λ r t rem.
              rw (rem.result, ne→== p null (omega (arith, v)), ==_refl d)
                (Returns-bind
                  (retire-Dequeued s a p d q i r t t.p_sem_add (erase p (q a))
                    (out-Leaves d r t o rem))
                  (λ u s' w.
                    let k =
                      ap (λ (b : Pcbs). b.p_sem_add p) rem.links.fields ∙ i.blocks.knows a p m in
                    returns (refl, subst (λ k. Dequeued s a p q (erase p (q a)) k s') k w)))))

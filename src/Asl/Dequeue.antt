-- ===== src/Asl/Dequeue.antt =====
-- A process leaves the queue of its semaphore: what `removeBlocked` and `outBlocked` share.
use pandos_phase.Prelude.{
  ◌+◌, ◌≡◌, refl, sym, ap, subst, ◌∙◌, inl, inr, List, [], ◌∷◌, arith, ◌==◌, not, false, ◌∈◌, ◌∉◌,
  has-erase, has-erase-other, Bool-cases, ==→eq, ==_refl, erase, is_empty, Distinct, Distinct-Apart,
  Distinct-erase, lt_of_has, ne_of_has, update,
}
use pandos_phase.Types.{Ptr, null, maxint}
use pandos_phase.Run.{Returns, returns, Returns-mono, unless}
use pandos_phase.Pcb.{Pcbs, empty_proc_q}
use pandos_phase.Pcb.Fifo.{empty_proc_q-nil}
use pandos_phase.Pcb.Chain.{IsQueue, IsQueue-frame}
use pandos_phase.Pcb.Remove.{Removed}
use pandos_phase.Asl.{Asl, maxsemd, retire}
use pandos_phase.Asl.Enqueue.{IsQueue-label, QueueOnly}
use pandos_phase.Asl.Retire.{Retired, retire-IsList}
use pandos_phase.Asl.Invariant.{
  find_key, find_key_self, find_key-inside, IsList, IsAsl, ds-inside, last_dummy,
}

-- The queues once the one of `a` is `ys`.
abbrev pub left_with : (Ptr → List Ptr) → Ptr → List Ptr → Ptr → List Ptr
left_with q a ys = update q a ys

ne_of_key :
    (s : Asl) (a d b e : Ptr)
    → s.s_sem_add d ≡ a
    → s.s_sem_add e ≡ b
    → (b == a) ≡ false
    → (e == d) ≡ false
ne_of_key s a d b e k l n = elim (Bool-cases (e == d)) [
  | inl m ↦ ground (arith, ap s.s_sem_add (==→eq e d m))
  | inr m ↦ m
]

-- The process `p` is out of the queue of `a`, whose descriptor is `d`; `ys` are the others on that
-- queue, and `sem` is `p_semAdd` from then on.
pub record Leaves (s : Asl) (a p d : Ptr) (q : Ptr → List Ptr) (i : IsAsl s q) (ys : List Ptr)
    (r : Ptr × Ptr) (t : Pcbs) (sem : Ptr → Ptr) : Type 0 where
  pub member : d ∈ i.ds
  pub no_dummy : (d == last_dummy) ≡ false
  pub key : s.s_sem_add d ≡ a
  pub blocked : p ∈ q a
  pub removed : Removed s.pcbs p (q a) ys r t
  pub others : (y : Ptr) → y ∈ ys → y ∈ q a
  pub gone : p ∉ ys
  pub sem_same : (y : Ptr) → (y == p) ≡ false → sem y ≡ t.p_sem_add y

module _ (s : Asl) (a p d : Ptr) (q : Ptr → List Ptr) (i : IsAsl s q) (ys : List Ptr)
    (r : Ptr × Ptr) (t : Pcbs) (sem : Ptr → Ptr) (v : Leaves s a p d q i ys r t sem) where
  pub taken : Asl
  taken = record s { pcbs = record t { p_sem_add = sem }; s_proc_q = update s.s_proc_q d r.1 }

  left : Ptr → List Ptr
  left = left_with q a ys

  taken-key : (e : Ptr) → e ∈ i.ds → (e == d) ≡ false → (s.s_sem_add e == a) ≡ false
  taken-key e m n = elim (Bool-cases (s.s_sem_add e == a)) [
    | inl k ↦
        let same : s.s_sem_add e ≡ s.s_sem_add d = ==→eq (s.s_sem_add e) a k ∙ sym v.key in
        ground (
          arith,
          find_key_self s.s_sem_add e i.ds i.list.sorted m,
          find_key_self s.s_sem_add d i.ds i.list.sorted v.member,
          ap (λ k. find_key s.s_sem_add k i.ds) same,
        )
    | inr k ↦ k
  ]

  taken-queue :
      (e : Ptr)
      → e ∈ i.ds
      → (e == last_dummy) ≡ false
      → IsQueue taken.pcbs (taken.s_proc_q e) (left (s.s_sem_add e))
  unfolding taken left
  taken-queue e m n = elim (Bool-cases (e == d)) [
    | inl k ↦
        subst (λ w. IsQueue taken.pcbs (taken.s_proc_q w) (left (s.s_sem_add w)))
          (sym (==→eq e d k))
          (rw (==_refl d, v.key, ==_refl a) (IsQueue-label t sem r.1 ys v.removed.queue))
    | inr k ↦
        let o = taken-key e m k in
        rw (k, o)
          (IsQueue-label t sem (s.s_proc_q e) (q (s.s_sem_add e)) (
            IsQueue-frame s.pcbs t (s.s_proc_q e) (q a) (q (s.s_sem_add e)) v.removed.links
              (λ y l. i.blocks.apart (s.s_sem_add e) a y o l) (i.blocks.queue e m n)))
  ]

  left-sub : (b x : Ptr) → x ∈ left b → x ∈ q b
  unfolding left
  left-sub b x m = ground (arith, v.others x)

  left-apart : (b c x : Ptr) → (b == c) ≡ false → x ∈ left b → x ∉ left c
  left-apart b c x n m =
      let o = i.blocks.apart b c x n (left-sub b x m) in ground (arith, left-sub c x)

  left-gone : (b : Ptr) → p ∉ left b
  unfolding left
  left-gone b = ground (arith, v.gone, i.blocks.apart a b p, v.blocked)

  taken-knows : (b x : Ptr) → x ∈ left b → taken.pcbs.p_sem_add x ≡ b
  unfolding taken
  taken-knows b x m =
      let n = ne_of_has p x (left b) (left-gone b) m in
      v.sem_same x n
      ∙ (ap (λ (w : Pcbs). w.p_sem_add x) v.removed.links.fields
          ∙ i.blocks.knows b x (left-sub b x m))

  left-maxint : left maxint ≡ []
  unfolding left
  left-maxint = ground (arith, i.blocks.no_dummy, v.blocked, ==→eq maxint a)

  taken-QueueOnly : QueueOnly (q a) p s.pcbs taken.pcbs
  unfolding taken
  taken-QueueOnly = record {
    fields = ap (λ (w : Pcbs). record w { p_sem_add = sem }) v.removed.links.fields;
    next_same = v.removed.links.next_same;
    prev_same = v.removed.links.prev_same;
    sem_same = λ y n. v.sem_same y n ∙ ap (λ (w : Pcbs). w.p_sem_add y) v.removed.links.fields;
  }

  taken-IsList : IsList taken i.ds i.fs
  unfolding taken
  taken-IsList =
      let l = i.list in
      record {
        head = l.head;
        active = l.active;
        free = l.free;
        distinct = l.distinct;
        inside = l.inside;
        complete = l.complete;
        sorted = l.sorted;
        dummy = l.dummy;
        dummy_key = l.dummy_key;
      }

  found_key : find_key s.s_sem_add a i.ds ≡ d
  found_key =
      subst (λ k. find_key s.s_sem_add k i.ds ≡ d) v.key
        (find_key_self s.s_sem_add d i.ds i.list.sorted v.member)

  -- Others are left on the queue.
  pub taken-IsAsl : is_empty ys ≡ false → IsAsl taken (left_with q a ys)
  unfolding taken left
  taken-IsAsl o = record {
    ds = i.ds;
    fs = i.fs;
    list = taken-IsList;
    blocks = record {
      queue = taken-queue;
      nobody = λ b n. ground (
        arith,
        found_key,
        i.blocks.nobody b n,
        lt_of_has (maxsemd + 2) d i.ds (ds-inside i.list) v.member,
      );
      no_dummy = left-maxint;
      apart = left-apart;
      knows = taken-knows;
    };
    waiting = λ e m n. ground (arith, i.waiting e m n, o);
  }

  -- Nobody is left on it, and the descriptor is free again.
  module _ (none_left : ys ≡ []) (s' : Asl) (w : Retired taken d i.ds i.fs s') where
    same_key : (e : Ptr) → s'.s_sem_add e ≡ s.s_sem_add e
    unfolding taken
    same_key e = ap (λ (u : Asl). u.s_sem_add e) w.fields

    ds-Distinct : Distinct i.ds
    ds-Distinct = (Distinct-Apart i.ds i.fs i.list.distinct.1).left

    rest-ne : (e : Ptr) → e ∈ erase d i.ds → (e == d) ≡ false
    rest-ne e m = ne_of_has d e (erase d i.ds) (Distinct-erase d i.ds ds-Distinct).1 m

    rest-queue :
        (e : Ptr)
        → e ∈ erase d i.ds
        → (e == last_dummy) ≡ false
        → IsQueue s'.pcbs (s'.s_proc_q e) (left (s'.s_sem_add e))
    rest-queue e m n = rw (same_key e) (
        subst (λ (u : Asl). IsQueue u.pcbs (u.s_proc_q e) (left (s.s_sem_add e))) (sym w.fields)
          (taken-queue e (has-erase e d i.ds m) n))

    rest-nobody : (b : Ptr) → find_key s'.s_sem_add b (erase d i.ds) ≡ null → left b ≡ []
    unfolding left
    rest-nobody b n = elim (Bool-cases (b == a)) [
      | inl k ↦ rw k none_left
      | inr k ↦ rw k (elim (find_key-inside s.s_sem_add b i.ds (ds-inside i.list)) [
        | inl o ↦ i.blocks.nobody b o
        | inr (m, o) ↦
            let e = find_key s.s_sem_add b i.ds in
            let ne = ne_of_key s a d b e v.key o k in
            let h = has-erase-other e d i.ds ne m in
            let self = find_key_self s'.s_sem_add e (erase d i.ds) w.list.sorted h in
            ground (
              arith,
              lt_of_has (maxsemd + 2) e i.ds (ds-inside i.list) m,
              subst (λ k. find_key s'.s_sem_add k (erase d i.ds) ≡ e) (same_key e ∙ o) self,
            )
      ])
    ]

    pub retired-IsAsl : IsAsl s' (left_with q a ys)
    unfolding left
    retired-IsAsl = record {
      ds = erase d i.ds;
      fs = d ∷ i.fs;
      list = w.list;
      blocks = record {
        queue = rest-queue;
        nobody = rest-nobody;
        no_dummy = left-maxint;
        apart = left-apart;
        knows = λ b x m. ap (λ (u : Asl). u.pcbs.p_sem_add x) w.fields ∙ taken-knows b x m;
      };
      waiting = λ e m n.
          rw (same_key e, taken-key e (has-erase e d i.ds m) (rest-ne e m))
            (i.waiting e (has-erase e d i.ds m) n);
    }

-- What the departure of `p` from the queue of `a` comes to.
pub record Dequeued (s : Asl) (a p : Ptr) (q : Ptr → List Ptr) (ys : List Ptr) (sem : Ptr)
    (s' : Asl) : Type 0 where
  pub state : IsAsl s' (left_with q a ys)
  pub rest : QueueOnly (q a) p s.pcbs s'.pcbs
  pub sem_add : s'.pcbs.p_sem_add p ≡ sem
  pub next_null : s'.pcbs.p_next p ≡ null
  pub prev_null : s'.pcbs.p_prev p ≡ null

module _ (s : Asl) (a p d : Ptr) (q : Ptr → List Ptr) (i : IsAsl s q) (r : Ptr × Ptr) (t : Pcbs)
    (sem : Ptr → Ptr) where
  -- The descriptor is freed just where its queue is empty.
  pub retire-Dequeued :
      (ys : List Ptr) (v : Leaves s a p d q i ys r t sem)
      → Returns
          (λ _. Dequeued s a p q ys (sem p))
          (unless
            (not (empty_proc_q r.1))
            (retire d)
            (record s { pcbs = record t { p_sem_add = sem }; s_proc_q = update s.s_proc_q d r.1 }))
  unfolding taken
  retire-Dequeued [] v = rw (empty_proc_q-nil t r.1 [] v.removed.queue) (
      Returns-mono
        (retire-IsList (taken s a p d q i [] r t sem v) d i.ds i.fs
          (taken-IsList s a p d q i [] r t sem v) v.member v.no_dummy)
        (λ u s' w. record {
          state = retired-IsAsl s a p d q i [] r t sem v refl s' w;
          rest =
              subst (λ (u : Asl). QueueOnly (q a) p s.pcbs u.pcbs) (sym w.fields)
                (taken-QueueOnly s a p d q i [] r t sem v);
          sem_add = ap (λ (u : Asl). u.pcbs.p_sem_add p) w.fields;
          next_null = ap (λ (u : Asl). u.pcbs.p_next p) w.fields ∙ v.removed.next_null;
          prev_null = ap (λ (u : Asl). u.pcbs.p_prev p) w.fields ∙ v.removed.prev_null;
        }))
  retire-Dequeued (y ∷ ys) v = rw (empty_proc_q-nil t r.1 (y ∷ ys) v.removed.queue) (
      returns (record {
        state = taken-IsAsl s a p d q i (y ∷ ys) r t sem v refl;
        rest = taken-QueueOnly s a p d q i (y ∷ ys) r t sem v;
        sem_add = refl;
        next_null = v.removed.next_null;
        prev_null = v.removed.prev_null;
      }))

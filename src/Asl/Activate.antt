-- ===== src/Asl/Activate.antt =====
-- The part of `insertBlocked` that takes a free descriptor and puts it in its place in the list.
use mathlib.Core.List.{append_assoc}
use pandos_phase.Prelude.{
  ◌+◌, ◌<◌, ◌≡◌, refl, sym, ◌||◌, ◌==◌, ◌∙◌, ap, subst, List, ◌∷◌, ◌++◌, arith, ◌∈◌, ◌∉◌, All, has,
  All-join, All-parts, Distinct-push, lt_of_has, Distinct, length, length-append, lt→ltb,
  Distinct-Apart, Distinct-pull, has-append, ne_of_has, update,
}
use pandos_phase.Types.{Ptr, null}
use pandos_phase.Links.{LeadsTo, LeadsTo-insert, LeadsTo-frame, last, has-last}
use pandos_phase.Run.{ok, access, Returns, returns}
use pandos_phase.Pcb.{mk_empty_proc_q}
use pandos_phase.Asl.{Asl, maxsemd, place_loop, activate}
use pandos_phase.Asl.Invariant.{
  IsSorted, IsSorted-frame, IsSorted-insert, find_key-frame, find_key, IsList, ds-inside, ds-length,
  last_dummy,
}
use pandos_phase.Asl.Place.{Around, around, place_loop_run}

-- The state once the first free descriptor `d` has the key `a` and stands behind `prev`.
abbrev pub activated : Asl → (a d prev : Ptr) → Asl
activated s a d prev = record s {
  semd_free_h = s.s_next d;
  s_sem_add = update s.s_sem_add d a;
  s_proc_q = update s.s_proc_q d mk_empty_proc_q;
  s_next = update (update s.s_next d (s.s_next prev)) prev d;
}

-- What `activate` does to the list of `ds` when `d` is the first free descriptor.
pub record Activated (s : Asl) (a d : Ptr) (ds fs : List Ptr) (r : Ptr) (s' : Asl) : Type 0 where
  pub ds' : List Ptr
  pub list : IsList s' ds' fs
  pub members : (e : Ptr) → has e ds' ≡ ((e == d) || has e ds)
  pub fresh : d ∉ ds
  pub result : r ≡ d
  pub pcbs : s'.pcbs ≡ s.pcbs
  pub keys : s'.s_sem_add ≡ update s.s_sem_add d a
  pub queues : s'.s_proc_q ≡ update s.s_proc_q d mk_empty_proc_q

-- The state in which the walk of `activate` starts.
abbrev prepared : Asl → (a d : Ptr) → Asl
prepared s a d = record s {
  semd_free_h = s.s_next d;
  s_sem_add = update s.s_sem_add d a;
  s_proc_q = update s.s_proc_q d mk_empty_proc_q;
}

activate_run :
    (s : Asl) (a prev : Ptr)
    → s.semd_free_h < maxsemd + 2
    → prev < maxsemd + 2
    → place_loop (maxsemd + 2) a s.semd_h (prepared s a s.semd_free_h)
      ≡ ok prev (prepared s a s.semd_free_h)
    → activate a s ≡ ok s.semd_free_h (activated s a s.semd_free_h prev)
unfolding activate access
activate_run s a prev h p e = rw (lt→ltb _ _ h, e, lt→ltb _ _ p) refl

module _ (s : Asl) (a d : Ptr) (ds fs : List Ptr) (l : IsList s ds (d ∷ fs))
    (none_yet : find_key s.s_sem_add a ds ≡ null) where
  key' : Ptr → Ptr
  key' = update s.s_sem_add d a

  new : (d ∉ 0 ∷ ds ++ fs) × Distinct (0 ∷ ds ++ fs)
  new = Distinct-pull d (0 ∷ ds) fs l.distinct

  new_ds : d ∉ ds
  new_ds = ground (arith, new.0, has-append d ds fs)

  same_keys : (e : Ptr) → e ∈ ds → key' e ≡ s.s_sem_add e
  unfolding key'
  same_keys e i = ground (arith, ne_of_has d e ds new_ds i)

  found : Around key' a 0 ds
  found =
      around key' a 0 ds (IsSorted-frame s.s_sem_add key' ds l.sorted same_keys)
        (find_key-frame s.s_sem_add key' a ds same_keys ∙ none_yet) (ds-inside l)

  prev : Ptr
  prev = last 0 found.lo

  -- The list after the activation.
  ds' : List Ptr
  ds' = found.lo ++ d ∷ found.hi

  whole' : Distinct (0 ∷ (found.lo ++ found.hi) ++ fs) × (d ∉ 0 ∷ (found.lo ++ found.hi) ++ fs)
  whole' = subst (λ t. Distinct (0 ∷ t ++ fs) × (d ∉ 0 ∷ t ++ fs)) found.whole (new.1, new.0)

  active' : let s' = activated s a d prev in LeadsTo null s'.s_next (s'.s_next 0) ds'
  unfolding prev ds'
  active' =
      let p = Distinct-Apart (0 ∷ found.lo ++ found.hi) fs whole'.0 in
      LeadsTo-insert null s.s_next d 0 found.lo found.hi
        (subst (LeadsTo null s.s_next (s.s_next 0)) found.whole l.active) p.left
        (ground (arith, whole'.1, has-append d (found.lo ++ found.hi) fs))

  at_prev : prev ∈ 0 ∷ found.lo
  unfolding prev
  at_prev = has-last 0 found.lo

  mem' : (e : Ptr) → has e ds' ≡ ((e == d) || has e ds)
  unfolding ds'
  mem' e =
      rw (found.whole, has-append e found.lo (d ∷ found.hi), has-append e found.lo found.hi)
        (ground arith)

  free' : let s' = activated s a d prev in LeadsTo null s'.s_next s'.semd_free_h fs
  free' =
      let s' = activated s a d prev in
      let f = Distinct-Apart (0 ∷ found.lo ++ found.hi) fs whole'.0 in
      LeadsTo-frame null s.s_next s'.s_next (s.s_next d) fs l.free.1 (λ y i.
        let h = has-append d (0 ∷ ds) fs in
        ground (
          arith,
          new.0,
          ne_of_has d y fs,
          has-append prev (0 ∷ found.lo) found.hi,
          at_prev,
          f.apart prev,
          ne_of_has prev y fs,
        ))

  distinct' : Distinct (0 ∷ ds' ++ fs)
  unfolding ds'
  distinct' =
      subst (λ t. Distinct (0 ∷ t)) (sym (append_assoc found.lo (d ∷ found.hi) fs))
        (Distinct-push d (0 ∷ found.lo) (found.hi ++ fs)
          (subst (λ t. d ∉ 0 ∷ t) (append_assoc found.lo found.hi fs) whole'.1)
          (subst (λ t. Distinct (0 ∷ t)) (append_assoc found.lo found.hi fs) whole'.0))

  inside' : All (λ e. e < maxsemd + 2) (0 ∷ ds' ++ fs)
  unfolding ds'
  inside' =
      let p = All-parts (λ e. e < maxsemd + 2) (0 ∷ ds) (d ∷ fs) l.inside in
      let q =
        All-parts (λ e. e < maxsemd + 2) found.lo found.hi
          (subst (All (λ e. e < maxsemd + 2)) found.whole p.0.1) in
      (
        p.0.0,
        All-join (λ e. e < maxsemd + 2) (found.lo ++ d ∷ found.hi) fs
            (All-join (λ e. e < maxsemd + 2) found.lo (d ∷ found.hi) q.0 (p.1.0, q.1)) p.1.1,
      )

  complete' : length ds' + length fs ≡ maxsemd + 1
  unfolding ds'
  complete' = omega (
    arith,
    l.complete,
    ap (length {A = Ptr}) found.whole,
    length-append found.lo found.hi,
    length-append found.lo (d ∷ found.hi),
  )

  sorted' : IsSorted key' ds'
  unfolding ds' key'
  sorted' =
      let k : a ≡ update s.s_sem_add d a d = ground arith in
      IsSorted-insert (update s.s_sem_add d a) d found.lo found.hi
        (subst (IsSorted (update s.s_sem_add d a)) found.whole
          (IsSorted-frame s.s_sem_add (update s.s_sem_add d a) ds l.sorted same_keys))
        (subst (λ v. All (λ e. update s.s_sem_add d a e < v) found.lo) k found.below)
        (subst (λ v. All (λ e. v < update s.s_sem_add d a e) found.hi) k found.above)

  activated-IsList : IsList (activated s a d prev) ds' fs
  unfolding key'
  activated-IsList = record {
    head = l.head;
    active = active';
    free = free';
    distinct = distinct';
    inside = inside';
    complete = complete';
    sorted = sorted';
    dummy = rw (mem' last_dummy) (ground (arith, l.dummy));
    dummy_key = same_keys last_dummy l.dummy ∙ l.dummy_key;
  }

  activate_at : activate a s ≡ ok d (activated s a d prev)
  unfolding prev key'
  activate_at =
      let p = All-parts (λ e. e < maxsemd + 2) (0 ∷ ds) (d ∷ fs) l.inside in
      let q = lt_of_has (maxsemd + 2) (last 0 found.lo) (0 ∷ ds) p.0 (
        subst (λ t. last 0 found.lo ∈ 0 ∷ t) (sym found.whole)
          (ground
            (arith, has-append (last 0 found.lo) (0 ∷ found.lo) found.hi, has-last 0 found.lo))) in
      let walk =
        place_loop_run (maxsemd + 2) (prepared s a d) a 0 ds l.active p.0 (ds-length l)
        ∙ ap (λ v. ok v (prepared s a d)) found.at in
      subst (λ f. activate a s ≡ ok f (activated s a f (last 0 found.lo))) l.free.0
        (activate_run s a (last 0 found.lo) (rw (l.free.0) p.1.0) q (
          subst
            (λ f.
              place_loop (maxsemd + 2) a s.semd_h (prepared s a f)
              ≡ ok (last 0 found.lo) (prepared s a f))
            (sym l.free.0)
            (subst
              (λ h.
                place_loop (maxsemd + 2) a h (prepared s a d)
                ≡ ok (last 0 found.lo) (prepared s a d))
              (sym l.head) walk)))

-- The first free descriptor becomes the one of a semaphore that has none, at its place in the
-- sorted list.
pub activate-IsList :
    (s : Asl) (a d : Ptr) (ds fs : List Ptr)
    → IsList s ds (d ∷ fs)
    → find_key s.s_sem_add a ds ≡ null
    → Returns (Activated s a d ds fs) (activate a s)
activate-IsList s a d ds fs l none_yet = rw (activate_at s a d ds fs l none_yet) (
    returns (record {
      ds' = ds' s a d ds fs l none_yet;
      list = activated-IsList s a d ds fs l none_yet;
      members = mem' s a d ds fs l none_yet;
      fresh = new_ds s a d ds fs l none_yet;
      result = refl;
      pcbs = refl;
      keys = refl;
      queues = refl;
    }))

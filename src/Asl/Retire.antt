-- ===== src/Asl/Retire.antt =====
-- A descriptor whose queue is empty goes back to the free list.
use mathlib.Core.List.{append_assoc}
use pandos_phase.Prelude.{
  ℕ, zero, suc, ◌+◌, ◌<◌, ◌≡◌, refl, sym, subst, List, [], ◌∷◌, ◌++◌, arith, ◌==◌, false, ◌∈◌, ◌∉◌,
  has-append, ==_refl, erase, split, All, All-parts, All-join, Distinct, Distinct-Apart,
  Distinct-pull, Distinct-push, length, length-append, lt→ltb, lt_of_has, ne_of_has, ne→==, update,
}
use pandos_phase.Types.{Ptr, null}
use pandos_phase.Links.{LeadsTo, LeadsTo-frame, LeadsTo-remove, last, has-last}
use pandos_phase.Run.{ok, access, Returns, returns}
use pandos_phase.Asl.{Asl, maxsemd, before_loop, retire}
use pandos_phase.Asl.Invariant.{IsSorted-remove, IsList, ds-length, last_dummy}

before_loop_run :
    (k : ℕ) (s : Asl) (d prev : Ptr) (ys zs : List Ptr)
    → LeadsTo null s.s_next (s.s_next prev) (ys ++ d ∷ zs)
    → All (λ e. e < maxsemd + 2) (prev ∷ ys)
    → d < maxsemd + 2
    → d ∉ ys
    → length ys < k
    → before_loop k d prev s ≡ ok (last prev ys) s
unfolding before_loop access
before_loop_run zero s d prev ys zs h i v o f = absurd (omega arith)
before_loop_run (suc k) s d prev [] zs h i v o f =
    rw (lt→ltb _ _ i.0, h.0, ne→== d null (omega arith), ==_refl d) refl
before_loop_run (suc k) s d prev (y ∷ ys) zs h i v o f =
    let n : (y == d) ≡ false = ground arith in
    rw (lt→ltb _ _ i.0, h.0, ne→== y null (omega (arith, i.1.0)), n)
      (before_loop_run k s d y ys zs h.1 i.1 v (ground arith) (omega arith))

-- The state once `d`, which stands behind `prev`, is the first free descriptor.
abbrev pub retired : Asl → (d prev : Ptr) → Asl
retired s d prev = record s {
  semd_free_h = d;
  s_next = update (update s.s_next prev (s.s_next d)) d s.semd_free_h;
}

retire_run :
    (s : Asl) (d prev : Ptr)
    → before_loop (maxsemd + 2) d s.semd_h s ≡ ok prev s
    → prev < maxsemd + 2
    → d < maxsemd + 2
    → s.s_next prev ≡ d
    → retire d s ≡ ok tt (retired s d prev)
unfolding retire access
retire_run s d prev e p v n = rw (e, lt→ltb _ _ p, n, ==_refl d, lt→ltb _ _ v) refl

-- What the return of `d` to the free list does.
pub record Retired (s : Asl) (d : Ptr) (ds fs : List Ptr) (s' : Asl) : Type 0 where
  pub list : IsList s' (erase d ds) (d ∷ fs)
  pub fields : s' ≡ record s { s_next = s'.s_next; semd_free_h = s'.semd_free_h }

next-last :
    (nx : Ptr → Ptr) (prev d : Ptr) (ys zs : List Ptr)
    → LeadsTo null nx (nx prev) (ys ++ d ∷ zs)
    → nx (last prev ys) ≡ d
next-last nx prev d [] zs h = h.0
next-last nx prev d (y ∷ ys) zs h = next-last nx y d ys zs h.1

module _ (s : Asl) (d : Ptr) (ys zs fs : List Ptr) (l : IsList s (ys ++ d ∷ zs) fs) (first : d ∉ ys)
    (no_dummy : (d == last_dummy) ≡ false) where
  prev : Ptr
  prev = last 0 ys

  parts : All (λ e. e < maxsemd + 2) (0 ∷ ys) × All (λ e. e < maxsemd + 2) (d ∷ zs)
  parts =
      All-parts (λ e. e < maxsemd + 2) (0 ∷ ys) (d ∷ zs)
        (All-parts (λ e. e < maxsemd + 2) (0 ∷ ys ++ d ∷ zs) fs l.inside).0

  prev-lt : prev < maxsemd + 2
  unfolding prev
  prev-lt = lt_of_has (maxsemd + 2) (last 0 ys) (0 ∷ ys) parts.0 (has-last 0 ys)

  apart_fs : (y : Ptr) → y ∈ fs → ((y == d) ≡ false) × ((y == prev) ≡ false)
  unfolding prev
  apart_fs y i =
      let o = (Distinct-Apart (0 ∷ ys ++ d ∷ zs) fs l.distinct).apart in
      (
        ground (arith, ne_of_has d y fs (o d (ground (arith, has-append d (0 ∷ ys) (d ∷ zs)))) i),
        ground (
          arith,
          ne_of_has (last 0 ys) y fs
              (o (last 0 ys)
                (ground (arith, has-append (last 0 ys) (0 ∷ ys) (d ∷ zs), has-last 0 ys)))
              i,
        ),
      )

  active' : let nx' = (retired s d prev).s_next in LeadsTo null nx' (nx' 0) (ys ++ zs)
  unfolding prev
  active' =
      LeadsTo-remove null s.s_next d s.semd_free_h 0 ys zs l.active
        (Distinct-Apart (0 ∷ ys ++ d ∷ zs) fs l.distinct).left

  free' : let s' = retired s d prev in LeadsTo null s'.s_next s'.semd_free_h (d ∷ fs)
  free' =
      let s' = retired s d prev in
      (
        refl,
        subst (λ v. LeadsTo null s'.s_next v fs) (sym (rw (==_refl d) refl))
            (LeadsTo-frame null s.s_next s'.s_next s.semd_free_h fs l.free
              (λ y i. ground (arith, apart_fs y i))),
      )

  without : (d ∉ 0 ∷ (ys ++ zs) ++ fs) × Distinct (0 ∷ (ys ++ zs) ++ fs)
  without =
      subst (λ t. (d ∉ 0 ∷ t) × Distinct (0 ∷ t)) (sym (append_assoc ys zs fs))
        (Distinct-pull d (0 ∷ ys) (zs ++ fs)
          (subst (λ t. Distinct (0 ∷ t)) (append_assoc ys (d ∷ zs) fs) l.distinct))

  inside' : All (λ e. e < maxsemd + 2) (0 ∷ (ys ++ zs) ++ d ∷ fs)
  inside' =
      All-join (λ e. e < maxsemd + 2) (0 ∷ ys ++ zs) (d ∷ fs)
        (All-join (λ e. e < maxsemd + 2) (0 ∷ ys) zs parts.0 parts.1.1)
        (parts.1.0, (All-parts (λ e. e < maxsemd + 2) (0 ∷ ys ++ d ∷ zs) fs l.inside).1)

  retired-IsList : IsList (retired s d prev) (ys ++ zs) (d ∷ fs)
  retired-IsList = record {
    head = l.head;
    active = active';
    free = free';
    distinct = Distinct-push d (0 ∷ ys ++ zs) fs without.0 without.1;
    inside = inside';
    complete = omega (arith, l.complete, length-append ys zs, length-append ys (d ∷ zs));
    sorted = IsSorted-remove s.s_sem_add d ys zs l.sorted;
    dummy =
        ground (
          arith,
          l.dummy,
          has-append last_dummy ys (d ∷ zs),
          has-append last_dummy ys zs,
          no_dummy,
        );
    dummy_key = l.dummy_key;
  }

  retire_at : retire d s ≡ ok tt (retired s d prev)
  unfolding prev
  retire_at =
      retire_run s d (last 0 ys)
        (subst (λ h. before_loop (maxsemd + 2) d h s ≡ ok (last 0 ys) s) (sym l.head)
          (before_loop_run (maxsemd + 2) s d 0 ys zs l.active parts.0 parts.1.0 first
            (omega (arith, ds-length l, length-append ys (d ∷ zs)))))
        prev-lt parts.1.0 (next-last s.s_next 0 d ys zs l.active)

-- The descriptor leaves the list of the active ones and becomes the first free one; nothing but
-- links of descriptors is changed.
pub retire-IsList :
    (s : Asl) (d : Ptr) (ds fs : List Ptr)
    → IsList s ds fs
    → d ∈ ds
    → (d == last_dummy) ≡ false
    → Returns (λ _ s'. Retired s d ds fs s') (retire d s)
retire-IsList s d ds fs l m n =
    let r = split d ds m in
    let k = subst (λ t. IsList s t fs) r.whole l in
    rw (retire_at s d r.before r.after fs k r.first n) (
      returns (record {
        list =
            subst (λ t. IsList (retired s d (prev s d r.before r.after fs k r.first n)) t (d ∷ fs))
              (sym r.erased) (retired-IsList s d r.before r.after fs k r.first n);
        fields = refl;
      }))

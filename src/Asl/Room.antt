-- ===== src/Asl/Room.antt =====
-- The descriptors in use, with the first process of each, and a process that is not blocked.
use pandos_phase.Prelude.{
  ◌<◌, ◌≡◌, ◌≢◌, refl, ap, inl, inr, List, [], ◌∷◌, arith, ◌==◌, false, ◌∈◌, ◌∉◌, has-erase,
  is_empty, Bool-cases, ==→eq, erase, All, Distinct, Distinct-erase, Distinct-Apart,
  Distinct-length, length, length-erase-le, lt_of_has, ne_of_has,
}
use pandos_phase.Types.{Ptr, maxproc}
use pandos_phase.Pcb.Fifo.{head_or_null}
use pandos_phase.Asl.{Asl}
use pandos_phase.Asl.Invariant.{find_key, find_key_self, IsSorted, IsAsl, last_dummy}

-- The first process of each queue.
abbrev heads : (Ptr → List Ptr) → (Ptr → Ptr) → List Ptr → List Ptr
heads q key [] = []
heads q key (d ∷ ds) = head_or_null (q (key d)) ∷ heads q key ds

length-heads :
    (q : Ptr → List Ptr) (key : Ptr → Ptr) (ds : List Ptr) → length (heads q key ds) ≡ length ds
length-heads q key [] = refl
length-heads q key (d ∷ ds) = omega (arith, length-heads q key ds)

has-head : (xs : List Ptr) → is_empty xs ≡ false → head_or_null xs ∈ xs
has-head [] n = absurd (ground arith)
has-head (x ∷ xs) n = ground arith

module _ (q : Ptr → List Ptr) (key : Ptr → Ptr) where
  All-heads :
      (ds : List Ptr)
      → ((d : Ptr) → d ∈ ds → head_or_null (q (key d)) < maxproc)
      → All (λ x. x < maxproc) (heads q key ds)
  All-heads [] h = tt
  All-heads (d ∷ ds) h = (h d (ground arith), All-heads ds (λ e i. h e (ground arith)))

  not-mem-heads :
      (p : Ptr) (ds : List Ptr)
      → ((d : Ptr) → d ∈ ds → (p == head_or_null (q (key d))) ≡ false)
      → p ∉ heads q key ds
  not-mem-heads p [] h = refl
  not-mem-heads p (d ∷ ds) h = ground (arith, h d, not-mem-heads p ds (λ e i. h e (ground arith)))

  Distinct-heads :
      (ds : List Ptr)
      → Distinct ds
      → ((d e : Ptr)
          → d ∈ ds
          → e ∈ ds
          → (d == e) ≡ false
          → (head_or_null (q (key d)) == head_or_null (q (key e))) ≡ false)
      → Distinct (heads q key ds)
  Distinct-heads [] s h = tt
  Distinct-heads (d ∷ ds) s h = (
    not-mem-heads (head_or_null (q (key d))) ds
        (λ e i. h d e (ground arith) (ground arith) (ground (arith, ne_of_has d e ds s.0 i))),
    Distinct-heads ds s.1 (λ a b i j n. h a b (ground arith) (ground arith) n),
  )

keys-ne :
    (key : Ptr → Ptr) (d e : Ptr) (ds : List Ptr)
    → IsSorted key ds
    → d ∈ ds
    → e ∈ ds
    → (d == e) ≡ false
    → (key d == key e) ≡ false
keys-ne key d e ds o i j n = elim (Bool-cases (key d == key e)) [
  | inl m ↦ ground (
    arith,
    find_key_self key d ds o i,
    find_key_self key e ds o j,
    ap (λ k. find_key key k ds) (==→eq (key d) (key e) m),
  )
  | inr m ↦ m
]

module _ (s : Asl) (q : Ptr → List Ptr) (i : IsAsl s q) where
  -- The descriptors of semaphores.
  used : List Ptr
  used = erase last_dummy i.ds

  used-parts : Distinct used × (last_dummy ∉ used)
  unfolding used
  used-parts = Distinct-erase last_dummy i.ds (Distinct-Apart i.ds i.fs i.list.distinct.1).left

  has-used : (d : Ptr) → d ∈ used → (d ∈ i.ds) × ((d == last_dummy) ≡ false)
  unfolding used
  has-used d m =
      (has-erase d last_dummy i.ds m, ground (arith, ne_of_has last_dummy d used used-parts.1 m))

  head-in : (d : Ptr) → d ∈ used → head_or_null (q (s.s_sem_add d)) ∈ q (s.s_sem_add d)
  head-in d m = let u = has-used d m in has-head (q (s.s_sem_add d)) (i.waiting d u.0 u.1)

  head-lt : (d : Ptr) → d ∈ used → head_or_null (q (s.s_sem_add d)) < maxproc
  head-lt d m =
      let u = has-used d m in
      lt_of_has maxproc (head_or_null (q (s.s_sem_add d))) (q (s.s_sem_add d))
        (i.blocks.queue d u.0 u.1).inside (head-in d m)

  -- Each used descriptor has a process of its own, and `p` is another one.
  heads-Distinct : (p : Ptr) → ((b : Ptr) → p ∉ q b) → Distinct (p ∷ heads q s.s_sem_add used)
  heads-Distinct p free = (
    not-mem-heads q s.s_sem_add p used (λ d m.
        let o =
          ne_of_has p (head_or_null (q (s.s_sem_add d))) (q (s.s_sem_add d)) (free (s.s_sem_add d))
            (head-in d m) in
        ground (arith, o)),
    Distinct-heads q s.s_sem_add used used-parts.0 (λ d e m k n.
        let a = keys-ne s.s_sem_add d e i.ds i.list.sorted (has-used d m).0 (has-used e k).0 n in
        let o =
          i.blocks.apart (s.s_sem_add d) (s.s_sem_add e) (head_or_null (q (s.s_sem_add d))) a
            (head-in d m) in
        let r =
          ne_of_has (head_or_null (q (s.s_sem_add d))) (head_or_null (q (s.s_sem_add e)))
            (q (s.s_sem_add e)) o (head-in e k) in
        ground (arith, r)),
  )

  -- With MAXPROC descriptors, a process that is not blocked leaves one of them free.
  pub free-nonempty : (p : Ptr) → p < maxproc → ((b : Ptr) → p ∉ q b) → i.fs ≢ []
  unfolding used
  free-nonempty p v free e =
      let n =
        Distinct-length maxproc (p ∷ heads q s.s_sem_add used) (heads-Distinct p free)
          (v, All-heads q s.s_sem_add used head-lt) in
      absurd (
        omega (
          arith,
          n,
          length-heads q s.s_sem_add used,
          length-erase-le last_dummy i.ds,
          i.list.complete,
          ap (length {A = Ptr}) e,
        ))

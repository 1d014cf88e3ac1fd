-- ===== src/Asl/Invariant.antt =====
-- The active semaphore list as what it stands for: a queue of blocked processes for each semaphore.
use pandos_phase.Prelude.{
  ◌+◌, ◌<◌, ◌≡◌, List, [], ◌∷◌, ◌++◌, arith, ◌==◌, false, ◌∈◌, ◌∉◌, All, Distinct, length, is_empty,
  Distinct-length, All-weaken, All-join, length-append, All-parts, Bool-cases, inl, inr, ◌⊎◌, refl,
  if◌then◌else◌,
}
use pandos_phase.Types.{Ptr, null, maxint}
use pandos_phase.Links.{LeadsTo}
use pandos_phase.Pcb.Chain.{IsQueue}
use pandos_phase.Asl.{Asl, maxsemd}

-- The keys of the descriptors grow along the list.
abbrev pub IsSorted : (Ptr → Ptr) → List Ptr → Type 0
IsSorted key [] = Unit
IsSorted key (d ∷ ds) = All (λ e. key d < key e) ds × IsSorted key ds

-- The descriptor with the key `a`, NULL if there is none: a search through the whole list.
abbrev pub find_key : (Ptr → Ptr) → Ptr → List Ptr → Ptr
find_key key a [] = null
find_key key a (d ∷ ds) = if key d == a then d else find_key key a ds

-- The dummy at the end of the list.
abbrev pub last_dummy : Ptr
last_dummy = maxsemd + 1

-- `ds` are the active descriptors behind the first dummy, the last dummy among them, and `fs` the
-- free ones.
pub record IsList (s : Asl) (ds fs : List Ptr) : Type 0 where
  pub head : s.semd_h ≡ 0
  pub active : LeadsTo null s.s_next (s.s_next 0) ds
  pub free : LeadsTo null s.s_next s.semd_free_h fs
  pub distinct : Distinct (0 ∷ ds ++ fs)
  pub inside : All (λ d. d < maxsemd + 2) (0 ∷ ds ++ fs)
  pub complete : length ds + length fs ≡ maxsemd + 1
  pub sorted : IsSorted s.s_sem_add ds
  pub dummy : last_dummy ∈ ds
  pub dummy_key : s.s_sem_add last_dummy ≡ maxint

-- `q a` are the processes that are blocked on the semaphore at `a`, the first to be woken first:
-- nobody is blocked twice, and each knows the semaphore that it is blocked on.
pub record Blocks (s : Asl) (ds : List Ptr) (q : Ptr → List Ptr) : Type 0 where
  pub queue :
      (d : Ptr)
      → d ∈ ds
      → (d == last_dummy) ≡ false
      → IsQueue s.pcbs (s.s_proc_q d) (q (s.s_sem_add d))
  pub nobody : (a : Ptr) → find_key s.s_sem_add a ds ≡ null → q a ≡ []
  pub no_dummy : q maxint ≡ []
  pub apart : (a b p : Ptr) → (a == b) ≡ false → p ∈ q a → p ∉ q b
  pub knows : (a p : Ptr) → p ∈ q a → s.pcbs.p_sem_add p ≡ a

-- Only a semaphore with somebody blocked on it has a descriptor.
abbrev pub Waiting : Asl → List Ptr → (Ptr → List Ptr) → Type 0
Waiting s ds q =
    (d : Ptr) → d ∈ ds → (d == last_dummy) ≡ false → is_empty (q (s.s_sem_add d)) ≡ false

-- The state of asl.c with the blocked processes `q`.
pub record IsAsl (s : Asl) (q : Ptr → List Ptr) : Type 0 where
  pub ds : List Ptr
  pub fs : List Ptr
  pub list : IsList s ds fs
  pub blocks : Blocks s ds q
  pub waiting : Waiting s ds q

pub ds-length : {s : Asl} {ds fs : List Ptr} → IsList s ds fs → length ds < maxsemd + 2
ds-length {ds} {fs} l =
    omega
      (arith, Distinct-length (maxsemd + 2) (0 ∷ ds ++ fs) l.distinct l.inside, length-append ds fs)

pub ds-inside : {s : Asl} {ds fs : List Ptr} → IsList s ds fs → All (λ d. d < maxsemd + 2) ds
ds-inside {ds} {fs} l = (All-parts (λ d. d < maxsemd + 2) ds fs l.inside.1).0

All-has :
    (key : Ptr → Ptr) (a d : Ptr) (ds : List Ptr) → All (λ e. a < key e) ds → d ∈ ds → a < key d
All-has key a d [] h i = absurd (ground arith)
All-has key a d (e ∷ ds) h i = elim (Bool-cases (d == e)) [
  | inl m ↦ ground (arith, h.0)
  | inr n ↦ All-has key a d ds h.1 (ground arith)
]

-- The keys of the list are distinct, so a descriptor is found by its key.
pub find_key_self :
    (key : Ptr → Ptr) (d : Ptr) (ds : List Ptr)
    → IsSorted key ds
    → d ∈ ds
    → find_key key (key d) ds ≡ d
find_key_self key d [] o i = absurd (ground arith)
find_key_self key d (e ∷ ds) o i = elim (Bool-cases (d == e)) [
  | inl m ↦ ground arith
  | inr n ↦
      let j : d ∈ ds = ground arith in
      ground (arith, All-has key (key e) d ds o.0 j, find_key_self key d ds o.1 j)
]

pub find_key-inside :
    (key : Ptr → Ptr) (a : Ptr) (ds : List Ptr)
    → All (λ d. d < maxsemd + 2) ds
    → (find_key key a ds ≡ null) ⊎ ((find_key key a ds ∈ ds) × (key (find_key key a ds) ≡ a))
find_key-inside key a [] i = inl refl
find_key-inside key a (d ∷ ds) i = elim (Bool-cases (key d == a)) [
  | inl m ↦ inr (ground arith, ground arith)
  | inr n ↦ ground (arith, find_key-inside key a ds i.1)
]

-- Keys that agree on the list.
module _ (key key' : Ptr → Ptr) where
  pub IsSorted-frame :
      (ds : List Ptr) → IsSorted key ds → ((d : Ptr) → d ∈ ds → key' d ≡ key d) → IsSorted key' ds
  IsSorted-frame [] o same = tt
  IsSorted-frame (d ∷ ds) o same = (
    All-weaken (λ e. key d < key e) (λ e. key' d < key' e) ds
        (λ y i l. ground (arith, same d, same y)) o.0,
    IsSorted-frame ds o.1 (λ y i. same y (ground arith)),
  )

  pub find_key-frame :
      (a : Ptr) (ds : List Ptr)
      → ((d : Ptr) → d ∈ ds → key' d ≡ key d)
      → find_key key' a ds ≡ find_key key a ds
  find_key-frame a [] same = refl
  find_key-frame a (d ∷ ds) same =
      ground (arith, same d, find_key-frame a ds (λ y i. same y (ground arith)))

pub IsSorted-insert :
    (key : Ptr → Ptr) (d : Ptr) (lo hi : List Ptr)
    → IsSorted key (lo ++ hi)
    → All (λ e. key e < key d) lo
    → All (λ e. key d < key e) hi
    → IsSorted key (lo ++ d ∷ hi)
IsSorted-insert key d [] hi o b a = (a, o)
IsSorted-insert key d (x ∷ lo) hi o b a =
    let p = All-parts (λ e. key x < key e) lo hi o.0 in
    (
      All-join (λ e. key x < key e) lo (d ∷ hi) p.0 (b.0, p.1),
      IsSorted-insert key d lo hi o.1 b.1 a,
    )

pub IsSorted-remove :
    (key : Ptr → Ptr) (d : Ptr) (lo hi : List Ptr)
    → IsSorted key (lo ++ d ∷ hi)
    → IsSorted key (lo ++ hi)
IsSorted-remove key d [] hi o = o.1
IsSorted-remove key d (x ∷ lo) hi o =
    let p = All-parts (λ e. key x < key e) lo (d ∷ hi) o.0 in
    (All-join (λ e. key x < key e) lo hi p.0 p.1.1, IsSorted-remove key d lo hi o.1)

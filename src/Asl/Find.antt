-- ===== src/Asl/Find.antt =====
-- `findSemd`: the walk along the sorted list, and the search through the whole list.
use pandos_phase.Prelude.{
  ℕ, zero, suc, ◌+◌, ◌<◌, ◌≡◌, refl, ◌∙◌, ◌⊎◌, sym, ap, subst, List, [], ◌∷◌, arith, ◌==◌, ltb, All,
  length, if◌then◌else◌, lt→ltb, ne→==, Bool-cases, inl, inr,
}
use pandos_phase.Types.{Ptr, null}
use pandos_phase.Links.{LeadsTo}
use pandos_phase.Run.{ok, access}
use pandos_phase.Asl.{Asl, maxsemd, find_loop, find_semd}
use pandos_phase.Asl.Invariant.{IsSorted, find_key, IsList, ds-inside, ds-length}

-- Where the walk stops.
abbrev seek : (Ptr → Ptr) → Ptr → List Ptr → Ptr
seek key a [] = null
seek key a (d ∷ ds) = if ltb (key d) a then seek key a ds else d

find_loop_run :
    (k : ℕ) (s : Asl) (a c : Ptr) (ds : List Ptr)
    → LeadsTo null s.s_next c ds
    → All (λ d. d < maxsemd + 2) ds
    → length ds < k
    → find_loop k a c s ≡ ok (seek s.s_sem_add a ds) s
unfolding find_loop access
find_loop_run zero s a c ds h i f = absurd (omega arith)
find_loop_run (suc k) s a c [] h i f = rw h refl
find_loop_run (suc k) s a c (d ∷ ds) h i f = elim (Bool-cases (ltb (s.s_sem_add d) a)) [
  | inl l ↦
      rw (h.0, ne→== d null (omega (arith, i.0)), lt→ltb _ _ i.0, l)
        (find_loop_run k s a (s.s_next d) ds h.1 i.1 (omega arith))
  | inr l ↦ rw (h.0, ne→== d null (omega (arith, i.0)), lt→ltb _ _ i.0, l) refl
]

-- What `findSemd` makes of the place where the walk stops.
abbrev hit : (Ptr → Ptr) → Ptr → Ptr → Ptr
hit key a d = if d == null then null else if key d == a then d else null

find_key-above :
    (key : Ptr → Ptr) (a : Ptr) (ds : List Ptr) → All (λ e. a < key e) ds → find_key key a ds ≡ null
find_key-above key a [] h = refl
find_key-above key a (d ∷ ds) h = ground (arith, h.0, find_key-above key a ds h.1)

All-above :
    (key : Ptr → Ptr) (a b : Ptr) (ds : List Ptr)
    → a < b
    → All (λ e. b < key e) ds
    → All (λ e. a < key e) ds
All-above key a b [] l h = tt
All-above key a b (d ∷ ds) l h = (omega (arith, h.0), All-above key a b ds l h.1)

hit-seek :
    (key : Ptr → Ptr) (a : Ptr) (ds : List Ptr)
    → IsSorted key ds
    → All (λ d. d < maxsemd + 2) ds
    → hit key a (seek key a ds) ≡ find_key key a ds
hit-seek key a [] o i = refl
hit-seek key a (d ∷ ds) o i = elim (Bool-cases (ltb (key d) a)) [
  | inl l ↦ rw l (hit-seek key a ds o.1 i.1 ∙ ground arith)
  | inr l ↦ rw l (elim (Bool-cases (key d == a)) [
    | inl e ↦ ground (arith, i.0)
    | inr n ↦
        ground (arith, i.0, find_key-above key a ds (All-above key a (key d) ds (ground arith) o.0))
  ])
]

seek-valid :
    (key : Ptr → Ptr) (a : Ptr) (ds : List Ptr)
    → All (λ d. d < maxsemd + 2) ds
    → (seek key a ds ≡ null) ⊎ (seek key a ds < maxsemd + 2)
seek-valid key a [] i = inl refl
seek-valid key a (d ∷ ds) i = ground (arith, i.0, seek-valid key a ds i.1)

find_semd_run :
    (s : Asl) (a c : Ptr)
    → s.semd_h < maxsemd + 2
    → find_loop (maxsemd + 2) a (s.s_next s.semd_h) s ≡ ok c s
    → (c ≡ null) ⊎ (c < maxsemd + 2)
    → find_semd a s ≡ ok (hit s.s_sem_add a c) s
unfolding find_semd access
find_semd_run s a c h f (inl e) = rw (lt→ltb _ _ h, f, e) refl
find_semd_run s a c h f (inr l) =
    rw (lt→ltb _ _ h, f, ne→== c null (omega arith), lt→ltb _ _ l) refl

-- `findSemd` returns the descriptor of the semaphore, wherever it stands in the list, and NULL if
-- there is none; it changes nothing. The list is well formed.
pub find_semd_lem :
    (s : Asl) (a : Ptr) (ds fs : List Ptr)
    → IsList s ds fs
    → find_semd a s ≡ ok (find_key s.s_sem_add a ds) s
find_semd_lem s a ds fs l =
    let inside = ds-inside l in
    let path = subst (λ h. LeadsTo null s.s_next (s.s_next h) ds) (sym l.head) l.active in
    let c = seek s.s_sem_add a ds in
    find_semd_run s a c (rw (l.head) (omega arith))
      (find_loop_run (maxsemd + 2) s a (s.s_next s.semd_h) ds path inside (ds-length l))
      (seek-valid s.s_sem_add a ds inside)
    ∙ ap (λ d. ok d s) (hit-seek s.s_sem_add a ds l.sorted inside)

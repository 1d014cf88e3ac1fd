-- ===== src/Asl/Place.antt =====
-- The walk of `insertBlocked` to the place of a new descriptor.
use pandos_phase.Prelude.{
  ℕ, zero, suc, ◌+◌, ◌<◌, ◌≡◌, refl, ap, List, [], ◌∷◌, ◌++◌, arith, ltb, All, length,
  if◌then◌else◌, lt→ltb, ne→==, Bool-cases, inl, inr,
}
use pandos_phase.Types.{Ptr, null}
use pandos_phase.Links.{LeadsTo, last}
use pandos_phase.Run.{ok, access}
use pandos_phase.Asl.{Asl, maxsemd, place_loop}
use pandos_phase.Asl.Invariant.{IsSorted, find_key}

-- The descriptor behind which the walk of `insertBlocked` stops.
abbrev pub place : (Ptr → Ptr) → Ptr → Ptr → List Ptr → Ptr
place key a prev [] = prev
place key a prev (d ∷ ds) = if ltb (key d) a then place key a d ds else prev

pub place_loop_run :
    (k : ℕ) (s : Asl) (a prev : Ptr) (ds : List Ptr)
    → LeadsTo null s.s_next (s.s_next prev) ds
    → All (λ d. d < maxsemd + 2) (prev ∷ ds)
    → length ds < k
    → place_loop k a prev s ≡ ok (place s.s_sem_add a prev ds) s
unfolding place_loop access
place_loop_run zero s a prev ds h i f = absurd (omega arith)
place_loop_run (suc k) s a prev [] h i f = rw (lt→ltb _ _ i.0, h) refl
place_loop_run (suc k) s a prev (d ∷ ds) h i f = elim (Bool-cases (ltb (s.s_sem_add d) a)) [
  | inl l ↦
      rw (lt→ltb _ _ i.0, h.0, ne→== d null (omega (arith, i.1.0)), lt→ltb _ _ i.1.0, l)
        (place_loop_run k s a d ds h.1 i.1 (omega arith))
  | inr l ↦ rw (lt→ltb _ _ i.0, h.0, ne→== d null (omega (arith, i.1.0)), lt→ltb _ _ i.1.0, l) refl
]

-- The list around the place of the key `a`.
pub record Around (key : Ptr → Ptr) (a prev : Ptr) (ds : List Ptr) : Type 0 where
  pub lo : List Ptr
  pub hi : List Ptr
  pub whole : ds ≡ lo ++ hi
  pub at : place key a prev ds ≡ last prev lo
  pub below : All (λ d. key d < a) lo
  pub above : All (λ d. a < key d) hi

above-All :
    (key : Ptr → Ptr) (a b : Ptr) (ds : List Ptr)
    → a < b
    → All (λ e. b < key e) ds
    → All (λ e. a < key e) ds
above-All key a b [] l h = tt
above-All key a b (d ∷ ds) l h = (omega (arith, h.0), above-All key a b ds l h.1)

Around-cons :
    (key : Ptr → Ptr) (a prev d : Ptr) (ds : List Ptr)
    → key d < a
    → Around key a d ds
    → Around key a prev (d ∷ ds)
Around-cons key a prev d ds l r = record {
  lo = d ∷ r.lo;
  hi = r.hi;
  whole = ap (◌∷◌ d) r.whole;
  at = rw (lt→ltb _ _ l) r.at;
  below = (l, r.below);
  above = r.above;
}

pub around :
    (key : Ptr → Ptr) (a prev : Ptr) (ds : List Ptr)
    → IsSorted key ds
    → find_key key a ds ≡ null
    → All (λ d. d < maxsemd + 2) ds
    → Around key a prev ds
around key a prev [] o n i = record {
  lo = [];
  hi = [];
  whole = refl;
  at = refl;
  below = tt;
  above = tt;
}
around key a prev (d ∷ ds) o n i = elim (Bool-cases (ltb (key d) a)) [
  | inl l ↦ Around-cons key a prev d ds (ground arith) (around key a d ds o.1 (ground arith) i.1)
  | inr l ↦
      let g : a < key d = ground (arith, i.0) in
      record {
        lo = [];
        hi = d ∷ ds;
        whole = refl;
        at = rw l refl;
        below = tt;
        above = (g, above-All key a (key d) ds g o.0);
      }
]

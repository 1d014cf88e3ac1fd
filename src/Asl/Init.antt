-- ===== src/Asl/Init.antt =====
-- `initASL`.
use pandos_phase.Prelude.{
  ℕ, zero, suc, ◌+◌, ◌-◌, ◌<◌, ◌≤◌, ◌≡◌, refl, ap, inl, inr, [], ◌∷◌, arith, ◌==◌, Bool-cases,
  ==→eq, update, lt→ltb,
}
use pandos_phase.Types.{null, maxint}
use pandos_phase.Run.{access, Returns, returns, Returns-mono, Returns-bind}
use pandos_phase.Pcb.Free.{count_up, count_up-LeadsTo, count_up-Distinct}
use pandos_phase.Asl.{Asl, maxsemd, init_asl, link_semds}
use pandos_phase.Asl.Invariant.{IsList, IsAsl, last_dummy}

-- What the loop of `initASL` leaves.
record Linked (s : Asl) (n i : ℕ) (s' : Asl) : Type 0 where
  fields : s' ≡ record s { s_next = s'.s_next }
  linked : (j : ℕ) → i ≤ j → j < i + n → s'.s_next j ≡ j + 1
  below : (j : ℕ) → j < i → s'.s_next j ≡ s.s_next j
  above : (j : ℕ) → i + n ≤ j → s'.s_next j ≡ s.s_next j

Linked-suc :
    (s s' : Asl) (n i : ℕ)
    → Linked (record s { s_next = update s.s_next i (i + 1) }) n (i + 1) s'
    → Linked s (suc n) i s'
Linked-suc s s' n i l = record {
  fields = l.fields;
  linked = λ j h k. elim (Bool-cases (j == i)) [
    | inl e ↦ ground (arith, l.below j, ==→eq j i e)
    | inr m ↦ l.linked j (ground arith) (omega arith)
  ];
  below = λ j h. ground (arith, l.below j);
  above = λ j h. ground (arith, l.above j);
}

link_semds-Linked :
    (n i : ℕ) (s : Asl) → i + n < maxsemd + 2 → Returns (λ _. Linked s n i) (link_semds n i s)
unfolding link_semds access
link_semds-Linked zero i s h = returns (record {
  fields = refl;
  linked = λ j k l. absurd (omega arith);
  below = λ j k. refl;
  above = λ j k. refl;
})
link_semds-Linked (suc n) i s h =
    rw (lt→ltb i (maxsemd + 2) (omega arith))
      (Returns-mono (link_semds-Linked n (i + 1) _ (omega arith)) (λ _ s' l. Linked-suc s s' n i l))

-- The state in which the loop of `initASL` starts.
abbrev dummies : Asl → Asl
dummies s = record s {
  semd_h = 0;
  s_sem_add = update (update s.s_sem_add 0 0) (maxsemd + 1) maxint;
  s_next = update (update s.s_next 0 (maxsemd + 1)) (maxsemd + 1) null;
  semd_free_h = 1;
}

module _ (s s' : Asl) (l : Linked (dummies s) (maxsemd - 1) 1 s') where
  initial : Asl
  initial = record s' { s_next = update s'.s_next maxsemd null }

  keys : s'.s_sem_add ≡ (dummies s).s_sem_add
  keys = ap (λ (u : Asl). u.s_sem_add) l.fields

  initial-IsList : IsList initial (last_dummy ∷ []) (count_up maxsemd 1)
  unfolding initial
  initial-IsList = record {
    head = ap (λ (u : Asl). u.semd_h) l.fields;
    active = (ground (arith, l.below 0), ground (arith, l.above (maxsemd + 1)));
    free = rw (ap (λ (u : Asl). u.semd_free_h) l.fields) (
        count_up-LeadsTo (maxsemd - 1) 1 (update s'.s_next maxsemd null)
          (λ j h k. ground (arith, l.linked j)) refl);
    distinct = (refl, (refl, count_up-Distinct maxsemd 1));
    inside = omega arith;
    complete = refl;
    sorted = (tt, tt);
    dummy = refl;
    dummy_key = ap (λ f. f last_dummy) keys;
  }

  initial-IsAsl : IsAsl initial (λ _. [])
  unfolding initial
  initial-IsAsl = record {
    ds = last_dummy ∷ [];
    fs = count_up maxsemd 1;
    list = initial-IsList;
    blocks = record {
      queue = λ d m n. absurd (ground arith);
      nobody = λ a n. refl;
      no_dummy = refl;
      apart = λ a b p n m. refl;
      knows = λ a p m. absurd (ground arith);
    };
    waiting = λ d m n. absurd (ground arith);
  }

-- From any state `initASL` leads to the empty list: nobody is blocked, all MAXSEMD descriptors are
-- free, and the state of pcb.c is as it was.
pub init_asl-IsAsl :
    (s : Asl) → Returns (λ _ s'. IsAsl s' (λ _. []) × (s'.pcbs ≡ s.pcbs)) (init_asl s)
unfolding init_asl access initial
init_asl-IsAsl s =
    Returns-bind (link_semds-Linked (maxsemd - 1) 1 (dummies s) (omega arith))
      λ _ s' l. returns (initial-IsAsl s s' l, ap (λ (u : Asl). u.pcbs) l.fields)

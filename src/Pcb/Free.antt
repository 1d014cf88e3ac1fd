-- ===== src/Pcb/Free.antt =====
-- The free list of pcb.c: `initPcbs`, `allocPcb` and `freePcb`.
use pandos_phase.Prelude.{
  ℕ, zero, suc, ◌+◌, ◌-◌, ◌≤◌, ◌≡◌, refl, List, [], ◌∷◌, arith, ◌==◌, ◌∉◌, ◌<◌, All, Distinct,
  lt→ltb, ne→==, false, Bool-cases, inl, inr, ==_refl, ==→eq, ap, ne_of_has, subst, update,
}
use native.Mathlib.Nat.{add-zero, add_assoc, add_comm}
use native.Mathlib.Numerals.{add-one}
use pandos_phase.Types.{Ptr, null, maxproc, state_reg_num}
use pandos_phase.Links.{LeadsTo, LeadsTo-frame}
use pandos_phase.Run.{ok, Returns, access, Returns-bind, Returns-mono, returns}
use pandos_phase.Pcb.{Pcbs, free_pcb, alloc_pcb, reset_pcb, zero_regs, link_pcbs, init_pcbs}

-- The free list holds the blocks `xs`, first the one that is handed out next.
pub record IsFree (s : Pcbs) (xs : List Ptr) : Type 0 where
  pub path : LeadsTo null s.p_next s.pcb_free_h xs
  pub distinct : Distinct xs
  pub inside : All (λ x. x < maxproc) xs

zero_regs_keep : (n i j : ℕ) (r : ℕ → ℕ) → r j ≡ 0 → zero_regs n i r j ≡ 0
unfolding zero_regs
zero_regs_keep zero i j r e = e
zero_regs_keep (suc n) i j r e = zero_regs_keep n (i + 1) j (update r i 0) (ground arith)

zero_regs_in : (n i j : ℕ) (r : ℕ → ℕ) → i ≤ j → j < i + n → zero_regs n i r j ≡ 0
unfolding zero_regs
zero_regs_in zero i j r h k = absurd (omega arith)
zero_regs_in (suc n) i j r h k = elim (Bool-cases (j == i)) [
  | inl e ↦ zero_regs_keep n (i + 1) j (update r i 0) (rw e)
  | inr m ↦ zero_regs_in n (i + 1) j (update r i 0) (ground arith) (omega arith)
]

-- A block as `allocPcb` hands it out.
pub record IsFresh (s : Pcbs) (p : Ptr) : Type 0 where
  pub next : s.p_next p ≡ null
  pub prev : s.p_prev p ≡ null
  pub prnt : s.p_prnt p ≡ null
  pub child : s.p_child p ≡ null
  pub sib_left : s.p_sib_left p ≡ null
  pub sib_right : s.p_sib_right p ≡ null
  pub time : s.p_time p ≡ 0
  pub sem_add : s.p_sem_add p ≡ null
  pub support_struct : s.p_support_struct p ≡ null
  pub entry_hi : (s.p_s p).s_entry_hi ≡ 0
  pub cause : (s.p_s p).s_cause ≡ 0
  pub status : (s.p_s p).s_status ≡ 0
  pub pc : (s.p_s p).s_pc ≡ 0
  pub reg : (i : ℕ) → i < state_reg_num → (s.p_s p).s_reg i ≡ 0

-- The two states have the same block at `y`.
pub record SameBlock (s s' : Pcbs) (y : Ptr) : Type 0 where
  pub next : s'.p_next y ≡ s.p_next y
  pub prev : s'.p_prev y ≡ s.p_prev y
  pub prnt : s'.p_prnt y ≡ s.p_prnt y
  pub child : s'.p_child y ≡ s.p_child y
  pub sib_right : s'.p_sib_right y ≡ s.p_sib_right y
  pub sib_left : s'.p_sib_left y ≡ s.p_sib_left y
  pub state : s'.p_s y ≡ s.p_s y
  pub time : s'.p_time y ≡ s.p_time y
  pub sem_add : s'.p_sem_add y ≡ s.p_sem_add y
  pub support_struct : s'.p_support_struct y ≡ s.p_support_struct y

-- What `allocPcb` does to the free list `x ∷ xs`.
pub record Allocated (s : Pcbs) (x : Ptr) (xs : List Ptr) (p : Ptr) (s' : Pcbs) : Type 0 where
  pub result : p ≡ x
  pub rest : IsFree s' xs
  pub fresh : IsFresh s' x
  pub start_tod : s'.p_start_tod ≡ s.p_start_tod
  pub others : (y : Ptr) → (y == x) ≡ false → SameBlock s s' y

-- The state that `allocPcb` leaves when it hands out `x`.
abbrev handed_out : Ptr → Pcbs → Pcbs
handed_out x s = reset_pcb x (record s { pcb_free_h = s.p_next x })

alloc_pcb_run :
    (s : Pcbs) → s.pcb_free_h < maxproc → alloc_pcb s ≡ ok s.pcb_free_h (handed_out s.pcb_free_h s)
unfolding alloc_pcb access
alloc_pcb_run s h = rw (ne→== s.pcb_free_h null (omega arith), lt→ltb _ _ h) refl

reset_pcb-IsFresh : (x : Ptr) (s : Pcbs) → IsFresh (reset_pcb x s) x
unfolding reset_pcb
reset_pcb-IsFresh x s = record {
  next = rw (==_refl x);
  prev = rw (==_refl x);
  prnt = rw (==_refl x);
  child = rw (==_refl x);
  sib_left = rw (==_refl x);
  sib_right = rw (==_refl x);
  time = rw (==_refl x);
  sem_add = rw (==_refl x);
  support_struct = rw (==_refl x);
  entry_hi = rw (==_refl x);
  cause = rw (==_refl x);
  status = rw (==_refl x);
  pc = rw (==_refl x);
  reg = λ i h.
      rw (==_refl x) (zero_regs_in state_reg_num 0 i (s.p_s x).s_reg (omega arith) (omega arith));
}

handed_out-SameBlock : (x y : Ptr) (s : Pcbs) → (y == x) ≡ false → SameBlock s (handed_out x s) y
unfolding reset_pcb
handed_out-SameBlock x y s n = ground arith

handed_out-start_tod : (x : Ptr) (s : Pcbs) → (handed_out x s).p_start_tod ≡ s.p_start_tod
unfolding reset_pcb
handed_out-start_tod x s = refl

handed_out-IsFree :
    (s : Pcbs) (x : Ptr) (xs : List Ptr) → IsFree s (x ∷ xs) → IsFree (handed_out x s) xs
unfolding reset_pcb
handed_out-IsFree s x xs f = record {
  path =
      LeadsTo-frame null s.p_next (update s.p_next x null) (s.p_next x) xs f.path.1
        (λ y i. ground (arith, ne_of_has x y xs f.distinct.0 i));
  distinct = f.distinct.1;
  inside = f.inside.1;
}

-- `allocPcb` takes the first block off the free list and returns it with every field but
-- `p_startTOD` reset; `p_startTOD` and the other blocks stay as they were.
pub alloc_pcb-cons :
    (s : Pcbs) (x : Ptr) (xs : List Ptr)
    → IsFree s (x ∷ xs)
    → Returns (Allocated s x xs) (alloc_pcb s)
alloc_pcb-cons s x xs f =
    let run = alloc_pcb_run s (rw (f.path.0) (f.inside.0)) in
    let at_x = subst (λ p. alloc_pcb s ≡ ok p (handed_out p s)) f.path.0 run in
    rw at_x (
      returns (record {
        result = refl;
        rest = handed_out-IsFree s x xs f;
        fresh = reset_pcb-IsFresh x (record s { pcb_free_h = s.p_next x });
        start_tod = handed_out-start_tod x s;
        others = λ y n. handed_out-SameBlock x y s n;
      }))

-- With an empty free list `allocPcb` returns NULL and changes nothing.
pub alloc_pcb-nil : (s : Pcbs) → IsFree s [] → alloc_pcb s ≡ ok null s
unfolding alloc_pcb
alloc_pcb-nil s f = rw (f.path) refl

pub record Freed (s : Pcbs) (p : Ptr) (xs : List Ptr) (s' : Pcbs) : Type 0 where
  pub list : IsFree s' (p ∷ xs)
  pub fields : s' ≡ record s { p_next = s'.p_next; pcb_free_h = s'.pcb_free_h }
  pub others : (y : Ptr) → (y == p) ≡ false → s'.p_next y ≡ s.p_next y

-- `freePcb` puts a block that is not on the free list in front of it, and changes no other field
-- than that block's `p_next`.
pub free_pcb-cons :
    (s : Pcbs) (p : Ptr) (xs : List Ptr)
    → IsFree s xs
    → p < maxproc
    → p ∉ xs
    → Returns (λ _ s'. Freed s p xs s') (free_pcb p s)
unfolding free_pcb access
free_pcb-cons s p xs f h o =
    rw (ne→== p null (omega arith), lt→ltb _ _ h)
      (returns (record {
        list = record {
          path = (
            refl,
            rw (==_refl p) (
                LeadsTo-frame null s.p_next (update s.p_next p s.pcb_free_h) s.pcb_free_h xs f.path
                  (λ y i. ground (arith, ne_of_has p y xs o i))),
          );
          distinct = (o, f.distinct);
          inside = (h, f.inside);
        };
        fields = refl;
        others = λ y n. rw n;
      }))

-- i, i + 1, …, i + n - 1
abbrev pub count_up : ℕ → ℕ → List ℕ
count_up zero i = []
count_up (suc n) i = i ∷ count_up n (i + 1)

-- What the loop of `initPcbs` leaves.
record Linked (s : Pcbs) (n i : ℕ) (s' : Pcbs) : Type 0 where
  fields : s' ≡ record s { p_next = s'.p_next }
  linked : (j : ℕ) → i ≤ j → j < i + n → s'.p_next j ≡ j + 1
  below : (j : ℕ) → j < i → s'.p_next j ≡ s.p_next j

Linked-suc :
    (s s' : Pcbs) (n i : ℕ)
    → Linked (record s { p_next = update s.p_next i (i + 1) }) n (i + 1) s'
    → Linked s (suc n) i s'
Linked-suc s s' n i l = record {
  fields = l.fields;
  linked = λ j h k. elim (Bool-cases (j == i)) [
    | inl e ↦ ground (arith, l.below j, ==→eq j i e)
    | inr m ↦ l.linked j (ground arith) (omega arith)
  ];
  below = λ j h. ground (arith, l.below j);
}

link_pcbs-Linked :
    (n i : ℕ) (s : Pcbs) → i + n < maxproc → Returns (λ _. Linked s n i) (link_pcbs n i s)
unfolding link_pcbs access
link_pcbs-Linked zero i s h =
    returns (record { fields = refl; linked = λ j k l. absurd (omega arith); below = λ j k. refl })
link_pcbs-Linked (suc n) i s h =
    rw (lt→ltb i maxproc (omega arith))
      (Returns-mono (link_pcbs-Linked n (i + 1) _ (omega arith)) (λ _ s' l. Linked-suc s s' n i l))

pub count_up-LeadsTo :
    (n i : ℕ) (nx : Ptr → Ptr)
    → ((j : ℕ) → i ≤ j → j < i + n → nx j ≡ j + 1)
    → nx (i + n) ≡ null
    → LeadsTo null nx i (count_up (suc n) i)
count_up-LeadsTo zero i nx h e = (refl, rw (← add-zero i) e)
count_up-LeadsTo (suc n) i nx h e = (
  refl,
  rw (h i (omega arith) (omega arith)) (
      count_up-LeadsTo n (i + 1) nx (λ j k l. h j (omega arith) (omega arith))
        (rw (add_assoc i 1 n, add_comm 1 n, add-one n) e)),
)

not-mem-count_up : (n i j : ℕ) → j < i → j ∉ count_up n i
not-mem-count_up zero i j h = refl
not-mem-count_up (suc n) i j h = ground (arith, not-mem-count_up n (i + 1) j)

pub count_up-Distinct : (n i : ℕ) → Distinct (count_up n i)
count_up-Distinct zero i = tt
count_up-Distinct (suc n) i =
    (not-mem-count_up n (i + 1) i (omega arith), count_up-Distinct n (i + 1))

-- `initPcbs` builds the free list of all MAXPROC blocks in the order of the table, and changes no
-- other field than `p_next`.
pub init_pcbs-IsFree :
    (s : Pcbs)
    → Returns
        (λ _ s'.
          IsFree s' (count_up maxproc 0) × (s' ≡ record s { p_next = s'.p_next; pcb_free_h = 0 }))
        (init_pcbs s)
unfolding init_pcbs access
init_pcbs-IsFree s = Returns-bind (link_pcbs-Linked (maxproc - 1) 0 s (omega arith)) λ _ s' l.
    returns (
      record {
        path =
            count_up-LeadsTo (maxproc - 1) 0 (update s'.p_next (maxproc - 1) null)
              (λ j h k. ground (arith, l.linked j h)) refl;
        distinct = count_up-Distinct maxproc 0;
        inside = omega arith;
      },
      ap (λ (r : Pcbs). record r { p_next = update s'.p_next (maxproc - 1) null; pcb_free_h = 0 })
          l.fields,
    )

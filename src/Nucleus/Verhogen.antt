-- ===== src/Nucleus/Verhogen.antt =====
-- `sysVerhogen`.
use pandos_phase.Prelude.{
  ℕ, ◌+◌, ◌-◌, ◌^◌, ◌<◌, ◌≡◌, ◌≢◌, refl, sym, ap, subst, ◌∙◌, inl, inr, List, [], ◌∷◌, ◌++◌, ◌==◌,
  false, true, ◌∈◌, ◌∉◌, length, Distinct-length, ◌≤◌, arith, ==_refl, ==→eq, ne→==, lt→ltb,
  Bool-cases, update,
}
use mathlib.Core.Path.{fun_ext}
use mathlib.Core.List.{append-nil}
use pandos_phase.Types.{Ptr, null, maxint, maxproc}
use pandos_phase.Words.{w32, is_le_zero, add32}
use pandos_phase.Run.{ok, access, Returns, returns, Returns-put_back, Returns-mono}
use pandos_phase.Pcb.{Pcbs}
use pandos_phase.Pcb.Chain.{IsQueue}
use pandos_phase.Asl.{Asl}
use pandos_phase.Asl.Dequeue.{Dequeued, left_with}
use pandos_phase.Asl.Remove.{blocked-IsQueue, remove_blocked-cons}
use pandos_phase.Kernel.{Kernel, insert_ready}
use pandos_phase.Semaphores.{sys_verhogen}
use pandos_phase.Nucleus.{IsNucleus, IsLoose, Steady, Steady-trans, families, OnlyQueues-Steady}
use pandos_phase.Nucleus.Frame.{QueueOnly-SameQueue, IsQueue-same, IsFree-same}
use pandos_phase.Nucleus.Touch.{IsNucleus-touch}
use pandos_phase.Nucleus.Kin.{Marked, Marked-same, woken-Marked}
use pandos_phase.Nucleus.Ready.{insert_ready-IsNucleus}

-- The value of a semaphore counts the processes that are blocked on it, when it is negative.
abbrev pub Counts : ℕ → List Ptr → Type 0
Counts v [] = v < 2 ^ 31
Counts v (x ∷ xs) = v + length (x ∷ xs) ≡ w32

-- The processes that a V operation wakes, and those that it leaves.
abbrev pub woken : List Ptr → List Ptr
woken [] = []
woken (x ∷ xs) = x ∷ []

abbrev pub asleep : List Ptr → List Ptr
asleep [] = []
asleep (x ∷ xs) = xs

-- The nucleus once `p`, the first process that was blocked on `a`, is on no queue.
pub released-IsNucleus :
    (k : Kernel) (a p : Ptr) (rq : List Ptr) (q : Ptr → List Ptr) (fs xs : List Ptr) (s' : Asl)
    → IsNucleus k rq q fs
    → q a ≡ p ∷ xs
    → Dequeued k.asl a p q xs null s'
    → IsNucleus (record k { asl = s' }) rq (left_with q a xs) fs
released-IsNucleus k a p rq q fs xs s' n e d = record {
  asl = d.state;
  ready =
      IsQueue-same k.asl.pcbs s'.pcbs k.ready_queue rq
        (λ y m.
          QueueOnly-SameQueue k.asl.pcbs s'.pcbs (q a) p y d.rest (n.ready_blocked y a m)
            (ground (arith, n.ready_blocked y a m, e)))
        n.ready;
  free =
      IsFree-same k.asl.pcbs s'.pcbs fs (λ y m. d.rest.next_same y (n.free_blocked y a m))
        (ap (λ (u : Pcbs). u.pcb_free_h) d.rest.fields) n.free;
  ready_blocked = λ y b m. ground (arith, n.ready_blocked y b m, e);
  free_ready = n.free_ready;
  free_blocked = λ y b m. ground (arith, n.free_blocked y b m, e);
}

pub released-IsLoose :
    (k : Kernel) (a p : Ptr) (rq : List Ptr) (q : Ptr → List Ptr) (fs xs : List Ptr)
    → IsNucleus k rq q fs
    → q a ≡ p ∷ xs
    → p < maxproc
    → p ∉ xs
    → IsLoose p rq (left_with q a xs) fs
released-IsLoose k a p rq q fs xs n e v o =
    let m : p ∈ q a = rw e (rw (==_refl p) refl) in
    record {
      valid = v;
      not_ready = ground (arith, n.ready_blocked p a);
      not_blocked = λ b. ground (arith, n.asl.blocks.apart a b p, m, o);
      not_free = ground (arith, n.free_blocked p a);
    }

-- What `sysVerhogen` does.
pub record Signalled (k : Kernel) (a : ℕ) (rq : List Ptr) (q : Ptr → List Ptr) (fs : List Ptr)
    (k' : Kernel) : Type 0 where
  pub state : IsNucleus k' (rq ++ woken (q a)) (left_with q a (asleep (q a))) fs
  pub counts : Counts (k'.word a) (asleep (q a))
  pub value : k'.word ≡ update k.word a (add32 (k.word a) 1)
  pub current_same : k'.current_process ≡ k.current_process
  pub saved_same : k'.saved ≡ k.saved
  pub steady : Steady k k'
  pub marks : Marked k.asl.pcbs.p_sem_add k'.asl.pcbs.p_sem_add q (left_with q a (asleep (q a)))

module _ (k : Kernel) (a : ℕ) (rq : List Ptr) (q : Ptr → List Ptr) (fs : List Ptr)
    (n : IsNucleus k rq q fs) (address : (maxint == a) ≡ false) where
  -- The state with the semaphore counted up.
  pub up : Kernel
  up = record k { word = update k.word a (add32 (k.word a) 1) }

  pub up-IsNucleus : IsNucleus up rq q fs
  unfolding up
  up-IsNucleus = record {
    asl = n.asl;
    ready = n.ready;
    free = n.free;
    ready_blocked = n.ready_blocked;
    free_ready = n.free_ready;
    free_blocked = n.free_blocked;
  }

  signal_none : q a ≡ [] → k.word a < 2 ^ 31 - 1 → sys_verhogen a k ≡ ok tt up
  unfolding sys_verhogen up
  signal_none e v = ground arith

  -- A process waits.
  module _ (p : Ptr) (xs : List Ptr) (e : q a ≡ p ∷ xs) where
    pub p-queue : (p < maxproc) × (p ∉ xs)
    p-queue =
        let c = subst (IsQueue k.asl.pcbs _) e (blocked-IsQueue k.asl a q n.asl (rw e refl)) in
        (c.inside.0, c.distinct.0)

    -- What is left to do once `p` is off the queue.
    wake_run :
        (k1 : Kernel)
        → k1.word ≡ up.word
        → k1.current_process ≡ k.current_process
        → k1.saved ≡ k.saved
        → Steady k k1
        → ((y : Ptr) → (y == p) ≡ false → k1.asl.pcbs.p_sem_add y ≡ k.asl.pcbs.p_sem_add y)
        → IsNucleus k1 rq (left_with q a xs) fs
        → Returns
            (λ _ k'.
              IsNucleus k' (rq ++ p ∷ []) (left_with q a xs) fs
              × (k'.word ≡ up.word)
              × (k'.current_process ≡ k.current_process)
              × (k'.saved ≡ k.saved)
              × Steady k k'
              × Marked k.asl.pcbs.p_sem_add k'.asl.pcbs.p_sem_add q (left_with q a xs))
            (insert_ready p (record k1 {
              asl = record (k1.asl) {
                pcbs = record (k1.asl.pcbs) { p_sem_add = update k1.asl.pcbs.p_sem_add p null };
              };
            }))
    wake_run k1 w c s st g m =
        let o = released-IsLoose k a p rq q fs xs n e p-queue.0 p-queue.1 in
        let k2 = record k1 {
          asl = record (k1.asl) {
            pcbs = record (k1.asl.pcbs) { p_sem_add = update k1.asl.pcbs.p_sem_add p null };
          };
        } in
        Returns-mono
          (insert_ready-IsNucleus k2 p rq (left_with q a xs) fs
            (IsNucleus-touch k1 k2 p rq (left_with q a xs) fs m o refl refl refl refl refl
              (λ y d. rw d refl))
            o)
          (λ u k' r. (
            r.state,
            r.word_same ∙ w,
            ap (λ (x : Kernel). x.current_process) r.only.fields ∙ c,
            ap (λ (x : Kernel). x.saved) r.only.fields ∙ s,
            Steady-trans (record { count = st.count; devices = st.devices; family = st.family })
                (OnlyQueues-Steady r.only),
            woken-Marked k.asl.pcbs.p_sem_add k'.asl.pcbs.p_sem_add q a p xs e
                (ap (λ f. f p) r.marks_same ∙ rw (==_refl p) refl)
                (λ y d. ap (λ f. f y) r.marks_same ∙ rw d (g y d)),
          ))

    pub xs-length : length (p ∷ xs) ≤ maxproc
    xs-length =
        let c = subst (IsQueue k.asl.pcbs _) e (blocked-IsQueue k.asl a q n.asl (rw e refl)) in
        Distinct-length maxproc (p ∷ xs) c.distinct c.inside

    pub still_negative : Counts (k.word a) (p ∷ xs) → is_le_zero (add32 (k.word a) 1) ≡ true
    still_negative v = ground (arith, v, xs-length)

    signal_some :
        Counts (k.word a) (p ∷ xs)
        → Returns
            (λ _ k'.
              IsNucleus k' (rq ++ p ∷ []) (left_with q a xs) fs
              × (k'.word ≡ up.word)
              × (k'.current_process ≡ k.current_process)
              × (k'.saved ≡ k.saved)
              × Steady k k'
              × Marked k.asl.pcbs.p_sem_add k'.asl.pcbs.p_sem_add q (left_with q a xs))
            (sys_verhogen a k)
    unfolding sys_verhogen up access
    signal_some v =
        rw (==_refl a, still_negative v)
          (Returns-put_back _ _ (remove_blocked-cons k.asl a q n.asl p xs e) (λ r s' (same, w).
            rw (same, ne→== p null (omega (arith, p-queue.0)), lt→ltb _ _ p-queue.0)
              (wake_run (record up { asl = s' }) refl refl refl
                (record { count = refl; devices = refl; family = ap families w.rest.fields })
                w.rest.sem_same (released-IsNucleus up a p rq q fs xs s' up-IsNucleus e w))))

pub Counts-signalled :
    (v : ℕ) (p : Ptr) (xs : List Ptr)
    → length (p ∷ xs) ≤ maxproc
    → Counts v (p ∷ xs)
    → Counts (add32 v 1) xs
Counts-signalled v p [] l c = omega (arith, c)
Counts-signalled v p (x ∷ xs) l c = omega (arith, c)

pub left_nothing : (q : Ptr → List Ptr) (a : Ptr) → q a ≡ [] → left_with q a [] ≡ q
left_nothing q a e = fun_ext λ b. elim (Bool-cases (b == a)) [
  | inl m ↦ rw m (sym (ap q (==→eq b a m) ∙ e))
  | inr m ↦ rw m refl
]

module _ (k : Kernel) (a : ℕ) (rq : List Ptr) (q : Ptr → List Ptr) (fs : List Ptr)
    (n : IsNucleus k rq q fs) (address : (maxint == a) ≡ false) (c : Counts (k.word a) (q a))
    (o : k.word a ≢ 2 ^ 31 - 1) where
  nobody_woken :
      q a ≡ []
      → IsNucleus (up k a rq q fs n address) (rq ++ woken (q a)) (left_with q a (asleep (q a))) fs
  nobody_woken e =
      subst
        (λ l. IsNucleus (up k a rq q fs n address) (rq ++ woken l) (left_with q a (asleep l)) fs)
        (sym e) (rw (append-nil rq, left_nothing q a e) (up-IsNucleus k a rq q fs n address))

  Signalled-at :
      (xs : List Ptr) → q a ≡ xs → Returns (λ _. Signalled k a rq q fs) (sys_verhogen a k)
  unfolding up
  Signalled-at [] e =
      let c' : k.word a < 2 ^ 31 = subst (Counts (k.word a)) e c in
      rw (signal_none k a rq q fs n address e (omega (arith, c', o))) (
        returns (record {
          state = nobody_woken e;
          counts = rw (e, ==_refl a) (omega (arith, c', o));
          value = refl;
          current_same = refl;
          saved_same = refl;
          steady = record { count = refl; devices = refl; family = refl };
          marks =
              subst (λ v. Marked k.asl.pcbs.p_sem_add k.asl.pcbs.p_sem_add q v)
                (sym (rw e (left_nothing q a e)))
                (Marked-same k.asl.pcbs.p_sem_add k.asl.pcbs.p_sem_add q refl);
        }))
  Signalled-at (p ∷ xs) e =
      let c' = subst (Counts (k.word a)) e c in
      Returns-mono (signal_some k a rq q fs n address p xs e c') (λ u k' r. record {
        state = subst (λ l. IsNucleus k' (rq ++ woken l) (left_with q a (asleep l)) fs) (sym e) r.0;
        counts =
            rw (e, r.1, ==_refl a)
              (Counts-signalled (k.word a) p xs (xs-length k a rq q fs n address p xs e) c');
        value = r.1;
        current_same = r.2;
        saved_same = r.3;
        steady = r.4;
        marks =
            subst
              (λ l. Marked k.asl.pcbs.p_sem_add k'.asl.pcbs.p_sem_add q (left_with q a (asleep l)))
              (sym e) r.5;
      })

  -- A V operation on a semaphore whose value counts its blocked processes, and does not overflow,
  -- adds one to it and wakes the process that is blocked on it for the longest time, if there is
  -- one: it becomes the last ready one. The value counts the processes that stay blocked. The
  -- queues of the nucleus are well formed, and the address of the semaphore is not MAXINT.
  pub sys_verhogen-Counts : Returns (λ _. Signalled k a rq q fs) (sys_verhogen a k)
  sys_verhogen-Counts = Signalled-at (q a) refl

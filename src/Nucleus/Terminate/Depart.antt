-- ===== src/Nucleus/Terminate/Depart.antt =====
-- `sysTerminate` on one process: the queues, the semaphores and the counts.
use pandos_phase.Prelude.{
  ◌<◌, ℕ, ◌+◌, ◌%◌, ◌≤◌, ◌≡◌, refl, sym, ap, subst, ◌∙◌, inl, inr, List, ◌==◌, false, true, ◌∈◌,
  ◌∉◌, erase, length, arith, ne_of_has, ==→eq, Bool-cases, update, has-erase, erase_missing,
  length-erase, if◌then◌else◌,
}
use mathlib.Core.Path.{fun_ext}
use pandos_phase.Types.{Ptr, null}
use pandos_phase.Words.{w32, add32, sub32}
use pandos_phase.Run.{unless, Returns, returns, Returns-bind, Returns-put_back}
use pandos_phase.Pcb.{Pcbs}
use pandos_phase.Asl.{Asl}
use pandos_phase.Asl.Invariant.{IsAsl}
use pandos_phase.Asl.Dequeue.{Dequeued, left_with}
use pandos_phase.Asl.Remove.{out_blocked-erase}
use pandos_phase.Kernel.{Kernel}
use pandos_phase.Processes.{is_device_semaphore, unblock}
use pandos_phase.Nucleus.{IsNucleus}
use pandos_phase.Nucleus.Touch.{IsNucleus-keep}
use pandos_phase.Nucleus.Frame.{QueueOnly-SameQueue, IsQueue-same, IsFree-same}

-- The queues of blocked processes without `p`.
abbrev pub without : Ptr → (Ptr → List Ptr) → Ptr → List Ptr
without p q b = erase p (q b)

-- The value of a semaphore and the number of its blocked processes keep their sum modulo 2 ^ 32; the
-- value of a device semaphore stays as it is, and so does that of one that nobody has left.
pub record Balance (base : ℕ) (w : ℕ → ℕ) (q : Ptr → List Ptr) (w' : ℕ → ℕ) (q' : Ptr → List Ptr)
    : Type 0 where
  pub device : (a : ℕ) → is_device_semaphore base a ≡ true → w' a ≡ w a
  pub other :
      (a : ℕ)
      → is_device_semaphore base a ≡ false
      → (w' a + length (q' a)) % w32 ≡ (w a + length (q a)) % w32
  pub fewer : (a : ℕ) → length (q' a) ≤ length (q a)
  pub same : (a : ℕ) → length (q a) ≤ length (q' a) → w' a ≡ w a
  pub bounded :
      (a : ℕ) → is_device_semaphore base a ≡ false → length (q' a) < length (q a) → w' a < w32

-- The tree links and the semaphores of all blocks are the same.
pub record SameTree (s t : Pcbs) : Type 0 where
  pub prnt : t.p_prnt ≡ s.p_prnt
  pub child : t.p_child ≡ s.p_child
  pub left : t.p_sib_left ≡ s.p_sib_left
  pub right : t.p_sib_right ≡ s.p_sib_right
  pub sem : t.p_sem_add ≡ s.p_sem_add

-- 1 for a process that is counted as soft-blocked, else 0.
abbrev pub soft_blocked : ℕ → (Ptr → Ptr) → Ptr → ℕ
soft_blocked base sem p =
    if sem p == null then 0 else if is_device_semaphore base (sem p) then 1 else 0

-- Where the process stands: its `p_semAdd` is the semaphore that it is blocked on, or NULL.
pub record IsPlaced (s : Pcbs) (q : Ptr → List Ptr) (p : Ptr) : Type 0 where
  pub blocked : (s.p_sem_add p == null) ≡ false → p ∈ q (s.p_sem_add p)
  pub unblocked : (s.p_sem_add p == null) ≡ true → (b : Ptr) → p ∉ q b

-- The process `p` has left the queue of its semaphore.
pub record Departed (k : Kernel) (p : Ptr) (rq : List Ptr) (q : Ptr → List Ptr) (fs : List Ptr)
    (k' : Kernel) : Type 0 where
  pub state : IsNucleus k' rq (without p q) fs
  pub tree : SameTree k.asl.pcbs k'.asl.pcbs
  pub fields :
      k' ≡ record k { asl = k'.asl; soft_block_count = k'.soft_block_count; word = k'.word }
  pub ready_same : k'.ready_queue ≡ k.ready_queue
  pub balance : Balance k.device_semaphores k.word q k'.word (without p q)
  pub soft :
      (k'.soft_block_count + soft_blocked k.device_semaphores k.asl.pcbs.p_sem_add p) % w32
      ≡ k.soft_block_count % w32

-- `p` is blocked on `a`, and nowhere else.
module _ (base : ℕ) (w : ℕ → ℕ) (q : Ptr → List Ptr) (p a : Ptr) (m : p ∈ q a)
    (o : (b : Ptr) → (b == a) ≡ false → p ∉ q b) where
  fewer_left : (b : ℕ) → length (erase p (q b)) ≤ length (q b)
  fewer_left b = elim (Bool-cases (b == a)) [
    | inl i ↦ rw (==→eq b a i) (omega (arith, length-erase p (q a) m))
    | inr i ↦ rw (erase_missing p (q b) (o b i)) (omega arith)
  ]

  no_fewer : (b : ℕ) → (b == a) ≡ false → ¬ (length (erase p (q b)) < length (q b))
  no_fewer b i l =
      let l' : length (q b) < length (q b) =
        subst (λ xs. length xs < length (q b)) (erase_missing p (q b) (o b i)) l in
      omega (arith, l')

  Balance-erase :
      is_device_semaphore base a ≡ false
      → Balance base w q (update w a (add32 (w a) 1)) (without p q)
  Balance-erase d = record {
    device = λ b e. elim (Bool-cases (b == a)) [
      | inl i ↦ absurd (ground (arith, ap (is_device_semaphore base) (==→eq b a i), e, d))
      | inr i ↦ rw i refl
    ];
    other = λ b e. elim (Bool-cases (b == a)) [
      | inl i ↦ rw (i, ==→eq b a i) (omega (arith, length-erase p (q a) m))
      | inr i ↦ rw (i, erase_missing p (q b) (o b i)) refl
    ];
    fewer = fewer_left;
    same = λ b l. elim (Bool-cases (b == a)) [
      | inl i ↦
          let l' : length (q a) ≤ length (erase p (q a)) = rw (← ==→eq b a i) l in
          absurd (omega (arith, l', length-erase p (q a) m))
      | inr i ↦ rw i refl
    ];
    bounded = λ b e l. elim (Bool-cases (b == a)) [
      | inl i ↦ rw i (omega arith)
      | inr i ↦ absurd (no_fewer b i l)
    ];
  }

  Balance-device : is_device_semaphore base a ≡ true → Balance base w q w (without p q)
  Balance-device d = record {
    device = λ b e. refl;
    other = λ b e. elim (Bool-cases (b == a)) [
      | inl i ↦ absurd (ground (arith, ap (is_device_semaphore base) (==→eq b a i), e, d))
      | inr i ↦ rw (erase_missing p (q b) (o b i)) refl
    ];
    fewer = fewer_left;
    same = λ b l. refl;
    bounded = λ b e l. elim (Bool-cases (b == a)) [
      | inl i ↦ absurd (ground (arith, ap (is_device_semaphore base) (==→eq b a i), e, d))
      | inr i ↦ absurd (no_fewer b i l)
    ];
  }

Balance-same :
    (base : ℕ) (w : ℕ → ℕ) (q : Ptr → List Ptr) (p : Ptr)
    → ((b : Ptr) → p ∉ q b)
    → Balance base w q w (without p q)
Balance-same base w q p o = record {
  device = λ b e. refl;
  other = λ b e. rw (erase_missing p (q b) (o b)) refl;
  fewer = λ b. rw (erase_missing p (q b) (o b)) (omega arith);
  same = λ b l. refl;
  bounded = λ b e l.
      let l' : length (q b) < length (q b) =
        subst (λ xs. length xs < length (q b)) (erase_missing p (q b) (o b)) l in
      absurd (omega (arith, l'));
}

module _ (k : Kernel) (rq : List Ptr) (q : Ptr → List Ptr) (fs : List Ptr) (n : IsNucleus k rq q fs)
    (p a : Ptr) (m : p ∈ q a) (some_sem : (a == null) ≡ false) where
  -- The queues that are left, as `outBlocked` leaves them.
  left-without : left_with q a (erase p (q a)) ≡ without p q
  left-without = fun_ext λ b. elim (Bool-cases (b == a)) [
    | inl i ↦ rw (i, ==→eq b a i) refl
    | inr i ↦ rw (i, erase_missing p (q b) (n.asl.blocks.apart a b p (ground (arith, i)) m)) refl
  ]

  departed-IsNucleus :
      (s' : Asl)
      → Dequeued k.asl a p q (erase p (q a)) a s'
      → IsNucleus (record k { asl = s' }) rq (without p q) fs
  departed-IsNucleus s' d = record {
    asl = subst (IsAsl s') left-without d.state;
    ready =
        IsQueue-same k.asl.pcbs s'.pcbs k.ready_queue rq
          (λ y i.
            QueueOnly-SameQueue k.asl.pcbs s'.pcbs (q a) p y d.rest (n.ready_blocked y a i)
              (ground (arith, n.ready_blocked y a i, ne_of_has y p (q a), m)))
          n.ready;
    free =
        IsFree-same k.asl.pcbs s'.pcbs fs (λ y i. d.rest.next_same y (n.free_blocked y a i))
          (ap (λ (u : Pcbs). u.pcb_free_h) d.rest.fields) n.free;
    ready_blocked = λ y b i. ground (arith, n.ready_blocked y b i, has-erase y p (q b));
    free_ready = n.free_ready;
    free_blocked = λ y b i. ground (arith, n.free_blocked y b i, has-erase y p (q b));
  }

  departed-SameTree :
      (s' : Asl) → Dequeued k.asl a p q (erase p (q a)) a s' → SameTree k.asl.pcbs s'.pcbs
  departed-SameTree s' d =
      let f = d.rest.fields in
      record {
        prnt = ap (λ (u : Pcbs). u.p_prnt) f;
        child = ap (λ (u : Pcbs). u.p_child) f;
        left = ap (λ (u : Pcbs). u.p_sib_left) f;
        right = ap (λ (u : Pcbs). u.p_sib_right) f;
        sem = fun_ext λ y. elim (Bool-cases (y == p)) [
          | inl i ↦
              ap s'.pcbs.p_sem_add (==→eq y p i)
              ∙ d.sem_add
              ∙ sym (ap k.asl.pcbs.p_sem_add (==→eq y p i) ∙ n.asl.blocks.knows a p m)
          | inr i ↦ d.rest.sem_same y i
        ];
      }

  apart-p : (b : Ptr) → (b == a) ≡ false → p ∉ q b
  apart-p b i = n.asl.blocks.apart a b p (ground (arith, i)) m

  -- The state once `p`, blocked on an ordinary semaphore, has left it.
  counted : Asl → Kernel
  counted s' = record k { asl = s'; word = update k.word a (add32 (k.word a) 1) }

  discounted : Asl → Kernel
  discounted s' = record k { asl = s'; soft_block_count = sub32 k.soft_block_count 1 }

  -- Nothing but the queues, a semaphore and the count of soft-blocked processes is changed.
  Departed-at :
      (s' : Asl) (w : ℕ → ℕ) (c : ℕ)
      → Dequeued k.asl a p q (erase p (q a)) a s'
      → Balance k.device_semaphores k.word q w (without p q)
      → (c + soft_blocked k.device_semaphores k.asl.pcbs.p_sem_add p) % w32
        ≡ k.soft_block_count % w32
      → Departed k p rq q fs (record k { asl = s'; soft_block_count = c; word = w })
  Departed-at s' w c d b e = record {
    state =
        IsNucleus-keep (record k { asl = s' })
          (record k { asl = s'; soft_block_count = c; word = w }) rq (without p q) fs refl refl
          (departed-IsNucleus s' d);
    tree = departed-SameTree s' d;
    fields = refl;
    ready_same = refl;
    balance = b;
    soft = e;
  }

  -- A blocked process leaves its semaphore.
  unblock-Departed : Returns (λ _. Departed k p rq q fs) (unblock p a k)
  unfolding unblock
  unblock-Departed =
      let knows = n.asl.blocks.knows a p m in
      elim (Bool-cases (is_device_semaphore k.device_semaphores a)) [
        | inl d ↦ rw d (
            Returns-put_back _ _
              (Returns-bind {Q = λ _. Dequeued k.asl a p q (erase p (q a)) a}
                (out_blocked-erase k.asl a q n.asl p m some_sem) (λ _ s w. returns (w.1)))
              (λ _ s w. returns (
                Departed-at s k.word (sub32 k.soft_block_count 1) w
                  (Balance-device k.device_semaphores k.word q p a m apart-p d)
                  (rw (knows, some_sem, d) (omega arith)))))
        | inr d ↦ rw d (
            Returns-put_back _ _
              (Returns-bind {Q = λ _. Dequeued k.asl a p q (erase p (q a)) a}
                (out_blocked-erase k.asl a q n.asl p m some_sem) (λ _ s w. returns (w.1)))
              (λ _ s w. returns (
                Departed-at s (update k.word a (add32 (k.word a) 1)) k.soft_block_count w
                  (Balance-erase k.device_semaphores k.word q p a m apart-p d)
                  (rw (knows, some_sem, d) (omega arith)))))
      ]

module _ (k : Kernel) (rq : List Ptr) (q : Ptr → List Ptr) (fs : List Ptr) (n : IsNucleus k rq q fs)
    (p : Ptr) (place : IsPlaced k.asl.pcbs q p) where
  without-nothing : ((b : Ptr) → p ∉ q b) → without p q ≡ q
  without-nothing o = fun_ext λ b. erase_missing p (q b) (o b)

  -- The first step of `sysTerminate` behind the loop: a process that is blocked leaves its
  -- semaphore, any other one stays where it is.
  pub depart-Departed :
      Returns
        (λ _. Departed k p rq q fs)
        (unless (k.asl.pcbs.p_sem_add p == null) (unblock p (k.asl.pcbs.p_sem_add p)) k)
  depart-Departed = elim (Bool-cases (k.asl.pcbs.p_sem_add p == null)) [
    | inl e ↦
        let o = place.unblocked e in
        rw e (
          returns (record {
            state = rw (without-nothing o) n;
            tree = record { prnt = refl; child = refl; left = refl; right = refl; sem = refl };
            fields = refl;
            ready_same = refl;
            balance = Balance-same k.device_semaphores k.word q p o;
            soft = rw e (omega arith);
          }))
    | inr e ↦ rw e (unblock-Departed k rq q fs n p (k.asl.pcbs.p_sem_add p) (place.blocked e) e)
  ]

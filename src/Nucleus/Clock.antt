-- ===== src/Nucleus/Clock.antt =====
-- The interrupt of the interval timer on the queue of the pseudo-clock.
use mathlib.Core.Path.{fun_ext}
use mathlib.Core.List.{append-nil, append_assoc}
use pandos_phase.Prelude.{
  sym, ℕ, zero, suc, ◌+◌, ◌*◌, ◌%◌, ◌<◌, ◌≡◌, refl, ap, subst, ◌∙◌, inl, inr, List, [], ◌∷◌, ◌++◌,
  ◌==◌, false, ◌∉◌, is_empty, length, Distinct-length, arith, ==_refl, ne→==, Bool-cases,
  if◌then◌else◌, update,
}
use pandos_phase.Types
use pandos_phase.Types.{Ptr, null, maxint, maxproc, Processor}
use pandos_phase.Words.{w32, mul32}
use pandos_phase.Run.{
  access, Exit, exit, ldst, Returns, returns, Returns-mono, Returns-put_back, Exits, exits,
  Exits-after, Exits-mono, Returns-bind,
}
use pandos_phase.Pcb.{Pcbs}
use pandos_phase.Pcb.Chain.{IsQueue}
use pandos_phase.Asl.{Asl}
use pandos_phase.Asl.Dequeue.{Dequeued, left_with}
use pandos_phase.Asl.Remove.{blocked-IsQueue, remove_blocked-cons, head_blocked-head}
use pandos_phase.Pcb.Fifo.{head_or_null}
use pandos_phase.Kernel.{Kernel, ldit, insert_ready}
use pandos_phase.Scheduler.{scheduler}
use pandos_phase.Interrupts.{wake_all, handle_interval_timer_interrupt}
use pandos_phase.Nucleus.{IsNucleus, Steady, Steady-trans, families, OnlyQueues-Steady}
use pandos_phase.Nucleus.Kin.{Marked, Marked-same, Marked-trans, woken-Marked}
use pandos_phase.Nucleus.Ready.{insert_ready-IsNucleus}
use pandos_phase.Nucleus.Verhogen.{released-IsNucleus, released-IsLoose, left_nothing}
use pandos_phase.Nucleus.Dispatch.{scheduler-Scheduled, resumes, tail_of}

-- What a change of the queues keeps.
pub record Kept (k k' : Kernel) : Type 0 where
  pub word : k'.word ≡ k.word
  pub current_process : k'.current_process ≡ k.current_process
  pub saved : k'.saved ≡ k.saved
  pub states : k'.asl.pcbs.p_s ≡ k.asl.pcbs.p_s
  pub soft_block_count : k'.soft_block_count ≡ k.soft_block_count
  pub steady : Steady k k'

pub Kept-trans : (k k' k'' : Kernel) → Kept k k' → Kept k' k'' → Kept k k''
Kept-trans k k' k'' c d = record {
  word = d.word ∙ c.word;
  current_process = d.current_process ∙ c.current_process;
  saved = d.saved ∙ c.saved;
  states = d.states ∙ c.states;
  soft_block_count = d.soft_block_count ∙ c.soft_block_count;
  steady = Steady-trans c.steady d.steady;
}

left_twice :
    (q : Ptr → List Ptr) (a : Ptr) (xs : List Ptr)
    → left_with (left_with q a xs) a [] ≡ left_with q a []
left_twice q a xs =
    fun_ext λ b. elim (Bool-cases (b == a)) [ inl m ↦ rw m refl | inr m ↦ rw m refl ]

-- The first process `p` of the queue of `a` becomes ready.
module _ (k : Kernel) (a p : Ptr) (rq : List Ptr) (q : Ptr → List Ptr) (fs xs : List Ptr)
    (n : IsNucleus k rq q fs) (e : q a ≡ p ∷ xs) where
  p-valid : (p < maxproc) × (p ∉ xs)
  p-valid =
      let c = subst (IsQueue k.asl.pcbs _) e (blocked-IsQueue k.asl a q n.asl (rw e refl)) in
      (c.inside.0, c.distinct.0)

  wake_one :
      (s' : Asl)
      → Dequeued k.asl a p q xs null s'
      → Returns
          (λ _ k'.
            IsNucleus k' (rq ++ p ∷ []) (left_with q a xs) fs
            × Kept k k'
            × Marked k.asl.pcbs.p_sem_add k'.asl.pcbs.p_sem_add q (left_with q a xs))
          (insert_ready p (record k { asl = s' }))
  wake_one s' d =
      let k1 = record k { asl = s' } in
      Returns-mono
        (insert_ready-IsNucleus k1 p rq (left_with q a xs) fs
          (released-IsNucleus k a p rq q fs xs s' n e d)
          (released-IsLoose k a p rq q fs xs n e p-valid.0 p-valid.1))
        (λ u k' r. (
          r.state,
          record {
            word = r.word_same;
            current_process = ap (λ (x : Kernel). x.current_process) r.only.fields;
            saved = ap (λ (x : Kernel). x.saved) r.only.fields;
            states = ap (λ (x : Pcbs). x.p_s) r.only.pcbs ∙ ap (λ (x : Pcbs). x.p_s) d.rest.fields;
            soft_block_count = ap (λ (x : Kernel). x.soft_block_count) r.only.fields;
            steady =
                Steady-trans
                  (record { count = refl; devices = refl; family = ap families d.rest.fields })
                  (OnlyQueues-Steady r.only);
          },
          woken-Marked k.asl.pcbs.p_sem_add k'.asl.pcbs.p_sem_add q a p xs e
              (ap (λ f. f p) r.marks_same ∙ d.sem_add)
              (λ y i. ap (λ f. f y) r.marks_same ∙ d.rest.sem_same y i),
        ))

-- The loop moves all the processes that are blocked on `a` to the ready queue, in order.
wake_all-IsNucleus :
    (f : ℕ) (k : Kernel) (a : Ptr) (rq : List Ptr) (q : Ptr → List Ptr) (fs xs : List Ptr)
    → IsNucleus k rq q fs
    → (maxint == a) ≡ false
    → q a ≡ xs
    → length xs < f
    → Returns
        (λ _ k'.
          IsNucleus k' (rq ++ xs) (left_with q a []) fs
          × Kept k k'
          × Marked k.asl.pcbs.p_sem_add k'.asl.pcbs.p_sem_add q (left_with q a []))
        (wake_all f a k)
unfolding wake_all
wake_all-IsNucleus zero k a rq q fs xs n m e l = absurd (omega arith)
wake_all-IsNucleus (suc f) k a rq q fs [] n m e l =
    rw (head_blocked-head k.asl a q n.asl m, e)
      (returns (
        rw (append-nil rq, left_nothing q a e) n,
        record {
          word = refl;
          current_process = refl;
          saved = refl;
          states = refl;
          soft_block_count = refl;
          steady = record { count = refl; devices = refl; family = refl };
        },
        subst (λ v. Marked k.asl.pcbs.p_sem_add k.asl.pcbs.p_sem_add q v) (sym (left_nothing q a e))
            (Marked-same k.asl.pcbs.p_sem_add k.asl.pcbs.p_sem_add q refl),
      ))
wake_all-IsNucleus (suc f) k a rq q fs (p ∷ xs) n m e l =
    let v = p-valid k a p rq q fs xs n e in
    rw (head_blocked-head k.asl a q n.asl m, e, ne→== p null (omega (arith, v.0)))
      (Returns-put_back _ _ (remove_blocked-cons k.asl a q n.asl p xs e) (λ r s' (same, d).
        rw (same, ne→== p null (omega (arith, v.0)))
          (Returns-bind (wake_one k a p rq q fs xs n e s' d) (λ u k' (n', c, g).
            Returns-mono
              (wake_all-IsNucleus f k' a (rq ++ p ∷ []) (left_with q a xs) fs xs n' m
                (rw (==_refl a) refl) (omega arith))
              (λ u' k'' (n'', c', g'). (
                subst (λ l. IsNucleus k'' l (left_with q a []) fs) (append_assoc rq (p ∷ []) xs)
                    (subst (λ h. IsNucleus k'' ((rq ++ p ∷ []) ++ xs) h fs) (left_twice q a xs)
                      n''),
                Kept-trans k k' k'' c c',
                subst (λ v. Marked k.asl.pcbs.p_sem_add k''.asl.pcbs.p_sem_add q v)
                    (left_twice q a xs) (Marked-trans g g'),
              ))))))

resumes-Kept : (k k' : Kernel) → Kept k k' → (ys : List Ptr) → resumes k' ys ≡ resumes k ys
resumes-Kept k k' c [] = rw (c.steady.count, c.soft_block_count) refl
resumes-Kept k k' c (y ∷ ys) = ap (λ f. ldst (f y)) c.states

-- The semaphore of the pseudo-clock.
abbrev pub clock_semaphore : Kernel → ℕ
clock_semaphore k = (k.device_semaphores + 4 * Types.num_devices) % w32

-- What the interval timer's interrupt comes to.
pub record Ticked (k : Kernel) (rq : List Ptr) (q : Ptr → List Ptr) (fs : List Ptr) (e : Exit)
    (k' : Kernel) : Type 0 where
  pub out : e ≡ (
      if k.current_process == null then resumes k (rq ++ q (clock_semaphore k)) else ldst k.saved)
  pub state :
      IsNucleus k'
        (if k.current_process == null
          then tail_of (rq ++ q (clock_semaphore k))
          else rq ++ q (clock_semaphore k))
        (left_with q (clock_semaphore k) [])
        fs
  pub value : k'.word (clock_semaphore k) ≡ 0
  pub soft_same : k'.soft_block_count ≡ k.soft_block_count
  pub words :
      (b : ℕ)
      → (b == clock_semaphore k) ≡ false
      → (b == Types.interval_tmr) ≡ false
      → k'.word b ≡ k.word b
  pub runs : k'.current_process ≡ (
      if k.current_process == null
      then head_or_null (rq ++ q (clock_semaphore k))
      else k.current_process)
  pub steady : Steady k k'
  pub marks :
      Marked k.asl.pcbs.p_sem_add k'.asl.pcbs.p_sem_add q (left_with q (clock_semaphore k) [])

module _ (k : Kernel) (rq : List Ptr) (q : Ptr → List Ptr) (fs : List Ptr) (n : IsNucleus k rq q fs)
    (address : (maxint == clock_semaphore k) ≡ false) where
  reloaded : Kernel
  reloaded = record k {
    word =
        update k.word Types.interval_tmr (mul32 Types.clock_interval (k.word Types.timescale_addr));
  }

  reloaded-IsNucleus : IsNucleus reloaded rq q fs
  unfolding reloaded
  reloaded-IsNucleus = record {
    asl = n.asl;
    ready = n.ready;
    free = n.free;
    ready_blocked = n.ready_blocked;
    free_ready = n.free_ready;
    free_blocked = n.free_blocked;
  }

  waiters-length : length (q (clock_semaphore k)) < maxproc + 1
  waiters-length = elim (Bool-cases (is_empty (q (clock_semaphore k)))) [
    | inl e ↦ ground arith
    | inr e ↦
        let w = blocked-IsQueue k.asl (clock_semaphore k) q n.asl e in
        omega (arith, Distinct-length maxproc (q (clock_semaphore k)) w.distinct w.inside)
  ]

  -- The last part of the handler.
  resume_Ticked :
      (k1 : Kernel)
      → IsNucleus k1 (rq ++ q (clock_semaphore k)) (left_with q (clock_semaphore k) []) fs
      → Kept reloaded k1
      → Marked k.asl.pcbs.p_sem_add k1.asl.pcbs.p_sem_add q (left_with q (clock_semaphore k) [])
      → Exits (Ticked k rq q fs) (
          if k1.current_process == null
          then scheduler (record k1 { word = update k1.word (clock_semaphore k) 0 })
          else exit (ldst k1.saved) (record k1 { word = update k1.word (clock_semaphore k) 0 }))
  unfolding reloaded
  resume_Ticked k1 m c g =
      let a = clock_semaphore k in
      let k2 = record k1 { word = update k1.word a 0 } in
      let m2 : IsNucleus k2 (rq ++ q a) (left_with q a []) fs = record {
        asl = m.asl;
        ready = m.ready;
        free = m.free;
        ready_blocked = m.ready_blocked;
        free_ready = m.free_ready;
        free_blocked = m.free_blocked;
      } in
      let other : (b : ℕ)
          → (b == a) ≡ false
          → (b == Types.interval_tmr) ≡ false
          → k2.word b ≡ k.word b =
        λ b i j. rw i (ap (λ f. f b) c.word ∙ rw j refl) in
      let st : Steady k k2 = record {
        count = c.steady.count;
        devices = c.steady.devices;
        family = c.steady.family;
      } in
      let same : (k1.current_process == null) ≡ (k.current_process == null) =
        ap (λ p. p == null) c.current_process in
      elim (Bool-cases (k.current_process == null)) [
        | inl z ↦ rw (same ∙ z) (
            Exits-mono (scheduler-Scheduled k2 (rq ++ q a) (left_with q a []) fs m2) (λ e k' w.
              record {
                out = rw z (w.out ∙ resumes-Kept reloaded k1 c (rq ++ q a));
                state = rw z w.state;
                value = ap (λ f. f a) w.word_same ∙ rw (==_refl a) refl;
                soft_same = w.soft_same ∙ c.soft_block_count;
                words = λ b i j. ap (λ f. f b) w.word_same ∙ other b i j;
                runs = rw z w.runs;
                steady = Steady-trans st w.steady;
                marks = Marked-trans g (Marked-same _ _ _ w.marks_same);
              }))
        | inr z ↦ rw (same ∙ z) (
            exits (record {
              out = rw z (ap ldst c.saved);
              state = rw z m2;
              value = rw (==_refl a) refl;
              soft_same = c.soft_block_count;
              words = other;
              runs = rw z c.current_process;
              steady = st;
              marks = g;
            }))
      ]

  -- At an interrupt of the interval timer every process that waits for the pseudo-clock becomes
  -- ready, in the order in which they came; the semaphore of the pseudo-clock is zero then. The
  -- process that ran goes on, and if there was none the scheduler chooses one. The count of soft-
  -- blocked processes stays as it was. The queues of the nucleus are well formed, and the address
  -- of the semaphore is not MAXINT.
  pub handle_interval_timer_interrupt-Ticked :
      Exits (Ticked k rq q fs) (handle_interval_timer_interrupt k)
  unfolding handle_interval_timer_interrupt ldit reloaded access
  handle_interval_timer_interrupt-Ticked =
      Exits-after _
        (wake_all-IsNucleus (maxproc + 1) reloaded (clock_semaphore k) rq q fs
          (q (clock_semaphore k)) reloaded-IsNucleus address refl waiters-length)
        (λ u k1 (m, c, g). elim (Bool-cases (k1.current_process == null)) [
          | inl z ↦ rw z (rw z at (resume_Ticked k1 m c g))
          | inr z ↦ rw z (rw z at (resume_Ticked k1 m c g))
        ])

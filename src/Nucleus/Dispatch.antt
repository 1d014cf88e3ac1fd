-- ===== src/Nucleus/Dispatch.antt =====
-- The scheduler on the queues of the nucleus.
use pandos_phase.Prelude.{
  ◌<◌, ◌≡◌, refl, sym, ap, subst, inl, inr, List, [], ◌∷◌, ◌==◌, false, ◌∈◌, ◌∉◌, arith, ne→==,
  lt→ltb, is_empty, Bool-cases, if◌then◌else◌,
}
use pandos_phase.Types.{Ptr, null, maxproc}
use pandos_phase.Words.{is_positive}
use pandos_phase.Run.{
  Exit, exit, halt, panic, wait, ldst, access, Exits, exits, Exits-put_back, Exits-mono,
}
use pandos_phase.Pcb.{Pcbs}
use pandos_phase.Pcb.Chain.{IsQueue}
use pandos_phase.Pcb.Remove.{Removed}
use pandos_phase.Pcb.Fifo.{head_or_null, remove_proc_q-cons, remove_proc_q-nil}
use pandos_phase.Pcb.Free.{IsFree}
use pandos_phase.Asl.{Asl}
use pandos_phase.Asl.Invariant.{IsAsl}
use pandos_phase.Kernel.{Kernel}
use pandos_phase.Scheduler.{scheduler, dispatch, idle, wait_status}
use pandos_phase.Nucleus.{IsNucleus, IsLoose, Steady, families}
use pandos_phase.Nucleus.Frame.{LinksOnly-SameQueue, IsAsl-same, IsFree-same}

-- The scheduler has taken `x` from the ready queue `x ∷ xs` and loads it.
pub record Dispatched (k : Kernel) (x : Ptr) (xs : List Ptr) (q : Ptr → List Ptr) (fs : List Ptr)
    (e : Exit) (k' : Kernel) : Type 0 where
  pub loaded : e ≡ ldst (k.asl.pcbs.p_s x)
  pub state : IsNucleus k' xs q fs
  pub runs : k'.current_process ≡ x
  pub loose : IsLoose x xs q fs
  pub slice : k'.timer ≡ 5000
  pub word_same : k'.word ≡ k.word
  pub steady : Steady k k'
  pub soft_same : k'.soft_block_count ≡ k.soft_block_count
  pub state_same : k'.asl.pcbs.p_s ≡ k.asl.pcbs.p_s
  pub marks_same : k'.asl.pcbs.p_sem_add ≡ k.asl.pcbs.p_sem_add
  pub pass_up_same : k'.pass_up ≡ k.pass_up

module _ (k : Kernel) (x : Ptr) (xs : List Ptr) (q : Ptr → List Ptr) (fs : List Ptr)
    (n : IsNucleus k (x ∷ xs) q fs) where
  taken-IsNucleus :
      (r : Ptr × Ptr) (t : Pcbs)
      → Removed k.asl.pcbs x (x ∷ xs) xs r t
      → IsNucleus
          (record k {
            asl = record (k.asl) { pcbs = t };
            ready_queue = r.1;
            current_process = x;
            timer = 5000;
          })
          xs
          q
          fs
  taken-IsNucleus r t rem = record {
    asl =
        IsAsl-same k.asl t q
          (λ b y m. LinksOnly-SameQueue k.asl.pcbs t (x ∷ xs) y rem.links (absent y b m)) n.asl;
    ready = rem.queue;
    free =
        IsFree-same k.asl.pcbs t fs (λ y m. rem.links.next_same y (n.free_ready y m))
          (ap (λ (u : Pcbs). u.pcb_free_h) rem.links.fields) n.free;
    ready_blocked = λ y b m. n.ready_blocked y b (ground (arith, m));
    free_ready = λ y m. ground (arith, n.free_ready y m);
    free_blocked = n.free_blocked;
  }
    where
      absent : (y b : Ptr) → y ∈ q b → y ∉ x ∷ xs
      absent y b m = ground (arith, n.ready_blocked y b)

  first-IsLoose : IsLoose x xs q fs
  first-IsLoose = record {
    valid = n.ready.inside.0;
    not_ready = n.ready.distinct.0;
    not_blocked = λ b. n.ready_blocked x b (ground arith);
    not_free = ground (arith, n.free_ready x);
  }

  dispatch_run :
      (k' : Kernel)
      → k'.current_process < maxproc
      → dispatch k'
        ≡ exit (ldst (k'.asl.pcbs.p_s (k'.current_process))) (record k' { timer = 5000 })
  unfolding dispatch access
  dispatch_run k' h = rw (lt→ltb _ _ h) refl

  pub scheduler-cons : Exits (Dispatched k x xs q fs) (scheduler k)
  unfolding scheduler
  scheduler-cons =
      Exits-put_back _ _ (remove_proc_q-cons k.asl.pcbs k.ready_queue x xs n.ready) (λ r t rem.
        rw
          (
            rem.result,
            ne→== x null (omega (arith, n.ready.inside.0)),
            dispatch_run
                (record k {
                  asl = record (k.asl) { pcbs = t };
                  ready_queue = r.1;
                  current_process = x;
                })
                n.ready.inside.0,
          )
          (exits (record {
            loaded = ap (λ (u : Pcbs). ldst (u.p_s x)) rem.links.fields;
            state = taken-IsNucleus r t rem;
            runs = refl;
            loose = first-IsLoose;
            slice = refl;
            word_same = refl;
            steady = record { count = refl; devices = refl; family = ap families rem.links.fields };
            soft_same = refl;
            pass_up_same = refl;
            state_same = ap (λ (u : Pcbs). u.p_s) rem.links.fields;
            marks_same = ap (λ (u : Pcbs). u.p_sem_add) rem.links.fields;
          })))

-- The way out of the scheduler when no process is ready.
abbrev pub idle_exit : Kernel → Exit
idle_exit k =
    if k.process_count == 0 then halt else if is_positive k.soft_block_count then wait else panic

abbrev idled : Kernel → Kernel
idled k = record k { ready_queue = null; current_process = null }

pub scheduler-nil :
    (k : Kernel) (q : Ptr → List Ptr) (fs : List Ptr)
    → IsNucleus k [] q fs
    → Exits
        (λ e k'.
          (e ≡ idle_exit k)
          × (k'.current_process ≡ null)
          × (k'.asl ≡ k.asl)
          × (k'.ready_queue ≡ null)
          × (k'.word ≡ k.word)
          × (k'.soft_block_count ≡ k.soft_block_count)
          × Steady k k'
          × (e ≡ wait → k'.status ≡ wait_status))
        (scheduler k)
unfolding scheduler idle
scheduler-nil k q fs n =
    rw (remove_proc_q-nil k.asl.pcbs k.ready_queue n.ready, n.ready.tail)
      (elim (Bool-cases (k.process_count == 0)) [
        | inl z ↦ rw z (
            exits (
              refl,
              refl,
              refl,
              refl,
              refl,
              refl,
              record { count = refl; devices = refl; family = refl },
              λ e. absurd (cc e),
            ))
        | inr z ↦ rw z (elim (Bool-cases (is_positive k.soft_block_count)) [
          | inl b ↦ rw b (
              exits (
                refl,
                refl,
                refl,
                refl,
                refl,
                refl,
                record { count = refl; devices = refl; family = refl },
                λ e. refl,
              ))
          | inr b ↦ rw b (
              exits (
                refl,
                refl,
                refl,
                refl,
                refl,
                refl,
                record { count = refl; devices = refl; family = refl },
                λ e. absurd (cc e),
              ))
        ])
      ])

-- What the machine runs after the scheduler when the processes `rq` are ready.
abbrev pub resumes : Kernel → List Ptr → Exit
resumes k [] = idle_exit k
resumes k (x ∷ xs) = ldst (k.asl.pcbs.p_s x)

abbrev pub tail_of : List Ptr → List Ptr
tail_of [] = []
tail_of (x ∷ xs) = xs

pub record Scheduled (k : Kernel) (rq : List Ptr) (q : Ptr → List Ptr) (fs : List Ptr) (e : Exit)
    (k' : Kernel) : Type 0 where
  pub out : e ≡ resumes k rq
  pub state : IsNucleus k' (tail_of rq) q fs
  pub runs : k'.current_process ≡ head_or_null rq
  pub slice : is_empty rq ≡ false → k'.timer ≡ 5000
  pub interrupts : e ≡ wait → k'.status ≡ wait_status
  pub soft_same : k'.soft_block_count ≡ k.soft_block_count
  pub word_same : k'.word ≡ k.word
  pub state_same : k'.asl.pcbs.p_s ≡ k.asl.pcbs.p_s
  pub marks_same : k'.asl.pcbs.p_sem_add ≡ k.asl.pcbs.p_sem_add
  pub steady : Steady k k'

-- The scheduler never returns. It loads the process that is ready for the longest time, for a time
-- slice of 5 milliseconds, and leaves the others ready in order; with nobody ready it halts if
-- there are no processes, waits for an interrupt, with interrupts on and the local timer off, if
-- the count of soft-blocked processes is positive, and panics otherwise. The queues of the nucleus
-- are well formed.
pub scheduler-Scheduled :
    (k : Kernel) (rq : List Ptr) (q : Ptr → List Ptr) (fs : List Ptr)
    → IsNucleus k rq q fs
    → Exits (Scheduled k rq q fs) (scheduler k)
scheduler-Scheduled k [] q fs n = Exits-mono (scheduler-nil k q fs n) (λ e k' r. record {
  out = r.0;
  state = record {
    asl = subst (λ s. IsAsl s q) (sym r.2) n.asl;
    ready =
        subst (λ (s : Asl). IsQueue s.pcbs k'.ready_queue []) (sym r.2)
          (record { tail = r.3; links = tt; distinct = tt; inside = tt });
    free = subst (λ (s : Asl). IsFree s.pcbs fs) (sym r.2) n.free;
    ready_blocked = n.ready_blocked;
    free_ready = n.free_ready;
    free_blocked = n.free_blocked;
  };
  runs = r.1;
  slice = λ h. absurd (ground arith);
  interrupts = r.7;
  steady = r.6;
  soft_same = r.5;
  word_same = r.4;
  state_same = ap (λ (s : Asl). s.pcbs.p_s) r.2;
  marks_same = ap (λ (s : Asl). s.pcbs.p_sem_add) r.2;
})
scheduler-Scheduled k (x ∷ xs) q fs n = Exits-mono (scheduler-cons k x xs q fs n) (λ e k' r.
    record {
      out = r.loaded;
      state = r.state;
      runs = r.runs;
      slice = λ h. r.slice;
      interrupts = λ h. absurd (cc (h, r.loaded));
      soft_same = r.soft_same;
      word_same = r.word_same;
      state_same = r.state_same;
      marks_same = r.marks_same;
      steady = r.steady;
    })

-- ===== src/Nucleus/Device.antt =====
-- The second half of `handleDeviceInterrupt`, when a process waits for the device.
use pandos_phase.Prelude.{
  ℕ, ◌<◌, ◌≡◌, refl, ap, ◌∙◌, inl, inr, List, [], ◌∷◌, ◌++◌, ◌==◌, ◌∉◌, false, Bool-cases, arith,
  ne→==, lt→ltb, ==_refl, update, if◌then◌else◌,
}
use pandos_phase.Types
use pandos_phase.Types.{Ptr, null, maxint, maxproc, Processor, set_reg}
use pandos_phase.Words.{add32, sub32}
use pandos_phase.Run.{
  Exit, exit, ldst, access, Exits, exits, Exits-after, Exits-put_back, Exits-mono,
}
use pandos_phase.Pcb.{Pcbs}
use pandos_phase.Pcb.Fifo.{head_or_null}
use pandos_phase.Asl.{Asl}
use pandos_phase.Asl.Dequeue.{Dequeued, left_with}
use pandos_phase.Asl.Remove.{remove_blocked-cons}
use pandos_phase.Kernel.{Kernel}
use pandos_phase.Scheduler.{scheduler}
use pandos_phase.Interrupts.{device_verhogen}
use pandos_phase.Nucleus.{IsNucleus, IsLoose, Steady, Steady-trans, families, OnlyQueues-Steady}
use pandos_phase.Nucleus.Touch.{IsNucleus-touch}
use pandos_phase.Nucleus.Kin.{Marked, Marked-same, Marked-trans, woken-Marked}
use pandos_phase.Nucleus.Ready.{Readied, insert_ready-IsNucleus}
use pandos_phase.Nucleus.Slice.{resumes-first}
use pandos_phase.Nucleus.Dispatch.{scheduler-Scheduled, tail_of}
use pandos_phase.Nucleus.Verhogen.{
  Counts, Counts-signalled, p-queue, xs-length, still_negative, released-IsNucleus,
  released-IsLoose,
}

-- The process `p`, which waited for the device, is ready with the status of the device.
pub record Served (k : Kernel) (a status p : ℕ) (xs rq : List Ptr) (q : Ptr → List Ptr)
    (fs : List Ptr) (e : Exit) (k' : Kernel) : Type 0 where
  pub out : e ≡ (
      if k.current_process == null
      then ldst (k'.asl.pcbs.p_s (head_or_null (rq ++ p ∷ [])))
      else ldst k.saved)
  pub state :
      IsNucleus k'
        (if k.current_process == null then tail_of (rq ++ p ∷ []) else rq ++ p ∷ [])
        (left_with q a xs)
        fs
  pub answer : (k'.asl.pcbs.p_s p).s_reg Types.s_v0 ≡ status
  pub counts : Counts (k'.word a) xs
  pub soft : k'.soft_block_count ≡ sub32 k.soft_block_count 1
  pub value : k'.word ≡ update k.word a (add32 (k.word a) 1)
  pub runs :
      k'.current_process
      ≡ (if k.current_process == null then head_or_null (rq ++ p ∷ []) else k.current_process)
  pub steady : Steady k k'
  pub marks : Marked k.asl.pcbs.p_sem_add k'.asl.pcbs.p_sem_add q (left_with q a xs)

-- The state in which the process becomes ready; `s` is what `removeBlocked` leaves.
abbrev answered : Kernel → (a status p : ℕ) → Asl → Kernel
answered k a status p s = record k {
  asl = record s {
    pcbs = record (s.pcbs) { p_s = update s.pcbs.p_s p (set_reg Types.s_v0 status (s.pcbs.p_s p)) };
  };
  word = update k.word a (add32 (k.word a) 1);
  soft_block_count = sub32 k.soft_block_count 1;
}

module _ (k : Kernel) (a status : ℕ) (rq : List Ptr) (q : Ptr → List Ptr) (fs : List Ptr)
    (n : IsNucleus k rq q fs) (address : (maxint == a) ≡ false) (p : ℕ) (xs : List Ptr)
    (e : q a ≡ p ∷ xs) (counted : Counts (k.word a) (p ∷ xs)) where
  valid : (p < maxproc) × (p ∉ xs)
  valid = p-queue k a rq q fs n address p xs e

  p-IsLoose : IsLoose p rq (left_with q a xs) fs
  p-IsLoose = released-IsLoose k a p rq q fs xs n e valid.0 valid.1

  answered-IsNucleus :
      (s : Asl)
      → Dequeued k.asl a p q xs null s
      → IsNucleus (answered k a status p s) rq (left_with q a xs) fs
  answered-IsNucleus s d =
      IsNucleus-touch (record k { asl = s }) (answered k a status p s) p rq (left_with q a xs) fs
        (released-IsNucleus k a p rq q fs xs s n e d) p-IsLoose refl refl refl refl refl
        (λ y m. refl)

  -- What is left once the process is ready.
  Served-at :
      (s : Asl) (k1 : Kernel)
      → families s.pcbs ≡ families k.asl.pcbs
      → Marked k.asl.pcbs.p_sem_add s.pcbs.p_sem_add q (left_with q a xs)
      → Readied (answered k a status p s) p rq (left_with q a xs) fs k1
      → Exits
          (Served k a status p xs rq q fs)
          (if k1.current_process == null then scheduler k1 else exit (ldst k1.saved) k1)
  Served-at s k1 g d r =
      let st : (k1.asl.pcbs.p_s p).s_reg Types.s_v0 ≡ status =
        ap (λ (x : Pcbs). (x.p_s p).s_reg Types.s_v0) r.only.pcbs ∙ rw (==_refl p) refl in
      let left : Counts (k1.word a) xs =
        rw (r.word_same, ==_refl a)
          (Counts-signalled (k.word a) p xs (xs-length k a rq q fs n address p xs e) counted) in
      let st1 : Steady k k1 =
        Steady-trans (record { count = refl; devices = refl; family = g })
          (OnlyQueues-Steady r.only) in
      let soft = ap (λ (x : Kernel). x.soft_block_count) r.only.fields in
      let same : (k1.current_process == null) ≡ (k.current_process == null) =
        ap (λ (x : Kernel). x.current_process == null) r.only.fields in
      elim (Bool-cases (k.current_process == null)) [
        | inl z ↦ rw (same ∙ z) (
            Exits-mono (scheduler-Scheduled k1 (rq ++ p ∷ []) (left_with q a xs) fs r.state)
              (λ x k' w. record {
                out = rw z (w.out ∙ resumes-first k1 k' rq [] p w.state_same);
                state = rw z w.state;
                answer = ap (λ g. (g p).s_reg Types.s_v0) w.state_same ∙ st;
                counts = rw (w.word_same) left;
                soft = w.soft_same ∙ soft;
                value = w.word_same ∙ r.word_same;
                runs = rw z w.runs;
                steady = Steady-trans st1 w.steady;
                marks = Marked-trans d (Marked-same _ _ _ (w.marks_same ∙ r.marks_same));
              }))
        | inr z ↦ rw (same ∙ z) (
            exits (record {
              out = rw z (ap (λ (x : Kernel). ldst x.saved) r.only.fields);
              state = rw z r.state;
              answer = st;
              counts = left;
              soft = soft;
              value = r.word_same;
              runs = rw z (ap (λ (x : Kernel). x.current_process) r.only.fields);
              steady = st1;
              marks = Marked-trans d (Marked-same _ _ _ r.marks_same);
            }))
      ]

  -- When a process waits for the device, and the semaphore counts the waiting processes, the one that
  -- waits for the longest time becomes the last ready one, with the status of the device as the
  -- result of its call, and one soft-blocked process less is counted. The process that ran goes on,
  -- and if there was none the scheduler chooses one. The queues of the nucleus are well formed.
  pub device_verhogen-Served : Exits (Served k a status p xs rq q fs) (device_verhogen a status k)
  unfolding device_verhogen access
  device_verhogen-Served =
      rw (==_refl a, still_negative k a rq q fs n address p xs e counted)
        (Exits-put_back _ _ (remove_blocked-cons k.asl a q n.asl p xs e) (λ r s (same, d).
          rw (same, ne→== p null (omega (arith, valid.0)), lt→ltb _ _ valid.0)
            (Exits-after _
              (insert_ready-IsNucleus (answered k a status p s) p rq (left_with q a xs) fs
                (answered-IsNucleus s d) p-IsLoose)
              (λ u k1 w. elim (Bool-cases (k1.current_process == null)) [
                | inl z ↦ rw z (
                    rw z at (
                      Served-at s k1 (ap families d.rest.fields)
                        (woken-Marked k.asl.pcbs.p_sem_add s.pcbs.p_sem_add q a p xs e d.sem_add
                          d.rest.sem_same)
                        w))
                | inr z ↦ rw z (
                    rw z at (
                      Served-at s k1 (ap families d.rest.fields)
                        (woken-Marked k.asl.pcbs.p_sem_add s.pcbs.p_sem_add q a p xs e d.sem_add
                          d.rest.sem_same)
                        w))
              ]))))

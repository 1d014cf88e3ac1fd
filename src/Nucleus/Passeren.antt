-- ===== src/Nucleus/Passeren.antt =====
-- `sysPasseren`.
use pandos_phase.Prelude.{
  sym, ◌∉◌, ==→eq, ℕ, ◌≤◌, ◌<◌, ◌≡◌, refl, ap, subst, ◌∙◌, inl, inr, List, [], ◌∷◌, ◌++◌, ◌==◌,
  false, true, ◌∈◌, has-append, is_empty, length, length-append, Distinct-length, arith, ne_of_has,
  ==_refl, lt→ltb, Bool-cases, update,
}
use pandos_phase.Types
use pandos_phase.Types.{Ptr, null, maxint, maxproc}
use pandos_phase.Words.{is_negative, is_le_zero, add32, sub32, sdiv32}
use pandos_phase.Run.{
  Exit, ok, ldst, Returns-bind, access, Returns, returns, Exits, Exits-put_back, Exits-mono,
}
use pandos_phase.Pcb.{Pcbs}
use pandos_phase.Pcb.Fifo.{head_or_null}
use pandos_phase.Asl.{Asl}
use pandos_phase.Asl.Enqueue.{Enqueued, joined}
use pandos_phase.Asl.Insert.{insert_blocked-IsAsl}
use pandos_phase.Asl.Remove.{blocked-IsQueue}
use pandos_phase.Kernel.{Kernel, update_cpu_time, stck}
use pandos_phase.Semaphores.{sys_passeren, block_current}
use pandos_phase.Nucleus.{IsNucleus, IsLoose, Steady, Steady-trans, families}
use pandos_phase.Nucleus.Frame.{QueueOnly-SameQueue, IsQueue-same, IsFree-same}
use pandos_phase.Nucleus.Touch.{IsNucleus-touch}
use pandos_phase.Nucleus.Verhogen.{Counts}
use pandos_phase.Nucleus.Kin.{Marked}
use pandos_phase.Nucleus.Dispatch.{scheduler-Scheduled, resumes, tail_of}

-- STCK
abbrev pub clock : Kernel → ℕ
clock k = sdiv32 (k.word Types.tod_lo_addr) (k.word Types.timescale_addr)

-- The state after `updateCPUTime` for the process `c`.
abbrev pub timed : Kernel → Ptr → Kernel
timed k c =
    let s = k.asl.pcbs in
    record k {
      asl = record (k.asl) {
        pcbs = record s {
          p_time = update s.p_time c (add32 (s.p_time c) (sub32 (clock k) (s.p_start_tod c)));
          p_start_tod = update s.p_start_tod c (clock k);
        };
      };
    }

pub update_cpu_time_run :
    (k : Kernel) (c : Ptr)
    → k.current_process ≡ c
    → c < maxproc
    → (k.word Types.timescale_addr == 0) ≡ false
    → update_cpu_time k ≡ ok tt (timed k c)
unfolding update_cpu_time stck access
update_cpu_time_run k c e h n = rw (n, e, lt→ltb _ _ h) refl

-- The state in which `insertBlocked` is called: the CPU time is up to date, the semaphore `a`
-- counted down, and the process `c` has its state saved and the semaphore noted.
abbrev stopped : Kernel → (a c : Ptr) → Kernel
stopped k a c =
    let s = (timed k c).asl.pcbs in
    record k {
      asl = record (k.asl) {
        pcbs = record s { p_s = update s.p_s c k.saved; p_sem_add = update s.p_sem_add c a };
      };
      word = update k.word a (sub32 (k.word a) 1);
    }

module _ (k : Kernel) (a c : Ptr) (rq : List Ptr) (q : Ptr → List Ptr) (fs : List Ptr)
    (n : IsNucleus k rq q fs) (o : IsLoose c rq q fs) where
  stopped-IsNucleus : IsNucleus (stopped k a c) rq q fs
  stopped-IsNucleus =
      IsNucleus-touch k (stopped k a c) c rq q fs n o refl refl refl refl refl (λ y d. rw d refl)

  -- The nucleus once the process is on the queue of the semaphore.
  joined-IsNucleus :
      (s' : Asl)
      → Enqueued (stopped k a c).asl a c q false s'
      → IsNucleus (record (stopped k a c) { asl = s' }) rq (joined q a c) fs
  joined-IsNucleus s' e = record {
    asl = e.state;
    ready =
        IsQueue-same (stopped k a c).asl.pcbs s'.pcbs k.ready_queue rq
          (λ y m.
            let d = ne_of_has c y rq o.not_ready m in
            QueueOnly-SameQueue (stopped k a c).asl.pcbs s'.pcbs (c ∷ q a) c y e.rest
              (ground (arith, n.ready_blocked y a m, d)) d)
          stopped-IsNucleus.ready;
    free =
        IsFree-same (stopped k a c).asl.pcbs s'.pcbs fs
          (λ y m.
            e.rest.next_same y
              (ground (arith, n.free_blocked y a m, ne_of_has c y fs o.not_free m)))
          (ap (λ (u : Pcbs). u.pcb_free_h) e.rest.fields) stopped-IsNucleus.free;
    ready_blocked = λ y b m.
        ground (
          arith,
          has-append y (q a) (c ∷ []),
          n.ready_blocked y b m,
          ne_of_has c y rq o.not_ready m,
        );
    free_ready = n.free_ready;
    free_blocked = λ y b m.
        ground
          (arith, has-append y (q a) (c ∷ []), n.free_blocked y b m, ne_of_has c y fs o.not_free m);
  }

  -- Who is blocked nowhere then is not `c`, and was blocked nowhere before.
  joined-Marked :
      (s' : Asl)
      → Enqueued (stopped k a c).asl a c q false s'
      → (m : Ptr → Ptr) → m ≡ s'.pcbs.p_sem_add
      → Marked k.asl.pcbs.p_sem_add m q (joined q a c)
  joined-Marked s' e m w = record {
    mark = λ y o.
        let i : y ∉ q a ++ c ∷ [] = rw (==_refl a) at (o a) in
        let d : (y == c) ≡ false = ground (arith, has-append y (q a) (c ∷ []), i) in
        inr (
          ap (λ f. f y) w ∙ (e.rest.sem_same y d ∙ rw d refl),
          λ b. elim (Bool-cases (b == a)) [
            | inl z ↦
                subst (λ v. y ∉ q v) (sym (==→eq b a z))
                  (ground (arith, has-append y (q a) (c ∷ []), i))
            | inr z ↦ let u : y ∉ q b = rw z at (o b) in u
          ],
        );
  }

  joined-resumes :
      (s' : Asl) (ys : List Ptr)
      → ((y : Ptr) → y ∈ ys → (y == c) ≡ false)
      → Enqueued (stopped k a c).asl a c q false s'
      → resumes (record (stopped k a c) { asl = s' }) ys ≡ resumes k ys
  joined-resumes s' [] d e = refl
  joined-resumes s' (y ∷ ys) d e =
      ap (λ (u : Pcbs). ldst (u.p_s y)) e.rest.fields ∙ ap ldst (rw (d y (ground arith)) refl)

-- What a P operation that blocks the process `c` does; `waits` are the processes that are blocked
-- on the semaphore then.
pub record Passed (k : Kernel) (a c : Ptr) (rq : List Ptr) (q : Ptr → List Ptr) (fs : List Ptr)
    (e : Exit) (k' : Kernel) : Type 0 where
  pub out : e ≡ resumes k rq
  pub state : IsNucleus k' (tail_of rq) (joined q a c) fs
  pub runs : k'.current_process ≡ head_or_null rq
  pub kept : k'.asl.pcbs.p_s c ≡ k.saved
  pub value : k'.word ≡ update k.word a (sub32 (k.word a) 1)
  pub counts : Counts (k'.word a) (joined q a c a)
  pub soft_same : k'.soft_block_count ≡ k.soft_block_count
  pub marks : Marked k.asl.pcbs.p_sem_add k'.asl.pcbs.p_sem_add q (joined q a c)
  pub steady : Steady k k'

module _ (k : Kernel) (a : Ptr) (rq : List Ptr) (q : Ptr → List Ptr) (fs : List Ptr)
    (n : IsNucleus k rq q fs) (o : IsLoose (k.current_process) rq q fs)
    (scale : (k.word Types.timescale_addr == 0) ≡ false) (address : (maxint == a) ≡ false)
    (counted : Counts (k.word a) (q a)) where
  q-length : length (q a) ≤ maxproc
  q-length = elim (Bool-cases (is_empty (q a))) [
    | inl e ↦ ground arith
    | inr e ↦
        let w = blocked-IsQueue k.asl a q n.asl e in
        Distinct-length maxproc (q a) w.distinct w.inside
  ]

  Counts-joined :
      (xs : List Ptr)
      → length xs ≤ maxproc
      → Counts (k.word a) xs
      → is_le_zero (k.word a) ≡ true
      → Counts (sub32 (k.word a) 1) (xs ++ k.current_process ∷ [])
  Counts-joined [] l v z = let e : k.word a ≡ 0 = ground (arith, v) in omega (arith, e)
  Counts-joined (x ∷ xs) l v z = omega (arith, l, v, length-append xs (k.current_process ∷ []))

  down-negative :
      (xs : List Ptr)
      → length xs ≤ maxproc
      → Counts (k.word a) xs
      → is_le_zero (k.word a) ≡ true
      → is_negative (sub32 (k.word a) 1) ≡ true
  down-negative [] l v z = let e : k.word a ≡ 0 = ground (arith, v) in ground (arith, e)
  down-negative (x ∷ xs) l v z = ground (arith, l, v)

  nobody-waits :
      (xs : List Ptr)
      → length xs ≤ maxproc
      → Counts (k.word a) xs
      → is_le_zero (k.word a) ≡ false
      → xs ≡ []
  nobody-waits [] l v z = refl
  nobody-waits (x ∷ xs) l v z = absurd (ground (arith, l, v))

  block_Passed :
      is_le_zero (k.word a) ≡ true
      → Exits (Passed k a (k.current_process) rq q fs) (
          block_current a
            (record (timed k (k.current_process)) { word = update k.word a (sub32 (k.word a) 1) }))
  unfolding block_current access
  block_Passed z = rw (lt→ltb _ _ o.valid) (
      Exits-put_back _ _
        (Returns-bind
          {Q = λ _. Enqueued (stopped k a (k.current_process)).asl a (k.current_process) q false}
          (insert_blocked-IsAsl (stopped k a (k.current_process)).asl a (k.current_process) q
            (stopped-IsNucleus k a (k.current_process) rq q fs n o).asl
            (record { valid = o.valid; free = o.not_blocked; address = address }))
          (λ r s' e. returns (
            subst (λ b. Enqueued (stopped k a (k.current_process)).asl a (k.current_process) q b s')
              e.result e)))
        (λ r s' e.
          Exits-mono
            (scheduler-Scheduled (record (stopped k a (k.current_process)) { asl = s' }) rq
              (joined q a (k.current_process)) fs
              (joined-IsNucleus k a (k.current_process) rq q fs n o s' e))
            (λ x k' w. record {
              out =
                  w.out
                  ∙ joined-resumes k a (k.current_process) rq q fs n o s' rq
                      (λ y m. ne_of_has (k.current_process) y rq o.not_ready m) e;
              state = w.state;
              runs = w.runs;
              kept =
                  ap (λ f. f (k.current_process)) w.state_same
                  ∙ (ap (λ (u : Pcbs). u.p_s (k.current_process)) e.rest.fields
                      ∙ rw (==_refl (k.current_process)) refl);
              value = w.word_same;
              counts = rw (w.word_same, ==_refl a) (Counts-joined (q a) q-length counted z);
              soft_same = w.soft_same;
              marks =
                  joined-Marked k a (k.current_process) rq q fs n o s' e (k'.asl.pcbs.p_sem_add)
                    w.marks_same;
              steady =
                  Steady-trans
                    (record { count = refl; devices = refl; family = ap families e.rest.fields })
                    w.steady;
            })))

  -- A P operation on a semaphore whose value is zero or counts its blocked processes takes one
  -- from it and blocks the running process as the last one on the semaphore, with its state saved;
  -- the process that is ready for the longest time runs next, or the nucleus idles. The value
  -- counts the blocked processes then. The queues of the nucleus are well formed, the running
  -- process is on none of them, the time scale is not zero, and the address of the semaphore is
  -- not MAXINT.
  pub sys_passeren-Passed :
      is_le_zero (k.word a) ≡ true
      → Exits (Passed k a (k.current_process) rq q fs) (sys_passeren a k)
  unfolding sys_passeren
  sys_passeren-Passed z =
      rw
        (
          update_cpu_time_run k (k.current_process) refl o.valid scale,
          ==_refl a,
          down-negative (q a) q-length counted z,
        )
        (block_Passed z)

  passed_timed :
      IsNucleus
        (record (timed k (k.current_process)) { word = update k.word a (sub32 (k.word a) 1) })
        rq
        q
        fs
  passed_timed =
      IsNucleus-touch k
        (record (timed k (k.current_process)) { word = update k.word a (sub32 (k.word a) 1) })
        (k.current_process) rq q fs n o refl refl refl refl refl (λ y d. refl)

  -- On a positive semaphore a P operation only takes one from it and brings the CPU time of the
  -- running process up to date. The queues of the nucleus are well formed, the running process is
  -- on none of them, the value counts the blocked processes, the time scale is not zero, and the
  -- address of the semaphore is not MAXINT.
  pub sys_passeren-Counts :
      is_le_zero (k.word a) ≡ false
      → Returns
          (λ _ k'.
            (k' ≡ record (timed k (k.current_process)) {
              word = update k.word a (sub32 (k.word a) 1);
            })
            × IsNucleus k' rq q fs
            × Counts (k'.word a) (q a))
          (sys_passeren a k)
  unfolding sys_passeren
  sys_passeren-Counts z =
      let nobody : q a ≡ [] = nobody-waits (q a) q-length counted z in
      let up : is_negative (sub32 (k.word a) 1) ≡ false = ground (arith, nobody, counted) in
      rw (update_cpu_time_run k (k.current_process) refl o.valid scale, ==_refl a, up)
        (returns (
          refl,
          passed_timed,
          rw (==_refl a, nobody) (ground (arith, subst (Counts (k.word a)) nobody counted)),
        ))

-- ===== src/Nucleus/Reach/Calls.antt =====
-- The system calls on semaphores keep the invariant.
use pandos_phase.Prelude.{
  ℕ, if◌then◌else◌, ne→==, ◌+◌, ◌-◌, ◌^◌, ◌<◌, ◌≡◌, ◌≢◌, refl, ap, ◌∙◌, sym, inl, inr, List, [],
  ◌∷◌, ◌==◌, ◌∈◌, false, arith, update, ltb, is_empty, lt_of_has, Bool-cases, ==→eq,
}
use pandos_phase.Types
use pandos_phase.Types.{Ptr, null, maxint, maxproc}
use pandos_phase.Words.{is_le_zero, sub32}
use pandos_phase.Run.{ok, Run, Exit, ldst, Exits, exits, Exits-after, Exits-mono}
use pandos_phase.Pcb.Fifo.{head_or_null}
use pandos_phase.Asl.{Asl}
use pandos_phase.Asl.Remove.{head_blocked-head, blocked-IsQueue}
use pandos_phase.Kernel.{Kernel}
use pandos_phase.Nucleus.Boot.{semaphore_at}
use pandos_phase.Nucleus.Reach.Onward.{resumes-GoesOn, runs-GoesOn}
use pandos_phase.Exceptions.{exception_handler, syscall}
use pandos_phase.Nucleus.{IsNucleus, IsLoose, Steady, families}
use pandos_phase.Asl.Enqueue.{joined}
use pandos_phase.Asl.Dequeue.{left_with}
use pandos_phase.Nucleus.Touch.{IsNucleus-touch}
use pandos_phase.Nucleus.Passeren.{timed, sys_passeren-Counts}
use pandos_phase.Nucleus.Calls.{
  called, exception_handler_call, exception_handler-Passed, exception_handler-Signalled,
}
use pandos_phase.Nucleus.Clock.{clock_semaphore}
use pandos_phase.Nucleus.Waits.{clocked}
use pandos_phase.Nucleus.Verhogen.{Counts, asleep}
use pandos_phase.Nucleus.Sound.{
  IsSound, IsSound-keep, IsSound-value, Passed-IsSound, Signalled-IsSound,
}
use pandos_phase.Nucleus.Reach.{Awaited, Initialised, IsSemaphore, Calling}
use pandos_phase.Pcb.Forest.{Forest}
use pandos_phase.Nucleus.Kin.{IsFamily, IsFamily-steady, Marked-same}
use pandos_phase.Nucleus.Abstract.{Abstract, view, GoesOn, Handled, block, wake}

result : Run Asl Ptr → Ptr
result (ok p s) = p
result _ = 0

has-nonempty : (p : Ptr) (ys : List Ptr) → p ∈ ys → is_empty ys ≡ false
has-nonempty p [] m = absurd (ground arith)
has-nonempty p (y ∷ ys) m = refl

head-has : (ys : List Ptr) (p : Ptr) → p ∈ ys → head_or_null ys ∈ ys
head-has [] p m = absurd (ground arith)
head-has (y ∷ ys) p m = ground arith

module _ (k : Kernel) (rq : List Ptr) (q : Ptr → List Ptr) (fs : List Ptr)
    (h : IsSound k rq q fs) where
  -- The process that runs is on no list.
  pub runner : (k.current_process == null) ≡ false → IsLoose k.current_process rq q fs
  runner n = elim h.running [ inl e ↦ absurd (ground arith) | inr o ↦ o ]

  -- A semaphore with a queue is awaited.
  ne-maxint : (a p : Ptr) → p ∈ q a → (maxint == a) ≡ false
  ne-maxint a p m = elim (Bool-cases (maxint == a)) [
    | inl i ↦ absurd (ground (arith, h.nucleus.asl.blocks.no_dummy, ap q (==→eq maxint a i), m))
    | inr i ↦ i
  ]

  head-lt : (a p : Ptr) → p ∈ q a → head_or_null (q a) < maxproc
  head-lt a p m =
      let c = blocked-IsQueue k.asl a q h.nucleus.asl (has-nonempty p (q a) m) in
      lt_of_has maxproc (head_or_null (q a)) (q a) c.inside (head-has (q a) p m)

  pub has-Awaited : (a p : Ptr) → p ∈ q a → Awaited k a
  unfolding result
  has-Awaited a p m e =
      let r : head_or_null (q a) ≡ null =
        ap result (sym (head_blocked-head k.asl a q h.nucleus.asl (ne-maxint a p m)) ∙ e) in
      absurd (omega (arith, head-lt a p m, r))

  -- The value of a semaphore counts its blocked processes.
  pub Counts-at : (a : Ptr) → IsSemaphore k a → (xs : List Ptr) → q a ≡ xs → Counts (k.word a) xs
  Counts-at a s [] e = elim (Bool-cases (ltb (k.word a) (2 ^ 31))) [
    | inl l ↦ ground (arith, l)
    | inr l ↦ absurd (
        s.initialised (ground (arith, l)) (
          head_blocked-head k.asl a q h.nucleus.asl s.address
          ∙ ap (λ xs. ok (head_or_null xs) k.asl) e))
  ]
  Counts-at a s (p ∷ xs) e = h.counted a p xs e

  -- The device semaphores are semaphores.
  pub table-IsSemaphore :
      (j : ℕ)
      → j < Types.num_devices + 1
      → Initialised k (semaphore_at k j)
      → IsSemaphore k (semaphore_at k j)
  table-IsSemaphore j l i = record {
    in_ram = omega (arith, h.devices, h.devices_end, l);
    address = ne→== maxint (semaphore_at k j) (omega (arith, h.devices, h.devices_end, l));
    some = ne→== null (semaphore_at k j) (omega (arith, h.devices, h.devices_end, l));
    initialised = i;
  }

  pub called-IsSound : IsSound (called k) rq q fs
  called-IsSound =
      IsSound-keep k rq q fs h (called k) refl refl refl
        (record { count = refl; devices = refl; family = refl }) (λ a p m. refl)

  -- None of what the invariant speaks of is changed.
  pub same-IsSound :
      (k' : Kernel)
      → k'.asl ≡ k.asl
      → k'.ready_queue ≡ k.ready_queue
      → k'.current_process ≡ k.current_process
      → k'.process_count ≡ k.process_count
      → k'.device_semaphores ≡ k.device_semaphores
      → k'.word ≡ k.word
      → IsSound k' rq q fs
  same-IsSound k' a r c n d w =
      IsSound-keep k rq q fs h k' a r c
        (record { count = n; devices = d; family = ap (λ (s : Asl). families s.pcbs) a })
        (λ b p m. ap (λ f. f b) w)

  -- The CPU time of the caller of SYS7 is brought up to date.
  pub IsSound-timed : IsLoose k.current_process rq q fs → IsSound (clocked k) rq q fs
  IsSound-timed o =
      let a = clock_semaphore k in
      record {
        nucleus =
            IsNucleus-touch k (clocked k) k.current_process rq q fs h.nucleus o refl refl refl refl
              refl (λ y d. refl);
        running = inr o;
        counted = h.counted;
        in_ram = h.in_ram;
        accounted = h.accounted;
        count = h.count;
        devices = h.devices;
        devices_end = h.devices_end;
      }

  -- A P operation that does not block.
  positive-IsSound :
      (a : Ptr) (k' : Kernel)
      → k'.current_process ≡ k.current_process
      → Steady k k'
      → k'.word ≡ update k.word a (sub32 (k.word a) 1)
      → IsNucleus k' rq q fs
      → Counts (k'.word a) (q a)
      → IsSound k' rq q fs
  positive-IsSound a k' c s m n v =
      IsSound-value k rq q fs h a k' n c s (λ b i. ap (λ f. f b) m ∙ rw i refl) v

module _ (k : Kernel) (rq : List Ptr) (q : Ptr → List Ptr) (fs : List Ptr) (t : Forest)
    (h : IsSound k rq q fs) (g : IsFamily k.asl.pcbs t q fs) where
  -- The abstract state.
  abbrev pub here : Abstract
  here = view k rq q fs t

  -- The caller is blocked if the value is not positive.
  abbrev pub passed : Ptr → Abstract
  passed a = if is_le_zero (k.word a) then block a here else here

  -- NULL is no semaphore.
  pub joined-null : (a c : Ptr) → (null == a) ≡ false → joined q a c null ≡ []
  joined-null a c n = rw n g.no_null

  pub left-null : (a : Ptr) (ys : List Ptr) → (null == a) ≡ false → left_with q a ys null ≡ []
  left-null a ys n = rw n g.no_null

  -- A process that still runs.
  pub still_runs :
      (e : Exit) (k' : Kernel)
      → (k.current_process == null) ≡ false
      → k'.current_process ≡ k.current_process
      → GoesOn e k'
  still_runs e k' r c = runs-GoesOn e k' (ap (λ v. v == null) c ∙ r)

  -- A P operation that does not block, from a state `k0` that is `k` but for the caller's notes.
  pub positive-Handled :
      (a : Ptr) (e : Exit) (k0 k' : Kernel)
      → (k.current_process == null) ≡ false
      → k' ≡ record (timed k0 k.current_process) { word = update k0.word a (sub32 (k0.word a) 1) }
      → k0.current_process ≡ k.current_process
      → Steady k k0
      → k0.word ≡ k.word
      → k0.asl.pcbs.p_sem_add ≡ k.asl.pcbs.p_sem_add
      → IsNucleus k' rq q fs
      → Counts (k'.word a) (q a)
      → Handled here e k'
  positive-Handled a e k0 k' r i c s m d n v =
      let c' = ap (λ (x : Kernel). x.current_process) i ∙ c in
      let s' : Steady k k' = record {
        count = ap (λ (x : Kernel). x.process_count) i ∙ s.count;
        devices = ap (λ (x : Kernel). x.device_semaphores) i ∙ s.devices;
        family = ap (λ (x : Kernel). families x.asl.pcbs) i ∙ s.family;
      } in
      (
        still_runs e k' r c',
        c',
        positive-IsSound k rq q fs h a k' c' s'
            (ap (λ (x : Kernel). x.word) i ∙ ap (λ f. update f a (sub32 (f a) 1)) m) n v,
        IsFamily-steady s'.family
            (Marked-same _ _ q (ap (λ (x : Kernel). x.asl.pcbs.p_sem_add) i ∙ d)) g.no_null g,
      )

  -- SYS3.
  pub passeren-Sound :
      Calling k 3
      → IsSemaphore k (k.saved.s_reg Types.s_a1)
      → Exits (Handled (passed (k.saved.s_reg Types.s_a1))) (exception_handler k)
  unfolding syscall
  passeren-Sound c s =
      let a = k.saved.s_reg Types.s_a1 in
      let o = runner k rq q fs h c.running in
      let v = Counts-at k rq q fs h a s (q a) refl in
      let n = (called-IsSound k rq q fs h).nucleus in
      let same : Steady k (called k) = record { count = refl; devices = refl; family = refl } in
      elim (Bool-cases (is_le_zero (k.word a))) [
        | inl z ↦
            Exits-mono (exception_handler-Passed k rq q fs h.nucleus s.address v c.call o c.scale z)
              (λ e k' w. rw z (
                resumes-GoesOn (called k) k' e rq w.out w.runs h.nucleus.ready.inside,
                w.runs,
                Passed-IsSound (called k) rq q fs (called-IsSound k rq q fs h) a e k' s.in_ram o w,
                IsFamily-steady w.steady.family w.marks (joined-null a k.current_process s.some) g,
              ))
        | inr z ↦
            rw (z, exception_handler_call k 3 c.call (omega arith))
              (Exits-after _ (sys_passeren-Counts (called k) a rq q fs n o c.scale s.address v z)
                (λ u k' w. exits (
                  positive-Handled a (ldst k'.saved) (called k) k' c.running w.0 refl same refl refl
                    w.1 w.2)))
      ]

  -- SYS4.
  pub verhogen-Sound :
      Calling k 4
      → IsSemaphore k (k.saved.s_reg Types.s_a1)
      → k.word (k.saved.s_reg Types.s_a1) ≢ 2 ^ 31 - 1
      → Exits (Handled (wake (k.saved.s_reg Types.s_a1) here)) (exception_handler k)
  verhogen-Sound c s o =
      let a = k.saved.s_reg Types.s_a1 in
      Exits-mono
        (exception_handler-Signalled k rq q fs h.nucleus s.address
          (Counts-at k rq q fs h a s (q a) refl) c.call o)
        (λ e k' w. (
          still_runs e k' c.running w.1.current_same,
          w.1.current_same,
          Signalled-IsSound (called k) rq q fs (called-IsSound k rq q fs h) a k' w.1,
          IsFamily-steady w.1.steady.family w.1.marks (left-null a (asleep (q a)) s.some) g,
        ))

-- ===== src/Nucleus/Sound/Wake.antt =====
-- The invariant where processes become ready: the timers and the devices.
use pandos_phase.Prelude.{
  ℕ, ◌+◌, ◌≤◌, ◌<◌, ◌≡◌, ◌⊎◌, refl, ap, ◌∙◌, subst, sym, inl, inr, List, [], ◌∷◌, ◌++◌, ◌==◌, ◌∈◌,
  ◌∉◌, false, true, arith, has-append, length, All, All-join, All-parts, Distinct, if◌then◌else◌,
  Bool-cases, ne_of_has, ==→eq, ==_refl, Apart, Distinct-Apart, Apart-Distinct, is_empty,
}
use mathlib.Core.List.{append-nil}
use pandos_phase.Types.{Ptr, null, maxproc}
use pandos_phase.Run.{Exit}
use pandos_phase.Pcb.Fifo.{head_or_null}
use pandos_phase.Asl.Dequeue.{left_with}
use pandos_phase.Asl.Remove.{blocked-IsQueue}
use pandos_phase.Kernel.{Kernel}
use pandos_phase.Nucleus.{IsNucleus, IsLoose, Steady, Steady-trans}
use pandos_phase.Nucleus.Verhogen.{Counts}
use pandos_phase.Nucleus.Dispatch.{tail_of, Scheduled}
use pandos_phase.Nucleus.Clock.{Ticked, clock_semaphore}
use pandos_phase.Nucleus.Device.{Served}
use pandos_phase.Nucleus.Slice.{Preempted}
use pandos_phase.Nucleus.Sound.{IsSound, ram_start, next_running, tail-missing, counted-change}

-- The lists on which the scheduler, or the return to the process `c`, is about to work.
record Settled (c : Ptr) (rq : List Ptr) (q : Ptr → List Ptr) (fs : List Ptr) : Type 0 where
  distinct : Distinct rq
  inside : All (λ y. y < maxproc) rq
  ready_blocked : (y b : Ptr) → y ∈ rq → y ∉ q b
  free_ready : (y : Ptr) → y ∈ fs → y ∉ rq
  running : (c ≡ null) ⊎ IsLoose c rq q fs
  in_ram : (a p : Ptr) → p ∈ q a → ram_start ≤ a
  accounted : (y : Ptr) → y < maxproc → y ∉ fs → y ∉ rq → (y == c) ≡ false → (b : Ptr) × (y ∈ q b)

-- The process `c` goes on, or if there is none the scheduler chooses one.
resume-IsSound :
    (k k' : Kernel) (c : Ptr) (rq rq' : List Ptr) (q q' : Ptr → List Ptr) (fs : List Ptr)
    → IsSound k rq q fs
    → Settled c rq' q' fs
    → IsNucleus k' (if c == null then tail_of rq' else rq') q' fs
    → k'.current_process ≡ (if c == null then head_or_null rq' else c)
    → ((a p : Ptr) (xs : List Ptr) → q' a ≡ p ∷ xs → Counts (k'.word a) (p ∷ xs))
    → Steady k k'
    → IsSound k' (if c == null then tail_of rq' else rq') q' fs
resume-IsSound k k' c rq rq' q q' fs h t n r w st = elim (Bool-cases (c == null)) [
  | inl z ↦
      let r' : k'.current_process ≡ head_or_null rq' = rw z at r in
      rw z (record {
        nucleus = rw z at n;
        running =
            subst (λ v. (v ≡ null) ⊎ IsLoose v (tail_of rq') q' fs) (sym r')
              (next_running rq' q' fs t.distinct t.inside t.ready_blocked t.free_ready);
        counted = w;
        in_ram = t.in_ram;
        accounted = λ y v f o m.
            t.accounted y v f (tail-missing y rq' o (ap (λ d. y == d) (sym r') ∙ m))
              (ground (arith, v, z));
        count = ap (λ v. v + length fs) st.count ∙ h.count;
        devices = rw (st.devices) h.devices;
        devices_end = rw (st.devices) h.devices_end;
      })
  | inr z ↦
      let r' : k'.current_process ≡ c = rw z at r in
      rw z (record {
        nucleus = rw z at n;
        running = subst (λ v. (v ≡ null) ⊎ IsLoose v rq' q' fs) (sym r') t.running;
        counted = w;
        in_ram = t.in_ram;
        accounted = λ y v f o m. t.accounted y v f o (ap (λ d. y == d) (sym r') ∙ m);
        count = ap (λ v. v + length fs) st.count ∙ h.count;
        devices = rw (st.devices) h.devices;
        devices_end = rw (st.devices) h.devices_end;
      })
]

-- The first processes `ws` that are blocked on `a` become ready.
module _ (k : Kernel) (rq : List Ptr) (q : Ptr → List Ptr) (fs : List Ptr) (h : IsSound k rq q fs)
    (a : Ptr) (ws xs : List Ptr) (e : q a ≡ ws ++ xs) where
  queue_facts : Distinct (ws ++ xs) × All (λ y. y < maxproc) (ws ++ xs)
  queue_facts = elim (Bool-cases (is_empty (q a))) [
    | inl i ↦ subst (λ l. Distinct l × All (λ y. y < maxproc) l) e (empty_facts (q a) i)
    | inr i ↦
        let c = blocked-IsQueue k.asl a q h.nucleus.asl i in
        subst (λ l. Distinct l × All (λ y. y < maxproc) l) e (c.distinct, c.inside)
  ]
    where
      empty_facts : (l : List Ptr) → is_empty l ≡ true → Distinct l × All (λ y. y < maxproc) l
      empty_facts [] i = (tt, tt)
      empty_facts (y ∷ l) i = absurd (ground arith)

  parts : Apart ws xs
  parts = Distinct-Apart ws xs queue_facts.0

  ws-blocked : (y : Ptr) → y ∈ ws → y ∈ q a
  ws-blocked y m = rw e (ground (arith, has-append y ws xs))

  xs-blocked : (y : Ptr) → y ∈ xs → y ∈ q a
  xs-blocked y m = rw e (ground (arith, has-append y ws xs))

  -- Who is blocked afterwards was blocked before.
  still-blocked : (y b : Ptr) → y ∈ left_with q a xs b → y ∈ q b
  still-blocked y b m = elim (Bool-cases (b == a)) [
    | inl i ↦ rw (==→eq b a i) (xs-blocked y (rw i at m))
    | inr i ↦ rw i at m
  ]

  woken-apart : (y b : Ptr) → y ∈ ws → y ∉ left_with q a xs b
  woken-apart y b m = elim (Bool-cases (b == a)) [
    | inl i ↦ rw i (let v = parts in v.apart y m)
    | inr i ↦ rw i (h.nucleus.asl.blocks.apart a b y (ground (arith, i)) (ws-blocked y m))
  ]

  left_over : (y b : Ptr) → y ∉ rq ++ ws → y ∈ q b → y ∈ left_with q a xs b
  left_over y b o m = elim (Bool-cases (b == a)) [
    | inl i ↦
        let m' : y ∈ ws ++ xs = rw e at (rw (==→eq b a i) at m) in
        rw i (ground (arith, has-append y rq ws, has-append y ws xs))
    | inr i ↦ rw i m
  ]

  woken-Settled : Settled k.current_process (rq ++ ws) (left_with q a xs) fs
  woken-Settled =
      let n = h.nucleus in
      record {
        distinct = Apart-Distinct rq ws (record {
          left = n.ready.distinct;
          right = let v = parts in v.left;
          apart = λ y m. ground (arith, n.ready_blocked y a m, ws-blocked y);
        });
        inside =
            All-join (λ y. y < maxproc) rq ws n.ready.inside
              (All-parts (λ y. y < maxproc) ws xs queue_facts.1).0;
        ready_blocked = λ y b m.
            ground
              (arith, has-append y rq ws, n.ready_blocked y b, still-blocked y b, woken-apart y b);
        free_ready = λ y m.
            ground
              (arith, has-append y rq ws, n.free_ready y m, n.free_blocked y a m, ws-blocked y);
        running = elim h.running [
          | inl z ↦ inl z
          | inr o ↦ inr (record {
            valid = o.valid;
            not_ready = ground (
              arith,
              has-append k.current_process rq ws,
              o.not_ready,
              o.not_blocked a,
              ws-blocked k.current_process,
            );
            not_blocked = λ b. ground (arith, o.not_blocked b, still-blocked k.current_process b);
            not_free = o.not_free;
          })
        ];
        in_ram = λ b y m. h.in_ram b y (still-blocked y b m);
        accounted = λ y v f o m.
            let (b, i) = h.accounted y v f (ground (arith, has-append y rq ws)) m in
            (b, left_over y b o i);
      }

  pub woken-inside : All (λ y. y < maxproc) (rq ++ ws)
  woken-inside = let v = woken-Settled in v.inside

module _ (k : Kernel) (rq : List Ptr) (q : Ptr → List Ptr) (fs : List Ptr)
    (h : IsSound k rq q fs) where
  -- The scheduler, when no process runs and only the local timer has been set.
  pub Scheduled-IsSound :
      (k0 : Kernel) (e : Exit) (k' : Kernel)
      → k.current_process ≡ null
      → k0.word ≡ k.word
      → Steady k k0
      → Scheduled k0 rq q fs e k'
      → IsSound k' (tail_of rq) q fs
  Scheduled-IsSound k0 e k' z m st w =
      resume-IsSound k k' null rq rq q q fs h
        (record {
          distinct = h.nucleus.ready.distinct;
          inside = h.nucleus.ready.inside;
          ready_blocked = h.nucleus.ready_blocked;
          free_ready = h.nucleus.free_ready;
          running = inl refl;
          in_ram = h.in_ram;
          accounted = λ y v f r n. h.accounted y v f r (ap (λ c. y == c) z ∙ n);
        })
        w.state w.runs
        (λ a p xs i.
          subst (λ f. Counts (f a) (p ∷ xs)) (sym (w.word_same ∙ m)) (h.counted a p xs i))
        (Steady-trans st w.steady)

  -- The interrupt of the interval timer.
  pub Ticked-IsSound :
      (e : Exit) (k' : Kernel)
      → ram_start ≤ clock_semaphore k
      → Ticked k rq q fs e k'
      → IsSound k'
          (if k.current_process == null
            then tail_of (rq ++ q (clock_semaphore k))
            else rq ++ q (clock_semaphore k))
          (left_with q (clock_semaphore k) [])
          fs
  Ticked-IsSound e k' low w =
      let a = clock_semaphore k in
      resume-IsSound k k' k.current_process rq (rq ++ q a) q (left_with q a []) fs h
        (woken-Settled k rq q fs h a (q a) [] (sym (append-nil (q a)))) w.state w.runs
        (counted-change k.word k'.word q (left_with q a []) a h.counted (λ b i. rw i refl)
          (λ b p i m. w.words b i (ground (arith, h.in_ram b p m)))
          (rw (==_refl a) (omega (arith, w.value))))
        w.steady

  -- The interrupt of a device for which the process `p` waits.
  pub Served-IsSound :
      (a status p : ℕ) (xs : List Ptr) (e : Exit) (k' : Kernel)
      → q a ≡ p ∷ xs
      → Served k a status p xs rq q fs e k'
      → IsSound k'
          (if k.current_process == null then tail_of (rq ++ p ∷ []) else rq ++ p ∷ [])
          (left_with q a xs)
          fs
  Served-IsSound a status p xs e k' i w =
      resume-IsSound k k' k.current_process rq (rq ++ p ∷ []) q (left_with q a xs) fs h
        (woken-Settled k rq q fs h a (p ∷ []) xs i) w.state w.runs
        (counted-change k.word k'.word q (left_with q a xs) a h.counted (λ b j. rw j refl)
          (λ b y j m. ap (λ f. f b) w.value ∙ rw j refl) (rw (==_refl a) w.counts))
        w.steady

  -- The end of a time slice.
  pub Preempted-IsSound :
      (e : Exit) (k' : Kernel)
      → IsLoose k.current_process rq q fs
      → Preempted k k.current_process rq q fs e k'
      → IsSound k' (tail_of (rq ++ k.current_process ∷ [])) q fs
  Preempted-IsSound e k' o w =
      let c = k.current_process in
      resume-IsSound k k' null rq (rq ++ c ∷ []) q q fs h
        (record {
          distinct = Apart-Distinct rq (c ∷ []) (record {
            left = h.nucleus.ready.distinct;
            right = (refl, tt);
            apart = λ y m. ground (arith, ne_of_has c y rq o.not_ready m);
          });
          inside = All-join (λ y. y < maxproc) rq (c ∷ []) h.nucleus.ready.inside (o.valid, tt);
          ready_blocked = λ y b m.
              ground
                (arith, has-append y rq (c ∷ []), h.nucleus.ready_blocked y b, o.not_blocked b);
          free_ready = λ y m. ground (
            arith,
            has-append y rq (c ∷ []),
            h.nucleus.free_ready y m,
            ne_of_has c y fs o.not_free m,
          );
          running = inl refl;
          in_ram = h.in_ram;
          accounted = λ y v f r m.
              h.accounted y v f (ground (arith, has-append y rq (c ∷ [])))
                (ground (arith, has-append y rq (c ∷ [])));
        })
        w.state w.runs
        (λ a p xs i. subst (λ f. Counts (f a) (p ∷ xs)) (sym w.word_same) (h.counted a p xs i))
        w.steady

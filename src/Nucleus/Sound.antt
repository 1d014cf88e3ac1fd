-- ===== src/Nucleus/Sound.antt =====
-- The invariant of the nucleus between two exceptions, and what each handler does to it.
pub mod Ends
pub mod Wake
use pandos_phase.Prelude.{
  ℕ, suc, ◌+◌, ◌-◌, ◌*◌, ◌^◌, ◌%◌, ◌≤◌, ◌<◌, ◌≡◌, ◌≢◌, ◌⊎◌, refl, ap, ◌∙◌, subst, sym, inl, inr,
  List, [], ◌∷◌, ◌++◌, ◌==◌, ◌∈◌, ◌∉◌, false, true, arith, has, has-append, length, All, Distinct,
  update, if◌then◌else◌, Bool-cases, ne_of_has, ==→eq, ==_refl,
}
use pandos_phase.Types
use pandos_phase.Types.{Ptr, null, maxproc}
use pandos_phase.Words.{w32, sub32, add32}
use pandos_phase.Run.{Exit}
use pandos_phase.Pcb.Fifo.{head_or_null}
use pandos_phase.Asl.Enqueue.{joined}
use pandos_phase.Asl.Dequeue.{left_with}
use pandos_phase.Kernel.{Kernel}
use pandos_phase.Nucleus.{IsNucleus, IsLoose, Steady}
use pandos_phase.Nucleus.Touch.{IsNucleus-keep}
use pandos_phase.Nucleus.Verhogen.{Counts, Signalled, woken, asleep}
use pandos_phase.Nucleus.Dispatch.{tail_of}
use pandos_phase.Nucleus.Passeren.{Passed}
use pandos_phase.Nucleus.Fork.{Forked}

-- Where the RAM starts: the semaphores lie in it, and the device registers do not.
abbrev pub ram_start : ℕ
ram_start = 0x20000000

-- The processes `rq` are ready, `q a` are blocked on the semaphore at `a`, and the blocks `fs` are
-- free. The process that runs is on none of these lists; a block on no list is its own. A semaphore
-- on which processes are blocked counts them, and lies in the RAM. Every block that is not free is
-- counted as a process.
pub record IsSound (k : Kernel) (rq : List Ptr) (q : Ptr → List Ptr) (fs : List Ptr) : Type 0 where
  pub nucleus : IsNucleus k rq q fs
  pub running : (k.current_process ≡ null) ⊎ IsLoose k.current_process rq q fs
  pub counted : (a p : Ptr) (xs : List Ptr) → q a ≡ p ∷ xs → Counts (k.word a) (p ∷ xs)
  pub in_ram : (a p : Ptr) → p ∈ q a → ram_start ≤ a
  pub accounted :
      (y : Ptr)
      → y < maxproc
      → y ∉ fs
      → y ∉ rq
      → (y == k.current_process) ≡ false
      → (b : Ptr) × (y ∈ q b)
  pub count : k.process_count + length fs ≡ maxproc
  pub devices : ram_start ≤ k.device_semaphores
  pub devices_end : k.device_semaphores + 4 * Types.num_devices < 0x7FFFFFFF

-- The process that the scheduler chooses among `rq` is loose.
pub next_running :
    (rq : List Ptr) (q : Ptr → List Ptr) (fs : List Ptr)
    → Distinct rq
    → All (λ y. y < maxproc) rq
    → ((y b : Ptr) → y ∈ rq → y ∉ q b)
    → ((y : Ptr) → y ∈ fs → y ∉ rq)
    → (head_or_null rq ≡ null) ⊎ IsLoose (head_or_null rq) (tail_of rq) q fs
next_running [] q fs d i b f = inl refl
next_running (x ∷ xs) q fs d i b f = inr (record {
  valid = i.0;
  not_ready = d.0;
  not_blocked = λ c. b x c (ground arith);
  not_free = ground (arith, f x);
})

pub tail-missing :
    (y : Ptr) (rq : List Ptr) → y ∉ tail_of rq → (y == head_or_null rq) ≡ false → y ∉ rq
tail-missing y [] o n = refl
tail-missing y (x ∷ xs) o n = ground (arith, o, n)

asleep-missing : (y : Ptr) (xs : List Ptr) → y ∉ xs → y ∉ asleep xs
asleep-missing y [] o = refl
asleep-missing y (x ∷ xs) o = ground arith

has-asleep : (y : Ptr) (xs : List Ptr) → y ∈ asleep xs → y ∈ xs
has-asleep y [] i = i
has-asleep y (x ∷ xs) i = ground arith

woken-missing : (y : Ptr) (rq xs : List Ptr) → y ∉ rq → y ∉ xs → y ∉ rq ++ woken xs
woken-missing y rq [] o n = ground (arith, has-append y rq [])
woken-missing y rq (x ∷ xs) o n = ground (arith, has-append y rq (x ∷ []))

-- Who is blocked and not woken sleeps on.
woken-or-asleep : (y : Ptr) (rq xs : List Ptr) → y ∉ rq ++ woken xs → y ∈ xs → y ∈ asleep xs
woken-or-asleep y rq [] o i = i
woken-or-asleep y rq (x ∷ xs) o i = ground (arith, has-append y rq (x ∷ []))

-- A change of the semaphore at `a` and its queue, if the value still counts the blocked processes.
pub counted-change :
    (w w' : ℕ → ℕ) (q q' : Ptr → List Ptr) (a : Ptr)
    → ((b p : Ptr) (xs : List Ptr) → q b ≡ p ∷ xs → Counts (w b) (p ∷ xs))
    → ((b : Ptr) → (b == a) ≡ false → q' b ≡ q b)
    → ((b p : Ptr) → (b == a) ≡ false → p ∈ q b → w' b ≡ w b)
    → Counts (w' a) (q' a)
    → (b p : Ptr) (xs : List Ptr) → q' b ≡ p ∷ xs
    → Counts (w' b) (p ∷ xs)
counted-change w w' q q' a h same_q same_w c b p xs e = elim (Bool-cases (b == a)) [
  | inl i ↦ subst (Counts (w' b)) e (subst (λ v. Counts (w' v) (q' v)) (sym (==→eq b a i)) c)
  | inr i ↦
      let e' = sym (same_q b i) ∙ e in rw (same_w b p i (rw e' (rw (==_refl p) refl))) (h b p xs e')
]

module _ (k : Kernel) (rq : List Ptr) (q : Ptr → List Ptr) (fs : List Ptr)
    (h : IsSound k rq q fs) where
  -- The queues are the same, and so is every semaphore that somebody is blocked on.
  pub IsSound-keep :
      (k' : Kernel)
      → k'.asl ≡ k.asl
      → k'.ready_queue ≡ k.ready_queue
      → k'.current_process ≡ k.current_process
      → Steady k k'
      → ((a p : Ptr) → p ∈ q a → k'.word a ≡ k.word a)
      → IsSound k' rq q fs
  IsSound-keep k' a r c st w = record {
    nucleus = IsNucleus-keep k k' rq q fs a r h.nucleus;
    running = subst (λ v. (v ≡ null) ⊎ IsLoose v rq q fs) (sym c) h.running;
    counted = λ b p xs e. rw (w b p (rw e (rw (==_refl p) refl))) (h.counted b p xs e);
    in_ram = h.in_ram;
    accounted = λ y v o o' n. h.accounted y v o o' (ap (λ z. y == z) (sym c) ∙ n);
    count = ap (λ v. v + length fs) st.count ∙ h.count;
    devices = rw (st.devices) h.devices;
    devices_end = rw (st.devices) h.devices_end;
  }

  -- A P operation that blocks.
  pub Passed-IsSound :
      (a : Ptr) (e : Exit) (k' : Kernel)
      → ram_start ≤ a
      → IsLoose k.current_process rq q fs
      → Passed k a k.current_process rq q fs e k'
      → IsSound k' (tail_of rq) (joined q a k.current_process) fs
  Passed-IsSound a e k' low o w = record {
    nucleus = w.state;
    running =
        subst (λ v. (v ≡ null) ⊎ IsLoose v (tail_of rq) (joined q a k.current_process) fs)
          (sym w.runs)
          (next_running rq (joined q a k.current_process) fs h.nucleus.ready.distinct
            h.nucleus.ready.inside
            (λ y b m. ground (
              arith,
              h.nucleus.ready_blocked y b m,
              has-append y (q a) (k.current_process ∷ []),
              h.nucleus.ready_blocked y a m,
              ne_of_has k.current_process y rq o.not_ready m,
            ))
            h.nucleus.free_ready);
    counted =
        counted-change k.word k'.word q (joined q a k.current_process) a h.counted
          (λ b i. rw i refl) (λ b p i m. ap (λ f. f b) w.value ∙ rw i refl) w.counts;
    in_ram = λ b p m. ground (arith, low, h.in_ram b p);
    accounted = λ y v f r n. elim (Bool-cases (y == k.current_process)) [
      | inl i ↦ (a, rw (==_refl a) (ground (arith, has-append y (q a) (k.current_process ∷ []))))
      | inr i ↦
          let (b, m) =
            h.accounted y v f (tail-missing y rq r (ap (λ c. y == c) (sym w.runs) ∙ n)) i in
          (b, ground (arith, has-append y (q a) (k.current_process ∷ []), m))
    ];
    count = ap (λ v. v + length fs) w.steady.count ∙ h.count;
    devices = rw (w.steady.devices) h.devices;
    devices_end = rw (w.steady.devices) h.devices_end;
  }

  left-or-asleep :
      (y a b : Ptr) → y ∈ q b → y ∉ rq ++ woken (q a) → y ∈ left_with q a (asleep (q a)) b
  left-or-asleep y a b m r = elim (Bool-cases (b == a)) [
    | inl i ↦ rw i (woken-or-asleep y rq (q a) r (rw (← ==→eq b a i) m))
    | inr i ↦ rw i m
  ]

  -- A V operation.
  pub Signalled-IsSound :
      (a : Ptr) (k' : Kernel)
      → Signalled k a rq q fs k'
      → IsSound k' (rq ++ woken (q a)) (left_with q a (asleep (q a))) fs
  Signalled-IsSound a k' w = record {
    nucleus = w.state;
    running =
        subst (λ v. (v ≡ null) ⊎ IsLoose v (rq ++ woken (q a)) (left_with q a (asleep (q a))) fs)
          (sym w.current_same)
          (elim h.running [
            | inl e ↦ inl e
            | inr o ↦ inr (record {
              valid = o.valid;
              not_ready = woken-missing (k.current_process) rq (q a) o.not_ready (o.not_blocked a);
              not_blocked = λ b. ground (
                arith,
                o.not_blocked b,
                asleep-missing (k.current_process) (q a) (o.not_blocked a),
              );
              not_free = o.not_free;
            })
          ]);
    counted =
        counted-change k.word k'.word q (left_with q a (asleep (q a))) a h.counted
          (λ b i. rw i refl) (λ b p i m. ap (λ f. f b) w.value ∙ rw i refl)
          (rw (==_refl a) (w.counts));
    in_ram = λ b p m. ground (arith, h.in_ram b p, has-asleep p (q a), h.in_ram a p, ==→eq b a);
    accounted = λ y v f r n.
        let (b, m) =
          h.accounted y v f (ground (arith, has-append y rq (woken (q a)), r))
            (ap (λ c. y == c) (sym w.current_same) ∙ n) in
        (b, left-or-asleep y a b m r);
    count = ap (λ v. v + length fs) w.steady.count ∙ h.count;
    devices = rw (w.steady.devices) h.devices;
    devices_end = rw (w.steady.devices) h.devices_end;
  }

  -- The queues are the same, and only the semaphore at `a` has another value.
  pub IsSound-value :
      (a : Ptr) (k' : Kernel)
      → IsNucleus k' rq q fs
      → k'.current_process ≡ k.current_process
      → Steady k k'
      → ((b : Ptr) → (b == a) ≡ false → k'.word b ≡ k.word b)
      → Counts (k'.word a) (q a)
      → IsSound k' rq q fs
  IsSound-value a k' n c st w v = record {
    nucleus = n;
    running = subst (λ v. (v ≡ null) ⊎ IsLoose v rq q fs) (sym c) h.running;
    counted = counted-change k.word k'.word q q a h.counted (λ b i. refl) (λ b p i m. w b i) v;
    in_ram = h.in_ram;
    accounted = λ y v o o' n. h.accounted y v o o' (ap (λ z. y == z) (sym c) ∙ n);
    count = ap (λ v. v + length fs) st.count ∙ h.count;
    devices = rw (st.devices) h.devices;
    devices_end = rw (st.devices) h.devices_end;
  }

-- A new process.
pub Forked-IsSound :
    (k k' : Kernel) (statep supportp x : Ptr) (xs rq : List Ptr) (q : Ptr → List Ptr)
    (fs : List Ptr)
    → IsSound k rq q (x ∷ fs)
    → Forked k statep supportp x xs rq q fs 0 k'
    → IsSound k' (rq ++ x ∷ []) q fs
Forked-IsSound k k' statep supportp x xs rq q fs h w = record {
  nucleus = w.state;
  running =
      subst (λ v. (v ≡ null) ⊎ IsLoose v (rq ++ x ∷ []) q fs) (sym w.current_same)
        (elim h.running [
          | inl e ↦ inl e
          | inr o ↦ inr (record {
            valid = o.valid;
            not_ready =
                ground (arith, has-append k.current_process rq (x ∷ []), o.not_ready, o.not_free);
            not_blocked = o.not_blocked;
            not_free = ground (arith, o.not_free);
          })
        ]);
  counted = λ a p ys e. subst (λ f. Counts (f a) (p ∷ ys)) (sym w.word_same) (h.counted a p ys e);
  in_ram = h.in_ram;
  accounted = λ y v o r n.
      let a = has-append y rq (x ∷ []) in
      h.accounted y v (ground arith) (ground arith) (ap (λ c. y == c) (sym w.current_same) ∙ n);
  count = omega (arith, h.count, w.count);
  devices = rw (w.devices_same) h.devices;
  devices_end = rw (w.devices_same) h.devices_end;
}

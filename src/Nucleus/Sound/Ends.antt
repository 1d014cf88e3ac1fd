-- ===== src/Nucleus/Sound/Ends.antt =====
-- The end of the running process with all of its progeny keeps the invariant.
use pandos_phase.Prelude.{
  ℕ, suc, ◌+◌, ◌%◌, ◌≤◌, ◌<◌, ◌≡◌, ◌⊎◌, refl, ap, ◌∙◌, subst, sym, inl, inr, List, [], ◌∷◌, ◌==◌,
  ◌∈◌, ◌∉◌, true, arith, has, has-append, length, Bool-cases, ==_refl, ltb,
}
use pandos_phase.Types.{Ptr, null, maxproc}
use pandos_phase.Words.{w32}
use pandos_phase.Run.{Exit}
use pandos_phase.Pcb.Forest.{
  Forest, leaf, node, members, size, survivors, buried, has-survivors, survivors-other, has-buried,
  members-buried, length-buried, survivors-missing,
}
use pandos_phase.Kernel.{Kernel}
use pandos_phase.Processes.{is_device_semaphore}
use pandos_phase.Nucleus.{IsLoose}
use pandos_phase.Nucleus.Dispatch.{Scheduled, tail_of}
use pandos_phase.Nucleus.Terminate.{IsTerminated}
use pandos_phase.Nucleus.Verhogen.{Counts}
use pandos_phase.Nucleus.Sound.{IsSound, next_running, tail-missing}

Counts-length :
    (v v' p : ℕ) (xs ys : List Ptr)
    → Counts v ys
    → length (p ∷ xs) ≤ length ys
    → (v' + length (p ∷ xs)) % w32 ≡ (v + length ys) % w32
    → (length ys ≤ length (p ∷ xs) → v' ≡ v)
    → (length (p ∷ xs) < length ys → v' < w32)
    → Counts v' (p ∷ xs)
Counts-length v v' p xs [] c l e same less = absurd (omega (arith, l))
Counts-length v v' p xs (y ∷ ys) c l e same less =
    elim (Bool-cases (ltb (length (p ∷ xs)) (length (y ∷ ys)))) [
      | inl i ↦ omega (arith, c, e, less (ground (arith, i)), l)
      | inr i ↦ omega (arith, c, same (ground (arith, i)), l)
    ]

Counts-nonempty :
    (v p : ℕ) (xs : List Ptr)
    → ((x : Ptr) (ys : List Ptr) → xs ≡ x ∷ ys → Counts v (x ∷ ys))
    → p ∈ xs
    → Counts v xs
Counts-nonempty v p [] c m = absurd (ground (arith, m))
Counts-nonempty v p (x ∷ xs) c m = c x xs refl

-- The process `c` that ran, and its progeny `f`, are gone, and the scheduler has chosen.
module _ (k : Kernel) (rq : List Ptr) (q : Ptr → List Ptr) (fs : List Ptr) (h : IsSound k rq q fs)
    (parent : Ptr) (xs : List Ptr) (f : Forest)
    (no_device : (y b : Ptr)
      → y ∈ members (node k.current_process f leaf)
      → is_device_semaphore k.device_semaphores b ≡ true
      → y ∉ q b)
    (k1 : Kernel) (w : IsTerminated k k.current_process parent xs f rq q fs k1)
    (counts : k1.process_count + suc (size f) ≡ k.process_count) where
  abbrev gone : Forest
  gone = node k.current_process f leaf

  abbrev left : Ptr → List Ptr
  left b = survivors gone (q b)

  has-gone : (y : Ptr) → has y (members gone) ≡ has y (k.current_process ∷ members f)
  has-gone y = ground (arith, has-append y (members f) [])

  left-Counts : (a p : Ptr) (ys : List Ptr) → left a ≡ p ∷ ys → Counts (k1.word a) (p ∷ ys)
  left-Counts a p ys e = elim (Bool-cases (is_device_semaphore k.device_semaphores a)) [
    | inl d ↦
        let same : q a ≡ p ∷ ys =
          sym (survivors-missing gone (q a) (λ y i. no_device y a i d)) ∙ e in
        rw (w.balance.device a d) (h.counted a p ys same)
    | inr d ↦
        let l = ap length e in
        Counts-length (k.word a) (k1.word a) p ys (q a)
          (Counts-nonempty (k.word a) p (q a) (h.counted a)
            (has-survivors p gone (q a) (rw e (rw (==_refl p) refl))))
          (omega (arith, l, w.balance.fewer a))
          (ap (λ zs. (k1.word a + length zs) % w32) (sym e) ∙ w.balance.other a d)
          (λ n. w.balance.same a (omega (arith, l, n)))
          (λ n. w.balance.bounded a d (omega (arith, l, n)))
  ]

  still_elsewhere :
      (y : Ptr)
      → y < maxproc
      → y ∉ buried gone fs
      → y ∉ survivors gone rq
      → (b : Ptr) × (y ∈ left b)
  still_elsewhere y v o r =
      let other : y ∉ members gone = ground (arith, members-buried y gone fs) in
      let (b, m) =
        h.accounted y v (ground (arith, has-buried y gone fs, o))
          (ground (arith, survivors-other y gone rq other, r))
          (ground (arith, has-gone y, other)) in
      (b, survivors-other y gone (q b) other m)

  pub Ended-IsSound :
      (e : Exit) (k' : Kernel)
      → Scheduled k1 (survivors gone rq) left (buried gone fs) e k'
      → IsSound k' (tail_of (survivors gone rq)) left (buried gone fs)
  Ended-IsSound e k' s =
      let n = w.state in
      record {
        nucleus = s.state;
        running =
            subst (λ v. (v ≡ null) ⊎ IsLoose v (tail_of (survivors gone rq)) left (buried gone fs))
              (sym s.runs)
              (next_running (survivors gone rq) left (buried gone fs) n.ready.distinct
                n.ready.inside n.ready_blocked n.free_ready);
        counted =
            λ a p ys i. subst (λ f. Counts (f a) (p ∷ ys)) (sym s.word_same) (left-Counts a p ys i);
        in_ram = λ a p m. h.in_ram a p (has-survivors p gone (q a) m);
        accounted = λ y v o r i.
            still_elsewhere y v o
              (tail-missing y (survivors gone rq) r (ap (λ c. y == c) (sym s.runs) ∙ i));
        count = omega (arith, h.count, counts, s.steady.count, length-buried gone fs);
        devices = rw (s.steady.devices, w.rest.device_semaphores) h.devices;
        devices_end = rw (s.steady.devices, w.rest.device_semaphores) h.devices_end;
      }

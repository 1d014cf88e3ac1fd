-- ===== src/Nucleus/Hardware.antt =====
-- Interrupts from the exception on: the devices and the two timers.
use pandos_phase.Prelude.{
  ℕ, ◌+◌, ◌*◌, ◌%◌, ◌≤◌, ◌<◌, ◌≡◌, refl, inl, inr, List, [], ◌∷◌, ◌==◌, false, true, arith, lt→ltb,
  ltb, ap, ◌∙◌, Bool, ◌⊎◌, ◌&&◌, update, Bool-cases, if◌then◌else◌, ==_refl, leb,
}
use pandos_phase.Types
use pandos_phase.Types.{Ptr, null, maxint}
use pandos_phase.Words.{w32, add32, test_bits, is_le_zero}
use pandos_phase.Run.{Exit, access, and_then, ok, exit, ldst, Exits, Exits-stop}
use pandos_phase.Kernel.{Kernel}
use pandos_phase.Semaphores.{dev_reg_addr}
use pandos_phase.Scheduler.{scheduler}
use pandos_phase.Asl.Remove.{remove_blocked-nil}
use pandos_phase.Nucleus.Dispatch.{Scheduled, scheduler-Scheduled}
use pandos_phase.Interrupts.Index.{device_index-bound}
use pandos_phase.Interrupts.Priority.{IsFirst, pending, IsLowestBit}
use pandos_phase.Interrupts.First.{highest_priority_interrupt-first, highest_priority_device-first}
use pandos_phase.Interrupts.{
  int_dev_bitmap_addr, highest_priority_interrupt, device_index, acknowledge, device_verhogen,
  handle_device_interrupt, interrupt_handler, handle_plt_interrupt, handle_interval_timer_interrupt,
}
use pandos_phase.Exceptions.{exception_handler, exception_code}
use pandos_phase.Nucleus.{IsNucleus}
use pandos_phase.Nucleus.Touch.{IsNucleus-keep}
use pandos_phase.Nucleus.Verhogen.{Counts}
use pandos_phase.Nucleus.Device.{Served, device_verhogen-Served}

-- Whether it is the receiver of a terminal that is acknowledged, or a device that is no terminal.
abbrev pub transmits : Kernel → (line reg : ℕ) → Bool
transmits k line reg = (line == Types.termint) && test_bits (k.word (reg + 8)) 0xFF

-- The status that the handler reads, and the memory once the device is acknowledged.
abbrev pub device_status : Kernel → (line reg : ℕ) → ℕ
device_status k line reg = if transmits k line reg then k.word (reg + 8) else k.word reg

abbrev pub acknowledged : Kernel → (line reg : ℕ) → Kernel
acknowledged k line reg = record k {
  word = update k.word (if transmits k line reg then reg + 12 else reg + 4) Types.ack;
}

acknowledge_run :
    (k : Kernel) (line reg : ℕ)
    → acknowledge line reg k ≡ ok (device_status k line reg) (acknowledged k line reg)
unfolding acknowledge
acknowledge_run k line reg = elim (Bool-cases (line == Types.termint)) [
  | inl t ↦ elim (Bool-cases (test_bits (k.word (reg + 8)) 0xFF)) [
    | inl b ↦ rw (t, b) refl
    | inr b ↦ rw (t, b) refl
  ]
  | inr t ↦ rw t refl
]

-- The address of the semaphore that the handler signals for the device.
abbrev pub device_semaphore_of : Kernel → (line dev : ℕ) → ℕ
device_semaphore_of k line dev =
    (k.device_semaphores + 4 * device_index line dev (device_status k line (dev_reg_addr line dev)))
    % w32

abbrev pub answering : Kernel → (line dev : ℕ) → Kernel
answering k line dev = acknowledged k line (dev_reg_addr line dev)

-- An interrupt, and `line` is the lowest of the lines 1 to 7 that is pending.
pub record Pending (k : Kernel) (line : ℕ) : Type 0 where
  pub code : exception_code k.saved.s_cause ≡ 0
  pub first_line : IsFirst (pending k.saved.s_cause) 1 7 line

-- The line is one of the devices, and `dev` is the lowest bit that is set in its bitmap, a word, and
-- one of the eight.
pub record Interrupting (k : Kernel) (line dev : ℕ) : Type 0 where
  pub interrupt : Pending k line
  pub low : 3 ≤ line
  pub high : line ≤ 7
  pub near : dev < Types.devperint
  pub bitmap : k.word (int_dev_bitmap_addr line) < w32
  pub first_device : IsLowestBit (k.word (int_dev_bitmap_addr line)) dev

pub Pending-line :
    (k : Kernel) (line : ℕ) → Pending k line → highest_priority_interrupt k.saved.s_cause ≡ line
Pending-line k line p = highest_priority_interrupt-first k.saved.s_cause line p.first_line

module _ (k : Kernel) (line dev : ℕ) (i : Interrupting k line dev) where
  line_run :
      exception_handler k
      ≡ and_then (handle_device_interrupt line k) (λ _ k'. exit (ldst k'.saved) k')
  unfolding exception_handler interrupt_handler
  line_run =
      let a : (line == 0) ≡ false = ground (arith, i.low) in
      let b : (line == 1) ≡ false = ground (arith, i.low) in
      let c : (line == 2) ≡ false = ground (arith, i.low) in
      let d : leb line 7 ≡ true = ground (arith, i.high) in
      rw (i.interrupt.code, Pending-line k line i.interrupt, a, b, c, d) refl

  answer_run :
      handle_device_interrupt line k
      ≡ device_verhogen
          (device_semaphore_of k line dev)
          (device_status k line (dev_reg_addr line dev))
          (answering k line dev)
  unfolding handle_device_interrupt access
  answer_run =
      let status = device_status k line (dev_reg_addr line dev) in
      let b =
        device_index-bound line dev status
          (record { first = i.low; last = i.high; near = i.near }) in
      let e : ltb (device_index line dev status) (Types.num_devices + 1) ≡ true =
        lt→ltb (device_index line dev status) (Types.num_devices + 1) (omega (arith, b)) in
      rw
        (
          highest_priority_device-first k line dev i.bitmap i.first_device,
          acknowledge_run k line (dev_reg_addr line dev),
        )
        (rw e refl)

  device_run :
      exception_handler k
      ≡ and_then
          (device_verhogen
            (device_semaphore_of k line dev)
            (device_status k line (dev_reg_addr line dev))
            (answering k line dev))
          (λ _ k'. exit (ldst k'.saved) k')
  device_run = line_run ∙ ap (λ r. and_then r (λ _ k'. exit (ldst k'.saved) k')) answer_run

  module _ (rq : List Ptr) (q : Ptr → List Ptr) (fs : List Ptr) (n : IsNucleus k rq q fs)
      (address : (maxint == device_semaphore_of k line dev) ≡ false)
      (elsewhere : (answering k line dev).word (device_semaphore_of k line dev)
        ≡ k.word (device_semaphore_of k line dev)) where
    answering-IsNucleus : IsNucleus (answering k line dev) rq q fs
    answering-IsNucleus = IsNucleus-keep k (answering k line dev) rq q fs refl refl n

    -- The semaphore is counted up.
    abbrev pub counted_up : Kernel
    counted_up = record (answering k line dev) {
      word =
          update (answering k line dev).word (device_semaphore_of k line dev)
            (add32 (k.word (device_semaphore_of k line dev)) 1);
    }

    counted_up-IsNucleus : IsNucleus counted_up rq q fs
    counted_up-IsNucleus = IsNucleus-keep k counted_up rq q fs refl refl n

    -- Nobody waits, and the semaphore is not positive.
    vain_run :
        q (device_semaphore_of k line dev) ≡ []
        → is_le_zero (add32 (k.word (device_semaphore_of k line dev)) 1) ≡ true
        → exception_handler k ≡ (
            if k.current_process == null
            then and_then (scheduler counted_up) (λ _ k'. exit (ldst k'.saved) k')
            else exit (ldst k.saved) counted_up)
    unfolding device_verhogen
    vain_run e v =
        let a = device_semaphore_of k line dev in
        elim (Bool-cases (k.current_process == null)) [
          | inl z ↦
              rw
                (
                  device_run,
                  ==_refl a,
                  elsewhere,
                  v,
                  remove_blocked-nil k.asl a q n.asl address e,
                  z,
                )
                refl
          | inr z ↦
              rw
                (
                  device_run,
                  ==_refl a,
                  elsewhere,
                  v,
                  remove_blocked-nil k.asl a q n.asl address e,
                  z,
                )
                refl
        ]

    pub exception_handler-device :
        let a = device_semaphore_of k line dev in
        let status = device_status k line (dev_reg_addr line dev) in
        ((p : Ptr) (xs : List Ptr)
          → q a ≡ p ∷ xs
          → Counts (k.word a) (p ∷ xs)
          → Exits (Served (answering k line dev) a status p xs rq q fs) (exception_handler k))
        × (q a ≡ []
            → (is_le_zero (add32 (k.word a) 1) ≡ false) ⊎ ((k.current_process == null) ≡ false)
            → exception_handler k ≡ exit (ldst k.saved) counted_up)
        × (q a ≡ []
            → is_le_zero (add32 (k.word a) 1) ≡ true
            → (k.current_process == null) ≡ true
            → Exits (Scheduled counted_up rq q fs) (exception_handler k))
    unfolding device_verhogen
    exception_handler-device =
        let a = device_semaphore_of k line dev in
        let status = device_status k line (dev_reg_addr line dev) in
        (
          λ p xs e c. rw device_run (
              Exits-stop _ (
                device_verhogen-Served (answering k line dev) a status rq q fs answering-IsNucleus
                  address p xs e (rw elsewhere c))),
          λ e v. elim (Bool-cases (is_le_zero (add32 (k.word a) 1))) [
            | inl z ↦
                let runs : (k.current_process == null) ≡ false = elim v [
                  | inl y ↦ absurd (cc (y, z))
                  | inr y ↦ y
                ] in
                rw (vain_run e z, runs) refl
            | inr z ↦ rw (device_run, ==_refl a, elsewhere, z) refl
          ],
          λ e v z.
              rw (vain_run e v, z)
                (Exits-stop _ (scheduler-Scheduled counted_up rq q fs counted_up-IsNucleus)),
        )

-- The local timer and the interval timer have the lines 1 and 2.
pub slice_end :
    (k : Kernel) {P : Exit → Kernel → Type 0}
    → exception_code k.saved.s_cause ≡ 0
    → highest_priority_interrupt k.saved.s_cause ≡ 1
    → Exits P (handle_plt_interrupt k)
    → Exits P (exception_handler k)
unfolding exception_handler interrupt_handler
slice_end k c l e = rw (c, l) (Exits-stop _ e)

pub interval_end :
    (k : Kernel) {P : Exit → Kernel → Type 0}
    → exception_code k.saved.s_cause ≡ 0
    → highest_priority_interrupt k.saved.s_cause ≡ 2
    → Exits P (handle_interval_timer_interrupt k)
    → Exits P (exception_handler k)
unfolding exception_handler interrupt_handler
interval_end k c l e = rw (c, l) (Exits-stop _ e)

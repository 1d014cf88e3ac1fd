-- ===== src/Nucleus/Reach/Devices.antt =====
-- The interrupt of a device keeps the invariant.
use pandos_phase.Prelude.{
  ℕ, ◌+◌, ◌-◌, ◌^◌, ◌≤◌, ◌<◌, ◌≡◌, ◌≢◌, ◌⊎◌, refl, ap, ◌∙◌, inl, inr, List, [], ◌∷◌, ◌==◌, false,
  arith, is_empty, update, Bool-cases, ==_refl,
}
use pandos_phase.Types.{Ptr, null}
use pandos_phase.Words.{is_le_zero, add32}
use pandos_phase.Run.{ldst, Exits, exits, Exits-mono}
use pandos_phase.Kernel.{Kernel}
use pandos_phase.Interrupts.Index.{device_index-bound}
use pandos_phase.Interrupts.{device_index}
use pandos_phase.Semaphores.{dev_reg_addr}
use pandos_phase.Exceptions.{exception_handler}
use pandos_phase.Nucleus.Hardware.{
  Interrupting, device_semaphore_of, device_status, answering, transmits, exception_handler-device,
}
use pandos_phase.Nucleus.Touch.{IsNucleus-keep}
use pandos_phase.Nucleus.Sound.{IsSound, IsSound-keep, IsSound-value, ram_start}
use pandos_phase.Nucleus.Sound.Wake.{woken-inside, Served-IsSound}
use pandos_phase.Nucleus.Reach.Onward.{readied-GoesOn, runs-GoesOn}
use pandos_phase.Nucleus.Reach.{Initialised, IsSemaphore}
use pandos_phase.Pcb.Forest.{Forest}
use pandos_phase.Nucleus.Kin.{IsFamily, IsFamily-steady}
use pandos_phase.Nucleus.Abstract.{Handled, serve}
use pandos_phase.Nucleus.Reach.Calls.{table-IsSemaphore, here, left-null, Counts-at}

-- The register that acknowledges a device is no semaphore.
module _ (k : Kernel) (rq : List Ptr) (q : Ptr → List Ptr) (fs : List Ptr) (t : Forest)
    (h : IsSound k rq q fs) (g : IsFamily k.asl.pcbs t q fs) (line dev : ℕ)
    (i : Interrupting k line dev) (initialised : Initialised k (device_semaphore_of k line dev))
    (v : k.word (device_semaphore_of k line dev) ≢ 2 ^ 31 - 1)
    (served : ((k.current_process == null) ≡ false)
      ⊎ (is_empty (q (device_semaphore_of k line dev)) ≡ false)) where
  s : IsSemaphore k (device_semaphore_of k line dev)
  s =
      let status = device_status k line (dev_reg_addr line dev) in
      table-IsSemaphore k rq q fs h (device_index line dev status)
        (omega (
          arith,
          device_index-bound line dev status
              (record { first = i.low; last = i.high; near = i.near }),
        ))
        initialised

  register : dev_reg_addr line dev + 12 < ram_start
  unfolding dev_reg_addr
  register = omega (arith, i.low, i.high, i.near)

  word_kept : (b : Ptr) → ram_start ≤ b → (answering k line dev).word b ≡ k.word b
  word_kept b l = elim (Bool-cases (transmits k line (dev_reg_addr line dev))) [
    | inl z ↦ rw z (ground (arith, l, register))
    | inr z ↦ rw z (ground (arith, l, register))
  ]

  answering-IsSound : IsSound (answering k line dev) rq q fs
  answering-IsSound =
      IsSound-keep k rq q fs h (answering k line dev) refl refl refl
        (record { count = refl; devices = refl; family = refl })
        (λ b p m. word_kept b (h.in_ram b p m))

  -- Where nobody waits for the device a process runs.
  runs_alone : q (device_semaphore_of k line dev) ≡ [] → (k.current_process == null) ≡ false
  runs_alone e = elim served [ inl r ↦ r | inr b ↦ absurd (cc (b, ap is_empty e)) ]

  device-at :
      (xs : List Ptr)
      → q (device_semaphore_of k line dev) ≡ xs
      → Exits
          (Handled (serve (device_semaphore_of k line dev) (here k rq q fs t h g)))
          (exception_handler k)
  device-at [] e =
      let a = device_semaphore_of k line dev in
      let small = Counts-at k rq q fs h a s [] e in
      let up : is_le_zero (add32 (k.word a) 1) ≡ false = ground (arith, small, v) in
      let k' = record (answering k line dev) {
        word = update (answering k line dev).word a (add32 (k.word a) 1);
      } in
      rw
        (
          e,
          (exception_handler-device k line dev i rq q fs h.nucleus s.address
                (word_kept a s.in_ram)).1
              e (inl up),
        )
        (exits (
          runs-GoesOn (ldst k.saved) k' (runs_alone e),
          refl,
          IsSound-value (answering k line dev) rq q fs answering-IsSound a k'
              (IsNucleus-keep k k' rq q fs refl refl h.nucleus) refl
              (record { count = refl; devices = refl; family = refl }) (λ b j. rw j refl)
              (rw (e, ==_refl a) (omega (arith, small, v))),
          g,
        ))
  device-at (p ∷ xs) e =
      let a = device_semaphore_of k line dev in
      Exits-mono
        ((exception_handler-device k line dev i rq q fs h.nucleus s.address
            (word_kept a s.in_ram)).0
          p xs e (Counts-at k rq q fs h a s (p ∷ xs) e))
        (λ x k' w. rw e (
          elim (Bool-cases (k.current_process == null)) [
            | inl z ↦
                readied-GoesOn k' x rq p (rw z at w.runs) (woken-inside k rq q fs h a (p ∷ []) xs e)
            | inr z ↦
                let r : k'.current_process ≡ k.current_process = rw z at w.runs in
                runs-GoesOn x k' (ap (λ v. v == null) r ∙ z)
          ],
          w.runs,
          Served-IsSound (answering k line dev) rq q fs answering-IsSound a
              (device_status k line (dev_reg_addr line dev)) p xs x k' e w,
          IsFamily-steady w.steady.family w.marks (left-null k rq q fs t h g a xs s.some) g,
        ))

  pub device-Sound :
      Exits
        (Handled (serve (device_semaphore_of k line dev) (here k rq q fs t h g)))
        (exception_handler k)
  device-Sound = device-at (q (device_semaphore_of k line dev)) refl

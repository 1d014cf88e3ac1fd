-- ===== src/Interrupts/Index.antt =====
-- The semaphores of the devices: the index that a process waits on and the one that the interrupt
-- handler signals.
use pandos_phase.Prelude.{
  ℕ, ◌+◌, ◌≤◌, ◌<◌, ◌≡◌, ◌≢◌, refl, ◌⊎◌, inl, inr, update, Bool-cases, true, if◌then◌else◌, arith,
  ne→==,
}
use pandos_phase.Types
use pandos_phase.Words.{test_bits}
use pandos_phase.Semaphores.{wait_io_index}
use pandos_phase.Run.{Returns, returns}
use pandos_phase.Kernel.{Kernel}
use pandos_phase.Interrupts.{device_index, acknowledge}

-- The devices of the machine: the lines 3 to 7, each with eight devices.
pub record IsDevice (line dev : ℕ) : Type 0 where
  pub first : 3 ≤ line
  pub last : line ≤ 7
  pub near : dev < Types.devperint

-- For a device that is no terminal, the handler signals the semaphore that `sysWaitIO` waits on.
pub device_index-wait_io_index :
    (line dev read status : ℕ)
    → IsDevice line dev
    → line ≢ Types.termint
    → device_index line dev status ≡ wait_io_index line dev read
unfolding device_index wait_io_index
device_index-wait_io_index line dev read status d n = rw (ne→== line Types.termint n) refl

-- Both indices are in the table.
pub wait_io_index-bound :
    (line dev read : ℕ)
    → IsDevice line dev
    → read ≤ 1
    → wait_io_index line dev read < Types.num_devices
unfolding wait_io_index
wait_io_index-bound line dev read d r = ground (arith, d.first, d.last, d.near)

pub device_index-bound :
    (line dev status : ℕ) → IsDevice line dev → device_index line dev status < Types.num_devices
unfolding device_index
device_index-bound line dev status d = elim (Bool-cases (test_bits status 0xFF)) [
  | inl t ↦ rw t (ground (arith, d.first, d.last, d.near))
  | inr t ↦ rw t (ground (arith, d.first, d.last, d.near))
]

-- The semaphores of different devices, and of the two halves of a terminal, are different, and
-- none of them is the one of the pseudo-clock.
pub wait_io_index-injective :
    (line dev read line' dev' read' : ℕ)
    → IsDevice line dev
    → IsDevice line' dev'
    → read ≤ 1
    → read' ≤ 1
    → (line ≢ Types.termint → read ≡ 0)
    → (line' ≢ Types.termint → read' ≡ 0)
    → wait_io_index line dev read ≡ wait_io_index line' dev' read'
    → ((line ≡ line') × (dev ≡ dev') × (read ≡ read'))
      × (wait_io_index line dev read < Types.num_devices)
unfolding wait_io_index
wait_io_index-injective line dev read line' dev' read' d d' r r' z z' e =
    ground (arith, d.first, d.last, d.near, d'.first, d'.last, d'.near)

-- At an interrupt of a terminal one half of it is acknowledged: the transmitter if the low byte of
-- its status is not zero, the receiver otherwise. If the low byte of the receiver's status is not
-- zero in the second case, the semaphore that is signalled is the one of the transmitter in both.
pub acknowledge-device_index :
    (k : Kernel) (dev reg : ℕ)
    → dev < Types.devperint
    → (test_bits (k.word (reg + 8)) 0xFF ≡ true) ⊎ (test_bits (k.word reg) 0xFF ≡ true)
    → Returns
        (λ status k'.
          (k' ≡ record k {
            word =
                update k.word
                  (if test_bits (k.word (reg + 8)) 0xFF then reg + 12 else reg + 4)
                  Types.ack;
          })
          × (status ≡ (if test_bits (k.word (reg + 8)) 0xFF then k.word (reg + 8) else k.word reg))
          × (device_index Types.termint dev status ≡ wait_io_index Types.termint dev 0))
        (acknowledge Types.termint reg k)
unfolding acknowledge device_index wait_io_index
acknowledge-device_index k dev reg d low = elim (Bool-cases (test_bits (k.word (reg + 8)) 0xFF)) [
  | inl t ↦ rw t (returns (refl, refl, rw t refl))
  | inr t ↦
      let r : test_bits (k.word reg) 0xFF ≡ true = ground arith in
      rw t (returns (refl, refl, rw r refl))
]

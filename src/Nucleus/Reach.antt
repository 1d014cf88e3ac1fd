-- ===== src/Nucleus/Reach.antt =====
-- The nucleus from its start on: the exceptions that it handles, one after the other, with what the
-- processes and the machine do in between.
pub mod Calls
pub mod Create
pub mod Devices
pub mod Effect
pub mod Invariant
pub mod Onward
pub mod Others
pub mod Waiting
use pandos_phase.Prelude.{
  ℕ, suc, if◌then◌else◌, ◌+◌, ◌*◌, ◌-◌, ◌^◌, ◌≤◌, ◌<◌, ◌≡◌, ◌≢◌, ◌⊎◌, List, ◌==◌, ◌∈◌, ◌∉◌, false,
  true, is_empty,
}
use pandos_phase.Types
use pandos_phase.Types.{Ptr, null, maxint}
use pandos_phase.Words.{w32, is_le_zero}
use pandos_phase.Run.{Exit, exit, ok}
use pandos_phase.Pcb.Siblings.{IsChildren}
use pandos_phase.Asl.{head_blocked}
use pandos_phase.Kernel.{Kernel}
use pandos_phase.Initial.{main}
use pandos_phase.Interrupts.Index.{IsDevice}
use pandos_phase.Exceptions.{exception_handler, exception_code}
use pandos_phase.Exceptions.PassUp.{HasSupport, IsTrap, support_of}
use pandos_phase.Nucleus.Boot.{semaphore_at}
use pandos_phase.Nucleus.Calls.{IsCall}
use pandos_phase.Nucleus.Clock.{clock_semaphore}
use pandos_phase.Nucleus.Hardware.{Pending, Interrupting, device_semaphore_of}
use pandos_phase.Nucleus.Sound.{ram_start}
use pandos_phase.Nucleus.Die.{IsUserCall, IsInvalid}
use pandos_phase.Nucleus.Abstract.{
  Abstract, initial, block, wake, wake_all, resume, turn, fork, serve, bury, ending,
}
use pandos_phase.Pcb.Forest.Cut.{progeny}
use pandos_phase.Pcb.Forest.{members, size}
use pandos_phase.Processes.{is_device_semaphore}
use pandos_phase.Nucleus.Waits.{io_semaphore}

-- `headBlocked` finds a process that waits for the semaphore at `a`.
abbrev pub Awaited : Kernel → ℕ → Type 0
Awaited k a = head_blocked a k.asl ≢ ok null k.asl

-- The value is negative only if a process waits.
abbrev pub Initialised : Kernel → ℕ → Type 0
Initialised k a = 2 ^ 31 ≤ k.word a → Awaited k a

-- The address is one of the RAM, and neither MAXINT nor NULL; the value is negative only if a process
-- waits.
pub record IsSemaphore (k : Kernel) (a : ℕ) : Type 0 where
  pub in_ram : ram_start ≤ a
  pub address : (maxint == a) ≡ false
  pub some : (null == a) ≡ false
  pub initialised : Initialised k a

-- A process runs, and makes the system call `n` in kernel mode.
pub record Calling (k : Kernel) (n : ℕ) : Type 0 where
  pub call : IsCall k n
  pub running : (k.current_process == null) ≡ false
  pub scale : (k.word Types.timescale_addr == 0) ≡ false

-- What ends the running process: a trap without a support structure, a code above 12, SYS2, a system
-- call below 9 in user mode without a support structure, or one in kernel mode below 1.
pub data Ending (k : Kernel) : Type 0 where
  trap :
      (type : ℕ) → IsTrap k (exception_code k.saved.s_cause) type → support_of k ≡ null → Ending k
  unknown : 12 < exception_code k.saved.s_cause → Ending k
  terminate : IsCall k 2 → Ending k
  user_call : IsUserCall k → support_of k ≡ null → Ending k
  invalid : IsInvalid k → Ending k

-- The exceptions of which the theorems speak. A process with its progeny is ended while there are others,
-- and while none of them waits for a device. SYS1 names a state, and SYS5 a device, and for a terminal
-- one half of it. A device that nobody waits for interrupts a process.
pub data Event (k : Kernel) (s : Abstract) : Type 0 where
  die :
      Ending k
      → (s.running == null) ≡ false
      → suc (size (progeny s.running s.family)) < k.process_count
      → ((y b : Ptr)
          → y ∈ members (ending s)
          → is_device_semaphore k.device_semaphores b ≡ true
          → y ∉ s.blocked b)
      → Event k s
  create : Calling k 1 → (k.saved.s_reg Types.s_a1 == null) ≡ false → Event k s
  passeren : Calling k 3 → IsSemaphore k (k.saved.s_reg Types.s_a1) → Event k s
  verhogen :
      Calling k 4
      → IsSemaphore k (k.saved.s_reg Types.s_a1)
      → k.word (k.saved.s_reg Types.s_a1) ≢ 2 ^ 31 - 1
      → Event k s
  wait_io :
      Calling k 5
      → IsDevice (k.saved.s_reg Types.s_a1) (k.saved.s_reg Types.s_a2)
      → k.saved.s_reg Types.s_a3 ≤ 1
      → Initialised k (io_semaphore k)
      → Event k s
  get_cpu_time : Calling k 6 → Event k s
  wait_clock : Calling k 7 → Initialised k (clock_semaphore k) → Event k s
  get_support_ptr : Calling k 8 → Event k s
  slice_end :
      Pending k 1
      → (k.current_process == null) ≡ false
      → (k.word Types.timescale_addr == 0) ≡ false
      → Event k s
  idle_slice : Pending k 1 → (k.current_process == null) ≡ true → Event k s
  tick : Pending k 2 → Event k s
  device :
      (line dev : ℕ)
      → Interrupting k line dev
      → Initialised k (device_semaphore_of k line dev)
      → k.word (device_semaphore_of k line dev) ≢ 2 ^ 31 - 1
      → ((s.running == null) ≡ false)
        ⊎ (is_empty (s.blocked (device_semaphore_of k line dev)) ≡ false)
      → Event k s
  spurious : Pending k (w32 - 1) → Event k s
  pass_up : (type : ℕ) → HasSupport k → IsTrap k (exception_code k.saved.s_cause) type → Event k s
  pass_up_call : HasSupport k → IsUserCall k → Event k s

-- What happens between two exceptions: the memory changes, but for the semaphores that processes wait
-- for; another exception is saved; the objects of the processes change.
pub record Meanwhile (k k' : Kernel) : Type 0 where
  pub fields : k' ≡ record k {
    word = k'.word;
    state_at = k'.state_at;
    support_at = k'.support_at;
    saved = k'.saved;
    timer = k'.timer;
    status = k'.status;
  }
  pub awaited : (a : ℕ) → Awaited k a → k'.word a ≡ k.word a

-- The move that the exception makes, if it is handled in the state `k`.
unfoldable pub effect : (k : Kernel) (s : Abstract) → Event k s → Abstract
effect k s (die e r o d) = bury s
effect k s (create c a) = fork s
effect k s (passeren c i) =
    let a = k.saved.s_reg Types.s_a1 in if is_le_zero (k.word a) then block a s else s
effect k s (verhogen c i o) = wake (k.saved.s_reg Types.s_a1) s
effect k s (wait_io c d r i) =
    let a = io_semaphore k in if is_le_zero (k.word a) then block a s else s
effect k s (get_cpu_time c) = s
effect k s (wait_clock c i) =
    let a = clock_semaphore k in if is_le_zero (k.word a) then block a s else s
effect k s (get_support_ptr c) = s
effect k s (slice_end p r z) = turn s
effect k s (idle_slice p r) = resume s
effect k s (tick p) = resume (wake_all (clock_semaphore k) s)
effect k s (device line dev i j o w) = serve (device_semaphore_of k line dev) s
effect k s (spurious p) = s
effect k s (pass_up type h t) = s
effect k s (pass_up_call h u) = s

-- The states of the nucleus at the entry of the exception handler and behind it, from a start with the
-- device semaphores in the RAM on, and the lists that the moves of the exceptions come to.
pub data Reach : Kernel → Abstract → Type 0 where
  start :
      (k : Kernel) (refill handler test : ℕ) {e : Exit} {k' : Kernel}
      → ram_start ≤ k.device_semaphores
      → k.device_semaphores + 4 * Types.num_devices < maxint
      → main refill handler test k ≡ exit e k'
      → Reach k' initial
  handle :
      {k k' : Kernel} {s : Abstract} {e : Exit}
      → Reach k s
      → (ev : Event k s) → exception_handler k ≡ exit e k'
      → Reach k' (effect k s ev)
  meanwhile : {k k' : Kernel} {s : Abstract} → Reach k s → Meanwhile k k' → Reach k' s

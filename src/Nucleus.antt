-- ===== src/Nucleus.antt =====
-- The queues of the nucleus together: which process stands on which.
pub mod Abstract
pub mod Boot
pub mod Calls
pub mod Childless
pub mod Clock
pub mod Create
pub mod Device
pub mod Die
pub mod Dispatch
pub mod Fork
pub mod Frame
pub mod Hardware
pub mod Kin
pub mod Passeren
pub mod Reach
pub mod Ready
pub mod Robin
pub mod Samples
pub mod Slice
pub mod Sound
pub mod Terminate
pub mod Touch
pub mod Waits
pub mod Verhogen
use pandos_phase.Prelude.{ℕ, ◌<◌, ◌≡◌, ap, ◌∙◌, List, ◌∈◌, ◌∉◌}
use pandos_phase.Types.{Ptr, maxproc}
use pandos_phase.Pcb.{Pcbs}
use pandos_phase.Pcb.Chain.{IsQueue}
use pandos_phase.Pcb.Free.{IsFree}
use pandos_phase.Asl.Invariant.{IsAsl}
use pandos_phase.Kernel.{Kernel}

-- The processes `rq` are ready, first the one that runs next; `q a` are blocked on the semaphore
-- at `a`; the blocks `fs` are free. No block is on two of these lists.
pub record IsNucleus (k : Kernel) (rq : List Ptr) (q : Ptr → List Ptr) (fs : List Ptr)
    : Type 0 where
  pub asl : IsAsl k.asl q
  pub ready : IsQueue k.asl.pcbs k.ready_queue rq
  pub free : IsFree k.asl.pcbs fs
  pub ready_blocked : (p b : Ptr) → p ∈ rq → p ∉ q b
  pub free_ready : (p : Ptr) → p ∈ fs → p ∉ rq
  pub free_blocked : (p b : Ptr) → p ∈ fs → p ∉ q b

-- A block that is on none of the lists, such as the one of the process that runs.
pub record IsLoose (p : Ptr) (rq : List Ptr) (q : Ptr → List Ptr) (fs : List Ptr) : Type 0 where
  pub valid : p < maxproc
  pub not_ready : p ∉ rq
  pub not_blocked : (b : Ptr) → p ∉ q b
  pub not_free : p ∉ fs

-- The parents, first children, and left and right siblings of all blocks.
abbrev pub families : Pcbs → (Ptr → Ptr) × (Ptr → Ptr) × (Ptr → Ptr) × (Ptr → Ptr)
families s = (s.p_prnt, s.p_child, s.p_sib_left, s.p_sib_right)

-- No process is counted in or out, no family is changed, and the semaphores of the devices are where
-- they were.
pub record Steady (k k' : Kernel) : Type 0 where
  pub count : k'.process_count ≡ k.process_count
  pub devices : k'.device_semaphores ≡ k.device_semaphores
  pub family : families k'.asl.pcbs ≡ families k.asl.pcbs

pub Steady-trans : {k k' k'' : Kernel} → Steady k k' → Steady k' k'' → Steady k k''
Steady-trans a b = record {
  count = b.count ∙ a.count;
  devices = b.devices ∙ a.devices;
  family = b.family ∙ a.family;
}

-- `k'` differs from `k` at most in the queues: in the list of semaphores, the ready queue, and
-- what a block says of the queue that it is on.
pub record OnlyQueues (k k' : Kernel) : Type 0 where
  pub fields : k' ≡ record k { asl = k'.asl; ready_queue = k'.ready_queue }
  pub pcbs : k'.asl.pcbs ≡ record (k.asl.pcbs) {
    p_next = k'.asl.pcbs.p_next;
    p_prev = k'.asl.pcbs.p_prev;
    p_sem_add = k'.asl.pcbs.p_sem_add;
  }

pub OnlyQueues-Steady : {k k' : Kernel} → OnlyQueues k k' → Steady k k'
OnlyQueues-Steady o = record {
  count = ap (λ (x : Kernel). x.process_count) o.fields;
  devices = ap (λ (x : Kernel). x.device_semaphores) o.fields;
  family = ap families o.pcbs;
}

-- ===== src/Nucleus/Abstract.antt =====
-- What the nucleus promises: lists of processes, and the moves between them.
use pandos_phase.Prelude.{◌≡◌, ◌-◌, List, [], ◌∷◌, ◌++◌, ◌==◌, false, is_empty, if◌then◌else◌}
use pandos_phase.Types.{Ptr, null, maxproc}
use pandos_phase.Pcb.Free.{count_up}
use pandos_phase.Pcb.Forest.Cut.{progeny, prune}
use pandos_phase.Pcb.Forest.Graft.{graft}
use pandos_phase.Nucleus.Kin.{IsFamily}
use pandos_phase.Pcb.Forest.{Forest, leaf, node, survivors, buried}
use pandos_phase.Nucleus.Create.{no_queues}
use pandos_phase.Pcb.Fifo.{head_or_null}
use pandos_phase.Asl.Enqueue.{joined}
use pandos_phase.Asl.Dequeue.{left_with}
use pandos_phase.Nucleus.Dispatch.{tail_of}
use pandos_phase.Nucleus.Verhogen.{woken, asleep}
use pandos_phase.Run.{Exit, ldst, ldcxt, halt, panic, wait}
use pandos_phase.Kernel.{Kernel}
use pandos_phase.Nucleus.Sound.{IsSound}

-- The process that runs, NULL if none does; those that are ready, and blocked on each semaphore, the
-- first to leave first; the free blocks; and who is whose child.
pub record Abstract : Type 0 where
  pub running : Ptr
  pub ready : List Ptr
  pub blocked : Ptr → List Ptr
  pub free : List Ptr
  pub family : Forest

-- The process that runs is blocked on `a`, and the first ready one runs.
abbrev pub block : Ptr → Abstract → Abstract
block a s = record {
  running = head_or_null s.ready;
  ready = tail_of s.ready;
  blocked = joined s.blocked a s.running;
  free = s.free;
  family = s.family;
}

-- The first process that is blocked on `a`, if there is one, becomes the last ready one.
abbrev pub wake : Ptr → Abstract → Abstract
wake a s = record s {
  ready = s.ready ++ woken (s.blocked a);
  blocked = left_with s.blocked a (asleep (s.blocked a));
}

-- All of the processes that are blocked on `a` become ready.
abbrev pub wake_all : Ptr → Abstract → Abstract
wake_all a s = record s { ready = s.ready ++ s.blocked a; blocked = left_with s.blocked a [] }

-- If no process runs, the first ready one does.
abbrev pub resume : Abstract → Abstract
resume s = record s {
  running = if s.running == null then head_or_null s.ready else s.running;
  ready = if s.running == null then tail_of s.ready else s.ready;
}

-- The process that runs becomes the last ready one, and the first one runs.
abbrev pub turn : Abstract → Abstract
turn s = record s {
  running = head_or_null (s.ready ++ s.running ∷ []);
  ready = tail_of (s.ready ++ s.running ∷ []);
}

-- The first free block, if there is one, becomes the last ready process and the youngest child of the
-- process that runs.
abbrev pub grown : Ptr → List Ptr → Forest → Forest
grown c [] t = t
grown c (x ∷ xs) t = graft c x t

abbrev pub fork : Abstract → Abstract
fork s = record s {
  ready = s.ready ++ woken s.free;
  free = asleep s.free;
  family = grown s.running s.free s.family;
}

-- The answer of the device whose semaphore is `a`.
abbrev pub serve : Ptr → Abstract → Abstract
serve a s = if is_empty (s.blocked a) then s else resume (wake a s)

-- The process that runs and its progeny are gone, and the first of the ready ones that are left
-- runs; the blocks are free again.
abbrev pub ending : Abstract → Forest
ending s = node s.running (progeny s.running s.family) leaf

abbrev pub bury : Abstract → Abstract
bury s = record {
  running = head_or_null (survivors (ending s) s.ready);
  ready = tail_of (survivors (ending s) s.ready);
  blocked = λ a. survivors (ending s) (s.blocked a);
  free = buried (ending s) s.free;
  family = prune s.running s.family;
}

-- The first process runs, and all other blocks are free.
abbrev pub initial : Abstract
initial = record {
  running = 0;
  ready = [];
  blocked = no_queues;
  free = count_up (maxproc - 1) 1;
  family = node 0 leaf leaf;
}

-- What the state promises, if the lists describe it.
abbrev pub view : Kernel → List Ptr → (Ptr → List Ptr) → List Ptr → Forest → Abstract
view k rq q fs t = record {
  running = k.current_process;
  ready = rq;
  blocked = q;
  free = fs;
  family = t;
}

-- Where the handler leaves to a process, or to a handler that an exception is passed up to, a process
-- runs.
abbrev pub GoesOn : Exit → Kernel → Type 0
GoesOn (ldst st) k = (k.current_process == null) ≡ false
GoesOn (ldcxt stack_ptr status pc) k = (k.current_process == null) ≡ false
GoesOn halt k = Unit
GoesOn panic k = Unit
GoesOn wait k = Unit

-- The state keeps the promise: the process runs, and the lists and the forest describe the state.
abbrev pub Keeps : Abstract → Kernel → Type 0
Keeps s k =
    (k.current_process ≡ s.running)
    × IsSound k s.ready s.blocked s.free
    × IsFamily k.asl.pcbs s.family s.blocked s.free

-- What the handler leaves: `Keeps`, and a process runs where it leaves to one.
abbrev pub Handled : Abstract → Exit → Kernel → Type 0
Handled s e k =
    GoesOn e k
    × (k.current_process ≡ s.running)
    × IsSound k s.ready s.blocked s.free
    × IsFamily k.asl.pcbs s.family s.blocked s.free

pub Handled-Keeps : (s : Abstract) (e : Exit) (k : Kernel) → Handled s e k → Keeps s k
Handled-Keeps s e k h = (h.1, h.2, h.3)

-- ===== src/Lib.antt =====
-- The Pandos nucleus, phase 2: the process control blocks and the semaphore list of phase 1, and the
-- scheduler, the system calls, the exception and interrupt handlers and the start-up on top of them.
--
-- How the program is modelled. A C function is a command: it takes the state and returns, leaves for
-- good (LDST, LDCXT, HALT, PANIC and WAIT of libumps), faults on an access to a block, a
-- descriptor or a device semaphore through NULL or outside of its table, on the state NULL of SYS1 and
-- on a division by zero, or uses up its fuel (Run). But for this the words, `state_t` and `support_t`
-- objects at addresses are memories without faults. A pointer into `pcbTable` or `semdTable` is an
-- index, any other pointer is an address, and NULL is the number that h/const.h gives it. Each table is
-- a memory for each field, so `p->p_next = q` is an update of the memory `p_next` at p. Words are numbers below
-- 2 ^ 32 with the wrap-around written out (Words).
--
-- The parts:
--   Prelude, Run, Links, Words: shared names, lists of indices, runs, linked lists, 32-bit words.
--   Types: h/types.h and the constants of h/const.h.
--   Pcb: phase2/pcb.c, on the state `Pcbs`. `insert_proc_q` is insertProcQ and so on; a function that
--     takes `pcb_t **tp` takes the tail pointer and returns the new one. Its children say what a
--     queue (Chain), the free list (Free) and the children of a process (Siblings) are, as lists.
--   Asl: phase2/asl.c, on the state `Asl`, which holds a `Pcbs`. insertBlocked is split into
--     `activate` (a new descriptor) and `enqueue`; the loop that removeBlocked and outBlocked repeat
--     is `retire`. Its children read the list as a queue for each semaphore (Invariant).
--   Kernel: the globals of phase2/initial.c, the saved state, and a memory of words by address, which
--     holds semaphores and device registers.
--   Scheduler, Processes, Semaphores, Exceptions, Interrupts, Initial: phase2/scheduler.c,
--     phase2/exceptions.c in three parts, phase2/interrupts.c and phase2/initial.c.
--   Memcopy: the loop of memcopy in phase2/exceptions.c.
--   Nucleus: which process stands on which queue, for all of the queues together, and what each handler
--     does to it. Dispatch is the scheduler; Passeren, Verhogen and Calls are SYS3 and SYS4, Fork is
--     SYS1, Terminate and Die are SYS2 and what else ends a process, Waits is SYS5 to SYS8; Slice,
--     Clock, Device and Hardware are the interrupts, Boot is the start-up. Sound is the invariant of
--     the queues and counts between two exceptions, Kin the one of the process tree, as a forest
--     (Pcb/Forest). Reach holds the states that the nucleus reaches from its start on; Abstract has
--     the moves between lists of processes and in the tree that the exceptions come to, and Reach/Effect
--     shows that they do. Robin is about the turns of the processes that are ready.
-- The steps of Reach are runs of `main` and `exception_handler`, and what the processes and the machine
-- change in between. The exceptions that are steps are the constructors of `Event` (Nucleus/Reach). It
-- leaves out
--   - SYS1 with the state NULL, SYS3 and SYS4 on a semaphore outside of the RAM, at MAXINT or at NULL,
--     and SYS5 for what is no device, or with a third argument above 1, of which the code makes accesses
--     at addresses that hold no such object;
--   - SYS4 and the answer of a device on a semaphore of the largest value, and a system call or a device
--     on a semaphore that is negative while nobody waits for it;
--   - the end of a process with its progeny if there are no others, or if one of them waits for a device:
--     sysTerminate does not count up the semaphore of the device, so that this one does not count its
--     blocked processes until the device answers. Terminate and Die say what happens in both cases;
--   - a device that nobody waits for while no process runs, on which the handler loads the state that WAIT
--     was interrupted in; Hardware says what happens there;
--   - a line of devices whose bitmap is zero or no word, or names a device above 7;
--   - traps and system calls while no process runs, and a time scale of zero at a system call from 1 to 8
--     in kernel mode or at the end of a time slice, by which the clock is divided.
-- The files named Samples hold small states on which the theorems are applied.
--
-- Bounds. The loop of outProcQ has MAXPROC rounds, because a queue holds each block once; the loops
-- over the semaphore list have MAXSEMD + 2, the size of the table; the loop of
-- handleIntervalTimerInterrupt has MAXPROC and a last test; the one of getHighestPriorityDevice has 32,
-- the width of the bitmap. sysTerminate has two units for each block and one more; each call and each
-- round of its loop takes one.
--
-- Not modelled: phase2/p2test.c, a test program, with uTLB_RefillHandler; the build files; libumps,
-- whose calls are exits or notes in the state. Every call of memcopy copies a whole
-- `state_t`, which is an assignment here; the loop itself is in Memcopy. Device registers are plain
-- memory: a command that is written to one changes no other register, and the clock stands still
-- while the nucleus runs. A fall of WAIT into the rest of the scheduler, with an interrupt that returns,
-- is not modelled: the run ends there.
pub mod Prelude
pub mod Types
pub mod Run
pub mod Links
pub mod Pcb
pub mod Asl
pub mod Words
pub mod Memcopy
pub mod Kernel
pub mod Scheduler
pub mod Processes
pub mod Semaphores
pub mod Interrupts
pub mod Exceptions
pub mod Initial
pub mod Nucleus

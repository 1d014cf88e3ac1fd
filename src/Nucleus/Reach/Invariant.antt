-- ===== src/Nucleus/Reach/Invariant.antt =====
-- The invariant holds in every state that the nucleus reaches, and every exception is handled.
use pandos_phase.Prelude.{
  ==→eq, ◌∙◌, ℕ, ◌+◌, ◌*◌, ◌≤◌, ◌<◌, ◌≡◌, refl, ap, subst, sym, inr, List, [], arith, ◌⊎◌, ◌-◌,
  ne→==,
}
use pandos_phase.Types
use pandos_phase.Types.{Ptr, null, maxint, maxproc}
use pandos_phase.Run.{Exit, exit, Run, Exits, exits, Exits-mono}
use pandos_phase.Kernel.{Kernel}
use pandos_phase.Initial.{main}
use pandos_phase.Nucleus.{IsLoose, families}
use pandos_phase.Pcb.Forest.{leaf, node}
use pandos_phase.Nucleus.Kin.{IsFamily, IsFamily-steady, Marked-same}
use pandos_phase.Nucleus.Boot.{Booted, main-Booted, semaphore_at}
use pandos_phase.Nucleus.Create.{no_queues}
use pandos_phase.Pcb.Free.{count_up}
use pandos_phase.Nucleus.Sound.{IsSound, IsSound-keep, ram_start}
use pandos_phase.Nucleus.Reach.{effect, Meanwhile, Reach, start, handle, meanwhile}
use pandos_phase.Nucleus.Reach.Calls.{has-Awaited}
use pandos_phase.Nucleus.Reach.Effect.{exception_handler-effect}
use pandos_phase.Nucleus.Abstract.{Abstract, initial, Keeps, Handled-Keeps}

pub IsSound-Meanwhile :
    (k k' : Kernel)
    → Meanwhile k k'
    → (rq : List Ptr) (q : Ptr → List Ptr) (fs : List Ptr) → IsSound k rq q fs
    → IsSound k' rq q fs
IsSound-Meanwhile k k' m rq q fs h =
    IsSound-keep k rq q fs h k' (ap (λ (x : Kernel). x.asl) m.fields)
      (ap (λ (x : Kernel). x.ready_queue) m.fields)
      (ap (λ (x : Kernel). x.current_process) m.fields)
      (record {
        count = ap (λ (x : Kernel). x.process_count) m.fields;
        devices = ap (λ (x : Kernel). x.device_semaphores) m.fields;
        family = ap (λ (x : Kernel). families x.asl.pcbs) m.fields;
      })
      (λ a p i. m.awaited a (has-Awaited k rq q fs h a p i))

Keeps-Meanwhile : (k k' : Kernel) (s : Abstract) → Meanwhile k k' → Keeps s k → Keeps s k'
Keeps-Meanwhile k k' s m h = (
  ap (λ (x : Kernel). x.current_process) m.fields ∙ h.0,
  IsSound-Meanwhile k k' m s.ready s.blocked s.free h.1,
  IsFamily-steady (ap (λ (x : Kernel). families x.asl.pcbs) m.fields)
      (Marked-same _ _ s.blocked (ap (λ (x : Kernel). x.asl.pcbs.p_sem_add) m.fields)) h.2.no_null
      h.2,
)

-- What a run that leaves has left.
exit_state : Run Kernel (Unit {0}) → Kernel → Kernel
exit_state (exit e s) d = s
exit_state _ d = d

exit_kind : Run Kernel (Unit {0}) → Exit → Exit
exit_kind (exit e s) d = e
exit_kind _ d = d

Exits-at :
    {P : Exit → Kernel → Type 0} {r : Run Kernel (Unit {0})} {e : Exit} {s : Kernel}
    → Exits P r
    → r ≡ exit e s
    → P e s
unfolding exit_state exit_kind
Exits-at {P} {e} {s} (exits {e = f} {s = t} p) i =
    subst (λ v. P v s) (ap (λ r. exit_kind r e) i)
      (subst (λ v. P f v) (ap (λ r. exit_state r s) i) p)

-- The first process has the block 0, and the other blocks are free.
Booted-IsSound :
    (k k' : Kernel) (refill handler test : ℕ) (e : Exit)
    → ram_start ≤ k.device_semaphores
    → k.device_semaphores + 4 * Types.num_devices < maxint
    → Booted k refill handler test e k'
    → IsSound k' [] no_queues (count_up (maxproc - 1) 1)
Booted-IsSound k k' refill handler test e low high b = record {
  nucleus = b.state;
  running =
      subst (λ v. (v ≡ null) ⊎ IsLoose v [] no_queues (count_up (maxproc - 1) 1)) (sym b.runs)
        (inr (record {
          valid = omega arith;
          not_ready = refl;
          not_blocked = λ c. refl;
          not_free = refl;
        }));
  counted = λ a p xs i. absurd (cc i);
  in_ram = λ a p m. absurd (ground arith);
  accounted = λ y v f r n. absurd (ground (arith, v, f, n, b.runs));
  count = rw (b.count) refl;
  devices = rw (b.devices) low;
  devices_end = rw (b.devices) high;
}

Booted-IsFamily :
    (k k' : Kernel) (refill handler test : ℕ) (e : Exit)
    → Booted k refill handler test e k'
    → IsFamily k'.asl.pcbs (node 0 leaf leaf) no_queues (count_up (maxproc - 1) 1)
Booted-IsFamily k k' refill handler test e b = record {
  forest = (record { chain = b.childless; distinct = tt; inside = tt }, tt, tt);
  distinct = (refl, tt);
  inside = λ y i. ground arith;
  used = λ y i. ground arith;
  complete = λ y v o. ground (arith, v, o);
  orphans =
      λ y i. subst (λ p. k'.asl.pcbs.p_prnt p ≡ null) (sym (==→eq y 0 (ground arith))) b.orphan;
  no_null = refl;
  unmarked = λ y i o.
      subst (λ p. k'.asl.pcbs.p_sem_add p ≡ null) (sym (==→eq y 0 (ground arith))) b.unmarked;
}

main-Keeps :
    (k : Kernel) (refill handler test : ℕ)
    → ram_start ≤ k.device_semaphores
    → k.device_semaphores + 4 * Types.num_devices < maxint
    → Exits (λ e. Keeps initial) (main refill handler test k)
main-Keeps k refill handler test low high =
    Exits-mono
      (main-Booted k refill handler test
        (λ j l. ne→== (semaphore_at k j) Types.interval_tmr (omega (arith, l, low, high))))
      (λ e k' b. (
        b.runs,
        Booted-IsSound k k' refill handler test e low high b,
        Booted-IsFamily k k' refill handler test e b,
      ))

pub Exits-exit :
    {P : Exit → Kernel → Type 0} {r : Run Kernel (Unit {0})}
    → Exits P r
    → (e : Exit) × (k' : Kernel) × (r ≡ exit e k') × P e k'
Exits-exit (exits {e} {s} p) = (e, s, refl, p)

-- From its start on, after any exceptions of the kinds below and whatever happens in between, the
-- lists and the process tree that the moves of the exceptions come to describe the state of the
-- nucleus: its queues are well formed and exclude each other, no block is on two of them, the
-- process that runs is on none, and a block that is on none and does not run is free. Every
-- semaphore that processes are blocked on counts them, and the count of the processes is the number
-- of the blocks that are not free. Every block that is not free has one place in the tree of
-- parents and children, and its p_semAdd is cleared if it is blocked nowhere. The exceptions are
-- those of `Event`, which leaves out: SYS1 with the state NULL; SYS3 and SYS4 on a semaphore
-- outside of the RAM, at MAXINT or at NULL; SYS5 for what is no device, or with a third argument
-- above 1; SYS4 and the answer of a device on a semaphore of the largest value; a system call or a
-- device on a semaphore that is negative while nobody waits for it; the end of a process with its
-- progeny if there are no others or one of them waits for a device; a device that nobody waits for
-- while no process runs; a line of devices whose bitmap is zero or no word, or names a device above
-- 7. Traps and system calls come from a process that runs, and the system calls in kernel mode from
-- 1 to 8 and the end of a time slice with a time scale that is not zero. The device semaphores lie
-- in the RAM, and between two exceptions no semaphore is changed on which a process is blocked.
pub Reach-Keeps : (k : Kernel) (s : Abstract) → Reach k s → Keeps s k
Reach-Keeps k s (start k0 refill handler test low high e) =
    Exits-at (main-Keeps k0 refill handler test low high) e
Reach-Keeps k s (handle {k = k0} {s = t} r ev e) =
    Handled-Keeps (effect k0 t ev) _ k
      (Exits-at (exception_handler-effect k0 t (Reach-Keeps k0 t r) ev) e)
Reach-Keeps k s (meanwhile {k = k0} r m) = Keeps-Meanwhile k0 k s m (Reach-Keeps k0 s r)

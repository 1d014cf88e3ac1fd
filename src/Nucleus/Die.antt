-- ===== src/Nucleus/Die.antt =====
-- The ends of the running process: SYS2, exceptions without a support structure, and what no handler
-- knows.
use pandos_phase.Prelude.{
  ℕ, suc, ◌+◌, ◌<◌, ◌≡◌, ◌⊎◌, inl, inr, refl, List, ◌==◌, leb, true, false, arith, ne→==, lt→ltb,
}
use pandos_phase.Types
use pandos_phase.Types.{Ptr, null, maxproc}
use pandos_phase.Words.{is_le_zero, test_bits}
use pandos_phase.Run.{◌>>◌, Exit, access, Exits, Exits-after, Exits-mono, Exits-stop}
use pandos_phase.Pcb.Forest.{Forest, leaf, node, size, survivors, buried}
use pandos_phase.Kernel.{Kernel}
use pandos_phase.Scheduler.{scheduler}
use pandos_phase.Processes.{sys_terminate}
use pandos_phase.Exceptions.{
  pass_up_or_die, exception_handler, exception_code, is_high_syscall, tlb_exception_handler,
  program_trap_handler, syscall_handler, syscall,
}
use pandos_phase.Exceptions.PassUp.{IsTrap, support_of}
use pandos_phase.Nucleus.Touch.{IsNucleus-keep}
use pandos_phase.Nucleus.Calls.{IsCall, called, exception_handler_call}
use pandos_phase.Nucleus.Dispatch.{Scheduled, scheduler-Scheduled}
use pandos_phase.Nucleus.Terminate.{IsTree, IsTerminated, sys_terminate-IsTerminated}

-- The running process and its progeny `f` are terminated, and the scheduler has chosen among the
-- processes that are left.
abbrev pub IsDead :
    Kernel
    → (parent : Ptr) → (xs : List Ptr) → Forest
    → (rq : List Ptr) → (q : Ptr → List Ptr) → (fs : List Ptr) → Exit
    → Kernel
    → Type 0
IsDead k parent xs f rq q fs e k' =
    (k1 : Kernel) × IsTerminated k k.current_process parent xs f rq q fs k1
    × (k1.process_count + suc (size f) ≡ k.process_count)
    × Scheduled k1 (survivors (node k.current_process f leaf) rq)
        (λ b. survivors (node k.current_process f leaf) (q b))
        (buried (node k.current_process f leaf) fs) e k'

-- The exception is a system call below 9 of a process in user mode.
pub record IsUserCall (k : Kernel) : Type 0 where
  pub code : exception_code k.saved.s_cause ≡ 8
  pub low : is_high_syscall (k.saved.s_reg Types.s_a0) ≡ false
  pub user_mode : test_bits k.saved.s_status Types.kupbiton ≡ true

-- The exception is a system call in kernel mode whose number is zero or negative.
pub record IsInvalid (k : Kernel) : Type 0 where
  pub code : exception_code k.saved.s_cause ≡ 8
  pub number : is_le_zero (k.saved.s_reg Types.s_a0) ≡ true
  pub kernel_mode : test_bits k.saved.s_status Types.kupbiton ≡ false

-- The running process with its progeny, and others besides.
module _ (k : Kernel) (parent : Ptr) (xs : List Ptr) (f : Forest) (rq : List Ptr)
    (q : Ptr → List Ptr) (fs : List Ptr) (h : IsTree k k.current_process parent xs f rq q fs)
    (others : suc (size f) < k.process_count) where
  terminate-IsDead :
      Exits (IsDead k parent xs f rq q fs) ((sys_terminate k.current_process >> scheduler) k)
  terminate-IsDead =
      Exits-after _ (sys_terminate-IsTerminated k k.current_process parent xs f rq q fs h others)
        (λ u k1 w.
          Exits-mono (scheduler-Scheduled k1 _ _ _ w.0.state) (λ e k' s. (k1, w.0, w.1, s)))

  pass_up_or_die-IsDead :
      (type : ℕ)
      → support_of k ≡ null
      → Exits (IsDead k parent xs f rq q fs) (pass_up_or_die type k)
  unfolding pass_up_or_die access
  pass_up_or_die-IsDead type none = rw (lt→ltb _ _ h.progeny.valid, none) terminate-IsDead

  -- A trap without a support structure ends the running process with its progeny, as does an
  -- exception with a code above 12; the scheduler chooses among the processes that are left. There
  -- are others, the queues of the nucleus are well formed, and the running process and its progeny
  -- are a tree apart from the rest.
  pub exception_handler-IsDead :
      (((type : ℕ) × IsTrap k (exception_code k.saved.s_cause) type × (support_of k ≡ null))
        ⊎ (12 < exception_code k.saved.s_cause))
      → Exits (IsDead k parent xs f rq q fs) (exception_handler k)
  unfolding exception_handler tlb_exception_handler program_trap_handler
  exception_handler-IsDead (inl (type, inl (lo, hi, t), none)) =
      let c = exception_code k.saved.s_cause in
      let some_code : (c == 0) ≡ false = ne→== c 0 (omega (arith, lo)) in
      let low : leb c 3 ≡ true = ground (arith, hi) in
      rw (some_code, low) (pass_up_or_die-IsDead Types.pgfaultexcept none)
  exception_handler-IsDead (inl (type, inr (inl (lo, hi, n, t)), none)) =
      let c = exception_code k.saved.s_cause in
      let some_code : (c == 0) ≡ false = ne→== c 0 (omega (arith, lo)) in
      let high : leb c 3 ≡ false = ground (arith, lo) in
      let within : leb c 12 ≡ true = ground (arith, hi) in
      rw (some_code, high, ne→== c 8 n, within) (pass_up_or_die-IsDead Types.generalexcept none)
  exception_handler-IsDead (inl (type, inr (inr (e, s, t)), none)) =
      rw (e, s) (pass_up_or_die-IsDead Types.generalexcept none)
  exception_handler-IsDead (inr above) =
      let c = exception_code k.saved.s_cause in
      let some_code : (c == 0) ≡ false = ne→== c 0 (omega (arith, above)) in
      let high : leb c 3 ≡ false = ground (arith, above) in
      let no_call : (c == 8) ≡ false = ground (arith, above) in
      let beyond : leb c 12 ≡ false = ground (arith, above) in
      rw (some_code, high, no_call, beyond) terminate-IsDead

  called-IsTree : IsTree (called k) k.current_process parent xs f rq q fs
  called-IsTree =
      let d = h.progeny in
      record {
        progeny = record {
          nucleus = IsNucleus-keep k (called k) rq q fs refl refl d.nucleus;
          forest = d.forest;
          children = d.children;
          valid = d.valid;
          not_member = d.not_member;
          distinct = d.distinct;
          inside = d.inside;
          used = d.used;
          placed = d.placed;
          others = d.others;
          small = d.small;
        };
        used = h.used;
        placed = h.placed;
        hooked = h.hooked;
        parent_apart = h.parent_apart;
        siblings_apart = h.siblings_apart;
      }

-- SYS2 in kernel mode ends the running process with its progeny, and so does a system call below 9 in
-- user mode without a support structure; the scheduler chooses among the processes that are left.
-- There are others, the queues of the nucleus are well formed, and the running process and its
-- progeny are a tree apart from the rest.
pub exception_handler-call-IsDead :
    (k : Kernel) (parent : Ptr) (xs : List Ptr) (f : Forest) (rq : List Ptr) (q : Ptr → List Ptr)
    (fs : List Ptr)
    → IsTree k k.current_process parent xs f rq q fs
    → suc (size f) < k.process_count
    → IsCall k 2 ⊎ (IsUserCall k × (support_of k ≡ null))
    → Exits (IsDead (called k) parent xs f rq q fs) (exception_handler k)
unfolding exception_handler syscall_handler syscall
exception_handler-call-IsDead k parent xs f rq q fs h others (inl c) =
    rw (exception_handler_call k 2 c (omega arith)) (
      Exits-stop _ (
        terminate-IsDead (called k) parent xs f rq q fs
          (called-IsTree k parent xs f rq q fs h others) others))
exception_handler-call-IsDead k parent xs f rq q fs h others (inr (u, none)) =
    rw (u.code, u.low, u.user_mode)
      (Exits-stop _ (
        pass_up_or_die-IsDead (called k) parent xs f rq q fs
          (called-IsTree k parent xs f rq q fs h others) others Types.generalexcept none))

-- The `default` of the system calls.
default_run :
    (n : ℕ)
    → is_le_zero n ≡ true
    → (is_high_syscall n ≡ false)
      × ((n == 1) ≡ false)
      × ((n == 2) ≡ false)
      × ((n == 3) ≡ false)
      × ((n == 4) ≡ false)
      × ((n == 5) ≡ false)
      × ((n == 6) ≡ false)
      × ((n == 7) ≡ false)
      × ((n == 8) ≡ false)
unfolding is_high_syscall
default_run n z = (
  ground (arith, z),
  ground (arith, z),
  ground (arith, z),
  ground (arith, z),
  ground (arith, z),
  ground (arith, z),
  ground (arith, z),
  ground (arith, z),
  ground (arith, z),
)

-- A system call in kernel mode with a number that is zero or negative ends the running process.
pub exception_handler-invalid-IsDead :
    (k : Kernel) (parent : Ptr) (xs : List Ptr) (f : Forest) (rq : List Ptr) (q : Ptr → List Ptr)
    (fs : List Ptr)
    → IsTree k k.current_process parent xs f rq q fs
    → suc (size f) < k.process_count
    → IsInvalid k
    → Exits (IsDead (called k) parent xs f rq q fs) (exception_handler k)
unfolding exception_handler syscall_handler syscall
exception_handler-invalid-IsDead k parent xs f rq q fs h others i =
    let d = default_run (k.saved.s_reg Types.s_a0) i.number in
    rw (i.code, d.0, i.kernel_mode, d.1, d.2, d.3, d.4, d.5, d.6, d.7, d.8)
      (Exits-stop _ (
        terminate-IsDead (called k) parent xs f rq q fs
          (called-IsTree k parent xs f rq q fs h others) others))

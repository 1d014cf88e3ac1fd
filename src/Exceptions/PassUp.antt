-- ===== src/Exceptions/PassUp.antt =====
-- Pass up or die, and the exceptions that lead to it.
use pandos_phase.Prelude.{
  ℕ, ◌≤◌, ◌<◌, ◌≡◌, ◌≢◌, ◌⊎◌, inl, inr, refl, sym, subst, ◌==◌, leb, true, false, arith, ==_refl,
  ne→==, lt→ltb,
}
use pandos_phase.Types
use pandos_phase.Types.{Ptr, null, maxproc, Processor, Support}
use pandos_phase.Words.{add32, test_bits}
use pandos_phase.Run.{Exit, ldcxt, access, Exits, exits, Exits-stop, Exits-mono}
use pandos_phase.Kernel.{Kernel}
use pandos_phase.Exceptions.{
  pass_up, pass_up_or_die, exception_handler, exception_code, is_high_syscall,
  tlb_exception_handler, program_trap_handler, syscall_handler,
}

-- The support structure of the running process.
abbrev pub support_of : Kernel → Ptr
support_of k = k.asl.pcbs.p_support_struct k.current_process

-- The running process has a support structure.
pub record HasSupport (k : Kernel) : Type 0 where
  pub valid : k.current_process < maxproc
  pub some_support : (support_of k == null) ≡ false

-- The exception is passed up to the handler of kind `type` of the running process, with the state
-- `st`: it stands in the support structure, and the context that is loaded is the one of the handler.
pub record PassedUp (k : Kernel) (type : ℕ) (st : Processor) (e : Exit) (k' : Kernel) : Type 0 where
  pub out :
      let c = (k.support_at (support_of k)).sup_except_context type in
      e ≡ ldcxt c.c_stack_ptr c.c_status c.c_pc
  pub stored : (k'.support_at (support_of k)).sup_except_state type ≡ st
  pub other_kind :
      (t : ℕ)
      → (t == type) ≡ false
      → (k'.support_at (support_of k)).sup_except_state t
        ≡ (k.support_at (support_of k)).sup_except_state t
  pub others : (a : Ptr) → (a == support_of k) ≡ false → k'.support_at a ≡ k.support_at a
  pub fields : k' ≡ record k { support_at = k'.support_at; saved = st }

pass_up_or_die-PassedUp :
    (k : Kernel) (type : ℕ) → HasSupport k → Exits (PassedUp k type k.saved) (pass_up_or_die type k)
unfolding pass_up_or_die pass_up access
pass_up_or_die-PassedUp k type h =
    rw (lt→ltb _ _ h.valid, h.some_support)
      (exits (record {
        out = rw (==_refl (support_of k)) refl;
        stored = rw (==_refl (support_of k), ==_refl type) refl;
        other_kind = λ t n. rw (==_refl (support_of k), n) refl;
        others = λ a n. rw n refl;
        fields = refl;
      }))

-- The kind of handler that an exception with the code `code` in the cause register, other than an
-- interrupt or a system call below 9, is passed up to.
abbrev pub IsTrap : (k : Kernel) (code type : ℕ) → Type 0
IsTrap k code type =
    ((1 ≤ code) × (code ≤ 3) × (type ≡ Types.pgfaultexcept))
    ⊎ ((4 ≤ code) × (code ≤ 12) × (code ≢ 8) × (type ≡ Types.generalexcept))
    ⊎ ((code ≡ 8)
        × (is_high_syscall (k.saved.s_reg Types.s_a0) ≡ true)
        × (type ≡ Types.generalexcept))

pub exception_handler-PassedUp :
    (k : Kernel) (type : ℕ)
    → HasSupport k
    → IsTrap k (exception_code k.saved.s_cause) type
    → Exits (PassedUp k type k.saved) (exception_handler k)
unfolding exception_handler tlb_exception_handler program_trap_handler
exception_handler-PassedUp k type h (inl (lo, hi, t)) =
    let c = exception_code k.saved.s_cause in
    let some_code : (c == 0) ≡ false = ne→== c 0 (omega (arith, lo)) in
    let low : leb c 3 ≡ true = ground (arith, hi) in
    rw (some_code, low)
      (subst (λ v. Exits (PassedUp k v k.saved) (pass_up_or_die Types.pgfaultexcept k)) (sym t)
        (pass_up_or_die-PassedUp k Types.pgfaultexcept h))
exception_handler-PassedUp k type h (inr (inl (lo, hi, n, t))) =
    let c = exception_code k.saved.s_cause in
    let some_code : (c == 0) ≡ false = ne→== c 0 (omega (arith, lo)) in
    let high : leb c 3 ≡ false = ground (arith, lo) in
    let within : leb c 12 ≡ true = ground (arith, hi) in
    rw (some_code, high, ne→== c 8 n, within)
      (subst (λ v. Exits (PassedUp k v k.saved) (pass_up_or_die Types.generalexcept k)) (sym t)
        (pass_up_or_die-PassedUp k Types.generalexcept h))
exception_handler-PassedUp k type h (inr (inr (e, s, t))) =
    rw (e, s)
      (subst (λ v. Exits (PassedUp k v k.saved) (pass_up_or_die Types.generalexcept k)) (sym t)
        (pass_up_or_die-PassedUp k Types.generalexcept h))

-- The state of the caller behind its system call.
abbrev pub behind_call : Processor → Processor
behind_call st = record st { s_pc = add32 st.s_pc 4 }

-- A system call below 9 in user mode is passed up as a program trap, with the program counter behind
-- the call.
pub syscall_handler-PassedUp :
    (k : Kernel)
    → HasSupport k
    → test_bits k.saved.s_status Types.kupbiton ≡ true
    → Exits (PassedUp k Types.generalexcept (behind_call k.saved)) (syscall_handler k)
unfolding syscall_handler
syscall_handler-PassedUp k h u =
    let k1 = record k { saved = behind_call k.saved } in
    rw u (
      Exits-stop _ (
        Exits-mono
          (pass_up_or_die-PassedUp k1 Types.generalexcept
            (record { valid = h.valid; some_support = h.some_support }))
          (λ e k' r. record {
            out = r.out;
            stored = r.stored;
            other_kind = r.other_kind;
            others = r.others;
            fields = r.fields;
          })))

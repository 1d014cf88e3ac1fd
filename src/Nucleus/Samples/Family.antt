-- ===== src/Nucleus/Samples/Family.antt =====
-- A small family of processes, and its end.
use pandos_phase.Prelude.{
  ℕ, suc, ◌+◌, ◌<◌, ◌≡◌, refl, inl, inr, [], ◌∷◌, ◌==◌, false, arith, if◌then◌else◌,
}
use pandos_phase.Types
use pandos_phase.Types.{Ptr, null}
use pandos_phase.Run.{halt, Exits, Returns}
use pandos_phase.Pcb.Siblings.{IsChildren}
use pandos_phase.Pcb.Samples.{no_processor}
use pandos_phase.Pcb.Forest.{Forest, leaf, node, size}
use pandos_phase.Asl.Samples.{waiting_on}
use pandos_phase.Kernel.{Kernel}
use pandos_phase.Processes.{sys_terminate}
use pandos_phase.Exceptions.{exception_handler, exception_code}
use pandos_phase.Nucleus.{IsNucleus}
use pandos_phase.Nucleus.Touch.{IsNucleus-tree}
use pandos_phase.Nucleus.Terminate.{
  IsTree, IsTerminated, sys_terminate-IsTerminated, sys_terminate-halt,
}
use pandos_phase.Nucleus.Terminate.Depart.{IsPlaced}
use pandos_phase.Nucleus.Calls.{called}
use pandos_phase.Nucleus.Die.{IsDead, exception_handler-IsDead, exception_handler-call-IsDead}
use pandos_phase.Nucleus.Samples.{kernel, kernel-IsNucleus, pcbs}

-- The process 8, which runs, is the child of 5, which is ready; its own child, 4, is blocked on the
-- semaphore at 100. `count` processes are counted, and the exception has the cause `cause`.
abbrev family : (count cause : ℕ) → Kernel
family count cause = record kernel {
  asl = record (kernel.asl) {
    pcbs = record pcbs {
      p_child = λ p. if p == 5 then 8 else if p == 8 then 4 else null;
      p_prnt = λ p. if p == 8 then 5 else if p == 4 then 8 else null;
    };
  };
  process_count = count;
  saved = record no_processor { s_cause = cause; s_reg = λ r. if r == Types.s_a0 then 2 else 0 };
}

family-IsNucleus :
    (count cause : ℕ) → IsNucleus (family count cause) (5 ∷ 6 ∷ []) waiting_on (9 ∷ 10 ∷ [])
family-IsNucleus count cause =
    IsNucleus-tree kernel (family count cause) (5 ∷ 6 ∷ []) waiting_on (9 ∷ 10 ∷ []) refl refl
      (λ y. record { next = refl; prev = refl; sem = refl }) refl kernel-IsNucleus

-- The children of 5 and of 8.
abbrev of_five : Forest
of_five = node 8 (node 4 leaf leaf) leaf

abbrev of_eight : Forest
of_eight = node 4 leaf leaf

family-IsPlaced : (y : Ptr) → IsPlaced pcbs waiting_on y
family-IsPlaced y = record { blocked = λ n. ground arith; unblocked = λ e b. ground arith }

childless :
    (c : ℕ) (count cause : ℕ)
    → (c == 5) ≡ false
    → (c == 8) ≡ false
    → IsChildren (family count cause).asl.pcbs c []
childless c count cause e f = record { chain = ground arith; distinct = tt; inside = tt }

five-IsTree :
    (count : ℕ)
    → 2 < count
    → count < 100
    → IsTree (family count 0) 5 null [] of_five (5 ∷ 6 ∷ []) waiting_on (9 ∷ 10 ∷ [])
five-IsTree count l l' = record {
  progeny = record {
    nucleus = family-IsNucleus count 0;
    forest = (
      record { chain = (refl, refl, refl, refl); distinct = (refl, tt); inside = omega arith },
      (childless 4 count 0 refl refl, tt, tt),
      tt,
    );
    children = record {
      chain = (refl, refl, refl, refl);
      distinct = (refl, tt);
      inside = omega arith;
    };
    valid = omega arith;
    not_member = refl;
    distinct = (refl, (refl, tt));
    inside = omega arith;
    used = λ y i. ground arith;
    placed =
        λ y i. let p = family-IsPlaced y in record { blocked = p.blocked; unblocked = p.unblocked };
    others = omega (arith, l);
    small = omega (arith, l');
  };
  used = refl;
  placed = let p = family-IsPlaced 5 in record { blocked = p.blocked; unblocked = p.unblocked };
  hooked = inl (refl, refl);
  parent_apart = refl;
  siblings_apart = λ y i. absurd (ground arith);
}

sys_terminate-IsTerminated_example :
    Returns
      (λ _ k'.
        IsTerminated (family 6 0) 5 null [] of_five (5 ∷ 6 ∷ []) waiting_on (9 ∷ 10 ∷ []) k'
        × (k'.process_count + suc (size of_five) ≡ (family 6 0).process_count))
      (sys_terminate 5 (family 6 0))
sys_terminate-IsTerminated_example =
    sys_terminate-IsTerminated (family 6 0) 5 null [] of_five (5 ∷ 6 ∷ []) waiting_on (9 ∷ 10 ∷ [])
      (five-IsTree 6 (omega arith) (omega arith)) (omega arith)

sys_terminate-halt_example :
    Exits
      (λ e k'.
        (e ≡ halt)
        × IsTerminated (family 3 0) 5 null [] of_five (5 ∷ 6 ∷ []) waiting_on (9 ∷ 10 ∷ []) k'
        × (k'.process_count ≡ 0))
      (sys_terminate 5 (family 3 0))
sys_terminate-halt_example =
    sys_terminate-halt (family 3 0) 5 null [] of_five (5 ∷ 6 ∷ []) waiting_on (9 ∷ 10 ∷ [])
      (five-IsTree 3 (omega arith) (omega arith)) refl

eight-IsTree :
    (cause : ℕ)
    → IsTree (family 6 cause) 8 5 (8 ∷ []) of_eight (5 ∷ 6 ∷ []) waiting_on (9 ∷ 10 ∷ [])
eight-IsTree cause = record {
  progeny = record {
    nucleus = family-IsNucleus 6 cause;
    forest = (childless 4 6 cause refl refl, tt, tt);
    children = record {
      chain = (refl, refl, refl, refl);
      distinct = (refl, tt);
      inside = omega arith;
    };
    valid = omega arith;
    not_member = refl;
    distinct = (refl, tt);
    inside = omega arith;
    used = λ y i. ground arith;
    placed =
        λ y i. let p = family-IsPlaced y in record { blocked = p.blocked; unblocked = p.unblocked };
    others = omega arith;
    small = omega arith;
  };
  used = refl;
  placed = let p = family-IsPlaced 8 in record { blocked = p.blocked; unblocked = p.unblocked };
  hooked = inr (record {
    mine = refl;
    siblings = record {
      chain = (refl, refl, refl, refl);
      distinct = (refl, tt);
      inside = omega arith;
    };
    among = refl;
    valid = omega arith;
  });
  parent_apart = refl;
  siblings_apart = λ y i. ground arith;
}

exception_handler-IsDead_example :
    Exits
      (IsDead (family 6 52) 5 (8 ∷ []) of_eight (5 ∷ 6 ∷ []) waiting_on (9 ∷ 10 ∷ []))
      (exception_handler (family 6 52))
unfolding exception_code
exception_handler-IsDead_example =
    exception_handler-IsDead (family 6 52) 5 (8 ∷ []) of_eight (5 ∷ 6 ∷ []) waiting_on (9 ∷ 10 ∷ [])
      (eight-IsTree 52) (omega arith) (inr (omega arith))

exception_handler-call-IsDead_example :
    Exits
      (IsDead (called (family 6 32)) 5 (8 ∷ []) of_eight (5 ∷ 6 ∷ []) waiting_on (9 ∷ 10 ∷ []))
      (exception_handler (family 6 32))
unfolding exception_code
exception_handler-call-IsDead_example =
    exception_handler-call-IsDead (family 6 32) 5 (8 ∷ []) of_eight (5 ∷ 6 ∷ []) waiting_on
      (9 ∷ 10 ∷ []) (eight-IsTree 32) (omega arith)
      (inl (record { code = refl; number = refl; kernel_mode = refl }))

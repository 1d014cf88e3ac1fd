-- ===== src/Nucleus/Samples/Turns.antt =====
-- Four processes that nothing but the local timer interrupts.
use pandos_phase.Prelude.{◌+◌, ◌≡◌, refl, inr, List, [], ◌∷◌, ◌==◌, ltb, arith, if◌then◌else◌}
use pandos_phase.Types.{Ptr, null, maxint}
use pandos_phase.Pcb.{Pcbs}
use pandos_phase.Pcb.Free.{count_up, count_up-Distinct}
use pandos_phase.Asl.{Asl}
use pandos_phase.Asl.Invariant.{IsAsl}
use pandos_phase.Kernel.{Kernel}
use pandos_phase.Nucleus.{IsNucleus}
use pandos_phase.Nucleus.Create.{no_queues}
use pandos_phase.Pcb.Samples.{no_processor}
use pandos_phase.Pcb.Forest.{Forest, leaf, node}
use pandos_phase.Types
use pandos_phase.Nucleus.Sound.{IsSound}
use pandos_phase.Nucleus.Robin.{AfterSlices, AfterSlices-turn}
use pandos_phase.Nucleus.Samples.{kernel, pcbs}

-- The processes 5, 6 and 7 are ready, 8 runs, and the other blocks are free.
abbrev four_pcbs : Pcbs
four_pcbs = record pcbs {
  p_next = λ p. if p == 7 then 5 else if p == 4 then 9 else if p == 19 then null else p + 1;
  p_prev = λ p. if p == 5 then 7 else if p == 6 then 5 else if p == 7 then 6 else null;
  p_prnt = λ p. null;
  p_child = λ p. null;
  p_sem_add = λ p. null;
  pcb_free_h = 0;
}

abbrev idle_asl : Asl
idle_asl = record {
  pcbs = four_pcbs;
  s_next = λ d. if d == 0 then 21 else if ltb d 20 then d + 1 else null;
  s_sem_add = λ d. if d == 21 then maxint else 0;
  s_proc_q = λ d. null;
  semd_h = 0;
  semd_free_h = 1;
}

idle-IsAsl : IsAsl idle_asl no_queues
idle-IsAsl = record {
  ds = 21 ∷ [];
  fs = count_up 20 1;
  list = record {
    head = refl;
    active = (refl, refl);
    free = omega arith;
    distinct = (refl, (refl, count_up-Distinct 20 1));
    inside = omega arith;
    complete = refl;
    sorted = omega arith;
    dummy = refl;
    dummy_key = refl;
  };
  blocks = record {
    queue = λ d m n. absurd (ground arith);
    nobody = λ a n. refl;
    no_dummy = refl;
    apart = λ a b p n m. absurd (ground arith);
    knows = λ a p m. absurd (ground arith);
  };
  waiting = λ d m n. absurd (ground arith);
}

abbrev four : Kernel
four = record kernel {
  asl = idle_asl;
  process_count = 4;
  ready_queue = 7;
  device_semaphores = 0x20002000;
}

abbrev unused_blocks : List Ptr
unused_blocks = 0 ∷ 1 ∷ 2 ∷ 3 ∷ 4 ∷ count_up 11 9

four-IsNucleus : IsNucleus four (5 ∷ 6 ∷ 7 ∷ []) no_queues unused_blocks
four-IsNucleus = record {
  asl = idle-IsAsl;
  ready = record {
    tail = refl;
    links = (refl, refl, (refl, refl, (refl, refl, tt)));
    distinct = (refl, (refl, (refl, tt)));
    inside = omega arith;
  };
  free = record {
    path = omega arith;
    distinct = (refl, (refl, (refl, (refl, (refl, count_up-Distinct 11 9)))));
    inside = omega arith;
  };
  ready_blocked = λ p b m. refl;
  free_ready = λ p m. ground arith;
  free_blocked = λ p b m. refl;
}

four-IsSound : IsSound four (5 ∷ 6 ∷ 7 ∷ []) no_queues unused_blocks
four-IsSound = record {
  nucleus = four-IsNucleus;
  running =
      inr (record {
        valid = omega arith;
        not_ready = refl;
        not_blocked = λ b. refl;
        not_free = refl;
      });
  counted = λ a p xs e. absurd (cc e);
  in_ram = λ a p m. absurd (ground arith);
  accounted = λ y v f r n. absurd (ground (arith, v, f, r, n));
  count = refl;
  devices = omega arith;
  devices_end = omega arith;
}

AfterSlices-turn_example : AfterSlices 3 (λ k'. k'.current_process ≡ 7) four
AfterSlices-turn_example =
    AfterSlices-turn (5 ∷ 6 ∷ []) four 7 [] no_queues unused_blocks four-IsSound refl

-- The process 8, which has neither a parent nor children, makes the system call 2.
abbrev leaving : Kernel
leaving = record four {
  saved = record no_processor { s_cause = 32; s_reg = λ r. if r == Types.s_a0 then 2 else 0 };
}

-- No process has a parent or children.
abbrev orphans : Forest
orphans = node 5 leaf (node 6 leaf (node 7 leaf (node 8 leaf leaf)))

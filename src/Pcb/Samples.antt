-- ===== src/Pcb/Samples.antt =====
-- Runs of pcb.c on small tables.
use pandos_phase.Prelude.{◌≡◌, refl, [], ◌∷◌, ◌==◌, if◌then◌else◌, arith}
use pandos_phase.Types.{null, maxproc, Processor}
use pandos_phase.Run.{Returns}
use pandos_phase.Pcb.{
  Pcbs, insert_proc_q, out_proc_q, alloc_pcb, free_pcb, init_pcbs, out_child, insert_child,
}
use pandos_phase.Pcb.Chain.{IsQueue}
use pandos_phase.Pcb.Insert.{Inserted, insert_proc_q-append}
use pandos_phase.Pcb.Remove.{Removed, out_proc_q-erase}
use pandos_phase.Pcb.Free.{
  IsFree, Allocated, Freed, alloc_pcb-cons, free_pcb-cons, init_pcbs-IsFree, count_up,
}
use pandos_phase.Pcb.Siblings.{IsChildren}
use pandos_phase.Pcb.Detach.{Detached, out_child-erase}
use pandos_phase.Pcb.Tree.{Adopted, insert_child-cons}

abbrev pub no_processor : Processor
no_processor = record { s_entry_hi = 0; s_cause = 0; s_status = 0; s_pc = 0; s_reg = λ _. 0 }

-- A table in which every link is NULL.
abbrev pub blank : Pcbs
blank = record {
  p_next = λ _. null;
  p_prev = λ _. null;
  p_prnt = λ _. null;
  p_child = λ _. null;
  p_sib_right = λ _. null;
  p_sib_left = λ _. null;
  p_s = λ _. no_processor;
  p_time = λ _. 0;
  p_start_tod = λ _. 0;
  p_sem_add = λ _. null;
  p_support_struct = λ _. null;
  pcb_free_h = null;
}

-- The queue 4, 7, 2, and the free list 5, 9.
abbrev queued : Pcbs
queued = record blank {
  p_next = λ p.
      if p == 4 then 7 else if p == 7 then 2 else if p == 2 then 4 else if p == 5 then 9 else null;
  p_prev = λ p. if p == 4 then 2 else if p == 7 then 4 else if p == 2 then 7 else null;
  pcb_free_h = 5;
}

queued-IsQueue : IsQueue queued 2 (4 ∷ 7 ∷ 2 ∷ [])
queued-IsQueue = record {
  tail = refl;
  links = (refl, refl, (refl, refl, (refl, refl, tt)));
  distinct = (refl, (refl, (refl, tt)));
  inside = omega arith;
}

queued-IsFree : IsFree queued (5 ∷ 9 ∷ [])
queued-IsFree = record {
  path = (refl, (refl, refl));
  distinct = (refl, (refl, tt));
  inside = omega arith;
}

insert_proc_q-append_example :
    Returns (Inserted queued 3 (4 ∷ 7 ∷ 2 ∷ [])) (insert_proc_q 2 3 queued)
insert_proc_q-append_example =
    insert_proc_q-append queued 2 3 (4 ∷ 7 ∷ 2 ∷ []) queued-IsQueue (omega arith) refl

out_proc_q-erase_example :
    Returns (Removed queued 7 (4 ∷ 7 ∷ 2 ∷ []) (4 ∷ 2 ∷ [])) (out_proc_q 2 7 queued)
out_proc_q-erase_example = out_proc_q-erase queued 2 7 (4 ∷ 7 ∷ 2 ∷ []) queued-IsQueue refl

alloc_pcb-cons_example : Returns (Allocated queued 5 (9 ∷ [])) (alloc_pcb queued)
alloc_pcb-cons_example = alloc_pcb-cons queued 5 (9 ∷ []) queued-IsFree

free_pcb-cons_example : Returns (λ _ s'. Freed queued 3 (5 ∷ 9 ∷ []) s') (free_pcb 3 queued)
free_pcb-cons_example = free_pcb-cons queued 3 (5 ∷ 9 ∷ []) queued-IsFree (omega arith) refl

-- The children 8, 6, 3 of the block 1.
abbrev family : Pcbs
family = record blank {
  p_child = λ p. if p == 1 then 8 else null;
  p_prnt = λ p. if p == 8 then 1 else if p == 6 then 1 else if p == 3 then 1 else null;
  p_sib_right = λ p. if p == 8 then 6 else if p == 6 then 3 else null;
  p_sib_left = λ p. if p == 6 then 8 else if p == 3 then 6 else null;
}

family-IsChildren : IsChildren family 1 (8 ∷ 6 ∷ 3 ∷ [])
family-IsChildren = record {
  chain = (refl, refl, refl, (refl, refl, refl, (refl, refl, refl, refl)));
  distinct = (refl, (refl, (refl, tt)));
  inside = omega arith;
}

out_child-erase_example :
    Returns (Detached family 1 6 (8 ∷ 6 ∷ 3 ∷ []) (8 ∷ 3 ∷ [])) (out_child 6 family)
out_child-erase_example =
    out_child-erase family 1 6 (8 ∷ 6 ∷ 3 ∷ []) family-IsChildren (omega arith) refl

insert_child-cons_example :
    Returns (λ _ s'. Adopted family 1 4 (8 ∷ 6 ∷ 3 ∷ []) s') (insert_child 1 4 family)
insert_child-cons_example =
    insert_child-cons family 1 4 (8 ∷ 6 ∷ 3 ∷ []) family-IsChildren (omega arith) (omega arith) refl

init_pcbs-IsFree_example :
    Returns
      (λ _ s'.
        IsFree s' (count_up maxproc 0)
        × (s' ≡ record queued { p_next = s'.p_next; pcb_free_h = 0 }))
      (init_pcbs queued)
init_pcbs-IsFree_example = init_pcbs-IsFree queued

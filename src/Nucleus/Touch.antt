-- ===== src/Nucleus/Touch.antt =====
-- Changes of a block that is on no queue, and of what is no queue at all.
use pandos_phase.Prelude.{◌≡◌, sym, ap, subst, List, ◌==◌, false, ne_of_has}
use pandos_phase.Types.{Ptr}
use pandos_phase.Kernel.{Kernel}
use pandos_phase.Pcb.Chain.{IsQueue}
use pandos_phase.Asl.{Asl}
use pandos_phase.Asl.Invariant.{IsAsl}
use pandos_phase.Pcb.Free.{IsFree}
use pandos_phase.Nucleus.{IsNucleus, IsLoose}
use pandos_phase.Nucleus.Frame.{SameQueue, IsQueue-same, IsFree-same, IsAsl-same}

-- Only `p_semAdd` of a loose block is changed, of all that the queues depend on.
pub IsNucleus-touch :
    (k k' : Kernel) (p : Ptr) (rq : List Ptr) (q : Ptr → List Ptr) (fs : List Ptr)
    → IsNucleus k rq q fs
    → IsLoose p rq q fs
    → k'.asl ≡ record (k.asl) { pcbs = k'.asl.pcbs }
    → k'.ready_queue ≡ k.ready_queue
    → k'.asl.pcbs.p_next ≡ k.asl.pcbs.p_next
    → k'.asl.pcbs.p_prev ≡ k.asl.pcbs.p_prev
    → k'.asl.pcbs.pcb_free_h ≡ k.asl.pcbs.pcb_free_h
    → ((y : Ptr) → (y == p) ≡ false → k'.asl.pcbs.p_sem_add y ≡ k.asl.pcbs.p_sem_add y)
    → IsNucleus k' rq q fs
IsNucleus-touch k k' p rq q fs n o asl_eq ready_eq nx pv fh sem =
    let same : (y : Ptr) → (y == p) ≡ false → SameQueue k.asl.pcbs k'.asl.pcbs y =
      λ y d. record { next = ap (λ f. f y) nx; prev = ap (λ f. f y) pv; sem = sem y d } in
    record {
      asl =
          subst (λ s. IsAsl s q) (sym asl_eq)
            (IsAsl-same k.asl k'.asl.pcbs q
              (λ b y m. same y (ne_of_has p y (q b) (o.not_blocked b) m)) n.asl);
      ready =
          subst (λ tp. IsQueue k'.asl.pcbs tp rq) (sym ready_eq)
            (IsQueue-same k.asl.pcbs k'.asl.pcbs k.ready_queue rq
              (λ y m. same y (ne_of_has p y rq o.not_ready m)) n.ready);
      free = IsFree-same k.asl.pcbs k'.asl.pcbs fs (λ y m. ap (λ f. f y) nx) fh n.free;
      ready_blocked = n.ready_blocked;
      free_ready = n.free_ready;
      free_blocked = n.free_blocked;
    }

-- No queue is changed.
pub IsNucleus-keep :
    (k k' : Kernel) (rq : List Ptr) (q : Ptr → List Ptr) (fs : List Ptr)
    → k'.asl ≡ k.asl
    → k'.ready_queue ≡ k.ready_queue
    → IsNucleus k rq q fs
    → IsNucleus k' rq q fs
IsNucleus-keep k k' rq q fs a r n = record {
  asl = subst (λ s. IsAsl s q) (sym a) n.asl;
  ready =
      subst (λ (s : Asl). IsQueue s.pcbs k'.ready_queue rq) (sym a)
        (subst (λ tp. IsQueue k.asl.pcbs tp rq) (sym r) n.ready);
  free = subst (λ (s : Asl). IsFree s.pcbs fs) (sym a) n.free;
  ready_blocked = n.ready_blocked;
  free_ready = n.free_ready;
  free_blocked = n.free_blocked;
}

-- Only the tree links are changed.
pub IsNucleus-tree :
    (k k' : Kernel) (rq : List Ptr) (q : Ptr → List Ptr) (fs : List Ptr)
    → k'.asl ≡ record (k.asl) { pcbs = k'.asl.pcbs }
    → k'.ready_queue ≡ k.ready_queue
    → ((y : Ptr) → SameQueue k.asl.pcbs k'.asl.pcbs y)
    → k'.asl.pcbs.pcb_free_h ≡ k.asl.pcbs.pcb_free_h
    → IsNucleus k rq q fs
    → IsNucleus k' rq q fs
IsNucleus-tree k k' rq q fs asl_eq ready_eq same fh n = record {
  asl =
      subst (λ s. IsAsl s q) (sym asl_eq) (IsAsl-same k.asl k'.asl.pcbs q (λ b y m. same y) n.asl);
  ready =
      subst (λ tp. IsQueue k'.asl.pcbs tp rq) (sym ready_eq)
        (IsQueue-same k.asl.pcbs k'.asl.pcbs k.ready_queue rq (λ y m. same y) n.ready);
  free = IsFree-same k.asl.pcbs k'.asl.pcbs fs (λ y m. (same y).next) fh n.free;
  ready_blocked = n.ready_blocked;
  free_ready = n.free_ready;
  free_blocked = n.free_blocked;
}

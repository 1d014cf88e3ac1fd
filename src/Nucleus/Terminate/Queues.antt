-- ===== src/Nucleus/Terminate/Queues.antt =====
-- `sysTerminate` on one process: it leaves its semaphore and the ready queue.
use pandos_phase.Prelude.{
  ◌+◌, ◌%◌, ◌<◌, ◌≡◌, refl, ap, ◌∙◌, inl, inr, List, ◌∉◌, erase, arith, lt→ltb, Bool-cases,
  has-erase, erase_missing, Distinct-erase, has, is_empty,
}
use pandos_phase.Types.{Ptr, maxproc}
use pandos_phase.Words.{w32}
use pandos_phase.Run.{access, Returns, returns, Returns-bind, Returns-put_back, Returns-mono}
use pandos_phase.Pcb.{Pcbs, out_proc_q}
use pandos_phase.Pcb.Chain.{IsQueue, LinksOnly}
use pandos_phase.Pcb.Remove.{out_proc_q-erase, out_proc_q-missing}
use pandos_phase.Asl.Remove.{blocked-IsQueue}
use pandos_phase.Kernel.{Kernel}
use pandos_phase.Processes.{leave_queues}
use pandos_phase.Nucleus.{IsNucleus, IsLoose}
use pandos_phase.Nucleus.Frame.{LinksOnly-SameQueue, IsAsl-same, IsFree-same}
use pandos_phase.Nucleus.Terminate.Depart.{
  Balance, SameTree, Departed, IsPlaced, depart-Departed, soft_blocked, without,
}

-- The process `p` is on no queue any more.
pub record Unqueued (k : Kernel) (p : Ptr) (rq : List Ptr) (q : Ptr → List Ptr) (fs : List Ptr)
    (k' : Kernel) : Type 0 where
  pub state : IsNucleus k' (erase p rq) (without p q) fs
  pub tree : SameTree k.asl.pcbs k'.asl.pcbs
  pub fields : k' ≡ record k {
    asl = k'.asl;
    soft_block_count = k'.soft_block_count;
    ready_queue = k'.ready_queue;
    word = k'.word;
  }
  pub balance : Balance k.device_semaphores k.word q k'.word (without p q)
  pub soft :
      (k'.soft_block_count + soft_blocked k.device_semaphores k.asl.pcbs.p_sem_add p) % w32
      ≡ k.soft_block_count % w32

-- `outProcQ` on a queue, whether it holds the block or not.
out_proc_q_either :
    (s : Pcbs) (tp p : Ptr) (xs : List Ptr)
    → IsQueue s tp xs
    → Returns (λ r t. LinksOnly xs s t × IsQueue t r.1 (erase p xs)) (out_proc_q tp p s)
out_proc_q_either s tp p xs q = elim (Bool-cases (has p xs)) [
  | inl m ↦ Returns-mono (out_proc_q-erase s tp p xs q m) (λ r t w. (w.links, w.queue))
  | inr o ↦
      rw (out_proc_q-missing s tp p xs q o, erase_missing p xs o)
        (returns (record { fields = refl; next_same = λ y m. refl; prev_same = λ y m. refl }, q))
]

module _ (k : Kernel) (rq : List Ptr) (q : Ptr → List Ptr) (fs : List Ptr) (n : IsNucleus k rq q fs)
    (p : Ptr) where
  gone-blocked : (b : Ptr) → p ∉ without p q b
  gone-blocked b = elim (Bool-cases (is_empty (q b))) [
    | inl e ↦ ground (arith, e)
    | inr e ↦ (Distinct-erase p (q b) (blocked-IsQueue k.asl b q n.asl e).distinct).1
  ]

  pub unqueued-IsLoose : p < maxproc → p ∉ fs → IsLoose p (erase p rq) (without p q) fs
  unqueued-IsLoose v o = record {
    valid = v;
    not_ready = (Distinct-erase p rq n.ready.distinct).1;
    not_blocked = gone-blocked;
    not_free = o;
  }

-- The ready queue without `p`, which is blocked nowhere.
module _ (k : Kernel) (rq : List Ptr) (q : Ptr → List Ptr) (fs : List Ptr) (n : IsNucleus k rq q fs)
    (p tp : Ptr) (t : Pcbs) (l : LinksOnly rq k.asl.pcbs t)
    (queue : IsQueue t tp (erase p rq)) where
  unqueued-IsNucleus :
      IsNucleus (record k { asl = record (k.asl) { pcbs = t }; ready_queue = tp }) (erase p rq) q fs
  unqueued-IsNucleus = record {
    asl =
        IsAsl-same k.asl t q
          (λ b y m. LinksOnly-SameQueue k.asl.pcbs t rq y l (ground (arith, n.ready_blocked y b)))
          n.asl;
    ready = queue;
    free =
        IsFree-same k.asl.pcbs t fs (λ y m. l.next_same y (n.free_ready y m))
          (ap (λ (u : Pcbs). u.pcb_free_h) l.fields) n.free;
    ready_blocked = λ y b m. n.ready_blocked y b (has-erase y p rq m);
    free_ready = λ y m. ground (arith, n.free_ready y m, has-erase y p rq);
    free_blocked = n.free_blocked;
  }

LinksOnly-SameTree : (xs : List Ptr) (s t : Pcbs) → LinksOnly xs s t → SameTree s t
LinksOnly-SameTree xs s t l = record {
  prnt = ap (λ (u : Pcbs). u.p_prnt) l.fields;
  child = ap (λ (u : Pcbs). u.p_child) l.fields;
  left = ap (λ (u : Pcbs). u.p_sib_left) l.fields;
  right = ap (λ (u : Pcbs). u.p_sib_right) l.fields;
  sem = ap (λ (u : Pcbs). u.p_sem_add) l.fields;
}

pub SameTree-trans : {s t u : Pcbs} → SameTree s t → SameTree t u → SameTree s u
SameTree-trans a b = record {
  prnt = b.prnt ∙ a.prnt;
  child = b.child ∙ a.child;
  left = b.left ∙ a.left;
  right = b.right ∙ a.right;
  sem = b.sem ∙ a.sem;
}

module _ (k : Kernel) (rq : List Ptr) (q : Ptr → List Ptr) (fs : List Ptr) (n : IsNucleus k rq q fs)
    (p : Ptr) (valid : p < maxproc) (place : IsPlaced k.asl.pcbs q p) where
  Unqueued-at :
      (k1 : Kernel) (tp : Ptr) (t : Pcbs)
      → Departed k p rq q fs k1
      → LinksOnly rq k1.asl.pcbs t
      → IsQueue t tp (erase p rq)
      → Unqueued k p rq q fs (record k1 { asl = record (k1.asl) { pcbs = t }; ready_queue = tp })
  Unqueued-at k1 tp t d l e = record {
    state = unqueued-IsNucleus k1 rq (without p q) fs d.state p tp t l e;
    tree = SameTree-trans d.tree (LinksOnly-SameTree rq k1.asl.pcbs t l);
    fields =
        ap (λ (x : Kernel). record x { asl = record (k1.asl) { pcbs = t }; ready_queue = tp })
          d.fields;
    balance = d.balance;
    soft = d.soft;
  }

  -- A process leaves the queue that it is on, if it is on one.
  pub leave_queues-Unqueued : Returns (λ _. Unqueued k p rq q fs) (leave_queues p k)
  unfolding leave_queues access
  leave_queues-Unqueued = rw (lt→ltb _ _ valid) (
      Returns-bind (depart-Departed k rq q fs n p place) (λ u k1 d.
        Returns-put_back _ _ (out_proc_q_either k1.asl.pcbs k1.ready_queue p rq d.state.ready)
          (λ r t w. returns (Unqueued-at k1 r.1 t d w.0 w.1))))

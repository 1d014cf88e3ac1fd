-- ===== src/Nucleus/Frame.antt =====
-- Changes of blocks that a queue or a free list does not hold.
use pandos_phase.Prelude.{◌≡◌, ap, ◌∙◌, List, ◌==◌, false, ◌∈◌, ◌∉◌}
use pandos_phase.Types.{Ptr, null}
use pandos_phase.Links.{LeadsTo-frame}
use pandos_phase.Pcb.{Pcbs}
use pandos_phase.Pcb.Chain.{IsQueue, Chain-frame, LinksOnly, front-inside}
use pandos_phase.Pcb.Free.{IsFree}
use pandos_phase.Asl.{Asl}
use pandos_phase.Asl.Enqueue.{QueueOnly}
use pandos_phase.Asl.Invariant.{IsAsl}

-- The block at `y` says the same of its queue in both states.
pub record SameQueue (s t : Pcbs) (y : Ptr) : Type 0 where
  pub next : t.p_next y ≡ s.p_next y
  pub prev : t.p_prev y ≡ s.p_prev y
  pub sem : t.p_sem_add y ≡ s.p_sem_add y

pub LinksOnly-SameQueue :
    (s t : Pcbs) (xs : List Ptr) (y : Ptr) → LinksOnly xs s t → y ∉ xs → SameQueue s t y
LinksOnly-SameQueue s t xs y l o = record {
  next = l.next_same y o;
  prev = l.prev_same y o;
  sem = ap (λ (u : Pcbs). u.p_sem_add y) l.fields;
}

pub QueueOnly-SameQueue :
    (s t : Pcbs) (xs : List Ptr) (p y : Ptr)
    → QueueOnly xs p s t
    → y ∉ xs
    → (y == p) ≡ false
    → SameQueue s t y
QueueOnly-SameQueue s t xs p y l o n = record {
  next = l.next_same y o;
  prev = l.prev_same y o;
  sem = l.sem_same y n;
}

pub IsQueue-same :
    (s t : Pcbs) (tp : Ptr) (ys : List Ptr)
    → ((y : Ptr) → y ∈ ys → SameQueue s t y)
    → IsQueue s tp ys
    → IsQueue t tp ys
IsQueue-same s t tp ys same q = record {
  tail = q.tail;
  links =
      Chain-frame s.p_next s.p_prev t.p_next t.p_prev tp ys q.links
        (λ y i. (same y (front-inside s tp y ys q i)).next) (λ y i. (same y i).prev);
  distinct = q.distinct;
  inside = q.inside;
}

pub IsFree-same :
    (s t : Pcbs) (xs : List Ptr)
    → ((y : Ptr) → y ∈ xs → t.p_next y ≡ s.p_next y)
    → t.pcb_free_h ≡ s.pcb_free_h
    → IsFree s xs
    → IsFree t xs
IsFree-same s t xs same h f = record {
  path = rw h (LeadsTo-frame null s.p_next t.p_next s.pcb_free_h xs f.path same);
  distinct = f.distinct;
  inside = f.inside;
}

pub IsAsl-same :
    (s : Asl) (t : Pcbs) (q : Ptr → List Ptr)
    → ((b y : Ptr) → y ∈ q b → SameQueue s.pcbs t y)
    → IsAsl s q
    → IsAsl (record s { pcbs = t }) q
IsAsl-same s t q same i = record {
  ds = i.ds;
  fs = i.fs;
  list =
      let l = i.list in
      record {
        head = l.head;
        active = l.active;
        free = l.free;
        distinct = l.distinct;
        inside = l.inside;
        complete = l.complete;
        sorted = l.sorted;
        dummy = l.dummy;
        dummy_key = l.dummy_key;
      };
  blocks = record {
    queue = λ d m n.
        IsQueue-same s.pcbs t (s.s_proc_q d) (q (s.s_sem_add d)) (same (s.s_sem_add d))
          (i.blocks.queue d m n);
    nobody = i.blocks.nobody;
    no_dummy = i.blocks.no_dummy;
    apart = i.blocks.apart;
    knows = λ a p m. (same a p m).sem ∙ i.blocks.knows a p m;
  };
  waiting = i.waiting;
}

-- ===== src/Nucleus/Ready.antt =====
-- The ready queue: the end of it, and the choice of the scheduler.
use pandos_phase.Prelude.{
  ◌≡◌, refl, sym, ap, ◌∙◌, List, [], ◌∷◌, ◌++◌, has-append, arith, ne_of_has,
}
use pandos_phase.Types.{Ptr}
use pandos_phase.Run.{Returns, returns, Returns-put_back}
use pandos_phase.Pcb.{Pcbs}
use pandos_phase.Pcb.Insert.{Inserted, insert_proc_q-append}
use pandos_phase.Kernel.{Kernel, insert_ready}
use pandos_phase.Nucleus.{IsNucleus, IsLoose, OnlyQueues}
use pandos_phase.Nucleus.Frame.{LinksOnly-SameQueue, IsAsl-same, IsFree-same}

-- What `insertProcQ(&readyQueue, p)` does.
pub record Readied (k : Kernel) (p : Ptr) (rq : List Ptr) (q : Ptr → List Ptr) (fs : List Ptr)
    (k' : Kernel) : Type 0 where
  pub state : IsNucleus k' (rq ++ p ∷ []) q fs
  pub only : OnlyQueues k k'
  pub word_same : k'.word ≡ k.word
  pub marks_same : k'.asl.pcbs.p_sem_add ≡ k.asl.pcbs.p_sem_add

module _ (k : Kernel) (p : Ptr) (rq : List Ptr) (q : Ptr → List Ptr) (fs : List Ptr)
    (n : IsNucleus k rq q fs) (o : IsLoose p rq q fs) where
  readied-IsNucleus :
      (tp : Ptr) (t : Pcbs)
      → Inserted k.asl.pcbs p rq tp t
      → IsNucleus
          (record k { asl = record (k.asl) { pcbs = t }; ready_queue = tp })
          (rq ++ p ∷ [])
          q
          fs
  readied-IsNucleus tp t ins = record {
    asl =
        IsAsl-same k.asl t q
          (λ b y m.
            LinksOnly-SameQueue k.asl.pcbs t (p ∷ rq) y ins.1
              (ground (arith, n.ready_blocked y b, ne_of_has p y (q b) (o.not_blocked b) m)))
          n.asl;
    ready = ins.0;
    free =
        IsFree-same k.asl.pcbs t fs
          (λ y m.
            ins.1.next_same y (ground (arith, n.free_ready y m, ne_of_has p y fs o.not_free m)))
          (ap (λ (u : Pcbs). u.pcb_free_h) ins.1.fields) n.free;
    ready_blocked =
        λ y b m. ground (arith, has-append y rq (p ∷ []), n.ready_blocked y b, o.not_blocked b);
    free_ready = λ y m.
        ground (arith, has-append y rq (p ∷ []), n.free_ready y m, ne_of_has p y fs o.not_free m);
    free_blocked = n.free_blocked;
  }

  -- A loose process becomes the last of the ready ones.
  pub insert_ready-IsNucleus : Returns (λ _. Readied k p rq q fs) (insert_ready p k)
  unfolding insert_ready
  insert_ready-IsNucleus =
      Returns-put_back _ _
        (insert_proc_q-append k.asl.pcbs k.ready_queue p rq n.ready o.valid o.not_ready)
        (λ tp t ins. returns (record {
          state = readied-IsNucleus tp t ins;
          only = record {
            fields = refl;
            pcbs =
                ins.1.fields
                ∙ ap
                    (λ m. record (k.asl.pcbs) {
                      p_next = t.p_next;
                      p_prev = t.p_prev;
                      p_sem_add = m;
                    })
                    (sym (ap (λ (u : Pcbs). u.p_sem_add) ins.1.fields));
          };
          word_same = refl;
          marks_same = ap (λ (u : Pcbs). u.p_sem_add) ins.1.fields;
        }))

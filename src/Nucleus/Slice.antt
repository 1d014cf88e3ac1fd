-- ===== src/Nucleus/Slice.antt =====
-- The local timer: the end of a time slice.
use pandos_phase.Prelude.{
  is_empty, ◌≡◌, refl, sym, ap, ◌∙◌, List, [], ◌∷◌, ◌++◌, ◌==◌, false, arith, ne→==, lt→ltb,
  ==_refl, update,
}
use pandos_phase.Types
use pandos_phase.Types.{Ptr, null, maxproc}
use pandos_phase.Run.{Exit, ldst, access, Exits, Exits-after, Exits-mono}
use pandos_phase.Pcb.{Pcbs}
use pandos_phase.Pcb.Fifo.{head_or_null}
use pandos_phase.Kernel.{Kernel}
use pandos_phase.Interrupts.{handle_plt_interrupt}
use pandos_phase.Nucleus.{IsNucleus, IsLoose, Steady, Steady-trans, families}
use pandos_phase.Nucleus.Touch.{IsNucleus-touch}
use pandos_phase.Nucleus.Ready.{insert_ready-IsNucleus}
use pandos_phase.Nucleus.Passeren.{timed, update_cpu_time_run}
use pandos_phase.Nucleus.Dispatch.{scheduler-Scheduled, resumes, tail_of}

-- The process `c` has its state saved and its CPU time brought up to date.
abbrev preempted : Kernel → Ptr → Kernel
preempted k c =
    let s = k.asl.pcbs in
    timed
      (record k {
        timer = 5000;
        asl = record (k.asl) { pcbs = record s { p_s = update s.p_s c k.saved } };
      })
      c

-- What the interrupt of the local timer comes to while the process `c` runs.
pub record Preempted (k : Kernel) (c : Ptr) (rq : List Ptr) (q : Ptr → List Ptr) (fs : List Ptr)
    (e : Exit) (k' : Kernel) : Type 0 where
  pub state : IsNucleus k' (tail_of (rq ++ c ∷ [])) q fs
  pub runs : k'.current_process ≡ head_or_null (rq ++ c ∷ [])
  pub out : e ≡ ldst (k'.asl.pcbs.p_s (head_or_null (rq ++ c ∷ [])))
  pub kept : k'.asl.pcbs.p_s c ≡ k.saved
  pub slice : k'.timer ≡ 5000
  pub word_same : k'.word ≡ k.word
  pub marks_same : k'.asl.pcbs.p_sem_add ≡ k.asl.pcbs.p_sem_add
  pub steady : Steady k k'

pub resumes-first :
    (k k' : Kernel) (ys zs : List Ptr) (c : Ptr)
    → k'.asl.pcbs.p_s ≡ k.asl.pcbs.p_s
    → resumes k (ys ++ c ∷ zs) ≡ ldst (k'.asl.pcbs.p_s (head_or_null (ys ++ c ∷ zs)))
resumes-first k k' [] zs c e = ap (λ f. ldst (f c)) (sym e)
resumes-first k k' (y ∷ ys) zs c e = ap (λ f. ldst (f y)) (sym e)

not-empty-append : (ys : List Ptr) (c : Ptr) → is_empty (ys ++ c ∷ []) ≡ false
not-empty-append [] c = refl
not-empty-append (y ∷ ys) c = refl

module _ (k : Kernel) (rq : List Ptr) (q : Ptr → List Ptr) (fs : List Ptr) (n : IsNucleus k rq q fs)
    (o : IsLoose (k.current_process) rq q fs)
    (scale : (k.word Types.timescale_addr == 0) ≡ false) where
  preempted-IsNucleus : IsNucleus (preempted k (k.current_process)) rq q fs
  preempted-IsNucleus =
      IsNucleus-touch k (preempted k (k.current_process)) (k.current_process) rq q fs n o refl refl
        refl refl refl (λ y d. refl)

  -- At the end of a time slice the running process becomes the last ready one, with its state
  -- saved, and the process that is ready for the longest time runs next: round robin. The queues
  -- of the nucleus are well formed, the running process is on none of them, and the time scale is
  -- not zero.
  pub handle_plt_interrupt-Preempted :
      Exits (Preempted k (k.current_process) rq q fs) (handle_plt_interrupt k)
  unfolding handle_plt_interrupt access
  handle_plt_interrupt-Preempted =
      let c = k.current_process in
      let s = k.asl.pcbs in
      rw
        (
          ne→== (k.current_process) null (omega (arith, o.valid)),
          lt→ltb _ _ o.valid,
          update_cpu_time_run
              (record k {
                timer = 5000;
                asl = record (k.asl) { pcbs = record s { p_s = update s.p_s c k.saved } };
              })
              c refl o.valid scale,
        )
        (Exits-after _ (insert_ready-IsNucleus (preempted k c) c rq q fs preempted-IsNucleus o)
          (λ u k1 r. Exits-mono (scheduler-Scheduled k1 (rq ++ c ∷ []) q fs r.state) (λ e k' w.
            record {
              state = w.state;
              runs = w.runs;
              out = w.out ∙ resumes-first k1 k' rq [] c w.state_same;
              kept =
                  ap (λ f. f c) w.state_same
                  ∙ (ap (λ (x : Pcbs). x.p_s c) r.only.pcbs ∙ rw (==_refl c) refl);
              slice = w.slice (not-empty-append rq c);
              word_same = w.word_same ∙ r.word_same;
              marks_same = w.marks_same ∙ r.marks_same;
              steady =
                  Steady-trans
                    (record {
                      count = ap (λ (x : Kernel). x.process_count) r.only.fields;
                      devices = ap (λ (x : Kernel). x.device_semaphores) r.only.fields;
                      family = ap families r.only.pcbs;
                    })
                    w.steady;
            })))

-- ===== src/Nucleus/Childless.antt =====
-- `sysTerminate` on a process without children that runs.
use pandos_phase.Prelude.{
  ◌^◌, ◌<◌, ◌≡◌, refl, ap, subst, ◌∙◌, inr, List, [], ◌∷◌, ◌==◌, ◌∈◌, false, arith, ==_refl, ne→==,
  erase, erase_missing, Bool-cases, inl, ==→eq,
}
use mathlib.Core.Path.{fun_ext}
use pandos_phase.Types.{Ptr, null, maxproc}
use pandos_phase.Words.{sub32}
use pandos_phase.Run.{Returns, Returns-mono}
use pandos_phase.Pcb.Siblings.{IsChildren}
use pandos_phase.Pcb.Forest.{leaf}
use pandos_phase.Kernel.{Kernel}
use pandos_phase.Processes.{sys_terminate}
use pandos_phase.Nucleus.{IsNucleus, IsLoose}
use pandos_phase.Nucleus.Terminate.{IsTree, sys_terminate-IsTerminated}

-- What the end of the running process `p`, a child of `parent`, comes to.
pub record Ended (k : Kernel) (p : Ptr) (rq : List Ptr) (q : Ptr → List Ptr) (fs : List Ptr)
    (k' : Kernel) : Type 0 where
  pub state : IsNucleus k' rq q (p ∷ fs)
  pub nobody_runs : k'.current_process ≡ null
  pub count : k'.process_count ≡ sub32 k.process_count 1
  pub word_same : k'.word ≡ k.word

module _ (k : Kernel) (parent : Ptr) (rq : List Ptr) (q : Ptr → List Ptr) (fs xs : List Ptr)
    (n : IsNucleus k rq q fs) (o : IsLoose k.current_process rq q fs)
    (childless : IsChildren k.asl.pcbs k.current_process []) (h : IsChildren k.asl.pcbs parent xs)
    (hp : parent < maxproc) (child : k.current_process ∈ xs)
    (mine : k.asl.pcbs.p_prnt k.current_process ≡ parent)
    (unblocked : k.asl.pcbs.p_sem_add k.current_process ≡ null) (several : 1 < k.process_count)
    (small : k.process_count < 2 ^ 31) where
  not-null :
      (ys : List Ptr)
      → IsChildren k.asl.pcbs parent ys
      → k.current_process ∈ ys
      → (k.asl.pcbs.p_child parent == null) ≡ false
  not-null [] g i = absurd (ground arith)
  not-null (y ∷ ys) g i = rw (g.chain.0) (ne→== y null (omega (arith, g.inside.0)))

  -- The parent of a process is not the process itself, which has no children.
  parent-ne : (parent == k.current_process) ≡ false
  parent-ne = elim (Bool-cases (parent == k.current_process)) [
    | inl e ↦
        let c : k.asl.pcbs.p_child parent ≡ null =
          ap k.asl.pcbs.p_child (==→eq parent k.current_process e) ∙ childless.chain in
        absurd (ground (arith, not-null xs h child, c))
    | inr e ↦ e
  ]

  tree : IsTree k k.current_process parent xs leaf rq q fs
  tree = record {
    progeny = record {
      nucleus = n;
      forest = tt;
      children = childless;
      valid = o.valid;
      not_member = refl;
      distinct = tt;
      inside = tt;
      used = λ y i. absurd (ground arith);
      placed = λ y i. absurd (ground arith);
      others = omega (arith, several);
      small = small;
    };
    used = o.not_free;
    placed = record {
      blocked = λ e. absurd (ground (arith, unblocked));
      unblocked = λ e b. o.not_blocked b;
    };
    hooked = inr (record { mine = mine; siblings = h; among = child; valid = hp });
    parent_apart = ground (arith, parent-ne);
    siblings_apart = λ y i. refl;
  }

  same_blocked : (λ b. erase k.current_process (q b)) ≡ q
  same_blocked = fun_ext λ b. erase_missing k.current_process (q b) (o.not_blocked b)

  -- SYS2 of a process without children, which is on no queue, while there are others: the process
  -- is taken from its parent's children, its block is the first free one, no process runs, one
  -- process less is counted, and every queue is as it was. The queues of the nucleus are well
  -- formed.
  pub sys_terminate-Ended :
      Returns (λ _. Ended k k.current_process rq q fs) (sys_terminate k.current_process k)
  sys_terminate-Ended =
      Returns-mono
        (sys_terminate-IsTerminated k k.current_process parent xs leaf rq q fs tree several)
        (λ u k' w. record {
          state =
              subst (λ l. IsNucleus k' l q (k.current_process ∷ fs))
                (erase_missing k.current_process rq o.not_ready)
                (subst (λ g. IsNucleus k' (erase k.current_process rq) g (k.current_process ∷ fs))
                  same_blocked w.0.state);
          nobody_runs = w.0.runs ∙ rw (==_refl k.current_process) refl;
          count = omega (arith, w.1, several, small);
          word_same = fun_ext λ b.
              w.0.balance.same b
                (rw (erase_missing k.current_process (q b) (o.not_blocked b)) (omega arith));
        })

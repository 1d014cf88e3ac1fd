-- ===== src/Nucleus/Terminate.antt =====
-- `sysTerminate` on a process with all of its progeny.
pub mod Depart
pub mod Queues
pub mod Unhook
pub mod Bury
pub mod Subtree
pub mod Clear
use pandos_phase.Prelude.{
  ℕ, suc, ◌+◌, ◌-◌, ◌*◌, ◌^◌, ◌%◌, ◌<◌, ◌≤◌, ◌≡◌, refl, sym, ap, subst, ◌∙◌, inl, inr, List, [],
  ◌∷◌, ◌++◌, ◌==◌, ◌||◌, ◌∈◌, ◌∉◌, false, erase, has, length, if◌then◌else◌, arith, ne→==,
  ne_of_has, ==_refl, has-append, Distinct-length,
}
use pandos_phase.Types.{Ptr, null, maxproc}
use pandos_phase.Words.{w32}
use pandos_phase.Run.{
  ◌>>◌, ◌>>=◌, Exit, halt, Exits, Exits-after, Exits-mono, Returns, Returns-bind, Returns-mono,
}
use pandos_phase.Pcb.Siblings.{IsChildren, IsChildren-frame, SameLinks}
use pandos_phase.Pcb.Forest.{
  Forest, leaf, node, members, size, survivors, buried, length-members, not-mem-buried,
}
use pandos_phase.Kernel.{Kernel}
use pandos_phase.Processes.{terminate_fuel, sys_terminate, terminate, terminate_children, bury}
use pandos_phase.Nucleus.{IsNucleus}
use Depart.{Balance, IsPlaced, soft_blocked}
use Unhook.{IsHooked, HasParent}
use Bury.{SameRest, SameRest-trans, Buried, bury-Buried, bury-halt}
use Subtree.{IsDoomed, IsCleared, IsPlaced-survivor, SameLinks-trans, soft_members}
use Clear.{Balance-trans, Balance-rebase, terminate_children-IsCleared, stays}

-- The process `p` with its progeny `f`; if it has a parent, it is one of the children `xs` of it.
-- Neither the parent nor the siblings are of the progeny.
pub record IsTree (k : Kernel) (p parent : Ptr) (xs : List Ptr) (f : Forest) (rq : List Ptr)
    (q : Ptr → List Ptr) (fs : List Ptr) : Type 0 where
  pub progeny : IsDoomed k p f rq q fs
  pub used : p ∉ fs
  pub placed : IsPlaced k.asl.pcbs q p
  pub hooked : IsHooked k.asl.pcbs p parent xs
  pub parent_apart : parent ∉ p ∷ members f
  pub siblings_apart : (y : Ptr) → y ∈ xs → y ∉ members f

-- Nothing of `p` and its progeny `f` is left.
pub record IsTerminated (k : Kernel) (p parent : Ptr) (xs : List Ptr) (f : Forest) (rq : List Ptr)
    (q : Ptr → List Ptr) (fs : List Ptr) (k' : Kernel) : Type 0 where
  pub state :
      IsNucleus k'
        (survivors (node p f leaf) rq)
        (λ b. survivors (node p f leaf) (q b))
        (buried (node p f leaf) fs)
  pub siblings : p ∈ xs → IsChildren k'.asl.pcbs parent (erase p xs)
  pub links : (y : Ptr) → y ∉ xs → y ∉ p ∷ members f → SameLinks k.asl.pcbs k'.asl.pcbs y
  pub child : (y : Ptr) → y ∉ parent ∷ p ∷ members f → k'.asl.pcbs.p_child y ≡ k.asl.pcbs.p_child y
  pub sem : k'.asl.pcbs.p_sem_add ≡ k.asl.pcbs.p_sem_add
  pub rest : SameRest k k'
  pub runs :
      k'.current_process
      ≡ (if has k.current_process (p ∷ members f) then null else k.current_process)
  pub balance : Balance k.device_semaphores k.word q k'.word (λ b. survivors (node p f leaf) (q b))
  pub soft :
      (k'.soft_block_count + soft_members k.device_semaphores k.asl.pcbs.p_sem_add (node p f leaf))
        % w32
      ≡ k.soft_block_count % w32

module _ (k : Kernel) (p parent : Ptr) (xs : List Ptr) (f : Forest) (rq : List Ptr)
    (q : Ptr → List Ptr) (fs : List Ptr) (h : IsTree k p parent xs f rq q fs) where
  -- The process and its progeny are at most MAXPROC.
  size_bound : size f < maxproc
  size_bound = omega (
    arith,
    length-members f,
    Distinct-length maxproc (p ∷ members f) (h.progeny.not_member, h.progeny.distinct)
        (h.progeny.valid, h.progeny.inside),
  )

  progeny_run : Returns (λ _. IsCleared k p f rq q fs) (terminate_children (2 * maxproc) p k)
  progeny_run =
      terminate_children-IsCleared f (2 * maxproc) k p rq q fs h.progeny (omega (arith, size_bound))

  -- The process once its progeny is gone.
  module _ (k2 : Kernel) (w : IsCleared k p f rq q fs k2) where
    still-IsPlaced : IsPlaced k2.asl.pcbs (λ b. survivors f (q b)) p
    still-IsPlaced =
        IsPlaced-survivor k.asl.pcbs k2.asl.pcbs q f p w.sem h.progeny.not_member h.placed

    still-IsHooked : IsHooked k2.asl.pcbs p parent xs
    still-IsHooked =
        let links = λ (y : Ptr) (i : y ∈ xs). w.links y (h.siblings_apart y i) in
        let same = w.links p h.progeny.not_member in
        elim h.hooked [
          | inl (e, none) ↦ inl (same.prnt ∙ e, none)
          | inr g ↦ inr (record {
            mine = same.prnt ∙ g.mine;
            siblings =
                IsChildren-frame k.asl.pcbs k2.asl.pcbs parent xs g.siblings
                  (w.child parent (ground (arith, h.parent_apart)) (ground (arith, h.parent_apart)))
                  links;
            among = g.among;
            valid = g.valid;
          })
        ]

    still_used : p ∉ buried f fs
    still_used = not-mem-buried p f fs h.progeny.not_member h.used

    terminated :
        (k3 : Kernel)
        → Buried k2 p parent xs (survivors f rq) (λ b. survivors f (q b)) (buried f fs) k3
        → IsTerminated k p parent xs f rq q fs k3
    terminated k3 b = record {
      state = b.state;
      siblings = b.tree.children;
      links = λ y o o'. SameLinks-trans y (w.links y (ground (arith, o'))) (b.tree.links y o);
      child = λ y o.
          b.tree.child y (ground (arith, o)) ∙ w.child y (ground (arith, o)) (ground (arith, o));
      sem = b.tree.sem ∙ w.sem;
      rest = SameRest-trans w.rest b.rest;
      runs = ground (
        arith,
        stays (λ v. has v (members f)) (λ v. p == v) (λ v. false) k.current_process
            k2.current_process k3.current_process k3.current_process w.runs b.runs refl,
      );
      balance = Balance-trans w.balance (Balance-rebase w.rest.device_semaphores b.balance);
      soft = omega (
        arith,
        w.soft,
        b.soft,
        ap (λ v. soft_blocked v k2.asl.pcbs.p_sem_add p) w.rest.device_semaphores,
        ap (λ v. soft_blocked k.device_semaphores v p) w.sem,
      );
    }

  terminate_run : (n : ℕ) → terminate (suc n) p k ≡ (terminate_children n p >> bury p) k
  unfolding terminate
  terminate_run n = rw (ne→== p null (omega (arith, h.progeny.valid))) refl

  -- `sysTerminate` returns while there are other processes than `p` and its progeny: none of these is
  -- ready, blocked or runs any more, their blocks are free, and no other process is concerned. `p` is
  -- no child of its parent any more. The sum of the value of a semaphore and the number of its blocked
  -- processes is the same modulo 2 ^ 32, but for device semaphores, which keep their value; those
  -- that waited for a device are not counted as soft-blocked, and none of them as a process. The fuel
  -- is enough. The queues of the nucleus are well formed; `p` and its progeny, of which every one is
  -- on the queue that its block says and none is free, are a tree apart from the parent of `p` and
  -- its other children.
  pub sys_terminate-IsTerminated :
      suc (size f) < k.process_count
      → Returns
          (λ _ k'.
            IsTerminated k p parent xs f rq q fs k'
            × (k'.process_count + suc (size f) ≡ k.process_count))
          (sys_terminate p k)
  unfolding sys_terminate
  sys_terminate-IsTerminated others = subst (Returns _) (sym (terminate_run (2 * maxproc))) (
      Returns-bind progeny_run (λ u k2 w.
        Returns-mono
          (bury-Buried k2 p parent xs (survivors f rq) (λ b. survivors f (q b)) (buried f fs)
            w.state h.progeny.valid (still_used k2 w) (still-IsPlaced k2 w) (still-IsHooked k2 w)
            (omega (arith, others, w.count)) (omega (arith, w.count, h.progeny.small)))
          (λ u k3 b. (terminated k2 w k3 b.0, omega (arith, b.1, w.count)))))

  -- If `p` and its progeny are all the processes that there are, `sysTerminate` terminates them in
  -- the same way, and the machine halts with no process left. The conditions are the same.
  pub sys_terminate-halt :
      suc (size f) ≡ k.process_count
      → Exits
          (λ e k'. (e ≡ halt) × IsTerminated k p parent xs f rq q fs k' × (k'.process_count ≡ 0))
          (sys_terminate p k)
  unfolding sys_terminate
  sys_terminate-halt all = subst (Exits _) (sym (terminate_run (2 * maxproc))) (
      Exits-after _ progeny_run (λ u k2 w.
        Exits-mono
          (bury-halt k2 p parent xs (survivors f rq) (λ b. survivors f (q b)) (buried f fs) w.state
            h.progeny.valid (still_used k2 w) (still-IsPlaced k2 w) (still-IsHooked k2 w)
            (omega (arith, all, w.count)))
          (λ e k3 b. (b.0, terminated k2 w k3 b.1, b.2))))

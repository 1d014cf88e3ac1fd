-- ===== src/Nucleus/Terminate/Bury.antt =====
-- `sysTerminate` behind the loop over the children, as a whole.
use pandos_phase.Prelude.{
  ℕ, suc, ◌+◌, ◌^◌, ◌%◌, ◌<◌, ◌≡◌, refl, ap, ◌∙◌, subst, sym, inl, inr, List, ◌∷◌, ◌∉◌, erase,
  arith, if◌then◌else◌, ◌==◌, false,
}
use pandos_phase.Types.{Ptr, null, maxproc}
use pandos_phase.Words.{w32, is_le_zero, sub32}
use pandos_phase.Run.{halt, Returns, returns, Returns-bind, Exits, exits, Exits-after}
use pandos_phase.Pcb.Siblings.{IsChildren-frame, SameLinks}
use pandos_phase.Kernel.{Kernel}
use pandos_phase.Processes.{bury, count_out}
use pandos_phase.Nucleus.{IsNucleus}
use pandos_phase.Nucleus.Touch.{IsNucleus-keep}
use pandos_phase.Nucleus.Terminate.Depart.{Balance, SameTree, IsPlaced, soft_blocked, without}
use pandos_phase.Nucleus.Terminate.Queues.{Unqueued, leave_queues-Unqueued, unqueued-IsLoose}
use pandos_phase.Nucleus.Terminate.Unhook.{IsHooked, Unhooked, Left, leave_tree-Left}

-- What `sysTerminate` has no business with.
pub record SameRest (k k' : Kernel) : Type 0 where
  pub device_semaphores : k'.device_semaphores ≡ k.device_semaphores
  pub state_at : k'.state_at ≡ k.state_at
  pub support_at : k'.support_at ≡ k.support_at
  pub saved : k'.saved ≡ k.saved
  pub pass_up : k'.pass_up ≡ k.pass_up
  pub timer : k'.timer ≡ k.timer
  pub status : k'.status ≡ k.status

pub SameRest-trans : {k l m : Kernel} → SameRest k l → SameRest l m → SameRest k m
SameRest-trans a b = record {
  device_semaphores = b.device_semaphores ∙ a.device_semaphores;
  state_at = b.state_at ∙ a.state_at;
  support_at = b.support_at ∙ a.support_at;
  saved = b.saved ∙ a.saved;
  pass_up = b.pass_up ∙ a.pass_up;
  timer = b.timer ∙ a.timer;
  status = b.status ∙ a.status;
}

-- The process `p` is gone from all of the nucleus.
pub record Buried (k : Kernel) (p parent : Ptr) (xs rq : List Ptr) (q : Ptr → List Ptr)
    (fs : List Ptr) (k' : Kernel) : Type 0 where
  pub state : IsNucleus k' (erase p rq) (without p q) (p ∷ fs)
  pub tree : Unhooked k.asl.pcbs p parent xs k'.asl.pcbs
  pub rest : SameRest k k'
  pub runs : k'.current_process ≡ (if p == k.current_process then null else k.current_process)
  pub balance : Balance k.device_semaphores k.word q k'.word (without p q)
  pub soft :
      (k'.soft_block_count + soft_blocked k.device_semaphores k.asl.pcbs.p_sem_add p) % w32
      ≡ k.soft_block_count % w32

-- The links of the tree, seen from a state with the same tree.
module _ (k k1 : Kernel) (p parent : Ptr) (xs : List Ptr)
    (t : SameTree k.asl.pcbs k1.asl.pcbs) where
  links_same : (y : Ptr) → SameLinks k.asl.pcbs k1.asl.pcbs y
  links_same y = record {
    left = ap (λ f. f y) t.left;
    right = ap (λ f. f y) t.right;
    prnt = ap (λ f. f y) t.prnt;
  }

  IsHooked-same : IsHooked k.asl.pcbs p parent xs → IsHooked k1.asl.pcbs p parent xs
  IsHooked-same (inl (e, none)) = inl (ap (λ f. f p) t.prnt ∙ e, none)
  IsHooked-same (inr h) = inr (record {
    mine = ap (λ f. f p) t.prnt ∙ h.mine;
    siblings =
        IsChildren-frame k.asl.pcbs k1.asl.pcbs parent xs h.siblings (ap (λ f. f parent) t.child)
          (λ y m. links_same y);
    among = h.among;
    valid = h.valid;
  })

  Unhooked-same :
      (k2 : Kernel)
      → Unhooked k1.asl.pcbs p parent xs k2.asl.pcbs
      → Unhooked k.asl.pcbs p parent xs k2.asl.pcbs
  Unhooked-same k2 u = record {
    children = u.children;
    links = λ y m.
        let a = u.links y m in
        let b = links_same y in
        record { left = a.left ∙ b.left; right = a.right ∙ b.right; prnt = a.prnt ∙ b.prnt };
    child = λ y m. u.child y m ∙ ap (λ f. f y) t.child;
    sem = u.sem ∙ t.sem;
  }

module _ (k : Kernel) (p parent : Ptr) (xs rq : List Ptr) (q : Ptr → List Ptr) (fs : List Ptr)
    (n : IsNucleus k rq q fs) (valid : p < maxproc) (not_free : p ∉ fs)
    (place : IsPlaced k.asl.pcbs q p) (hooked : IsHooked k.asl.pcbs p parent xs) where
  -- The state before the process is counted out, and with another count.
  Buried-at :
      (k1 k2 : Kernel) (c : ℕ)
      → Unqueued k p rq q fs k1
      → Left k1 p parent xs (erase p rq) (without p q) fs k2
      → Buried k p parent xs rq q fs (record k2 { process_count = c })
  Buried-at k1 k2 c a b =
      let word = ap (λ (x : Kernel). x.word) b.fields in
      let soft = ap (λ (x : Kernel). x.soft_block_count) b.fields in
      let cur = ap (λ (x : Kernel). x.current_process) a.fields in
      record {
        state =
            IsNucleus-keep k2 (record k2 { process_count = c }) (erase p rq) (without p q) (p ∷ fs)
              refl refl b.state;
        tree = Unhooked-same k k1 p parent xs a.tree k2 b.tree;
        rest =
            SameRest-trans {k = k} {l = k1}
              (record {
                device_semaphores = ap (λ (x : Kernel). x.device_semaphores) a.fields;
                state_at = ap (λ (x : Kernel). x.state_at) a.fields;
                support_at = ap (λ (x : Kernel). x.support_at) a.fields;
                saved = ap (λ (x : Kernel). x.saved) a.fields;
                pass_up = ap (λ (x : Kernel). x.pass_up) a.fields;
                timer = ap (λ (x : Kernel). x.timer) a.fields;
                status = ap (λ (x : Kernel). x.status) a.fields;
              })
              (record {
                device_semaphores = ap (λ (x : Kernel). x.device_semaphores) b.fields;
                state_at = ap (λ (x : Kernel). x.state_at) b.fields;
                support_at = ap (λ (x : Kernel). x.support_at) b.fields;
                saved = ap (λ (x : Kernel). x.saved) b.fields;
                pass_up = ap (λ (x : Kernel). x.pass_up) b.fields;
                timer = ap (λ (x : Kernel). x.timer) b.fields;
                status = ap (λ (x : Kernel). x.status) b.fields;
              });
        runs = b.runs ∙ ap (λ c. if p == c then null else c) cur;
        balance =
            subst (λ w. Balance k.device_semaphores k.word q w (without p q)) (sym word) a.balance;
        soft =
            ap (λ v. (v + soft_blocked k.device_semaphores k.asl.pcbs.p_sem_add p) % w32) soft
            ∙ a.soft;
      }

  same_count :
      (k1 k2 : Kernel)
      → Unqueued k p rq q fs k1
      → Left k1 p parent xs (erase p rq) (without p q) fs k2
      → k2.process_count ≡ k.process_count
  same_count k1 k2 a b =
      ap (λ (x : Kernel). x.process_count) b.fields ∙ ap (λ (x : Kernel). x.process_count) a.fields

  -- While there are other processes, the process is buried, and one process less is counted.
  pub bury-Buried :
      1 < k.process_count
      → k.process_count < 2 ^ 31
      → Returns
          (λ _ k'. Buried k p parent xs rq q fs k' × (suc k'.process_count ≡ k.process_count))
          (bury p k)
  unfolding bury count_out
  bury-Buried several small =
      Returns-bind (leave_queues-Unqueued k rq q fs n p valid place) (λ u k1 a.
        Returns-bind
          (leave_tree-Left k1 p parent xs (erase p rq) (without p q) fs a.state
            (unqueued-IsLoose k rq q fs n p valid not_free)
            (IsHooked-same k k1 p parent xs a.tree hooked))
          (λ u k2 b.
            let c = same_count k1 k2 a b in
            let positive : is_le_zero k2.process_count ≡ false =
              ground (arith, several, small, c) in
            let some_left : (sub32 k2.process_count 1 == 0) ≡ false =
              ground (arith, several, small, c) in
            rw (positive, some_left)
              (returns (
                Buried-at k1 k2 (sub32 k2.process_count 1) a b,
                omega (arith, c, several, small),
              ))))

  -- With the last process the machine halts.
  pub bury-halt :
      k.process_count ≡ 1
      → Exits
          (λ e k'. (e ≡ halt) × Buried k p parent xs rq q fs k' × (k'.process_count ≡ 0))
          (bury p k)
  unfolding bury count_out
  bury-halt one = Exits-after _ (leave_queues-Unqueued k rq q fs n p valid place) (λ u k1 a.
      Exits-after _
        (leave_tree-Left k1 p parent xs (erase p rq) (without p q) fs a.state
          (unqueued-IsLoose k rq q fs n p valid not_free)
          (IsHooked-same k k1 p parent xs a.tree hooked))
        (λ u k2 b.
          let c = same_count k1 k2 a b ∙ one in rw c (exits (refl, Buried-at k1 k2 0 a b, refl))))

-- ===== src/Nucleus/Reach/Create.antt =====
-- SYS1 keeps the invariant.
use mathlib.Core.List.{append-nil}
use pandos_phase.Prelude.{
  has, ◌∈◌, ap, ◌∙◌, sym, ◌-◌, ◌≡◌, refl, subst, inl, inr, List, [], ◌∷◌, ◌++◌, ◌==◌, ◌∉◌, false,
  arith, Bool-cases,
}
use pandos_phase.Types
use pandos_phase.Types.{Ptr, null, maxint, maxproc, set_reg}
use pandos_phase.Words.{w32}
use pandos_phase.Run.{ldst, Exits, exits, Exits-after, returns, Returns-bind}
use pandos_phase.Kernel.{Kernel}
use pandos_phase.Exceptions.{exception_handler, syscall}
use pandos_phase.Exceptions.PassUp.{behind_call}
use pandos_phase.Nucleus.Calls.{called, exception_handler_call}
use pandos_phase.Nucleus.Fork.{Forked, sys_create_process-Forked, sys_create_process-nil}
use pandos_phase.Nucleus.Sound.{IsSound, Forked-IsSound}
use pandos_phase.Nucleus.Reach.{Calling}
use pandos_phase.Pcb.Forest.{Forest, roots, members}
use pandos_phase.Pcb.Forest.Cut.{progeny}
use pandos_phase.Pcb.Forest.Graft.{graft, has-Grafted, Grafted-IsChildren, Grafted-siblings}
use pandos_phase.Nucleus.Kin.{IsFamily}
use pandos_phase.Nucleus.Kin.Change.{Joined-IsFamily}
use pandos_phase.Nucleus.Abstract.{view, Handled, fork}
use pandos_phase.Nucleus.Reach.Calls.{runner, called-IsSound, same-IsSound}

-- The running process has a place in the tree.
runner-member :
    (k : Kernel) (rq : List Ptr) (q : Ptr → List Ptr) (fs : List Ptr) (t : Forest)
    → IsSound k rq q fs
    → IsFamily k.asl.pcbs t q fs
    → (k.current_process == null) ≡ false
    → k.current_process ∈ members t
runner-member k rq q fs t h g n =
    let o = runner k rq q fs h n in g.complete k.current_process o.valid o.not_free

-- SYS1, with and without a free block.
pub create-Sound :
    (k : Kernel) (rq : List Ptr) (q : Ptr → List Ptr) (fs : List Ptr) (t : Forest)
    → IsSound k rq q fs
    → IsFamily k.asl.pcbs t q fs
    → Calling k 1
    → (k.saved.s_reg Types.s_a1 == null) ≡ false
    → Exits (Handled (fork (view k rq q fs t))) (exception_handler k)
unfolding syscall
create-Sound k rq q [] t h g c given =
    let n = (called-IsSound k rq q [] h).nucleus in
    rw
      (
        exception_handler_call k 1 c.call (omega arith),
        sys_create_process-nil (called k) (k.saved.s_reg Types.s_a1) (k.saved.s_reg Types.s_a2)
            n.free,
      )
      (exits (
        c.running,
        refl,
        subst
            (λ ys.
              IsSound (record k { saved = set_reg Types.s_v0 (w32 - 1) (behind_call k.saved) }) ys q
                [])
            (sym (append-nil rq))
            (same-IsSound k rq q [] h
              (record k { saved = set_reg Types.s_v0 (w32 - 1) (behind_call k.saved) }) refl refl
              refl refl refl refl),
        g,
      ))
create-Sound k rq q (x ∷ fs) t h g c given =
    let k0 = called k in
    let n = (called-IsSound k rq q (x ∷ fs) h).nucleus in
    let r = runner k rq q (x ∷ fs) h c.running in
    let i = runner-member k rq q (x ∷ fs) t h g c.running in
    let xs = roots (progeny k.current_process t) in
    let u = has-Grafted k.current_process x t i in
    let d =
      Grafted-IsChildren k.asl.pcbs k.current_process x xs t (graft k.current_process x t) u
        g.forest in
    let new : x ∉ xs = elim (Bool-cases (has x xs)) [
      | inl m ↦
          let (y, z) =
            Grafted-siblings x k.current_process x xs t (graft k.current_process x t) u g.distinct
              m in
          let f = g.used x y in absurd (ground (arith, f))
      | inr m ↦ m
    ] in
    let a1 = k.saved.s_reg Types.s_a1 in
    let a2 = k.saved.s_reg Types.s_a2 in
    rw (exception_handler_call k 1 c.call (omega arith)) (
      Exits-after _
        (Returns-bind {Q = λ _ k'. Handled (fork (view k rq q (x ∷ fs) t)) (ldst k'.saved) k'}
          (sys_create_process-Forked k0 a1 a2 x xs rq q fs n r.valid r.not_free
            (record { chain = d.chain; distinct = d.distinct; inside = d.inside }) new given)
          (λ v k1 w.
            let w' = subst (λ v. Forked k0 a1 a2 x xs rq q fs v k1) w.result w in
            let s = Forked-IsSound k0 k1 a1 a2 x xs rq q fs (called-IsSound k rq q (x ∷ fs) h) w' in
            returns (
              ap (λ v. v == null) w'.current_same ∙ c.running,
              w'.current_same,
              same-IsSound k1 (rq ++ x ∷ []) q fs s
                  (record k1 { saved = set_reg Types.s_v0 v k1.saved }) refl refl refl refl refl
                  refl,
              Joined-IsFamily k.asl.pcbs k1.asl.pcbs k.current_process x t q fs g i
                  h.nucleus.free.inside.0 h.nucleus.free.distinct.0
                  (record {
                    siblings = w'.joined.siblings;
                    alone = w'.joined.alone;
                    links = w'.joined.links;
                    child = w'.joined.child;
                  })
                  w'.unmarked w'.marks_same,
            )))
        (λ u k' w. exits w))

-- ===== src/Nucleus/Terminate/Clear.antt =====
-- The loop of `sysTerminate` over the children, with all of their progeny.
use pandos_phase.Prelude.{
  ltb, length, ℕ, zero, suc, ◌*◌, ◌<◌, ◌≡◌, refl, ap, ◌∙◌, subst, List, [], ◌∷◌, erase, arith,
  if◌then◌else◌, ◌==◌, ◌||◌, has, Bool, false, true, ne→==, Bool-cases, inl, inr,
}
use pandos_phase.Types.{Ptr, null}
use pandos_phase.Run.{Run, and_then, Returns, returns, Returns-bind, Returns-put_back, Returns-mono}
use pandos_phase.Pcb.{Pcbs}
use pandos_phase.Pcb.Detach.{Detached}
use pandos_phase.Pcb.Tree.{empty_child-nil, remove_child-cons}
use pandos_phase.Pcb.Forest.{
  Forest, leaf, node, roots, members, size, survivors, buried, roots-members,
}
use pandos_phase.Kernel.{Kernel}
use pandos_phase.Processes.{bury, terminate, terminate_children}
use pandos_phase.Nucleus.Terminate.Depart.{Balance, soft_blocked}
use pandos_phase.Nucleus.Terminate.Bury.{SameRest, SameRest-trans, Buried, bury-Buried}
use pandos_phase.Nucleus.Terminate.Subtree.{
  IsDoomed, IsCleared, SameLinks-trans, soft_members, first-IsDoomed, rest-IsDoomed, orphaned,
  child-IsHooked, child-IsPlaced, child-used, several_left, still_small, later_links, later_child,
  sem_kept, has-members,
}

pub Balance-trans :
    {base : ℕ} {w w' w'' : ℕ → ℕ} {q q' q'' : Ptr → List Ptr}
    → Balance base w q w' q'
    → Balance base w' q' w'' q''
    → Balance base w q w'' q''
Balance-trans {q} {q'} {q''} a b = record {
  device = λ x e. b.device x e ∙ a.device x e;
  other = λ x e. b.other x e ∙ a.other x e;
  fewer = λ x. omega (arith, a.fewer x, b.fewer x);
  same = λ x l. b.same x (omega (arith, a.fewer x, l)) ∙ a.same x (omega (arith, b.fewer x, l));
  bounded = λ x e l. elim (Bool-cases (ltb (length (q'' x)) (length (q' x)))) [
    | inl i ↦ b.bounded x e (ground (arith, i))
    | inr i ↦
        let s = b.same x (ground (arith, i)) in
        let l' = a.bounded x e (ground (arith, i, l)) in omega (arith, s, l')
  ];
}

pub Balance-rebase :
    {base base' : ℕ} {w w' : ℕ → ℕ} {q q' : Ptr → List Ptr}
    → base ≡ base'
    → Balance base w q w' q'
    → Balance base' w q w' q'
Balance-rebase {w} {w'} {q} {q'} e b = subst (λ v. Balance v w q w' q') e b

-- The process that ran, once those that `f`, `g` and `h` tell have been taken out.
module _ (f g h : Ptr → Bool) (p x y z : Ptr) (e : x ≡ (if f p then null else p))
    (e' : y ≡ (if g x then null else x)) (e'' : z ≡ (if h y then null else y)) where
  null_stays : (v : Bool) → (if v then null else null) ≡ null
  null_stays true = refl
  null_stays false = refl

  pub stays : z ≡ (if g p || (f p || h p) then null else p)
  stays = elim (Bool-cases (f p)) [
    | inl a ↦
        let x0 : x ≡ null = e ∙ rw a refl in
        let y0 : y ≡ null = e' ∙ (ap (λ v. if g x then null else v) x0 ∙ null_stays (g x)) in
        let z0 : z ≡ null = e'' ∙ (ap (λ v. if h y then null else v) y0 ∙ null_stays (h y)) in
        ground (arith, z0, a)
    | inr a ↦
        let x0 : x ≡ p = e ∙ rw a refl in
        elim (Bool-cases (g p)) [
          | inl b ↦
              let y0 : y ≡ null = e' ∙ (ap (λ v. if g v then null else v) x0 ∙ rw b refl) in
              let z0 : z ≡ null = e'' ∙ (ap (λ v. if h y then null else v) y0 ∙ null_stays (h y)) in
              ground (arith, z0, b)
          | inr b ↦
              let y0 : y ≡ p = e' ∙ (ap (λ v. if g v then null else v) x0 ∙ rw b refl) in
              rw (a, b) (e'' ∙ ap (λ v. if h v then null else v) y0)
        ]
  ]

module _ (k : Kernel) (parent c : Ptr) (cs rest : Forest) (rq : List Ptr) (q : Ptr → List Ptr)
    (fs : List Ptr) (h : IsDoomed k parent (node c cs rest) rq q fs) (t : Pcbs)
    (d : Detached k.asl.pcbs parent c (c ∷ roots rest) (roots rest) c t) (k2 : Kernel)
    (w : IsCleared (orphaned k parent c cs rest rq q fs h t d) c cs rq q fs k2) (k3 : Kernel)
    (b : Buried k2 c c [] (survivors cs rq) (λ b. survivors cs (q b)) (buried cs fs) k3)
    (less : suc k3.process_count ≡ k2.process_count) (k4 : Kernel)
    (z : IsCleared k3 parent rest
      (erase c (survivors cs rq))
      (λ b. erase c (survivors cs (q b)))
      (c ∷ buried cs fs)
      k4) where
  rest_kept : SameRest k k3
  rest_kept =
      SameRest-trans {k = k} {l = k2} {m = k3}
        (let r = w.rest in
          record {
            device_semaphores = r.device_semaphores;
            state_at = r.state_at;
            support_at = r.support_at;
            saved = r.saved;
            pass_up = r.pass_up;
            timer = r.timer;
            status = r.status;
          })
        b.rest

  still_runs :
      k4.current_process
      ≡ (if has k.current_process (members (node c cs rest)) then null else k.current_process)
  still_runs = ground (
    arith,
    has-members k parent c cs rest rq q fs h k.current_process,
    stays (λ v. has v (members cs)) (λ v. c == v) (λ v. has v (members rest)) k.current_process
        k2.current_process k3.current_process k4.current_process w.runs b.runs z.runs,
  )

  sem_first : t.p_sem_add ≡ k.asl.pcbs.p_sem_add
  sem_first = ap (λ (u : Pcbs). u.p_sem_add) d.rest.fields

  node-IsCleared : IsCleared k parent (node c cs rest) rq q fs k4
  node-IsCleared =
      let m = has-members k parent c cs rest rq q fs h in
      let sem = sem_kept k parent c cs rest rq q fs h t d k2 w k3 b less in
      record {
        state = z.state;
        childless = z.childless;
        links = λ y o.
            SameLinks-trans y (d.rest.links y (ground (arith, m y, roots-members y rest))) (
              SameLinks-trans y
                (later_links k parent c cs rest rq q fs h t d k2 w k3 b less y
                  (ground (arith, m y)))
                (z.links y (ground (arith, m y))));
        child = λ y n o.
            z.child y n (ground (arith, m y))
            ∙ (later_child k parent c cs rest rq q fs h t d k2 w k3 b less y (ground arith)
                  (ground (arith, m y))
                ∙ d.rest.child y n);
        sem = z.sem ∙ sem;
        rest = SameRest-trans rest_kept z.rest;
        runs = still_runs;
        balance = Balance-trans w.balance (
            Balance-trans (Balance-rebase w.rest.device_semaphores b.balance)
              (Balance-rebase rest_kept.device_semaphores z.balance));
        soft = omega (
          arith,
          w.soft,
          b.soft,
          z.soft,
          ap (λ v. soft_members k.device_semaphores v cs) sem_first,
          ap (λ v. soft_blocked v k2.asl.pcbs.p_sem_add c) w.rest.device_semaphores,
          ap (λ v. soft_blocked k.device_semaphores v c) (w.sem ∙ sem_first),
          ap (λ v. soft_members v k3.asl.pcbs.p_sem_add rest) rest_kept.device_semaphores,
          ap (λ v. soft_members k.device_semaphores v rest) sem,
        );
        count = omega (arith, z.count, less, w.count);
      }

-- Without children there is nothing to do.
leaf-IsCleared :
    (k : Kernel) (parent : Ptr) (rq : List Ptr) (q : Ptr → List Ptr) (fs : List Ptr)
    → IsDoomed k parent leaf rq q fs
    → IsCleared k parent leaf rq q fs k
leaf-IsCleared k parent rq q fs h = record {
  state = h.nucleus;
  childless = h.children;
  links = λ y o. record { left = refl; right = refl; prnt = refl };
  child = λ y n o. refl;
  sem = refl;
  rest = record {
    device_semaphores = refl;
    state_at = refl;
    support_at = refl;
    saved = refl;
    pass_up = refl;
    timer = refl;
    status = refl;
  };
  runs = refl;
  balance = record {
    device = λ a e. refl;
    other = λ a e. refl;
    fewer = λ a. omega arith;
    same = λ a l. refl;
    bounded = λ a e l. absurd (omega (arith, l));
  };
  soft = omega arith;
  count = omega arith;
}

-- The youngest child is terminated, once its own progeny is.
module _ (k : Kernel) (parent c : Ptr) (cs rest : Forest) (rq : List Ptr) (q : Ptr → List Ptr)
    (fs : List Ptr) (h : IsDoomed k parent (node c cs rest) rq q fs) (t : Pcbs)
    (d : Detached k.asl.pcbs parent c (c ∷ roots rest) (roots rest) c t) where
  abbrev ChildGone : Kernel → Type 0
  ChildGone k3 =
      (k2 : Kernel) × IsCleared (orphaned k parent c cs rest rq q fs h t d) c cs rq q fs k2
      × Buried k2 c c [] (survivors cs rq) (λ b. survivors cs (q b)) (buried cs fs) k3
      × (suc k3.process_count ≡ k2.process_count)

  child-ChildGone :
      {r : Run Kernel (Unit {0})}
      → Returns (λ _. IsCleared (orphaned k parent c cs rest rq q fs h t d) c cs rq q fs) r
      → Returns (λ _. ChildGone) (and_then r (λ _. bury c))
  child-ChildGone w0 = Returns-bind w0 (λ u k2 w.
      Returns-mono
        (bury-Buried k2 c c [] (survivors cs rq) (λ b. survivors cs (q b)) (buried cs fs) w.state
          h.inside.0 (child-used k parent c cs rest rq q fs h t d k2 w)
          (child-IsPlaced k parent c cs rest rq q fs h t d k2 w)
          (child-IsHooked k parent c cs rest rq q fs h t d k2 w)
          (several_left k parent c cs rest rq q fs h t d k2 w)
          (still_small k parent c cs rest rq q fs h t d k2 w))
        (λ u k3 b. (k2, w, b.0, b.1)))

-- The loop ends with fuel for two units for each process of the progeny, and one more.
pub terminate_children-IsCleared :
    (f : Forest) (n : ℕ) (k : Kernel) (parent : Ptr) (rq : List Ptr) (q : Ptr → List Ptr)
    (fs : List Ptr)
    → IsDoomed k parent f rq q fs
    → 2 * size f < n
    → Returns (λ _. IsCleared k parent f rq q fs) (terminate_children n parent k)
unfolding terminate terminate_children
terminate_children-IsCleared f zero k parent rq q fs h l = absurd (omega (arith, l))
terminate_children-IsCleared leaf (suc n) k parent rq q fs h l =
    rw (empty_child-nil k.asl.pcbs parent [] h.children h.valid)
      (returns (leaf-IsCleared k parent rq q fs h))
terminate_children-IsCleared (node c cs rest) (suc zero) k parent rq q fs h l =
    absurd (omega (arith, l))
terminate_children-IsCleared (node c cs rest) (suc (suc n)) k parent rq q fs h l =
    rw (empty_child-nil k.asl.pcbs parent (c ∷ roots rest) h.children h.valid) (
      Returns-put_back _ _ (remove_child-cons k.asl.pcbs parent c (roots rest) h.children h.valid)
        (λ r t d0.
          let d =
            subst (λ r. Detached k.asl.pcbs parent c (c ∷ roots rest) (roots rest) r t) d0.result
              d0 in
          rw (d0.result, ne→== c null (omega (arith, h.inside.0)))
            (Returns-bind
              (child-ChildGone k parent c cs rest rq q fs h t d (
                terminate_children-IsCleared cs n (orphaned k parent c cs rest rq q fs h t d) c rq q
                  fs (first-IsDoomed k parent c cs rest rq q fs h t d) (omega (arith, l))))
              (λ u k3 (k2, w, b, less).
                Returns-mono
                  (terminate_children-IsCleared rest (suc n) k3 parent (erase c (survivors cs rq))
                    (λ b. erase c (survivors cs (q b))) (c ∷ buried cs fs)
                    (rest-IsDoomed k parent c cs rest rq q fs h t d k2 w k3 b less)
                    (omega (arith, l)))
                  (λ u k4 z.
                    node-IsCleared k parent c cs rest rq q fs h t d k2 w k3 b less k4 z)))))

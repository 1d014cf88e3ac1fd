-- ===== src/Pcb/Unlink.antt =====
-- The body of the loop of `outProcQ`: a block is unlinked from between its neighbours.
use pandos_phase.Prelude.{
  ℕ, ◌<◌, ◌≡◌, List, [], ◌∷◌, ◌++◌, arith, ◌==◌, false, ◌∈◌, ◌∉◌, Distinct, if◌then◌else◌, update,
  Apart, Distinct-Apart, ne_of_has,
}
use pandos_phase.Types.{Ptr, null, maxproc}
use pandos_phase.Run.{ok, access}
use pandos_phase.Pcb.{Pcbs, unlink}
use pandos_phase.Links.{last, front, has-front, front-ne-last, has-last}
use pandos_phase.Pcb.Chain.{Chain, Chain-frame, Chain-append, Chain-split}

-- The state after `current` is unlinked from between its neighbours.
abbrev pub unlinked : Pcbs → Ptr → Pcbs
unlinked s c = record s {
  p_next = λ y. if y == c then null else if y == s.p_prev c then s.p_next c else s.p_next y;
  p_prev = λ y. if y == c then null else if y == s.p_next c then s.p_prev c else s.p_prev y;
}

pub unlink_run :
    (tp c : Ptr) (s : Pcbs)
    → c < maxproc
    → s.p_prev c < maxproc
    → s.p_next c < maxproc
    → (s.p_prev c == c) ≡ false
    → (s.p_next c == c) ≡ false
    → unlink tp c s ≡ ok (if tp == c then s.p_prev c else tp) (unlinked s c)
unfolding unlink access
unlink_run tp c s hc hp hn np nn = ground arith

pub unlink_run_only :
    (c : Ptr) (s : Pcbs)
    → c < maxproc
    → s.p_next c ≡ c
    → unlink c c s
      ≡ ok null (record s { p_next = update s.p_next c null; p_prev = update s.p_prev c null })
unfolding unlink access
unlink_run_only c s hc e = ground arith

-- The queue `ys ++ p ∷ z ∷ zs` with the tail `tp`, from which `p` is unlinked.
module _ (s : Pcbs) (tp p z : Ptr) (ys zs : List Ptr) (e : tp ≡ last z zs)
    (c : Chain s.p_next s.p_prev tp (ys ++ p ∷ z ∷ zs)) (d : Distinct (ys ++ p ∷ z ∷ zs)) where
  pub sides : Apart ys (p ∷ z ∷ zs)
  sides = Distinct-Apart ys (p ∷ z ∷ zs) d

  pub parts : Chain s.p_next s.p_prev tp ys × Chain s.p_next s.p_prev (last tp ys) (p ∷ z ∷ zs)
  parts = Chain-split s.p_next s.p_prev tp ys (p ∷ z ∷ zs) c

  pub not-mem-before : (p ∉ ys) × (z ∉ ys) × (tp ∉ ys)
  not-mem-before = (
    ground (arith, sides.apart p),
    ground (arith, sides.apart z),
    ground (arith, sides.apart tp, has-last z zs),
  )

  pub tp-ne : (tp == p) ≡ false
  tp-ne = ground (arith, has-last z zs, sides.right.0, ne_of_has p tp (z ∷ zs))

  before-next : (y : ℕ) → y ∈ front tp ys → (unlinked s p).p_next y ≡ s.p_next y
  before-next y m =
      let o = not-mem-before in
      ground (
        arith,
        parts.1.1,
        has-front y tp ys m,
        ne_of_has p y ys o.0,
        tp-ne,
        front-ne-last y tp ys (o.2, sides.left) m,
      )

  before-prev : (y : ℕ) → y ∈ ys → (unlinked s p).p_prev y ≡ s.p_prev y
  before-prev y m =
      let o = not-mem-before in
      ground (arith, parts.1.2.0, ne_of_has p y ys o.0 m, ne_of_has z y ys o.1 m)

  join-next : (unlinked s p).p_next (last tp ys) ≡ z
  join-next =
      let o = not-mem-before in
      ground (arith, parts.1.1, parts.1.2.0, has-last tp ys, ne_of_has p (last tp ys) ys o.0, tp-ne)

  join-prev : (unlinked s p).p_prev z ≡ last tp ys
  join-prev = ground (arith, parts.1.1, parts.1.2.0, sides.right.0)

  after-next : (y : ℕ) → y ∈ front z zs → (unlinked s p).p_next y ≡ s.p_next y
  after-next y m =
      let i = has-front y z zs m in
      let n = ne_of_has p y (z ∷ zs) sides.right.0 i in
      let l = front-ne-last y z zs sides.right.1 m in
      let a = sides.apart y in let h = has-last tp ys in ground (arith, parts.1.1, i, n, l, a, h)

  after-prev : (y : ℕ) → y ∈ zs → (unlinked s p).p_prev y ≡ s.p_prev y
  after-prev y m =
      ground (
        arith,
        parts.1.2.0,
        ne_of_has p y (z ∷ zs) sides.right.0,
        ne_of_has z y zs sides.right.1.0 m,
      )

  pub unlinked-Chain : Chain (unlinked s p).p_next (unlinked s p).p_prev tp (ys ++ z ∷ zs)
  unlinked-Chain =
      let s' = unlinked s p in
      Chain-append s'.p_next s'.p_prev tp ys (z ∷ zs)
        (Chain-frame s.p_next s.p_prev s'.p_next s'.p_prev tp ys parts.0 before-next before-prev)
        (
          join-next,
          join-prev,
          Chain-frame s.p_next s.p_prev s'.p_next s'.p_prev z zs parts.1.2.2 after-next after-prev,
        )

-- The queue `y ∷ ys` followed by `p`, its tail, from which `p` is unlinked.
module _ (s : Pcbs) (p y : Ptr) (ys : List Ptr) (c : Chain s.p_next s.p_prev p (y ∷ ys ++ p ∷ []))
    (d : Distinct (y ∷ ys ++ p ∷ [])) where
  pub tail_parts : Chain s.p_next s.p_prev p (y ∷ ys) × Chain s.p_next s.p_prev (last y ys) (p ∷ [])
  tail_parts = Chain-split s.p_next s.p_prev p (y ∷ ys) (p ∷ []) c

  pub tail-not-mem : p ∉ y ∷ ys
  tail-not-mem = ground (arith, (Distinct-Apart (y ∷ ys) (p ∷ []) d).apart p)

  tail_left : Distinct (y ∷ ys)
  tail_left = (Distinct-Apart (y ∷ ys) (p ∷ []) d).left

  tail_next : (z : ℕ) → z ∈ front y ys → (unlinked s p).p_next z ≡ s.p_next z
  tail_next z m =
      let n = ne_of_has p z (y ∷ ys) tail-not-mem (has-front z y ys m) in
      let l = front-ne-last z y ys tail_left m in ground (arith, tail_parts.1.1, n, l)

  tail_prev : (z : ℕ) → z ∈ ys → (unlinked s p).p_prev z ≡ s.p_prev z
  tail_prev z m =
      ground
        (arith, tail_parts.0.0, ne_of_has p z (y ∷ ys) tail-not-mem, ne_of_has y z ys tail_left.0 m)

  pub unlinked-Chain_tail : Chain (unlinked s p).p_next (unlinked s p).p_prev (last y ys) (y ∷ ys)
  unlinked-Chain_tail =
      let n = ne_of_has p (last y ys) (y ∷ ys) tail-not-mem (has-last y ys) in
      (
        ground (arith, tail_parts.0.0, tail_parts.1.1, n),
        ground (arith, tail_parts.0.0, tail_parts.1.1, tail-not-mem),
        Chain-frame s.p_next s.p_prev (unlinked s p).p_next (unlinked s p).p_prev y ys
            tail_parts.0.2 tail_next tail_prev,
      )

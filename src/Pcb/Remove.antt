-- ===== src/Pcb/Remove.antt =====
-- `outProcQ` and `removeProcQ` take a block out of the queue.
use mathlib.Core.List.{append-nil}
use pandos_phase.Prelude.{
  ℕ, ◌<◌, ◌≡◌, ◌≢◌, refl, sym, List, [], ◌∷◌, ◌++◌, arith, ◌==◌, true, false, ◌∈◌, ◌∉◌, Distinct,
  All, if◌then◌else◌, lt→ltb, ne→==, erase, split, has-append, lt_of_has, ne_of_has, ◌∙◌,
  Bool-cases, inl, inr, All-parts, length-append, subst, ==_refl, length, Distinct-length, ◌≤◌,
  All-erase, Distinct-erase, suc, zero,
}
use pandos_phase.Types.{Ptr, null, maxproc}
use pandos_phase.Run.{ok, Returns, returns, access, and_then}
use pandos_phase.Pcb.{Pcbs, unlink, out_loop, out_proc_q}
use pandos_phase.Links.{last, has-last, last-append}
use pandos_phase.Pcb.Chain.{Chain, IsQueue, LinksOnly}
use pandos_phase.Pcb.Unlink.{
  unlinked, unlink_run, unlink_run_only, sides, parts, not-mem-before, tp-ne, tail_parts,
  tail-not-mem, unlinked-Chain, unlinked-Chain_tail,
}

abbrev tail_of : List Ptr → List Ptr
tail_of [] = []
tail_of (x ∷ xs) = xs

not-mem-tail : (h : Ptr) (xs : List Ptr) → h ∉ xs → h ∉ tail_of xs
not-mem-tail h [] o = o
not-mem-tail h (x ∷ xs) o = ground arith

next-mem :
    (nx pv : Ptr → Ptr) (a p : Ptr) (ys zs : List Ptr)
    → Chain nx pv a (ys ++ p ∷ zs)
    → nx a ∈ ys ++ p ∷ zs
next-mem nx pv a p [] zs c = ground (arith, c.0)
next-mem nx pv a p (y ∷ ys) zs c = ground (arith, c.0)

-- A round of the loop at a block that is not `p` and not the last one.
out_loop-next :
    (k : ℕ) (s : Pcbs) (tp p y : Ptr)
    → tp < maxproc
    → y < maxproc
    → (y == p) ≡ false
    → (s.p_next y == s.p_next tp) ≡ false
    → out_loop (suc k) tp p y s ≡ out_loop k tp p (s.p_next y) s
unfolding out_loop access
out_loop-next k s tp p y ht hy n m = rw (n, lt→ltb _ _ hy, lt→ltb _ _ ht, m) refl

module _ (s : Pcbs) (tp p : Ptr) (ht : tp < maxproc) where
  -- The loop passes over the blocks before `p` and stops there.
  out_loop-found :
      (k : ℕ) (a : Ptr) (ys zs : List Ptr)
      → length ys < k
      → p ∉ ys
      → All (λ x. x < maxproc) ys
      → Chain s.p_next s.p_prev a (ys ++ p ∷ zs)
      → s.p_next tp ∉ tail_of (ys ++ p ∷ zs)
      → out_loop k tp p (s.p_next a) s ≡ and_then (unlink tp p s) (λ tp'. ok (p, tp'))
  unfolding out_loop
  out_loop-found zero a ys zs f o h c d = absurd (omega arith)
  out_loop-found (suc k) a [] zs f o h c d = rw (c.0, ==_refl p) refl
  out_loop-found (suc k) a (y ∷ ys) zs f o h c d =
      let m = next-mem s.p_next s.p_prev y p ys zs c.2 in
      rw (c.0) (
        out_loop-next k s tp p y ht h.0 (ground arith)
          (ne_of_has (s.p_next tp) (s.p_next y) (ys ++ p ∷ zs) d m)
        ∙ out_loop-found k y ys zs (omega arith) (ground arith) h.1 c.2
            (not-mem-tail (s.p_next tp) (ys ++ p ∷ zs) d))

  -- Without `p` in the queue the loop goes round once and changes nothing.
  out_loop-missing :
      (k : ℕ) (a x : Ptr) (xs : List Ptr)
      → length (x ∷ xs) < suc k
      → p ∉ x ∷ xs
      → All (λ x. x < maxproc) (x ∷ xs)
      → Chain s.p_next s.p_prev a (x ∷ xs)
      → last x xs ≡ tp
      → s.p_next tp ∉ xs
      → out_loop k tp p (s.p_next a) s ≡ ok (null, tp) s
  unfolding out_loop access
  out_loop-missing zero a x xs f o h c e d = absurd (omega arith)
  out_loop-missing (suc k) a x [] f o h c e d =
      let n : (x == p) ≡ false = ground arith in
      let q : (s.p_next x == s.p_next tp) ≡ true = ground arith in
      rw (c.0, n, lt→ltb _ _ h.0, lt→ltb _ _ ht, q) refl
  out_loop-missing (suc k) a x (y ∷ ys) f o h c e d = rw (c.0) (
      out_loop-next k s tp p x ht h.0 (ground arith) (ground (arith, c.2.0))
      ∙ out_loop-missing k x y ys (omega arith) (ground arith) h.1 c.2 e (ground arith))

out_loop_enough : {s : Pcbs} {tp : Ptr} (xs : List Ptr) → IsQueue s tp xs → length xs ≤ maxproc
out_loop_enough xs q = Distinct-length maxproc xs q.distinct q.inside

-- What `outProcQ` does to a queue of the blocks `xs` when it takes `p` out and leaves `ys`.
pub record Removed (s : Pcbs) (p : Ptr) (xs ys : List Ptr) (r : Ptr × Ptr) (s' : Pcbs)
    : Type 0 where
  pub result : r.0 ≡ p
  pub queue : IsQueue s' r.1 ys
  pub links : LinksOnly xs s s'
  pub next_null : s'.p_next p ≡ null
  pub prev_null : s'.p_prev p ≡ null

unlinked-LinksOnly :
    (s : Pcbs) (c : Ptr) (xs : List Ptr)
    → c ∈ xs
    → s.p_prev c ∈ xs
    → s.p_next c ∈ xs
    → LinksOnly xs s (unlinked s c)
unlinked-LinksOnly s c xs ci pi ni = record {
  fields = refl;
  next_same = λ y m. ground (arith, ne_of_has y c xs m ci, ne_of_has y (s.p_prev c) xs m pi);
  prev_same = λ y m. ground (arith, ne_of_has y c xs m ci, ne_of_has y (s.p_next c) xs m ni);
}

-- The call of `unlink` at a block with two neighbours.
module _ (s : Pcbs) (tp p tp' : Ptr) (xs ys : List Ptr) (q : IsQueue s tp xs) (ci : p ∈ xs)
    (pi : s.p_prev p ∈ xs) (ni : s.p_next p ∈ xs) (np : (s.p_prev p == p) ≡ false)
    (nn : (s.p_next p == p) ≡ false) where
  Removed-between :
      (if tp == p then s.p_prev p else tp) ≡ tp'
      → IsQueue (unlinked s p) tp' ys
      → Returns (Removed s p xs ys) (and_then (unlink tp p s) (λ t. ok (p, t)))
  Removed-between e left =
      let run =
        unlink_run tp p s (lt_of_has maxproc p xs q.inside ci)
          (lt_of_has maxproc (s.p_prev p) xs q.inside pi)
          (lt_of_has maxproc (s.p_next p) xs q.inside ni) np nn in
      rw (run, e)
        (returns (record {
          result = refl;
          queue = left;
          links = unlinked-LinksOnly s p xs ci pi ni;
          next_null = ground arith;
          prev_null = ground arith;
        }))

Removed-only :
    (s : Pcbs) (tp p : Ptr)
    → IsQueue s tp (p ∷ [])
    → Returns (Removed s p (p ∷ []) []) (and_then (unlink tp p s) (λ t. ok (p, t)))
Removed-only s tp p q =
    let n : s.p_next p ≡ p = ground (arith, q.tail, q.links.0) in
    rw (q.tail, unlink_run_only p s q.inside.0 n)
      (returns (record {
        result = refl;
        queue = record { tail = refl; links = tt; distinct = tt; inside = tt };
        links = record {
          fields = refl;
          next_same = λ y m. ground arith;
          prev_same = λ y m. ground arith;
        };
        next_null = ground arith;
        prev_null = ground arith;
      }))

module _ (s : Pcbs) (tp p : Ptr) where
  Removed-middle :
      (z : Ptr) (ys zs : List Ptr)
      → IsQueue s tp (ys ++ p ∷ z ∷ zs)
      → erase p (ys ++ p ∷ z ∷ zs) ≡ ys ++ z ∷ zs
      → Returns
          (Removed s p (ys ++ p ∷ z ∷ zs) (ys ++ z ∷ zs))
          (and_then (unlink tp p s) (λ t. ok (p, t)))
  Removed-middle z ys zs q er =
      let xs = ys ++ p ∷ z ∷ zs in
      let e : tp ≡ last z zs = q.tail ∙ last-append null ys p (z ∷ zs) in
      let pt = parts s tp p z ys zs e q.links q.distinct in
      let o = not-mem-before s tp p z ys zs e q.links q.distinct in
      let t = tp-ne s tp p z ys zs e q.links q.distinct in
      let sd = sides s tp p z ys zs e q.links q.distinct in
      let h = has-append (last tp ys) ys (p ∷ z ∷ zs) in
      Removed-between s tp p tp xs (ys ++ z ∷ zs) q
        (rw (has-append p ys (p ∷ z ∷ zs)) (ground arith))
        (rw (pt.1.1, h) (ground (arith, has-last tp ys, has-last z zs)))
        (rw (pt.1.2.0, has-append z ys (p ∷ z ∷ zs)) (ground arith))
        (rw (pt.1.1) (ground (arith, has-last tp ys, ne_of_has p (last tp ys) ys o.0)))
        (rw (pt.1.2.0) (ground (arith, sd.right.0))) (rw t)
        (record {
          tail = e ∙ sym (last-append null ys z zs);
          links = unlinked-Chain s tp p z ys zs e q.links q.distinct;
          distinct = rw (← er) (Distinct-erase p xs q.distinct).0;
          inside = rw (← er) (All-erase (λ x. x < maxproc) p xs q.inside);
        })

  Removed-tail :
      (y : Ptr) (ys : List Ptr)
      → tp ≡ p
      → IsQueue s p (y ∷ ys ++ p ∷ [])
      → erase p (y ∷ ys ++ p ∷ []) ≡ y ∷ ys
      → Returns
          (Removed s p (y ∷ ys ++ p ∷ []) (y ∷ ys))
          (and_then (unlink tp p s) (λ t. ok (p, t)))
  Removed-tail y ys e q er =
      let xs = y ∷ ys ++ p ∷ [] in
      let pt = tail_parts s p y ys q.links q.distinct in
      let o = tail-not-mem s p y ys q.links q.distinct in
      let n = ne_of_has p (last y ys) (y ∷ ys) o (has-last y ys) in
      let h = has-append (last y ys) ys (p ∷ []) in
      rw e (
        Removed-between s p p (last y ys) xs (y ∷ ys) q
          (rw (has-append p (y ∷ ys) (p ∷ [])) (ground arith))
          (subst (λ v. v ∈ xs) (sym pt.1.1) (ground (arith, h, has-last y ys)))
          (rw (pt.0.0) (ground arith)) (rw (pt.1.1) n) (rw (pt.0.0) (ground arith))
          (rw (==_refl p) pt.1.1)
          (record {
            tail = refl;
            links = unlinked-Chain_tail s p y ys q.links q.distinct;
            distinct = subst Distinct er (Distinct-erase p xs q.distinct).0;
            inside = subst (All (λ x. x < maxproc)) er (All-erase (λ x. x < maxproc) p xs q.inside);
          }))

  Removed-at :
      (ys zs : List Ptr)
      → IsQueue s tp (ys ++ p ∷ zs)
      → erase p (ys ++ p ∷ zs) ≡ ys ++ zs
      → Returns (Removed s p (ys ++ p ∷ zs) (ys ++ zs)) (and_then (unlink tp p s) (λ t. ok (p, t)))
  Removed-at [] [] q er = Removed-only s tp p q
  Removed-at (y ∷ ys) [] q er =
      let e : tp ≡ p = q.tail ∙ last-append y ys p [] in
      rw append-nil (
        Removed-tail y ys e (subst (λ t. IsQueue s t (y ∷ ys ++ p ∷ [])) e q)
          (er ∙ append-nil (y ∷ ys)))
  Removed-at ys (z ∷ zs) q er = Removed-middle z ys zs q er

next-not-mem :
    (nx pv : Ptr → Ptr) (a : Ptr) (xs : List Ptr)
    → Chain nx pv a xs
    → Distinct xs
    → nx a ∉ tail_of xs
next-not-mem nx pv a [] c d = refl
next-not-mem nx pv a (x ∷ xs) c d = rw (c.0) (d.0)

-- The call of the loop, for a queue that is not empty.
out_proc_q_run :
    (s : Pcbs) (tp p : Ptr)
    → tp < maxproc
    → p ≢ null
    → out_proc_q tp p s ≡ out_loop maxproc tp p (s.p_next tp) s
unfolding out_proc_q access
out_proc_q_run s tp p ht hp = rw (ne→== tp null (omega arith), ne→== p null hp, lt→ltb _ _ ht) refl

out_proc_q_split :
    (s : Pcbs) (tp p : Ptr) (ys zs : List Ptr)
    → IsQueue s tp (ys ++ p ∷ zs)
    → erase p (ys ++ p ∷ zs) ≡ ys ++ zs
    → p ∉ ys
    → Returns (Removed s p (ys ++ p ∷ zs) (ys ++ zs)) (out_proc_q tp p s)
out_proc_q_split s tp p ys zs q er o =
    let xs = ys ++ p ∷ zs in
    let inside = All-parts (λ x. x < maxproc) ys (p ∷ zs) q.inside in
    let ht : tp < maxproc =
      rw (q.tail ∙ last-append null ys p zs)
        (lt_of_has maxproc (last p zs) (p ∷ zs) inside.1 (has-last p zs)) in
    let n = Distinct-length maxproc xs q.distinct q.inside in
    let fuel : length ys < maxproc = omega (arith, n, length-append ys (p ∷ zs)) in
    rw
      (
        out_proc_q_run s tp p ht (omega (arith, inside.1.0)),
        out_loop-found s tp p ht maxproc tp ys zs fuel o inside.0 q.links
            (next-not-mem s.p_next s.p_prev tp xs q.links q.distinct),
      )
      (Removed-at s tp p ys zs q er)

-- `outProcQ` takes a block of the queue out of it, wherever it stands, clears its queue links and
-- returns it; the other blocks keep their order, and no other field or block is changed.
pub out_proc_q-erase :
    (s : Pcbs) (tp p : Ptr) (xs : List Ptr)
    → IsQueue s tp xs
    → p ∈ xs
    → Returns (Removed s p xs (erase p xs)) (out_proc_q tp p s)
out_proc_q-erase s tp p xs q i =
    let r = split p xs i in
    rw (r.erased) (
      subst (λ l. Returns (Removed s p l (r.before ++ r.after)) (out_proc_q tp p s)) (sym r.whole)
        (out_proc_q_split s tp p r.before r.after (subst (IsQueue s tp) r.whole q)
          (subst (λ l. erase p l ≡ r.before ++ r.after) r.whole r.erased) r.first))

-- A block that is not in the queue, or NULL, leaves `outProcQ` with NULL and the queue as it was.
pub out_proc_q-missing :
    (s : Pcbs) (tp p : Ptr) (xs : List Ptr)
    → IsQueue s tp xs
    → p ∉ xs
    → out_proc_q tp p s ≡ ok (null, tp) s
unfolding out_proc_q
out_proc_q-missing s tp p [] q o = rw (q.tail) refl
out_proc_q-missing s tp p (x ∷ xs) q o = elim (Bool-cases (p == null)) [
  | inl e ↦ ground (arith, e)
  | inr n ↦
      let ht : tp < maxproc =
        rw (q.tail) (lt_of_has maxproc (last x xs) (x ∷ xs) q.inside (has-last x xs)) in
      let fuel = Distinct-length maxproc (x ∷ xs) q.distinct q.inside in
      out_proc_q_run s tp p ht (ground (arith, n))
      ∙ out_loop-missing s tp p ht maxproc tp x xs (omega arith) o q.inside q.links (sym q.tail)
          (rw (q.links.0) (q.distinct.0))
]

-- ===== src/Pcb/Insert.antt =====
-- `insertProcQ` appends to the queue.
use pandos_phase.Prelude.{
  has-append, ne_of_has, ◌<◌, ◌≡◌, refl, sym, List, [], ◌∷◌, ◌++◌, arith, ◌==◌, false, ◌∉◌,
  Distinct, All, if◌then◌else◌, update,
}
use pandos_phase.Types.{Ptr, null, maxproc}
use pandos_phase.Run.{ok, Returns, returns, access}
use pandos_phase.Pcb.{Pcbs, insert_proc_q}
use pandos_phase.Links.{last, has-front, front-ne-last, has-last, last-append}
use pandos_phase.Pcb.Chain.{Chain, IsQueue, LinksOnly, Chain-frame, Chain-append}

-- The state after an insertion of `p` behind the tail `tp` and before the head `x`.
abbrev inserted : Pcbs → (tp p x : Ptr) → Pcbs
inserted s tp p x = record s {
  p_next = λ y. if y == tp then p else if y == p then x else s.p_next y;
  p_prev = λ y. if y == x then p else if y == p then tp else s.p_prev y;
}

insert_run :
    (tp p : Ptr) (s : Pcbs)
    → tp < maxproc
    → p < maxproc
    → s.p_next tp < maxproc
    → (tp == p) ≡ false
    → insert_proc_q tp p s ≡ ok p (inserted s tp p (s.p_next tp))
unfolding insert_proc_q access
insert_run tp p s ht hp hx n = ground arith

-- The chain through `x ∷ xs` and back to `x`, once `p` stands behind the last entry.
inserted-Chain :
    (s : Pcbs) (p x : Ptr) (xs : List Ptr)
    → Chain s.p_next s.p_prev x xs
    → Distinct (x ∷ xs)
    → p ∉ x ∷ xs
    → let s' = inserted s (last x xs) p x in Chain s'.p_next s'.p_prev p (x ∷ xs ++ p ∷ [])
inserted-Chain s p x xs c d o =
    let s' = inserted s (last x xs) p x in
    (
      ground (arith, has-last x xs, ne_of_has p (last x xs) (x ∷ xs)),
      ground (arith, has-last x xs),
      Chain-append s'.p_next s'.p_prev x xs (p ∷ [])
          (Chain-frame s.p_next s.p_prev s'.p_next s'.p_prev x xs c
            (λ y m.
              ground
                (arith, front-ne-last y x xs d m, has-front y x xs m, ne_of_has p y (x ∷ xs) o))
            (λ y m. ground (arith, ne_of_has p y (x ∷ xs) o, ne_of_has x y xs d.0 m)))
          (ground (arith, has-last x xs), ground arith, tt),
    )

Distinct-snoc : (xs : List Ptr) (p : Ptr) → Distinct xs → p ∉ xs → Distinct (xs ++ p ∷ [])
Distinct-snoc [] p d o = (refl, tt)
Distinct-snoc (x ∷ xs) p d o =
    (rw (has-append x xs (p ∷ [])) (ground arith), Distinct-snoc xs p d.1 (ground arith))

insert_run_empty :
    (tp p : Ptr) (s : Pcbs)
    → tp ≡ null
    → p < maxproc
    → insert_proc_q tp p s
      ≡ ok p (record s { p_next = update s.p_next p p; p_prev = update s.p_prev p p })
unfolding insert_proc_q access
insert_run_empty tp p s e h = ground arith

last-inside : (x : Ptr) (xs : List Ptr) → All (λ y. y < maxproc) (x ∷ xs) → last x xs < maxproc
last-inside x [] h = h.0
last-inside x (y ∷ ys) h = last-inside y ys h.1

All-snoc :
    (p : Ptr) (xs : List Ptr)
    → All (λ y. y < maxproc) xs
    → p < maxproc
    → All (λ y. y < maxproc) (xs ++ p ∷ [])
All-snoc p [] h k = (k, tt)
All-snoc p (x ∷ xs) h k = (h.0, All-snoc p xs h.1 k)

-- What `insertProcQ` does to a queue of the blocks `xs`.
abbrev pub Inserted : Pcbs → Ptr → List Ptr → Ptr → Pcbs → Type 0
Inserted s p xs tp' s' = IsQueue s' tp' (xs ++ p ∷ []) × LinksOnly (p ∷ xs) s s'

-- `insertProcQ` puts a block that is not in the queue behind its last entry, returns it as the new
-- tail, and changes the queue links of the queue's blocks and of the new one alone.
pub insert_proc_q-append :
    (s : Pcbs) (tp p : Ptr) (xs : List Ptr)
    → IsQueue s tp xs
    → p < maxproc
    → p ∉ xs
    → Returns (Inserted s p xs) (insert_proc_q tp p s)
insert_proc_q-append s tp p [] q h o = rw (insert_run_empty tp p s q.tail h) (
    returns (
      record {
        tail = refl;
        links = (ground arith, ground arith, tt);
        distinct = (refl, tt);
        inside = (h, tt);
      },
      record { fields = refl; next_same = λ y m. ground arith; prev_same = λ y m. ground arith },
    ))
insert_proc_q-append s tp p (x ∷ xs) q h o =
    let e : tp ≡ last x xs = q.tail in
    let t : last x xs < maxproc = last-inside x xs q.inside in
    let l : s.p_next (last x xs) ≡ x = rw (← e) q.links.0 in
    let n : (last x xs == p) ≡ false = ne_of_has p (last x xs) (x ∷ xs) o (has-last x xs) in
    rw (e, insert_run (last x xs) p s t h (rw l q.inside.0) n, l)
      (returns (
        record {
          tail = sym (last-append x xs p []);
          links = inserted-Chain s p x xs q.links.2 q.distinct o;
          distinct = Distinct-snoc (x ∷ xs) p q.distinct o;
          inside = All-snoc p (x ∷ xs) q.inside h;
        },
        record {
          fields = refl;
          next_same = λ y m. ground (arith, ne_of_has y (last x xs) (x ∷ xs), has-last x xs);
          prev_same = λ y m. ground arith;
        },
      ))

-- ===== src/Pcb/Chain.antt =====
-- Circular doubly linked queues in a table of blocks, as the lists of their entries.
use pandos_phase.Prelude.{ℕ, ◌<◌, ◌≡◌, List, [], ◌∷◌, ◌++◌, arith, ◌∈◌, ◌∉◌, Distinct, All}
use pandos_phase.Links.{last, front, has-front, has-last}
use pandos_phase.Types.{Ptr, null, maxproc}
use pandos_phase.Pcb.{Pcbs}

-- From `a` the links lead through `xs`, forwards by `nx` and backwards by `pv`.
abbrev pub Chain : (nx pv : Ptr → Ptr) → Ptr → List Ptr → Type 0
Chain nx pv a [] = Unit
Chain nx pv a (x ∷ xs) = (nx a ≡ x) × (pv x ≡ a) × Chain nx pv x xs

-- `tp` is the tail pointer of the queue of the blocks `xs`, head first: the chain starts at the
-- tail, so its first link closes the circle.
pub record IsQueue (s : Pcbs) (tp : Ptr) (xs : List Ptr) : Type 0 where
  pub tail : tp ≡ last null xs
  pub links : Chain s.p_next s.p_prev tp xs
  pub distinct : Distinct xs
  pub inside : All (λ x. x < maxproc) xs

-- `s'` differs from `s` at most in the queue links of the blocks `xs`.
pub record LinksOnly (xs : List Ptr) (s s' : Pcbs) : Type 0 where
  pub fields : s' ≡ record s { p_next = s'.p_next; p_prev = s'.p_prev }
  pub next_same : (y : ℕ) → y ∉ xs → s'.p_next y ≡ s.p_next y
  pub prev_same : (y : ℕ) → y ∉ xs → s'.p_prev y ≡ s.p_prev y

module _ (nx pv : Ptr → Ptr) where
  pub Chain-frame :
      (nx' pv' : Ptr → Ptr) (a : Ptr) (xs : List Ptr)
      → Chain nx pv a xs
      → ((y : ℕ) → y ∈ front a xs → nx' y ≡ nx y)
      → ((y : ℕ) → y ∈ xs → pv' y ≡ pv y)
      → Chain nx' pv' a xs
  Chain-frame nx' pv' a [] c n p = tt
  Chain-frame nx' pv' a (x ∷ xs) c n p = (
    ground (arith, n a, c.0),
    ground (arith, p x, c.1),
    Chain-frame nx' pv' x xs c.2 (λ y m. n y (ground arith)) (λ y m. p y (ground arith)),
  )

  pub Chain-append :
      (a : ℕ) (xs ys : List ℕ)
      → Chain nx pv a xs
      → Chain nx pv (last a xs) ys
      → Chain nx pv a (xs ++ ys)
  Chain-append a [] ys c d = d
  Chain-append a (x ∷ xs) ys c d = (c.0, c.1, Chain-append x xs ys c.2 d)

  pub Chain-split :
      (a : ℕ) (xs ys : List ℕ)
      → Chain nx pv a (xs ++ ys)
      → Chain nx pv a xs × Chain nx pv (last a xs) ys
  Chain-split a [] ys c = (tt, c)
  Chain-split a (x ∷ xs) ys c = let r = Chain-split x xs ys c.2 in ((c.0, c.1, r.0), r.1)

pub front-inside :
    (s : Pcbs) (tp y : Ptr) (ys : List Ptr) → IsQueue s tp ys → y ∈ front tp ys → y ∈ ys
front-inside s tp y [] q i = i
front-inside s tp y (x ∷ xs) q i = ground (arith, q.tail, has-front y tp (x ∷ xs) i, has-last x xs)

-- A queue is not touched by a change of the links of other blocks.
pub IsQueue-frame :
    (s s' : Pcbs) (tp : Ptr) (xs ys : List Ptr)
    → LinksOnly xs s s'
    → ((y : Ptr) → y ∈ ys → y ∉ xs)
    → IsQueue s tp ys
    → IsQueue s' tp ys
IsQueue-frame s s' tp xs ys l o q = record {
  tail = q.tail;
  links =
      Chain-frame s.p_next s.p_prev s'.p_next s'.p_prev tp ys q.links
        (λ y i. l.next_same y (o y (front-inside s tp y ys q i))) (λ y i. l.prev_same y (o y i));
  distinct = q.distinct;
  inside = q.inside;
}

-- ===== src/Links.antt =====
-- Lists of table indices that links lead through, and the ends of such lists.
use pandos_phase.Prelude.{
  ℕ, ◌≡◌, List, [], ◌∷◌, ◌++◌, arith, ◌==◌, false, ◌∈◌, ◌∉◌, Distinct, ne_of_has, has-append, subst,
  update,
}

-- The last entry of `a ∷ xs`, and all of its entries but the last.
abbrev pub last : ℕ → List ℕ → ℕ
last a [] = a
last a (x ∷ xs) = last x xs

abbrev pub front : ℕ → List ℕ → List ℕ
front a [] = []
front a (x ∷ xs) = a ∷ front x xs

pub has-front : (y a : ℕ) (xs : List ℕ) → y ∈ front a xs → y ∈ a ∷ xs
has-front y a [] i = ground arith
has-front y a (x ∷ xs) i = ground (arith, has-front y x xs)

pub has-last : (a : ℕ) (xs : List ℕ) → last a xs ∈ a ∷ xs
has-last a [] = ground arith
has-last a (x ∷ xs) = ground (arith, has-last x xs)

pub front-ne-last :
    (y a : ℕ) (xs : List ℕ) → Distinct (a ∷ xs) → y ∈ front a xs → (y == last a xs) ≡ false
front-ne-last y a [] d i = ground arith
front-ne-last y a (x ∷ xs) d i =
    ground (arith, front-ne-last y x xs, has-last x xs, ne_of_has a (last x xs) (x ∷ xs))

pub last-append : (a : ℕ) (xs : List ℕ) (y : ℕ) (ys : List ℕ) → last a (xs ++ y ∷ ys) ≡ last y ys
last-append a [] y ys = ground arith
last-append a (x ∷ xs) y ys = last-append x xs y ys

-- From `p` the links `nx` lead through `xs` to `e`.
abbrev pub LeadsTo : ℕ → (ℕ → ℕ) → ℕ → List ℕ → Type 0
LeadsTo e nx p [] = p ≡ e
LeadsTo e nx p (x ∷ xs) = (p ≡ x) × LeadsTo e nx (nx x) xs

module _ (e : ℕ) where
  pub LeadsTo-frame :
      (nx nx' : ℕ → ℕ) (p : ℕ) (xs : List ℕ)
      → LeadsTo e nx p xs
      → ((y : ℕ) → y ∈ xs → nx' y ≡ nx y)
      → LeadsTo e nx' p xs
  LeadsTo-frame nx nx' p [] h same = h
  LeadsTo-frame nx nx' p (x ∷ xs) h same = (
    h.0,
    rw (same x (ground arith)) (LeadsTo-frame nx nx' (nx x) xs h.1 (λ y i. same y (ground arith))),
  )

  -- `d` is linked in behind the entry at the end of `a ∷ lo`.
  pub LeadsTo-insert :
      (nx : ℕ → ℕ) (d a : ℕ) (lo hi : List ℕ)
      → LeadsTo e nx (nx a) (lo ++ hi)
      → Distinct (a ∷ lo ++ hi)
      → d ∉ a ∷ lo ++ hi
      → let nx' = update (update nx d (nx (last a lo))) (last a lo) d in
        LeadsTo e nx' (nx' a) (lo ++ d ∷ hi)
  LeadsTo-insert nx d a [] hi h s o =
      let nx' = update (update nx d (nx a)) a d in
      (
        ground arith,
        subst (λ v. LeadsTo e nx' v hi) (ground arith)
            (LeadsTo-frame nx nx' (nx a) hi h
              (λ y i. ground (arith, ne_of_has a y hi s.0 i, ne_of_has d y hi))),
      )
  LeadsTo-insert nx d a (x ∷ lo) hi h s o =
      let n = has-append a lo hi in
      (
        ground (arith, h.0, has-last x lo, ne_of_has a (last x lo) (x ∷ lo), n),
        LeadsTo-insert nx d x lo hi h.1 s.1 (ground arith),
      )

  -- The entry `d` behind the end of `a ∷ ys` is bypassed, and its own link changed.
  pub LeadsTo-remove :
      (nx : ℕ → ℕ) (d f a : ℕ) (ys zs : List ℕ)
      → LeadsTo e nx (nx a) (ys ++ d ∷ zs)
      → Distinct (a ∷ ys ++ d ∷ zs)
      → let nx' = update (update nx (last a ys) (nx d)) d f in LeadsTo e nx' (nx' a) (ys ++ zs)
  LeadsTo-remove nx d f a [] zs h s =
      let nx' = update (update nx a (nx d)) d f in
      subst (λ v. LeadsTo e nx' v zs) (ground (arith, s.0))
        (LeadsTo-frame nx nx' (nx d) zs h.1
          (λ y i. ground (arith, ne_of_has a y zs, s.0, ne_of_has d y zs s.1.0 i)))
  LeadsTo-remove nx d f a (y ∷ ys) zs h s =
      let n = has-append a ys (d ∷ zs) in
      (
        ground (arith, h.0, s.0, has-last y ys, ne_of_has a (last y ys) (y ∷ ys), n),
        LeadsTo-remove nx d f y ys zs h.1 s.1,
      )

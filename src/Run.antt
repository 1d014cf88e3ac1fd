-- ===== src/Run.antt =====
-- Runs of C functions over a state: they return, leave for good, fault, or use up their fuel.
use pandos_phase.Prelude.{ℕ, ◌≡◌, Bool, true, false}
use pandos_phase.Types.{Processor}

-- The calls of libumps that do not return to the caller, with what they hand to the machine.
pub data Exit : Type 0 where
  ldst : Processor → Exit
  ldcxt : (stack_ptr status pc : ℕ) → Exit
  halt : Exit
  panic : Exit
  wait : Exit

-- `fault` is an access to an entry of a table through NULL or outside of the table, a use of the state
-- NULL, or a division by zero.
pub data Run (S A : Type 0) : Type 0 where
  ok : A → S → Run S A
  exit : Exit → S → Run S A
  fault : Run S A
  out_of_fuel : Run S A

abbrev pub Cmd : Type 0 → Type 0 → Type 0
Cmd S A = S → Run S A

module _ {S A : Type 0} where
  abbrev pub pure : A → Cmd S A
  pure = ok

  -- A part of the state as it stands.
  abbrev pub gets : (S → A) → Cmd S A
  gets f s = ok (f s) s

module _ {S A B : Type 0} where
  abbrev pub and_then : Run S A → (A → Cmd S B) → Run S B
  and_then (ok a s) k = k a s
  and_then (exit e s) k = exit e s
  and_then fault k = fault
  and_then out_of_fuel k = out_of_fuel

  infixl 5 ◌>>=◌ ◌>>◌
  abbrev pub ◌>>=◌ : Cmd S A → (A → Cmd S B) → Cmd S B
  m >>= k = λ s. and_then (m s) k

  abbrev pub ◌>>◌ : Cmd S A → Cmd S B → Cmd S B
  m >> n = m >>= λ _. n

-- A run on a part of the state, put back into the whole.
abbrev pub put_back : {S T A : Type 0} → (T → S) → Run T A → Run S A
put_back f (ok a t) = ok a (f t)
put_back f (exit e t) = exit e (f t)
put_back f fault = fault
put_back f out_of_fuel = out_of_fuel

-- Total correctness of a run: it returns, and its result meets the postcondition.
pub data Returns {S A : Type 0} (P : A → S → Type 0) : Run S A → Type 0 where
  returns : {a : A} {s : S} → P a s → Returns P (ok a s)

module _ {S A : Type 0} {P : A → S → Type 0} where
  pub Returns-bind :
      {B : Type 0} {Q : B → S → Type 0} {r : Run S A} {k : A → Cmd S B}
      → Returns P r
      → ((a : A) (s : S) → P a s → Returns Q (k a s))
      → Returns Q (and_then r k)
  Returns-bind (returns p) next = next _ _ p

  pub Returns-put_back :
      {T B : Type 0} {Q : B → T → Type 0} {r : Run S A} (f : S → T) (k : A → Cmd T B)
      → Returns P r
      → ((a : A) (s : S) → P a s → Returns Q (k a (f s)))
      → Returns Q (and_then (put_back f r) k)
  Returns-put_back f k (returns p) next = next _ _ p

  pub Returns-put_back_last :
      {T : Type 0} {Q : A → T → Type 0} {r : Run S A} (f : S → T)
      → Returns P r
      → ((a : A) (s : S) → P a s → Q a (f s))
      → Returns Q (put_back f r)
  Returns-put_back_last f (returns p) next = returns (next _ _ p)

  pub Returns-mono :
      {Q : A → S → Type 0} {r : Run S A}
      → Returns P r
      → ((a : A) (s : S) → P a s → Q a s)
      → Returns Q r
  Returns-mono (returns p) weaken = returns (weaken _ _ p)

-- if (!b) m
abbrev pub unless : {S : Type 0} → Bool → Cmd S (Unit {0}) → Cmd S (Unit {0})
unless true m = pure tt
unless false m = m

-- A use of memory that faults where the test fails.
unfoldable pub access : {S A : Type 0} → Bool → Cmd S A → Cmd S A
access true m = m
access false m = λ _. fault

pub access-ok : {S A : Type 0} (m : Cmd S A) {b : Bool} → b ≡ true → access b m ≡ m
unfolding access
access-ok m e = rw e

-- A run that leaves for good, in a way that meets the postcondition.
pub data Exits {S A : Type 0} (P : Exit → S → Type 0) : Run S A → Type 0 where
  exits : {e : Exit} {s : S} → P e s → Exits P (exit e s)

pub Exits-after :
    {S A B : Type 0} {P : A → S → Type 0} {Q : Exit → S → Type 0} {r : Run S A} (k : A → Cmd S B)
    → Returns P r
    → ((a : A) (s : S) → P a s → Exits Q (k a s))
    → Exits Q (and_then r k)
Exits-after k (returns p) next = next _ _ p

pub Exits-put_back :
    {S T A B : Type 0} {P : A → S → Type 0} {Q : Exit → T → Type 0} {r : Run S A} (f : S → T)
    (k : A → Cmd T B)
    → Returns P r
    → ((a : A) (s : S) → P a s → Exits Q (k a (f s)))
    → Exits Q (and_then (put_back f r) k)
Exits-put_back f k (returns p) next = next _ _ p

pub Exits-mono :
    {S A : Type 0} {P Q : Exit → S → Type 0} {r : Run S A}
    → Exits P r
    → ((e : Exit) (s : S) → P e s → Q e s)
    → Exits Q r
Exits-mono (exits p) weaken = exits (weaken _ _ p)

-- Nothing is run behind an exit.
pub Exits-stop :
    {S A B : Type 0} {P : Exit → S → Type 0} {r : Run S A} (k : A → Cmd S B)
    → Exits P r
    → Exits P (and_then r k)
Exits-stop k (exits p) = exits p

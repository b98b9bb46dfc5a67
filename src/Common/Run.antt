-- ===== src/Common/Run.antt =====
-- Outcomes of a C call that reads and writes some state: a value, an error code with the state as
-- the call left it, a panic (`panic`, or a KASSERT that fails), an access outside an array or through
-- NULL, or a loop that has used up the rounds it was given.
use os161_testbed.Common.Codes.{Errno}
use mathlib.Core.Bool.{Bool, true, false}

pub data Run (S A : Type 0) : Type 0 where
  done : A → S → Run S A
  fail : Errno → S → Run S A
  panic : Run S A
  fault : Run S A
  stuck : Run S A

abbrev pub Cmd : Type 0 → Type 0 → Type 0
Cmd S A = S → Run S A

module _ {S A B : Type 0} where
  abbrev pub and_then : Run S A → (A → Cmd S B) → Run S B
  and_then (done a s) k = k a s
  and_then (fail e s) k = fail e s
  and_then panic k = panic
  and_then fault k = fault
  and_then stuck k = stuck

  infixl 5 ◌>>=◌ ◌>>◌
  abbrev pub ◌>>=◌ : Cmd S A → (A → Cmd S B) → Cmd S B
  m >>= k = λ s. and_then (m s) k

  abbrev pub ◌>>◌ : Cmd S A → Cmd S B → Cmd S B
  m >> k = m >>= λ _. k

abbrev pub pure : {S A : Type 0} → A → Cmd S A
pure = done

abbrev pub kassert : {S : Type 0} → Bool → Cmd S (Unit {0})
kassert true s = done tt s
kassert false s = panic

-- The call returns a value that satisfies `P` or an error that satisfies `Q`, with the state it
-- leaves: it neither panics, nor leaves an array, nor runs out of rounds.
pub data Ensures {S A : Type 0} (P : A → S → Type 0) (Q : Errno → S → Type 0)
    : Run S A → Type 0 where
  returns : {a : A} {s : S} → P a s → Ensures P Q (done a s)
  fails : {e : Errno} {s : S} → Q e s → Ensures P Q (fail e s)

-- The same by cases on the outcome.
abbrev pub Outcome : {S A : Type 0} → (A → S → Type 0) → (Errno → S → Type 0) → Run S A → Type 0
Outcome P Q (done a s) = P a s
Outcome P Q (fail e s) = Q e s
Outcome P Q panic = ⊥
Outcome P Q fault = ⊥
Outcome P Q stuck = ⊥

module _ {S A : Type 0} {P : A → S → Type 0} {Q : Errno → S → Type 0} where
  pub outcome : {r : Run S A} → Ensures P Q r → Outcome P Q r
  outcome (returns p) = p
  outcome (fails q) = q

  pub mono :
      {P' : A → S → Type 0} {Q' : Errno → S → Type 0} {r : Run S A}
      → Ensures P Q r
      → ((a : A) (s : S) → P a s → P' a s)
      → ((e : Errno) (s : S) → Q e s → Q' e s)
      → Ensures P' Q' r
  mono (returns p) good bad = returns (good _ _ p)
  mono (fails q) good bad = fails (bad _ _ q)

  pub bind :
      {B : Type 0} {P' : B → S → Type 0} {Q' : Errno → S → Type 0} {r : Run S A} {k : A → Cmd S B}
      → Ensures P Q r
      → ((a : A) (s : S) → P a s → Ensures P' Q' (k a s))
      → ((e : Errno) (s : S) → Q e s → Q' e s)
      → Ensures P' Q' (and_then r k)
  bind (returns p) good bad = good _ _ p
  bind (fails q) good bad = fails (bad _ _ q)

-- ===== src/Base/Exec.antt =====
-- The control flow of a Go method. A method may go on with a value, return early, or panic, and
-- what it has changed by then stays changed, so the state comes back in each case.
pub mod Triple
pub mod Outcome
pub mod Leads
use mailgun_operator.Base.Tests.{if◌then◌else◌}
use mathlib.Core.Bool.{Bool}
use mathlib.Core.Option.{Option, none, some}

-- `next a` goes on with a value, `done x` is a `return x`, `panic` is a run-time panic.
pub data Exit (R A : Type 0) : Type 0 where
  next : A → Exit R A
  done : R → Exit R A
  panic : Exit R A

abbrev pub M : Type 0 → Type 0 → Type 0 → Type 0
M S R A = S → Exit R A × S

module _ {S R A B : Type 0} where
  abbrev pub continue : Exit R A → (A → M S R B) → M S R B
  continue e f s = elim e [ next a ↦ f a s | done x ↦ (done x, s) | panic ↦ (panic, s) ]

  infixl 5 ◌>>=◌ ◌>>◌
  abbrev pub ◌>>=◌ : M S R A → (A → M S R B) → M S R B
  ◌>>=◌ m f s = let (e, s') = m s in continue e f s'

  abbrev pub ◌>>◌ : M S R A → M S R B → M S R B
  m >> k = m >>= λ _. k

module _ {S R A : Type 0} where
  abbrev pub pure : A → M S R A
  pure a s = (next a, s)

  abbrev pub return : R → M S R A
  return x s = (done x, s)

  abbrev pub gets : (S → A) → M S R A
  gets f s = (next (f s), s)

  -- `*p`, which panics on a nil pointer.
  abbrev pub deref : Option A → M S R A
  deref o s = elim o [ none ↦ (panic, s) | some a ↦ (next a, s) ]

  -- A call of a method whose own body returns an `A`.
  abbrev pub invoke : M S A A → M S R A
  invoke body s =
      let (e, s') = body s in
      elim e [ next a ↦ (next a, s') | done a ↦ (next a, s') | panic ↦ (panic, s') ]

module _ {S R : Type 0} where
  abbrev pub modify : (S → S) → M S R (Unit {0})
  modify f s = (next tt, f s)

  -- `if b { block }`
  abbrev pub when : Bool → M S R (Unit {0}) → M S R (Unit {0})
  when b m s = if b then m s else (next tt, s)

module _ {S R A : Type 0} where
  -- `if b { m } else { n }`
  abbrev pub if_else : Bool → M S R A → M S R A → M S R A
  if_else b m n s = if b then m s else n s

  -- `if p != nil { m } else { n }`
  abbrev pub if_some : {B : Type 0} → Option B → (B → M S R A) → M S R A → M S R A
  if_some o m n s = elim o [ none ↦ n s | some b ↦ m b s ]

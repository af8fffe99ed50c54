-- ===== src/Base/Exec/Leads.antt =====
-- What a method's body leads from and to, whatever it answers: one rule for each statement, which
-- `search` puts together.

use mathlib.Core.Bool.{Bool, true, false}
use mathlib.Core.Option.{Option, none, some}
use mailgun_operator.Base.Exec.{
  Exit, M, next, done, panic, ◌>>=◌, continue, pure, return, gets, deref, invoke, when, if_else,
  if_some,
}

-- `q` if the method goes on, `t` if it returns early or panics.
abbrev pub After : {S R A : Type 0} → (S → Type 0) → (S → Type 0) → Exit R A × S → Type 0
After q t (e, s) = elim e [ next _ ↦ q s | done _ ↦ t s | panic ↦ t s ]

pub After-all : {S R A : Type 0} (q : S → Type 0) (x : Exit R A × S) → After q q x → q x.1
After-all q (next a, s) h = h
After-all q (done r, s) h = h
After-all q (panic, s) h = h

-- From a state with `p`.
pub record Leads {S R A : Type 0} (p q t : S → Type 0) (m : M S R A) : Type 0 where
  pub at : (s : S) → p s → After q t (m s)

module _ {S R A B : Type 0} {i q t : S → Type 0} where
  continue-After :
      (e : Exit R A) (f : A → M S R B) (s : S)
      → ((a : A) → Leads i q t (f a))
      → After i t (e, s)
      → After q t (continue e f s)
  continue-After (next a) f s k h = (k a).at s h
  continue-After (done x) f s k h = h
  continue-After panic f s k h = h

  pub Leads-bind :
      {p : S → Type 0} (m : M S R A) (f : A → M S R B)
      → Leads p i t m
      → ((a : A) → Leads i q t (f a))
      → Leads p q t (m >>= f)
  Leads-bind m f h k = record { at = λ s l. continue-After (m s).0 f (m s).1 k (h.at s l) }

pub Leads-return : {S R A : Type 0} {p q : S → Type 0} (x : R) → Leads {A = A} p q p (return x)
Leads-return x = record { at = λ s h. h }

module _ {S R A : Type 0} where
  weaken-After :
      (q t u : S → Type 0) (x : Exit R A × S) → ((s : S) → t s → u s) → After q t x → After q u x
  weaken-After q t u (next a, s) k h = h
  weaken-After q t u (done r, s) k h = k s h
  weaken-After q t u (panic, s) k h = k s h

  pub Leads-weaken :
      {p q t : S → Type 0} (u : S → Type 0) (m : M S R A)
      → ((s : S) → t s → u s)
      → Leads p q t m
      → Leads p q u m
  Leads-weaken {q} {t} u m k h = record { at = λ s l. weaken-After q t u (m s) k (h.at s l) }

module _ {S R A B : Type 0} {p : S → Type 0} where
  pub Keeps-bind :
      (m : M S R A) (f : A → M S R B)
      → Leads p p p m
      → ((a : A) → Leads p p p (f a))
      → Leads p p p (m >>= f)
  Keeps-bind = Leads-bind

module _ {S R A : Type 0} {p : S → Type 0} where
  pub Keeps-pure : (a : A) → Leads {R = R} p p p (pure a)
  Keeps-pure a = record { at = λ s h. h }

  pub Keeps-return : (x : R) → Leads {A = A} p p p (return x)
  Keeps-return x = record { at = λ s h. h }

  pub Keeps-gets : (f : S → A) → Leads {R = R} p p p (gets f)
  Keeps-gets f = record { at = λ s h. h }

module _ {S A : Type 0} (R : Type 0) (p : S → Type 0) where
  deref-After : (o : Option A) (s : S) → p s → After {R = R} p p (deref o s)
  deref-After none s h = h
  deref-After (some a) s h = h

  invoke-After :
      (e : Exit A A) (s : S) → After p p (e, s) → After {R = R} p p (invoke (λ _. (e, s)) s)
  invoke-After (next a) s h = h
  invoke-After (done a) s h = h
  invoke-After panic s h = h

module _ {S R A : Type 0} (p : S → Type 0) where
  if-After :
      (b : Bool) (m n : M S R A) (s : S)
      → After p p (m s)
      → After p p (n s)
      → After p p (if_else b m n s)
  if-After true m n s h k = h
  if-After false m n s h k = k

  some-After :
      {B : Type 0} (o : Option B) (m : B → M S R A) (n : M S R A) (s : S)
      → ((b : B) → After p p (m b s))
      → After p p (n s)
      → After p p (if_some o m n s)
  some-After none m n s h k = k
  some-After (some b) m n s h k = h b

when-After :
    {S R : Type 0} (p : S → Type 0) (b : Bool) (m : M S R (Unit {0})) (s : S)
    → After p p (m s)
    → p s
    → After p p (when b m s)
when-After p true m s h k = h
when-After p false m s h k = k

module _ {S R A : Type 0} {p : S → Type 0} where
  pub Keeps-deref : (o : Option A) → Leads {R = R} p p p (deref o)
  Keeps-deref o = record { at = deref-After R p o }

  pub Leads-invoke : {q : S → Type 0} (m : M S A A) → Leads q p p m → Leads {R = R} q p p (invoke m)
  Leads-invoke m h = record { at = λ s l. invoke-After R p (m s).0 (m s).1 (h.at s l) }

  pub Keeps-invoke : (m : M S A A) → Leads p p p m → Leads {R = R} p p p (invoke m)
  Keeps-invoke = Leads-invoke

  pub Keeps-if_else :
      (b : Bool) (m n : M S R A) → Leads p p p m → Leads p p p n → Leads p p p (if_else b m n)
  Keeps-if_else b m n h k = record { at = λ s l. if-After p b m n s (h.at s l) (k.at s l) }

  pub Keeps-if_some :
      {B : Type 0} (o : Option B) (m : B → M S R A) (n : M S R A)
      → ((b : B) → Leads p p p (m b))
      → Leads p p p n
      → Leads p p p (if_some o m n)
  Keeps-if_some o m n h k = record {
    at = λ s l. some-After p o m n s (λ b. (h b).at s l) (k.at s l);
  }

module _ {S R : Type 0} {p : S → Type 0} where
  pub Keeps-when : (b : Bool) (m : M S R (Unit {0})) → Leads p p p m → Leads p p p (when b m)
  Keeps-when b m h = record { at = λ s l. when-After p b m s (h.at s l) l }

  pub Keeps-when_test :
      (b : S → Bool) (m : M S R (Unit {0})) → Leads p p p m → Leads p p p (λ s. when (b s) m s)
  Keeps-when_test b m h = record { at = λ s l. when-After p (b s) m s (h.at s l) l }

pub ruleset keeps_rules = (
  Keeps-bind, Keeps-pure, Keeps-return, Keeps-gets, Keeps-deref, Keeps-invoke, Keeps-if_else,
  Keeps-if_some, Keeps-when, Keeps-when_test,
)

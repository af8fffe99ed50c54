-- ===== src/Base/Exec/Triple.antt =====
-- What holds after a method's body, by the way that it ends, and the rules for a sequence, a call
-- and a conditional. What holds is a test on the result and the state, so that a part can be
-- checked by splitting on its branches.
use mathlib.Core.Path.{◌≡◌}
use mathlib.Core.Bool.{Bool, true, false, ◌&&◌}
use native.Mathlib.Omega.{arith}
use mailgun_operator.Base.Exec.{Exit, M, next, done, panic, continue, ◌>>=◌, when, invoke}

-- `q` after `next`, `t` after `done`, `x` after a panic.
abbrev pub ends :
    {S R A : Type 0} → (A → S → Bool) → (R → S → Bool) → (S → Bool) → Exit R A × S → Bool
ends q t x (e, s) = elim e [ next a ↦ q a s | done r ↦ t r s | panic ↦ x s ]

-- From a state that passes `p`.
pub record Triple {S R A : Type 0} (p : S → Bool) (m : M S R A) (q : A → S → Bool)
    (t : R → S → Bool) (x : S → Bool) : Type 0 where
  pub at : (s : S) → p s ≡ true → ends q t x (m s) ≡ true

module _ {S R A B : Type 0} {q : B → S → Bool} {t : R → S → Bool} {x : S → Bool} where
  ends-continue :
      (e : Exit R A) (f : A → M S R B) (i : A → S → Bool) (s : S)
      → ((a : A) → Triple (i a) (f a) q t x)
      → ends i t x (e, s) ≡ true
      → ends q t x (continue e f s) ≡ true
  ends-continue (next a) f i s k h = (k a).at s h
  ends-continue (done _) f i s k h = h
  ends-continue panic f i s k h = h

  pub Triple-bind :
      {p : S → Bool} (m : M S R A) (f : A → M S R B) (i : A → S → Bool)
      → Triple p m i t x
      → ((a : A) → Triple (i a) (f a) q t x)
      → Triple p (m >>= f) q t x
  Triple-bind m f i h k = record { at = λ s p. ends-continue (m s).0 f i (m s).1 k (h.at s p) }

module _ {S R A : Type 0} where
  ends-invoke :
      (q : A → S → Bool) (t : R → S → Bool) (x : S → Bool) (e : Exit A A) (s : S)
      → ends q q x (e, s) ≡ true
      → ends q t x (invoke (λ _. (e, s)) s) ≡ true
  ends-invoke q t x (next a) s h = h
  ends-invoke q t x (done a) s h = h
  ends-invoke q t x panic s h = h

  pub Triple-invoke :
      {p : S → Bool} {q : A → S → Bool} {t : R → S → Bool} {x : S → Bool} (m : M S A A)
      → Triple p m q q x
      → Triple p (invoke m) q t x
  Triple-invoke {q} {t} {x} m h = record {
    at = λ s p. ends-invoke q t x (m s).0 (m s).1 (h.at s p);
  }

module _ {S R : Type 0} where
  ends-when :
      (q : Unit {0} → S → Bool) (t : R → S → Bool) (x : S → Bool) (b : Bool) (m : M S R (Unit {0}))
      (s : S)
      → ends q t x (m s) ≡ true
      → q tt s ≡ true
      → ends q t x (when b m s) ≡ true
  ends-when q t x true m s h k = h
  ends-when q t x false m s h k = k

  pub Triple-when :
      {p : S → Bool} {q : Unit {0} → S → Bool} {t : R → S → Bool} {x : S → Bool} (test : S → Bool)
      (m : M S R (Unit {0}))
      → Triple p m q t x
      → ((s : S) → p s ≡ true → q tt s ≡ true)
      → Triple p (λ s. when (test s) m s) q t x
  Triple-when {q} {t} {x} test m h k = record {
    at = λ s p. ends-when q t x (test s) m s (h.at s p) (k s p);
  }

module _ {S R : Type 0} where
  ends-when_test :
      (p : Bool) (q : Unit {0} → S → Bool) (t : R → S → Bool) (x : S → Bool) (b : Bool)
      (m : M S R (Unit {0})) (s : S)
      → ((p && b) ≡ true → ends q t x (m s) ≡ true)
      → q tt s ≡ true
      → p ≡ true
      → ends q t x (when b m s) ≡ true
  ends-when_test p q t x true m s h k l = h (ground arith)
  ends-when_test p q t x false m s h k l = k

  -- The block may use that the test has passed.
  pub Triple-when_test :
      {p : S → Bool} {q : Unit {0} → S → Bool} {t : R → S → Bool} {x : S → Bool} (test : S → Bool)
      (m : M S R (Unit {0}))
      → Triple (λ s. p s && test s) m q t x
      → ((s : S) → p s ≡ true → q tt s ≡ true)
      → Triple p (λ s. when (test s) m s) q t x
  Triple-when_test {p} {q} {t} {x} test m h k = record {
    at = λ s l. ends-when_test (p s) q t x (test s) m s (h.at s) (k s l) l;
  }

-- A test that holds however the method ends.
pub ends_all :
    {S R A : Type 0} (q : S → Bool) (x : Exit R A × S)
    → ends (λ _. q) (λ _. q) q x ≡ true
    → q x.1 ≡ true
ends_all q (next a, s) h = h
ends_all q (done r, s) h = h
ends_all q (panic, s) h = h

done_inj : {R A : Type 0} (a b : R) → ◌≡◌ {A = Exit R A} (done a) (done b) → a ≡ b
done_inj a b e = cc

pub ends_done :
    {S R A : Type 0} (q : A → S → Bool) (t : R → S → Bool) (x : S → Bool) (y : Exit R A × S) (r : R)
    → ends q t x y ≡ true
    → y.0 ≡ done r
    → t r y.1 ≡ true
ends_done q t x (next a, s) r h e = cc
ends_done q t x (done r', s) r h e = rw (← done_inj r' r e) h
ends_done q t x (panic, s) r h e = cc

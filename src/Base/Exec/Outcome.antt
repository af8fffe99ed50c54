-- ===== src/Base/Exec/Outcome.antt =====
-- What is true after a method's body that does not panic, as a type rather than as a test, so that
-- it may speak of all values of a world.
use mailgun_operator.Base.Exec.{Exit, M, next, done, panic, ◌>>=◌, invoke}
use mathlib.Core.Path.{◌≡◌}

-- `q` after `next`, `t` after `done`.
abbrev pub Ends : {S R A : Type 0} → (A → S → Type 0) → (R → S → Type 0) → Exit R A × S → Type 0
Ends q t (e, s) = elim e [ next a ↦ q a s | done r ↦ t r s | panic ↦ Unit {0} ]

module _ {S R A B : Type 0} (q : B → S → Type 0) (t : R → S → Type 0) where
  ends-step :
      (e : Exit R A) (s : S) (f : A → M S R B) (i : A → S → Type 0)
      → Ends i t (e, s)
      → ((a : A) (s : S) → i a s → Ends q t (f a s))
      → Ends q t (((λ _. (e, s)) >>= f) s)
  ends-step (next a) s f i h k = k a s h
  ends-step (done r) s f i h k = h
  ends-step panic s f i h k = tt

  pub Ends-bind :
      (m : M S R A) (f : A → M S R B) (s : S) (i : A → S → Type 0)
      → Ends i t (m s)
      → ((a : A) (s : S) → i a s → Ends q t (f a s))
      → Ends q t ((m >>= f) s)
  Ends-bind m f s i h k = ends-step (m s).0 (m s).1 f i h k

module _ {S R A : Type 0} (q : A → S → Type 0) (t : R → S → Type 0) where
  invoke-step : (e : Exit A A) (s : S) → Ends q q (e, s) → Ends q t (invoke (λ _. (e, s)) s)
  invoke-step (next a) s h = h
  invoke-step (done a) s h = h
  invoke-step panic s h = tt

  pub Ends-invoke : (m : M S A A) (s : S) → Ends q q (m s) → Ends q t (invoke m s)
  Ends-invoke m s h = invoke-step (m s).0 (m s).1 h

  done_inj : (a b : R) → ◌≡◌ {A = Exit R A} (done a) (done b) → a ≡ b
  done_inj a b e = cc

  pub Ends-done : (x : Exit R A × S) (r : R) → Ends q t x → x.0 ≡ done r → t r x.1
  Ends-done (next a, s) r h e = absurd (cc)
  Ends-done (done r', s) r h e = rw (← done_inj r' r e) h
  Ends-done (panic, s) r h e = absurd (cc)

-- ===== src/Controller/Outcome.antt =====
-- What is true of the world after a statement of a reconciler.
use mailgun_operator.Base.{◌≡◌, refl, Option}
use mailgun_operator.Base.Exec.{M}
use mailgun_operator.Base.Exec.Outcome.{Ends}
use mailgun_operator.Api.Meta.{Error, Res, ok, err, if_failed}
use mailgun_operator.Controller.{Run, on_object}

module _ {S R A B : Type 0} (q : A → S → Type 0) (t : R → S → Type 0) (m : Error → M S R A)
    (n : B → M S R A) (s : S) where
  pub Ends-if_failed :
      (x : Res B)
      → ((e : Error) → x ≡ err e → Ends q t (m e s))
      → ((b : B) → x ≡ ok b → Ends q t (n b s))
      → Ends q t (if_failed x m n s)
  Ends-if_failed (err e) h k = h e refl
  Ends-if_failed (ok b) h k = k b refl

module _ {W Obj Call R : Type 0} (p : W → Type 0) (t : R → Run W Obj Call → Type 0) where
  stored-Ends :
      (c : Option Error → Call) (x : Res Obj) (w : W) (s : Run W Obj Call)
      → p w
      → Ends (λ _ s. p s.world) t (on_object (λ _. c) (λ _ _. (x, w)) s)
  stored-Ends c (ok d) w s h = h
  stored-Ends c (err e) w s h = h

  -- A statement that writes the object leaves the world that its call leaves.
  pub Ends-on_object :
      (c : Obj → Option Error → Call) (f : Obj → W → Res Obj × W) (s : Run W Obj Call)
      → p (f s.object s.world).1
      → Ends (λ _ s. p s.world) t (on_object c f s)
  Ends-on_object c f s h =
      stored-Ends (c s.object) (f s.object s.world).0 (f s.object s.world).1 s h

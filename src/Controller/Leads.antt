-- ===== src/Controller/Leads.antt =====
-- What the statements of a reconciler keep, by what their calls keep.
use mailgun_operator.Base.{◌≡◌, refl, Option}
use mailgun_operator.Base.Exec.{M}
use mailgun_operator.Base.Exec.Leads.{After, Leads, keeps_rules}
use mailgun_operator.Api.Meta.{Error, Res, ok, err, if_failed}
use mailgun_operator.Controller.{Run, on_object, request, question, record_event, check_reply}

failed-After :
    {S R A B : Type 0} (p : S → Type 0) (x : Res B) (m : Error → M S R A) (n : B → M S R A) (s : S)
    → ((e : Error) → After p p (m e s))
    → ((b : B) → After p p (n b s))
    → After p p (if_failed x m n s)
failed-After p (err e) m n s h k = h e
failed-After p (ok b) m n s h k = k b

module _ {S R A B : Type 0} {p : S → Type 0} where
  pub Keeps-if_failed :
      (x : Res B) (m : Error → M S R A) (n : B → M S R A)
      → ((e : Error) → Leads p p p (m e))
      → ((b : B) → Leads p p p (n b))
      → Leads p p p (if_failed x m n)
  Keeps-if_failed x m n h k = record {
    at = λ s l. failed-After p x m n s (λ e. (h e).at s l) (λ b. (k b).at s l);
  }

module _ {W Obj Call : Type 0} {p : Run W Obj Call → Type 0} where
  pub Keeps-check_reply : (e : Option Error) → Leads p p p (check_reply e)
  Keeps-check_reply e = search keeps_rules

-- One thing of the world and one of the object in memory.
abbrev pub Both : {W Obj Call : Type 0} → (W → Type 0) → (Obj → Type 0) → Run W Obj Call → Type 0
Both p q s = p s.world × q s.object

stored-Both :
    {W Obj Call : Type 0} (R : Type 0) (p : W → Type 0) (q : Obj → Type 0) (c : Option Error → Call)
    (x : Res Obj) (w : W) (s : Run W Obj Call)
    → p w
    → ((d : Obj) → x ≡ ok d → q d)
    → q s.object
    → After {R = R} (Both p q) (Both p q) (on_object (λ _. c) (λ _ _. (x, w)) s)
stored-Both R p q c (ok d) w s h k l = (h, k d refl)
stored-Both R p q c (err e) w s h k l = (h, l)

module _ {W Obj Call R : Type 0} (p : W → Type 0) (q : Obj → Type 0) where
  pub Both-request :
      {A : Type 0} (c : Option Error → Call) (f : W → Res A × W)
      → ((w : W) → p w → p (f w).1)
      → Leads {R = R} (Both p q) (Both p q) (Both p q) (request c f)
  Both-request c f h = record { at = λ s l. (h s.world l.0, l.1) }

  pub Both-question :
      {A : Type 0} (c : Res A → Call) (f : W → Res A × W)
      → ((w : W) → p w → p (f w).1)
      → Leads {R = R} (Both p q) (Both p q) (Both p q) (question c f)
  Both-question c f h = record { at = λ s l. (h s.world l.0, l.1) }

  pub Both-record_event :
      (c : Call) (f : W → W)
      → ((w : W) → p w → p (f w))
      → Leads {R = R} (Both p q) (Both p q) (Both p q) (record_event c f)
  Both-record_event c f h = record { at = λ s l. (h s.world l.0, l.1) }

  pub Both-on_object :
      (c : Obj → Option Error → Call) (f : Obj → W → Res Obj × W)
      → ((d : Obj) (w : W) → p w → p (f d w).1)
      → ((d d' : Obj) (w : W) → (f d w).0 ≡ ok d' → q d → q d')
      → Leads {R = R} (Both p q) (Both p q) (Both p q) (on_object c f)
  Both-on_object c f h k = record {
    at = λ s l.
        stored-Both R p q (c s.object) (f s.object s.world).0 (f s.object s.world).1 s
          (h s.object s.world l.0) (λ d e. k s.object d s.world e l.1) l.1;
  }

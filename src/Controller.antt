-- ===== src/Controller.antt =====
-- What the two reconcilers share: what one call of `Reconcile` works on, which is the world, the
-- object in memory and the calls made so far, and its answer. Each step here is a statement of
-- the source that leaves the process.
pub mod Outcome
pub mod Leads
use mailgun_operator.Base.{Option, none, some, List, ◌∷◌}
use mailgun_operator.Base.Int.{ℤ, pos}
use mailgun_operator.Base.Exec.{M, next, pure, return, if_some}
use mailgun_operator.Api.Meta.{Key, Error, Res, ok, err, error_of}

-- `ctrl.Result` and the error. Times are in nanoseconds.
pub record Reply : Type 0 where
  pub requeue_after : ℤ
  pub error : Option Error

abbrev pub reply_of : ℤ → Option Error → Reply
reply_of z e = record { requeue_after = z; error = e }

-- The newest call stands first.
pub record Run (W Obj Call : Type 0) : Type 0 where
  pub world : W
  pub object : Obj
  pub calls : List Call

module _ {W Obj Call R : Type 0} where
  -- `f(ctx, object)`, where the answer overwrites the object.
  abbrev store : (Option Error → Call) → Res Obj × W → M (Run W Obj Call) R (Option Error)
  store c (x, w) s = elim x [
    | ok d ↦ (next none, record { world = w; object = d; calls = c none ∷ s.calls })
    | err e ↦ (next (some e), record s { world = w; calls = c (some e) ∷ s.calls })
  ]

  abbrev pub on_object :
      (Obj → Option Error → Call) → (Obj → W → Res Obj × W) → M (Run W Obj Call) R (Option Error)
  on_object c f s = store (c s.object) (f s.object s.world) s

  abbrev pub fetch_object :
      (Key → Option Error → Call)
      → (Key → W → Res Obj × W)
      → Key
      → M (Run W Obj Call) R (Option Error)
  fetch_object c get k s = store (c k) (get k s.world) s

  -- Any other call.
  abbrev pub request :
      {A : Type 0} → (Option Error → Call) → (W → Res A × W) → M (Run W Obj Call) R (Res A)
  request c f s =
      let (x, w) = f s.world in (next x, record s { world = w; calls = c (error_of x) ∷ s.calls })

  -- A call that is recorded with its answer.
  abbrev pub question :
      {A : Type 0} → (Res A → Call) → (W → Res A × W) → M (Run W Obj Call) R (Res A)
  question c f s = let (x, w) = f s.world in (next x, record s { world = w; calls = c x ∷ s.calls })

  -- `r.Recorder.Eventf`
  abbrev pub record_event : Call → (W → W) → M (Run W Obj Call) R (Unit {0})
  record_event c f s = (next tt, record s { world = f s.world; calls = c ∷ s.calls })

module _ {W Obj Call : Type 0} where
  -- `if err != nil { return ctrl.Result{}, err }`
  abbrev pub check_reply : Option Error → M (Run W Obj Call) Reply (Unit {0})
  check_reply e = if_some e (λ e'. return (reply_of (pos 0) (some e'))) (pure tt)

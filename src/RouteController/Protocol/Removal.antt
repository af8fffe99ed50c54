-- ===== src/RouteController/Protocol/Removal.antt =====
-- What the order of the calls means for the finalizer of a route that is being deleted.
use mailgun_operator.Base.{
  ◌≡◌, refl, ◌⊎◌, inl, inr, String, Bool, true, false, Option, none, some, List, [], ◌∷◌, ◌++◌,
  ◌==◌, arith, is_some,
}
use mathlib.Core.Path.{subst}
use mailgun_operator.Api.Meta.{Key, Error, ok}
use mailgun_operator.Api.RouteTypes.{Route}
use mailgun_operator.RouteController.Run.{
  RouteReconciler, Call, updated, event_recorded, route_read, route_deleted,
}
use mailgun_operator.RouteController.Delete.{has_finalizer}
use mailgun_operator.RouteController.Reconcile.{reconcile}
use mailgun_operator.RouteController.Protocol.{Mode, Phase, mode, follow, phase, and_then}
use mailgun_operator.RouteController.Protocol.Order.{
  RemovesFinalizer, ordered_calls, route_reconcile-keeps_order,
}
use mailgun_operator.RouteController.Protocol.Creation.{phase_before}

-- Mailgun has deleted the route of that id, or had no answer for it, and an event was recorded
-- then.
abbrev pub is_gone : String → List Call → Bool
is_gone id (event_recorded _ _ ∷ route_deleted i none ∷ _) = i == id
is_gone id (event_recorded _ _ ∷ route_read i (some _) ∷ _) = i == id
is_gone id _ = false

module _ (id : String) where
  after_deletion :
      (calls : List Call)
      → phase (Mode.remove_known id) calls ≡ some Phase.removed
      → is_gone id (event_recorded "" "" ∷ calls) ≡ true
  unfolding follow
  after_deletion [] h = absurd (cc)
  after_deletion (c ∷ old) h = ground arith

  after_loss :
      (calls : List Call)
      → phase (Mode.remove_known id) calls ≡ some Phase.lost
      → is_gone id (event_recorded "" "" ∷ calls) ≡ true
  unfolding follow
  after_loss [] h = absurd (cc)
  after_loss (c ∷ old) h = ground arith

  from_event :
      (p : Option Phase) (c : Call)
      → and_then (Mode.remove_known id) p c ≡ some Phase.gone
      → (kind reason : String) × (c ≡ event_recorded kind reason)
        × ((p ≡ some Phase.removed) ⊎ (p ≡ some Phase.lost))
  unfolding follow
  from_event p c h = ground arith

  is_gone-event :
      (kind reason : String) (calls : List Call)
      → is_gone id (event_recorded "" "" ∷ calls) ≡ true
      → is_gone id (event_recorded kind reason ∷ calls) ≡ true
  is_gone-event kind reason calls h = ground arith

  gone-is_gone :
      (calls : List Call)
      → phase (Mode.remove_known id) calls ≡ some Phase.gone
      → is_gone id calls ≡ true
  gone-is_gone [] h = absurd (cc)
  gone-is_gone (c ∷ old) h =
      let (kind, reason, e, p) = from_event (phase (Mode.remove_known id) old) c h in
      rw e (
        is_gone-event kind reason old
          (elim p [ inl q ↦ after_deletion old q | inr q ↦ after_loss old q ]))

  to_update :
      (p : Option Phase) (d : Route) (e : Option Error)
      → is_some (and_then (Mode.remove_known id) p (updated d e)) ≡ true
      → p ≡ some Phase.gone
  unfolding follow
  to_update p d e h = ground arith

  stored_when_gone :
      (m : Mode) (before : List Call) (d : Route) (e : Option Error)
      → m ≡ Mode.remove_known id
      → is_some (phase m (updated d e ∷ before)) ≡ true
      → is_gone id before ≡ true
  stored_when_gone m before d e k h =
      let h' : is_some (phase (Mode.remove_known id) (updated d e ∷ before)) ≡ true =
        subst (λ x. is_some (phase x (updated d e ∷ before)) ≡ true) k h in
      gone-is_gone before (to_update (phase (Mode.remove_known id) before) d e h')

module _ {W : Type 0} (r : RouteReconciler W) where
  mode-remove_known :
      (route : Route) (id : String)
      → is_some route.meta.deletion_timestamp ≡ true
      → has_finalizer r route ≡ true
      → route.status.route_id ≡ some id
      → mode r route ≡ Mode.remove_known id
  mode-remove_known route id t f k = rw (t, f, k) refl

  -- The object of a route that was fetched, is under deletion, has the operator's finalizer and
  -- the id of a route, is stored only behind an event that stands directly behind a successful
  -- call of `DeleteRoute` for that id or a failed one of `GetRoute` for that id. (`RemoveFinalizer` tells a change of a
  -- list that has the finalizer.)
  pub reconcile_releases_after_removal :
      RemovesFinalizer r.finalizers
      → (key : Key) (w w' : W) (route : Route) (id : String) (after before : List Call) (d : Route)
        (e : Option Error)
      → r.client.get key w ≡ (ok route, w')
      → is_some route.meta.deletion_timestamp ≡ true
      → has_finalizer r route ≡ true
      → route.status.route_id ≡ some id
      → (reconcile r key w).1.calls ≡ after ++ (updated d e ∷ before)
      → is_gone id before ≡ true
  reconcile_releases_after_removal u key w w' route id after before d e g t f k h =
      let m = mode r route in
      let kept = phase_before m after (updated d e ∷ before) (
        rw h at (
          ordered_calls r m (reconcile r key w)
            (route_reconcile-keeps_order r u key w w' route g))) in
      stored_when_gone id m before d e (mode-remove_known route id t f k) kept

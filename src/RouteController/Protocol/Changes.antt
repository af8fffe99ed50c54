-- ===== src/RouteController/Protocol/Changes.antt =====
-- What the order of the calls means for the changes of a route on Mailgun.
use mailgun_operator.Base.{◌≡◌, true, Option, some, ℕ, suc, ◌≤◌, List, [], ◌∷◌, arith, is_some}
use mailgun_operator.Api.Meta.{Key, ok}
use mailgun_operator.Api.RouteTypes.{Route}
use mailgun_operator.RouteController.Run.{
  RouteReconciler, Call, route_created, route_updated, route_deleted,
}
use mailgun_operator.RouteController.Reconcile.{reconcile}
use mailgun_operator.RouteController.Protocol.{Mode, Phase, mode, follow, phase, and_then}
use mailgun_operator.RouteController.Protocol.Order.{
  RemovesFinalizer, ordered_calls, route_reconcile-keeps_order,
}
use mailgun_operator.RouteController.Protocol.Creation.{phase_before}

-- How many calls of `CreateRoute`, `UpdateRoute` and `DeleteRoute` there are.
abbrev pub changes : List Call → ℕ
changes [] = 0
changes (route_created _ _ ∷ calls) = suc (changes calls)
changes (route_updated _ _ _ ∷ calls) = suc (changes calls)
changes (route_deleted _ _ ∷ calls) = suc (changes calls)
changes (_ ∷ calls) = changes calls

-- How many changes may lie behind a phase.
abbrev allowed : Option Phase → ℕ
allowed (some Phase.start) = 0
allowed (some Phase.loaded) = 0
allowed (some Phase.registered) = 0
allowed (some Phase.vetted) = 0
allowed (some Phase.known) = 0
allowed _ = 1

allowed-le : (p : Option Phase) → allowed p ≤ 1
allowed-le p = ground arith

changes_step :
    (m : Mode) (p : Option Phase) (c : Call) (calls : List Call)
    → changes calls ≤ allowed p
    → is_some (and_then m p c) ≡ true
    → changes (c ∷ calls) ≤ allowed (and_then m p c)
unfolding follow
changes_step m p c calls k h = ground arith

changes-le-allowed :
    (m : Mode) (calls : List Call)
    → is_some (phase m calls) ≡ true
    → changes calls ≤ allowed (phase m calls)
changes-le-allowed m [] h = omega arith
changes-le-allowed m (c ∷ calls) h =
    changes_step m (phase m calls) c calls
      (changes-le-allowed m calls (phase_before m (c ∷ []) calls h)) h

module _ {W : Type 0} (r : RouteReconciler W) where
  -- One call of `Reconcile` on an object that was fetched calls `CreateRoute`, `UpdateRoute` and
  -- `DeleteRoute` at most once in all, whatever the API server and Mailgun answer.
  -- (`RemoveFinalizer` tells a change of a list that has the finalizer.)
  pub changes-reconcile :
      RemovesFinalizer r.finalizers
      → (key : Key) (w w' : W) (route : Route) → r.client.get key w ≡ (ok route, w')
      → changes (reconcile r key w).1.calls ≤ 1
  changes-reconcile u key w w' route g =
      let m = mode r route in
      let kept =
        ordered_calls r m (reconcile r key w) (route_reconcile-keeps_order r u key w w' route g) in
      omega (
        arith,
        changes-le-allowed m (reconcile r key w).1.calls kept,
        allowed-le (phase m (reconcile r key w).1.calls),
      )

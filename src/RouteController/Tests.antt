-- ===== src/RouteController/Tests.antt =====
-- Runs of the routes' reconciler in a small world.
use mailgun_operator.Base.{◌≡◌, ◌≤◌, refl, ◌↔◌, true, false, none, some, List, [], ◌∷◌}
use mailgun_operator.Base.Int.{pos}
use mailgun_operator.Base.Lists.{contains}
use mailgun_operator.Base.Exec.{done}
use mailgun_operator.Controller.{reply_of}
use mailgun_operator.RouteController.Run.{
  Run, updated, status_updated, route_created, Call, event_recorded, route_deleted, fetched,
  domain_read, route_read,
}
use mailgun_operator.Api.RouteTypes.{Route}
use mailgun_operator.RouteController.Sync.{route_request, needs_update, sync}
use mailgun_operator.RouteController.Reconcile.{reconcile}
use mailgun_operator.RouteController.Protocol.{mode}
use mailgun_operator.RouteController.Protocol.Order.{
  RemovesFinalizer, keeps_order, route_reconcile-keeps_order,
}
use mailgun_operator.RouteController.Protocol.Creation.{reconcile_creates_after_active}
use mailgun_operator.RouteController.Protocol.Removal.{is_gone, reconcile_releases_after_removal}
use mailgun_operator.RouteController.Protocol.Changes.{changes, changes-reconcile}
use mailgun_operator.RouteController.Adoption.{with_id, with_finalizer, sync-with_id}
use mailgun_operator.RouteController.Update.{InLine, needs_update_iff}
use mailgun_operator.RouteController.Simulation.{
  named, World, reconciler, finalizers, key, mg, spec, fresh, deleted, holding, forwarding,
}

finalizers-RemovesFinalizer : RemovesFinalizer finalizers
finalizers-RemovesFinalizer = record { reports = λ l f h. h }

-- A route is created once its domain is active, and its id is stored.
fresh-route_id :
    (reconcile reconciler key (holding fresh "active" none)).1.object.status.route_id ≡ some "r1"
unfolding reconcile contains
fresh-route_id = refl

-- Until then it is tried again.
waiting-reply : (reconcile reconciler key (holding fresh "unverified" none)).1.world.created ≡ none
unfolding reconcile contains
waiting-reply = refl

route_reconcile-keeps_order_example :
    keeps_order reconciler
      (mode reconciler deleted)
      (reconcile reconciler key (holding deleted "active" (some forwarding)))
    ≡ true
route_reconcile-keeps_order_example =
    route_reconcile-keeps_order reconciler finalizers-RemovesFinalizer key
      (holding deleted "active" (some forwarding)) (holding deleted "active" (some forwarding))
      deleted refl

abbrev calls_of : World → List Call
calls_of w = (reconcile reconciler key w).1.calls

abbrev newest : List Call → List Call
newest [] = []
newest (c ∷ []) = c ∷ []
newest (c ∷ c' ∷ calls) = c ∷ c' ∷ []

reconcile_creates_after_active_example :
    (old : List Call) × (domain_read "example.com" (some "active") ∷ fetched key none ∷ []
      ≡ domain_read "example.com" (some "active") ∷ old)
unfolding reconcile contains route_request
reconcile_creates_after_active_example =
    reconcile_creates_after_active reconciler finalizers-RemovesFinalizer key
      (holding fresh "active" none) (holding fresh "active" none) fresh
      (newest (calls_of (holding fresh "active" none)))
      (domain_read "example.com" (some "active") ∷ fetched key none ∷ []) (route_request spec) none
      refl refl refl

needs_update_iff_example :
    (needs_update forwarding (route_request spec) ≡ false) ↔ InLine forwarding (route_request spec)
needs_update_iff_example = needs_update_iff forwarding (route_request spec)

abbrev removal : World
removal = holding deleted "active" (some forwarding)

abbrev released : Route
released = (reconcile reconciler key removal).1.object

reconcile_releases_after_removal_example :
    is_gone "r1" (
      event_recorded "Warning" "Deleted"
      ∷ route_deleted "r1" none
      ∷ route_read "r1" none
      ∷ fetched key none
      ∷ [])
    ≡ true
unfolding reconcile contains
reconcile_releases_after_removal_example =
    reconcile_releases_after_removal reconciler finalizers-RemovesFinalizer key removal removal
      deleted "r1" []
      (event_recorded "Warning" "Deleted"
        ∷ route_deleted "r1" none
        ∷ route_read "r1" none
        ∷ fetched key none
        ∷ [])
      released none refl refl refl refl refl

changes-reconcile_example : changes (calls_of removal) ≤ 1
changes-reconcile_example =
    changes-reconcile reconciler finalizers-RemovesFinalizer key removal removal deleted refl

abbrev unregistered : Route
unregistered = record fresh { meta = record fresh.meta { finalizers = [] } }

abbrev created : Route
created = with_id unregistered "r1"

abbrev created_run : Run World
created_run = record {
  world = holding unregistered "active" none;
  object = unregistered;
  calls = [];
}

sync-with_id_example : sync reconciler mg created_run ≡ (
  done (reply_of (pos 0) none),
  record {
    world =
        holding (with_finalizer reconciler created) "active" (some (named (route_request spec)));
    object = with_finalizer reconciler created;
    calls =
        updated (with_finalizer reconciler created) none
        ∷ status_updated created none
        ∷ route_created (route_request spec) none
        ∷ [];
  },
)
unfolding contains
sync-with_id_example =
    sync-with_id reconciler mg created_run (named (route_request spec)) created
      (with_finalizer reconciler created)
      (holding unregistered "active" (some (named (route_request spec))))
      (holding created "active" (some (named (route_request spec))))
      (holding (with_finalizer reconciler created) "active" (some (named (route_request spec))))
      refl refl refl refl refl

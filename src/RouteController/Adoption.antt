-- ===== src/RouteController/Adoption.antt =====
-- What is stored of a route that Mailgun has created.
use mailgun_operator.Base.{◌≡◌, String, false, Option, none, some, ◌∷◌, arith}
use mailgun_operator.Base.Int.{pos}
use mailgun_operator.Base.Exec.{Exit, done, panic}
use mailgun_operator.Api.Meta.{ok}
use mailgun_operator.Api.RouteTypes.{Route}
use mailgun_operator.External.{MailgunClient, MailgunRoute}
use mailgun_operator.Controller.{Reply, reply_of}
use mailgun_operator.RouteController.Run.{
  RouteReconciler, Run, updated, status_updated, route_created, route_finalizer,
}
use mailgun_operator.RouteController.Delete.{has_finalizer}
use mailgun_operator.RouteController.Sync.{route_request, sync}

abbrev pub with_id : Route → String → Route
with_id route id = record route { status = record route.status { route_id = some id } }

module _ {W : Type 0} (r : RouteReconciler W) where
  abbrev pub with_finalizer : Route → Route
  with_finalizer route = record route {
    meta = record route.meta {
      finalizers = r.finalizers.add route.meta.finalizers route_finalizer;
    };
  }

-- The run ends as asked if the id is in the object that was answered last, and in a panic if not.
abbrev pub adoption_exit : Option String → Exit Reply Reply
adoption_exit none = panic
adoption_exit (some _) = done (reply_of (pos 0) none)

module _ {W : Type 0} (r : RouteReconciler W) (mg : MailgunClient) (s : Run W) where
  -- For an object without the id of a route, whose request Mailgun accepts, the id of the new
  -- route is stored in the status. Then the object that the API server answers is stored with
  -- the finalizer, which it did not have. (Both are stored without an error.) The run ends without
  -- an error if the object that is answered to that has the id of a route, and in a panic if not.
  pub sync-with_id :
      (x : MailgunRoute) (route' route'' : Route) (w w' w'' : W)
      → s.object.status.route_id ≡ none
      → r.mailgun.create_route mg (route_request s.object.spec) s.world ≡ (ok x, w)
      → r.client.status_update (with_id s.object x.id) w ≡ (ok route', w')
      → has_finalizer r route' ≡ false
      → r.client.update (with_finalizer r route') w' ≡ (ok route'', w'')
      → sync r mg s ≡ (
        adoption_exit route''.status.route_id,
        record {
          world = w'';
          object = route'';
          calls =
              updated (with_finalizer r route') none
              ∷ status_updated (with_id s.object x.id) none
              ∷ route_created (route_request s.object.spec) none
              ∷ s.calls;
        },
      )
  unfolding sync
  sync-with_id x route' route'' w w' w'' k c u f v = ground arith

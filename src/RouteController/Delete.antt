-- ===== src/RouteController/Delete.antt =====
-- The branch of `Reconcile` for a route that is being deleted.
use mailgun_operator.Base.{String, Bool, Option, none, some}
use mailgun_operator.Base.Int.{pos}
use mailgun_operator.Base.Exec.{M, ◌>>=◌, ◌>>◌, next, pure, return, gets, when, if_some, deref}
use mailgun_operator.Api.Meta.{Res, if_failed}
use mailgun_operator.Api.RouteTypes.{Route}
use mailgun_operator.External.{MailgunClient, MailgunRoute}
use mailgun_operator.Controller.{Reply, reply_of, check_reply, on_object}
use mailgun_operator.RouteController.Run.{
  RouteReconciler, Run, updated, status_updated, get_route, delete_route, route_finalizer,
  set_status, eventf,
}

module _ {W : Type 0} (r : RouteReconciler W) where
  -- `controllerutil.ContainsFinalizer`
  abbrev pub has_finalizer : Route → Bool
  has_finalizer route = r.finalizers.has route.meta.finalizers route_finalizer

  -- `controllerutil.RemoveFinalizer`
  abbrev pub remove_finalizer : M (Run W) Reply Bool
  remove_finalizer s =
      let (l, changed) = r.finalizers.remove s.object.meta.finalizers route_finalizer in
      (
        next changed,
        record s { object = record s.object { meta = record s.object.meta { finalizers = l } } },
      )

  abbrev pub update_route_object : M (Run W) Reply (Unit {0})
  update_route_object = do e ← on_object updated r.client.update; check_reply e

  -- `if controllerutil.RemoveFinalizer(…) { … return ctrl.Result{}, nil }`
  unfoldable pub release : M (Run W) Reply (Unit {0})
  release = do
    changed ← remove_finalizer
    when changed do update_route_object; return (reply_of (pos 0) none)

  -- `if mailgunRoute.Status.RouteID == nil`
  unfoldable pub release_if_absent : Option String → M (Run W) Reply (Unit {0})
  unfolding release
  release_if_absent id = if_some id (λ _. pure tt) release

  -- The answer to `GetRoute`.
  unfoldable pub release_if_gone : Res MailgunRoute → M (Run W) Reply (Unit {0})
  unfolding release
  release_if_gone found =
      if_failed found
        (λ _. do eventf r "Warning" "Deleted" "Route is already deleted on mailgun"; release)
        (λ _. pure tt)

  -- The answer to `DeleteRoute`.
  unfoldable pub report_deletion : Res (Unit {0}) → M (Run W) Reply (Unit {0})
  report_deletion answer =
      if_failed answer
        (λ e. do
          set_status (λ status. record status {
            mailgun_error = some "Unable to delete route from Mailgun";
          })
          e' ← on_object status_updated r.client.status_update
          check_reply e'
          return (reply_of (pos 0) (some e)))
        (λ _. pure tt)

  -- The part behind the first test on the route's id.
  unfoldable pub remove_route : MailgunClient → M (Run W) Reply (Unit {0})
  unfolding release_if_gone report_deletion
  remove_route mg = do
    id ← deref (← gets (λ s. s.object.status.route_id))
    found ← get_route r mg id
    release_if_gone found
    id' ← deref (← gets (λ s. s.object.status.route_id))
    answer ← delete_route r mg id'
    report_deletion answer
    eventf r "Warning" "Deleted" "Route is deleted from mailgun"
    _ ← remove_finalizer
    update_route_object
    return (reply_of (pos 0) none)

  unfoldable pub finalize : MailgunClient → M (Run W) Reply (Unit {0})
  unfolding release_if_absent remove_route
  finalize mg = do
    route ← gets (λ s. s.object)
    when (has_finalizer route) do release_if_absent route.status.route_id; remove_route mg

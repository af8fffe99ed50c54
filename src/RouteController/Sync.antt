-- ===== src/RouteController/Sync.antt =====
-- The branches of `Reconcile` that bring a route on Mailgun in line with its object.
use mailgun_operator.Base.{
  String, Bool, not, ◌||◌, Option, none, some, ◌*◌, ◌^◌, ◌==◌, nat_eq, if◌then◌else◌, is_empty,
}
use mailgun_operator.Base.Int.{ℤ, pos, int_eq}
use mailgun_operator.Base.Lists.{length}
use mailgun_operator.Base.Exec.{M, ◌>>=◌, ◌>>◌, pure, return, gets, when, if_else, if_some, deref}
use mailgun_operator.Api.Meta.{Res, if_failed}
use mailgun_operator.Api.RouteTypes.{RouteSpec}
use mailgun_operator.External.{MailgunClient, MailgunRoute, DomainResponse}
use mailgun_operator.Controller.{Reply, reply_of, check_reply, request, on_object}
use mailgun_operator.RouteController.Run.{
  RouteReconciler, Run, status_updated, get_domain, get_route, create_route, update_route,
  route_finalizer, set_status, set_finalizers, eventf,
}
use mailgun_operator.RouteController.Delete.{has_finalizer, update_route_object}

-- `n * time.Minute`, in nanoseconds.
abbrev pub five_minutes : ℤ
five_minutes = pos (300 * 10 ^ 9)

abbrev pub one_minute : ℤ
one_minute = pos (60 * 10 ^ 9)

abbrev pub priority_or_zero : Option ℤ → ℤ
priority_or_zero none = pos 0
priority_or_zero (some z) = if int_eq z (pos 0) then pos 0 else z

-- `routeRequest`
unfoldable pub route_request : RouteSpec → MailgunRoute
route_request spec = record {
  id = "";
  priority = priority_or_zero spec.priority;
  description = spec.description;
  expression = spec.expression;
  actions = spec.actions;
}

-- The test that sets `update`.
unfoldable pub needs_update : MailgunRoute → MailgunRoute → Bool
needs_update existing request =
    not (existing.description == request.description)
    || not (existing.expression == request.expression)
    || not (nat_eq (length existing.actions) (length request.actions))
    || not (int_eq existing.priority request.priority)

module _ {W : Type 0} (r : RouteReconciler W) where
  abbrev report_and_requeue : String → ℤ → M (Run W) Reply (Unit {0})
  report_and_requeue message z = do
    set_status (λ status. record status { mailgun_error = some message })
    e ← on_object status_updated r.client.status_update
    check_reply e
    return (reply_of z none)

  -- The answer to `GetDomain`.
  abbrev require_active : Res DomainResponse → M (Run W) Reply (Unit {0})
  require_active found =
      if_failed found (λ _. report_and_requeue "Domain is not exist on mailgun" five_minutes)
        λ resp.
          when (not (resp.state == "active"))
            (report_and_requeue "Domain is not active yet" five_minutes)

  -- `if len(routeDomain) > 0`
  unfoldable pub await_domain : MailgunClient → String → M (Run W) Reply (Unit {0})
  await_domain mg domain =
      when (not (is_empty domain)) do resp ← get_domain r mg domain; require_active resp

  -- The answer to `UpdateRoute`.
  abbrev report_update : Res (Unit {0}) → M (Run W) Reply (Unit {0})
  report_update answer =
      if_failed answer
        (λ e. do
          set_status (λ status. record status { mailgun_error = some "Unable to update route" })
          e' ← on_object status_updated r.client.status_update
          check_reply e'
          return (reply_of (pos 0) (some e)))
        (λ _. pure tt)

  -- The answer to `GetRoute`.
  abbrev update_if_needed :
      MailgunClient → String → MailgunRoute → Res MailgunRoute → M (Run W) Reply Reply
  update_if_needed mg id wanted found =
      if_failed found (λ _. return (reply_of (pos 0) none))
        λ existing. do
          when (needs_update existing wanted) do
            id' ← deref (← gets (λ s. s.object.status.route_id))
            answer ← update_route r mg id' wanted
            report_update answer
          return (reply_of (pos 0) none)

  unfoldable pub update_existing : MailgunClient → String → MailgunRoute → M (Run W) Reply Reply
  update_existing mg id wanted = do
    existing ← get_route r mg id
    update_if_needed mg id wanted existing

  -- The answer to `CreateRoute`.
  abbrev adopt : Res MailgunRoute → M (Run W) Reply Reply
  adopt answer =
      if_failed answer
        (λ _. do
          eventf r "Warning" "FailedCreate" "Unable to create route"
          set_status (λ status. record status { mailgun_error = some "Unable to create route" })
          e' ← on_object status_updated r.client.status_update
          check_reply e'
          return (reply_of one_minute none))
        λ created. do
          set_status (λ status. record status { route_id = some created.id })
          e ← on_object status_updated r.client.status_update
          check_reply e
          route ← gets (λ s. s.object)
          when (not (has_finalizer r route))
              (set_finalizers (r.finalizers.add route.meta.finalizers route_finalizer))
          update_route_object r
          -- The id is an argument of the last log message.
          _ ← deref (← gets (λ s. s.object.status.route_id))
          return (reply_of (pos 0) none)

  unfoldable pub create : MailgunClient → MailgunRoute → M (Run W) Reply Reply
  create mg wanted = do created ← create_route r mg wanted; adopt created

  -- `mailgunRoute.Status.RouteID != nil && len(*mailgunRoute.Status.RouteID) > 0`
  abbrev pub sync_known : MailgunClient → MailgunRoute → Option String → M (Run W) Reply Reply
  sync_known mg wanted known =
      if_some known (λ id. if_else (is_empty id) (create mg wanted) (update_existing mg id wanted))
        (create mg wanted)

  unfoldable pub sync : MailgunClient → M (Run W) Reply Reply
  unfolding update_existing create
  sync mg = do
    route ← gets (λ s. s.object)
    sync_known mg (route_request route.spec) route.status.route_id

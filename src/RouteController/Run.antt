-- ===== src/RouteController/Run.antt =====
-- The fields of the routes' reconciler, and the calls that it makes.
use mailgun_operator.Base.{String, Option, none, some, List}
use mailgun_operator.Base.Exec.{M, next}
use mailgun_operator.Api.Meta.{Key, Error, Res, ok, err}
use mailgun_operator.Api.RouteTypes.{Route, RouteStatus}
use mailgun_operator.External.{
  ApiBases, MailgunClient, DomainResponse, MailgunRoute, ObjectClient, FinalizerUtil, RouteApi,
  Recorder,
}
use mailgun_operator.Configuration.{Data}
use mailgun_operator.Controller
use mailgun_operator.Controller.{request, question, record_event}

-- A call and the error that it returned; for `GetDomain` the state that it answered, if it did.
pub data Call : Type 0 where
  fetched : Key → Option Error → Call
  updated : Route → Option Error → Call
  status_updated : Route → Option Error → Call
  event_recorded : String → String → Call
  domain_read : String → Option String → Call
  route_read : String → Option Error → Call
  route_created : MailgunRoute → Option Error → Call
  route_updated : String → MailgunRoute → Option Error → Call
  route_deleted : String → Option Error → Call

-- The fields of `RouteReconciler`, and the libraries that its methods call.
pub record RouteReconciler (W : Type 0) : Type 0 where
  pub client : ObjectClient W Route
  pub finalizers : FinalizerUtil
  pub recorder : Recorder W
  pub mailgun : RouteApi W
  pub bases : ApiBases
  pub config : Data

abbrev pub Run : Type 0 → Type 0
Run W = Controller.Run W Route Call

abbrev pub state_of : Res DomainResponse → Option String
state_of (ok resp) = some resp.state
state_of (err e) = none

-- The calls of Mailgun, each recorded with what it is made with.
module _ {W R : Type 0} (r : RouteReconciler W) (mg : MailgunClient) where
  abbrev pub get_domain : String → M (Run W) R (Res DomainResponse)
  get_domain name = question (λ x. domain_read name (state_of x)) (r.mailgun.get_domain mg name)

  abbrev pub get_route : String → M (Run W) R (Res MailgunRoute)
  get_route id = request (route_read id) (r.mailgun.get_route mg id)

  abbrev pub create_route : MailgunRoute → M (Run W) R (Res MailgunRoute)
  create_route x = request (route_created x) (r.mailgun.create_route mg x)

  abbrev pub update_route : String → MailgunRoute → M (Run W) R (Res (Unit {0}))
  update_route id x = request (route_updated id x) (r.mailgun.update_route mg id x)

  abbrev pub delete_route : String → M (Run W) R (Res (Unit {0}))
  delete_route id = request (route_deleted id) (r.mailgun.delete_route mg id)

abbrev pub route_finalizer : String
route_finalizer = "route.finalizers.mailgun.com"

module _ {W R : Type 0} where
  abbrev pub set_status : (RouteStatus → RouteStatus) → M (Run W) R (Unit {0})
  set_status f s = (next tt, record s { object = record s.object { status = f s.object.status } })

  abbrev pub set_finalizers : List String → M (Run W) R (Unit {0})
  set_finalizers l s = (
    next tt,
    record s { object = record s.object { meta = record s.object.meta { finalizers = l } } },
  )

  -- `r.Recorder.Eventf`
  abbrev pub eventf : RouteReconciler W → String → String → String → M (Run W) R (Unit {0})
  eventf r kind reason message =
      record_event (event_recorded kind reason) (r.recorder.record_event kind reason message)

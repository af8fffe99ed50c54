-- ===== src/Api/DeepCopy/Route/Parts.antt =====
-- The copies of a route's specification and status stand for the same values, by new cells alone.
use mailgun_operator.Api.RouteTypes.{RouteSpec, RouteStatus}
use mailgun_operator.Api.DeepCopy.Memory.{Heap}
use mailgun_operator.Api.DeepCopy.Runs.{Grows, Runs}
use mailgun_operator.Api.DeepCopy.Copies.Pointers.{shown-stays}
use mailgun_operator.Api.DeepCopy.Copies.Slices.{listed-stays}
use mailgun_operator.Api.DeepCopy.Copies.Elements.{IsDeepCopy}
use mailgun_operator.Api.DeepCopy.Copies.Steps.{◌>>=◌, run, finish, pointer_copied, slice_copied}
use mailgun_operator.Api.DeepCopy.Structs.{Library, RouteSpecStruct, RouteStatusStruct}
use mailgun_operator.Api.DeepCopy.Storage.{Cell, int_storable, text_storable, texts_storable}
use mailgun_operator.Api.DeepCopy.Route.{route_spec_deep_copy_into, route_status_deep_copy_into}
use mailgun_operator.Api.DeepCopy.Route.Shows.{ShowsSpec, ShowsStatus}

module _ {L : Library} where
  ShowsSpec-stays :
      (x : RouteSpecStruct) (v : RouteSpec) {h k : Heap (Cell L)}
      → ShowsSpec x v h
      → Grows h k
      → ShowsSpec x v k
  ShowsSpec-stays x v s g = record {
    description = s.description;
    expression = s.expression;
    actions = listed-stays x.actions v.actions s.actions g;
    priority = shown-stays x.priority v.priority s.priority g;
    domain = shown-stays x.domain v.domain s.domain g;
  }

  spec_copied :
      (x : RouteSpecStruct) (v : RouteSpec) (h : Heap (Cell L))
      → ShowsSpec x v h
      → Runs h (route_spec_deep_copy_into x h) (λ y k. ShowsSpec y v k)
  unfolding route_spec_deep_copy_into
  spec_copied x v h s = run (do
    _ ← slice_copied x.actions s.actions
    _ ← pointer_copied x.priority s.priority
    _ ← pointer_copied x.domain s.domain
    finish (λ k shows_domain shows_priority shows_actions. record {
      description = s.description;
      expression = s.expression;
      actions = shows_actions;
      priority = shows_priority;
      domain = shows_domain;
    }))

  pub ShowsSpec-IsDeepCopy : IsDeepCopy (ShowsSpec {L = L}) route_spec_deep_copy_into
  ShowsSpec-IsDeepCopy = record { copies = spec_copied; stays = ShowsSpec-stays }

  ShowsStatus-stays :
      (x : RouteStatusStruct) (v : RouteStatus) {h k : Heap (Cell L)}
      → ShowsStatus x v h
      → Grows h k
      → ShowsStatus x v k
  ShowsStatus-stays x v s g = record {
    route_id = shown-stays x.route_id v.route_id s.route_id g;
    mailgun_error = shown-stays x.mailgun_error v.mailgun_error s.mailgun_error g;
  }

  status_copied :
      (x : RouteStatusStruct) (v : RouteStatus) (h : Heap (Cell L))
      → ShowsStatus x v h
      → Runs h (route_status_deep_copy_into x h) (λ y k. ShowsStatus y v k)
  unfolding route_status_deep_copy_into
  status_copied x v h s = run (do
    _ ← pointer_copied x.route_id s.route_id
    _ ← pointer_copied x.mailgun_error s.mailgun_error
    finish (λ k shows_error shows_id. record { route_id = shows_id; mailgun_error = shows_error }))

  pub ShowsStatus-IsDeepCopy : IsDeepCopy (ShowsStatus {L = L}) route_status_deep_copy_into
  ShowsStatus-IsDeepCopy = record { copies = status_copied; stays = ShowsStatus-stays }

-- ===== src/RouteController/Protocol.antt =====
-- The order of the calls of one `Reconcile` of a route, as a state machine that is written without
-- looking at the program. It depends on what the object asks for.
pub mod Stages
pub mod Order
pub mod Creation
pub mod Removal
pub mod Changes
use mailgun_operator.Base.{
  String, Bool, true, false, Option, none, some, List, [], ◌∷◌, ◌==◌, ◌&&◌, is_some, is_empty,
  if◌then◌else◌,
}
use mailgun_operator.Api.Meta.{Error}
use mailgun_operator.Api.RouteTypes.{Route}
use mailgun_operator.RouteController.Run.{
  RouteReconciler, Call, fetched, updated, status_updated, event_recorded, domain_read, route_read,
  route_created, route_updated, route_deleted,
}
use mailgun_operator.RouteController.Delete.{has_finalizer}
use mailgun_operator.RouteController.Reconcile.{route_domain}

-- `remove`: the object is being deleted and has the finalizer, with the id of a route or without
-- one. `gated`: the route waits for a domain of that name. `free`: it names none.
pub data Mode : Type 0 where
  remove_known : String → Mode
  gated : String → Mode
  remove_unknown free : Mode

abbrev removing : Option String → Mode
removing none = Mode.remove_unknown
removing (some id) = Mode.remove_known id

abbrev pub mode : {W : Type 0} → RouteReconciler W → Route → Mode
mode r route =
    if is_some route.meta.deletion_timestamp && has_finalizer r route
    then removing route.status.route_id
    else if is_empty (route_domain route)
    then Mode.free
    else Mode.gated (route_domain route)

-- `vetted`: the domain is active; `blocked`: it is not. `known`: Mailgun has the route; `lost`: it
-- had no answer for it. `made`: the route is created, `stored`: its id is stored, `adopted`: so is
-- the finalizer. `removed`: the route is deleted. `gone`: that is recorded. In `adopted` and
-- `halted` no call may follow.
pub data Phase : Type 0 where
  start loaded registered vetted blocked known lost made stored adopted : Phase
  removed gone failed failing halted : Phase

abbrev pub by_error : Option Error → Phase → Phase → Option Phase
by_error none p q = some p
by_error (some _) p q = some q

abbrev pub by_state : Option String → Option Phase
by_state none = some Phase.blocked
by_state (some state) = some (if state == "active" then Phase.vetted else Phase.blocked)

-- The answer about the domain that is waited for.
abbrev pub by_domain : Bool → Option String → Option Phase
by_domain true state = by_state state
by_domain false state = none

-- A call about the route of the object, and one about another.
abbrev pub by_route : Bool → Option Error → Phase → Phase → Option Phase
by_route true e p q = by_error e p q
by_route false e p q = none

-- The calls of a route that may be used: reading and creating it.
abbrev pub use_route : Call → Option Phase
use_route (route_read _ e) = by_error e Phase.known Phase.halted
use_route (route_created _ e) = by_error e Phase.made Phase.failed
use_route _ = none

-- The phase that a call leads to; `none` if it must not be made.
unfoldable pub follow : Mode → Phase → Call → Option Phase
follow _ start (fetched _ e) = by_error e Phase.loaded Phase.halted
follow remove_unknown loaded (updated _ _) = some halted
follow (remove_known id) loaded (route_read i e) = by_route (i == id) e Phase.known Phase.lost
follow (remove_known id) known (route_deleted i e) =
    by_route (i == id) e Phase.removed Phase.failing
follow (remove_known _) lost (event_recorded _ _) = some gone
follow (remove_known _) removed (event_recorded _ _) = some gone
follow (remove_known _) gone (updated _ _) = some halted
follow (gated _) loaded (updated _ e) = by_error e Phase.registered Phase.halted
follow (gated domain) loaded (domain_read name state) = by_domain (name == domain) state
follow (gated domain) registered (domain_read name state) = by_domain (name == domain) state
follow (gated _) blocked (status_updated _ _) = some halted
follow (gated _) vetted c = use_route c
follow free loaded (updated _ e) = by_error e Phase.registered Phase.halted
follow free loaded c = use_route c
follow free registered c = use_route c
follow (gated _) known (route_updated _ _ e) = by_error e Phase.halted Phase.failing
follow free known (route_updated _ _ e) = by_error e Phase.halted Phase.failing
follow (gated _) made (status_updated _ e) = by_error e Phase.stored Phase.halted
follow free made (status_updated _ e) = by_error e Phase.stored Phase.halted
follow (gated _) stored (updated _ e) = by_error e Phase.adopted Phase.halted
follow free stored (updated _ e) = by_error e Phase.adopted Phase.halted
follow (gated _) failed (event_recorded _ _) = some failing
follow free failed (event_recorded _ _) = some failing
follow _ failing (status_updated _ _) = some halted
follow _ _ _ = none

abbrev pub and_then : Mode → Option Phase → Call → Option Phase
and_then m none c = none
and_then m (some p) c = follow m p c

-- The phase after the calls, newest first, of a run; `none` if they break the order.
abbrev pub phase : Mode → List Call → Option Phase
phase m [] = some Phase.start
phase m (c ∷ calls) = and_then m (phase m calls) c

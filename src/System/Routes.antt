-- ===== src/System/Routes.antt =====
-- The routes' reconciler against the mock server: what the library sends for its calls, and what
-- the server does not share.
pub mod Requests
pub mod Methods
pub mod Others
mod Tests
use mailgun_operator.Base.{◌≡◌, String, Option, none, some, List, [], ◌∷◌}
use mailgun_operator.Base.Dict.{Dict}
use mailgun_operator.Api.Meta.{ok}
use mailgun_operator.Api.RouteTypes.{Route}
use mailgun_operator.External.{MailgunClient, MailgunRoute, RouteApi, ObjectClient}
use mailgun_operator.RouteController.Run.{RouteReconciler}
use mailgun_operator.MockServer.{MockServer, Surroundings}
use mailgun_operator.MockServer.Http.{Request}
use mailgun_operator.MockServer.Serve.{serve}
use mailgun_operator.System.{domain_request}

-- A request about one route.
abbrev pub route_request : String → MailgunClient → String → Dict (List String) → Request
route_request method mg id form = record (domain_request method mg id) {
  path = "v4" ∷ "routes" ∷ id ∷ [];
  form = form;
}

-- The methods of a client whose base is the server's URL send one request each, an update one
-- with some form.
pub record ServesRoutes {W : Type 0} (mailgun : RouteApi W) (url : String) (server : W → MockServer)
    (around : W → Surroundings) : Type 0 where
  pub get_domain-sent :
      (mg : MailgunClient) (name : String) (w : W)
      → mg.api_base ≡ url
      → server (mailgun.get_domain mg name w).1
        ≡ (serve (domain_request "GET" mg name) (around w) (server w)).1
  pub get_route-sent :
      (mg : MailgunClient) (id : String) (w : W)
      → mg.api_base ≡ url
      → server (mailgun.get_route mg id w).1
        ≡ (serve (route_request "GET" mg id []) (around w) (server w)).1
  pub update_route-sent :
      (mg : MailgunClient) (id : String) (x : MailgunRoute) (w : W)
      → mg.api_base ≡ url
      → (form : Dict (List String)) × (server (mailgun.update_route mg id x w).1
          ≡ (serve (route_request "PUT" mg id form) (around w) (server w)).1)
  pub delete_route-sent :
      (mg : MailgunClient) (id : String) (w : W)
      → mg.api_base ≡ url
      → server (mailgun.delete_route mg id w).1
        ≡ (serve (route_request "DELETE" mg id []) (around w) (server w)).1

-- Any other call leaves the server alone.
pub record RoutesApart {W : Type 0} (r : RouteReconciler W) (server : W → MockServer) : Type 0 where
  pub update-apart : (d : Route) (w : W) → server (r.client.update d w).1 ≡ server w
  pub status_update-apart : (d : Route) (w : W) → server (r.client.status_update d w).1 ≡ server w
  pub record_event-apart :
      (kind reason message : String) (w : W)
      → server (r.recorder.record_event kind reason message w) ≡ server w

-- An object that is stored is answered with the id of the route that it was sent with.
pub record KeepsId {W : Type 0} (client : ObjectClient W Route) : Type 0 where
  pub update-id :
      (d d' : Route) (w : W)
      → (client.update d w).0 ≡ ok d'
      → d'.status.route_id ≡ d.status.route_id
  pub status_update-id :
      (d d' : Route) (w : W)
      → (client.status_update d w).0 ≡ ok d'
      → d'.status.route_id ≡ d.status.route_id

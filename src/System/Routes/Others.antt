-- ===== src/System/Routes/Others.antt =====
-- The routes' reconciler leaves other routes alone.
use mailgun_operator.Base.{◌≡◌, refl, String, ◌==◌, false, Option, some, is_empty}
use mailgun_operator.Base.Exec.Leads.{After-all, Leads-bind}
use mailgun_operator.Api.Meta.{Key, ok}
use mailgun_operator.Api.RouteTypes.{Route}
use mailgun_operator.External.{MailgunRoute}
use mailgun_operator.Configuration.{mailgun_client}
use mailgun_operator.RouteController.Run.{RouteReconciler, Run}
use mailgun_operator.RouteController.Reconcile.{
  route_domain, examine_deletion, advance, process, reconcile, loaded, reconcile-fetched,
}
use mailgun_operator.MockServer.{MockServer, Surroundings}
use mailgun_operator.MockServer.Routes.Entries.{table}
use mailgun_operator.System.Routes.{ServesRoutes, RoutesApart, KeepsId}
use mailgun_operator.System.Routes.Methods.{Kept, examine_deletion-Fine, advance-Fine}

module _ {W : Type 0} (r : RouteReconciler W) (url : String) (server : W → MockServer)
    (around : W → Surroundings) (served : ServesRoutes r.mailgun url server around)
    (apart : RoutesApart r server) (keeps : KeepsId r.client) (id j : String)
    (t : Option MailgunRoute) (named : is_empty id ≡ false) (other : (id == j) ≡ false) where
  abbrev Fine : Run W → Type 0
  Fine = Kept server id j t

  process-Fine :
      (s : Run W)
      → (mailgun_client r.bases r.config (route_domain s.object)).api_base ≡ url
      → Fine s
      → Fine (process r s).1
  unfolding process
  process-Fine s here l =
      let name = route_domain s.object in
      let mg = mailgun_client r.bases r.config name in
      After-all Fine (process r s) (
        (Leads-bind (examine_deletion r mg) (λ _. advance r mg name)
            (examine_deletion-Fine r url server around served apart keeps id j t named other mg
              here)
            (λ _.
              advance-Fine r url server around served apart keeps id j t named other mg name
                here)).at
          s l)

module _ {W : Type 0} (r : RouteReconciler W) (url : String) (server : W → MockServer)
    (around : W → Surroundings) (served : ServesRoutes r.mailgun url server around)
    (apart : RoutesApart r server) (keeps : KeepsId r.client) where
  -- The routes' reconciler against the mock server, with the server's URL in its settings: however
  -- a run on an object with the id of a route ends, an error or a panic included, it leaves each
  -- other route of the server as it is, and adds none. The library sends one request for each call,
  -- the other calls leave the server alone, and an object that is stored keeps its id.
  pub reconcile-others :
      (key : Key) (w w' : W) (d : Route) (id j : String)
      → r.client.get key w ≡ (ok d, w')
      → d.status.route_id ≡ some id
      → is_empty id ≡ false
      → (id == j) ≡ false
      → (mailgun_client r.bases r.config (route_domain d)).api_base ≡ url
      → table (server (reconcile r key w).1.world) j ≡ table (server w') j
  reconcile-others key w w' d id j g known named other here =
      rw (reconcile-fetched r key w w' d g)
        (process-Fine r url server around served apart keeps id j (table (server w') j) named other
          (loaded r key d w') here (refl, known)).0

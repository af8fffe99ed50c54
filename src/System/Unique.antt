-- ===== src/System/Unique.antt =====
-- The operator makes no second domain of a name.
pub mod Requests
pub mod Steps
pub mod Calls
pub mod Methods
pub mod Creation
pub mod Histories
use mailgun_operator.Base.{ℕ, ◌≡◌, refl, String, ◌==◌, false, is_empty}
use mailgun_operator.Base.Exec.{◌>>=◌}
use mailgun_operator.Base.Exec.Leads.{After, After-all, Leads, Leads-bind}
use mailgun_operator.Api.Meta.{Key, ok}
use mailgun_operator.Api.DomainTypes.{Domain}
use mailgun_operator.Configuration.{mailgun_client}
use mailgun_operator.DomainController.Run.{DomainReconciler, Run}
use mailgun_operator.DomainController.Reconcile.{
  examine_deletion, advance, process, reconcile, loaded, reconcile-fetched,
}
use mailgun_operator.MockServer.{MockServer, Surroundings}
use mailgun_operator.System.{ServedBy, IsApart, KeepsName}
use mailgun_operator.System.Unique.Requests.{Unique}
use mailgun_operator.System.Unique.Steps.{Good}
use mailgun_operator.System.Unique.Methods.{examine_deletion-Fine}
use mailgun_operator.System.Unique.Creation.{advance-Fine}

module _ {W Endpoint : Type 0} (r : DomainReconciler W Endpoint) (url : String)
    (server : W → MockServer) (around : W → Surroundings)
    (served : ServedBy r.mailgun url server around) (apart : IsApart r server)
    (keeps : KeepsName r.client) where
  process-Good :
      (s : Run W Endpoint)
      → (mailgun_client r.bases r.config s.object.spec.domain).api_base ≡ url
      → is_empty s.object.spec.domain ≡ false
      → Unique (server s.world)
      → After (Good server s.object.spec.domain) (Good server s.object.spec.domain) (process r s)
  unfolding process
  process-Good s here named u =
      let name = s.object.spec.domain in
      let mg = mailgun_client r.bases r.config name in
      (Leads-bind (examine_deletion r mg) (λ _. advance r mg name)
          (examine_deletion-Fine r url server around served apart keeps name mg here)
          (λ _. advance-Fine r url server around served apart keeps mg name here named)).at
        s (u, refl)

  -- The operator against the mock server, with the server's URL in its settings: whatever object
  -- with a name a run fetches, and whether the run returns or panics, names that are different on
  -- the server stay different. The library sends one request for each call, and `GetDomain` and
  -- `DeleteDomain` return an error exactly where the server answers the request with another
  -- status than 200, so that no answer to them is lost on its way. The cluster's calls leave the
  -- server alone, and an object that is stored keeps the name of its domain.
  pub reconcile-Unique :
      (key : Key) (w w' : W) (d : Domain)
      → r.client.get key w ≡ (ok d, w')
      → (mailgun_client r.bases r.config d.spec.domain).api_base ≡ url
      → is_empty d.spec.domain ≡ false
      → Unique (server w')
      → Unique (server (reconcile r key w).1.world)
  reconcile-Unique key w w' d g here named u =
      rw (reconcile-fetched r key w w' d g)
        (After-all (Good server d.spec.domain) (process r (loaded r key d w'))
          (process-Good (loaded r key d w') here named u)).0

-- ===== src/System/Unique/Histories.antt =====
-- Runs of the domains' reconciler one after another, on any objects.
use mailgun_operator.Base.{◌≡◌, refl, ap, String, false, List, [], ◌∷◌, is_empty, arith}
use mailgun_operator.Api.Meta.{Key, Error, Res, ok, err}
use mailgun_operator.Api.DomainTypes.{Domain}
use mailgun_operator.Configuration.{mailgun_client}
use mailgun_operator.DomainController.Run.{DomainReconciler}
use mailgun_operator.DomainController.Reconcile.{reconcile}
use mailgun_operator.MockServer.{MockServer, Surroundings}
use mailgun_operator.System.{ServedBy, IsApart, KeepsName}
use mailgun_operator.System.Unique.{reconcile-Unique}
use mailgun_operator.System.Unique.Requests.{Unique}

module _ {W Endpoint : Type 0} (r : DomainReconciler W Endpoint) where
  -- The world after a run for each key.
  unfoldable pub runs : List Key → W → W
  runs [] w = w
  runs (key ∷ keys) w = runs keys (reconcile r key w).1.world

  -- A run whose fetch fails ends there.
  reconcile-unfetched :
      (key : Key) (w w' : W) (e : Error)
      → r.client.get key w ≡ (err e, w')
      → (reconcile r key w).1.world ≡ w'
  unfolding reconcile
  reconcile-unfetched key w w' e g = rw g (ground arith)

-- The objects that are read have a name, and reading leaves the server alone.
pub record ReadsNamed {W Endpoint : Type 0} (r : DomainReconciler W Endpoint)
    (server : W → MockServer) : Type 0 where
  pub get-apart : (key : Key) (w : W) → server (r.client.get key w).1 ≡ server w
  pub get-named :
      (key : Key) (w : W) (d : Domain)
      → (r.client.get key w).0 ≡ ok d
      → is_empty d.spec.domain ≡ false

module _ {W Endpoint : Type 0} (r : DomainReconciler W Endpoint) (url : String)
    (server : W → MockServer) (around : W → Surroundings)
    (served : ServedBy r.mailgun url server around) (apart : IsApart r server)
    (keeps : KeepsName r.client) (reads : ReadsNamed r server)
    (here : (name : String) → (mailgun_client r.bases r.config name).api_base ≡ url) where
  fetched-Unique :
      (key : Key) (w w' : W) (x : Res Domain)
      → r.client.get key w ≡ (x, w')
      → Unique (server w')
      → Unique (server (reconcile r key w).1.world)
  fetched-Unique key w w' (err e) g u = rw (reconcile-unfetched r key w w' e g) u
  fetched-Unique key w w' (ok d) g u =
      reconcile-Unique r url server around served apart keeps key w w' d g (here d.spec.domain)
        (reads.get-named key w d (ap (λ x. x.0) g)) u

  -- The operator against the mock server, with the server's URL in its settings: names that are
  -- different on the server stay different in any sequence of runs on any keys, whether each run
  -- returns or panics. The objects that are read have a name and keep it where they are stored.
  -- The library sends one request for each call, and `GetDomain` and `DeleteDomain` return an error
  -- exactly where the server answers the request with another status than 200, so that no answer
  -- to them is lost on its way. The cluster's calls leave the server alone.
  pub runs-Unique : (keys : List Key) (w : W) → Unique (server w) → Unique (server (runs r keys w))
  unfolding runs
  runs-Unique [] w u = u
  runs-Unique (key ∷ keys) w u = runs-Unique keys (reconcile r key w).1.world (
      fetched-Unique key w (r.client.get key w).1 (r.client.get key w).0 refl
        (rw (reads.get-apart key w) u))

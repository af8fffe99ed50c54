-- ===== src/System.antt =====
-- The operator against the mock server: what github.com/mailgun/mailgun-go/v4 sends for the calls
-- of a domain's reconciler, and what of its world the server does not share.
pub mod Requests
pub mod Deletion
pub mod Unique
pub mod Activation
pub mod Routes
mod Simulation
mod Tests
use mailgun_operator.Base.{
  nat_eq, ◌≡◌, String, ◌==◌, Bool, true, false, Option, none, some, List, [], ◌∷◌, ℕ,
}
use mailgun_operator.Api.Meta.{Key, Res, ok, err}
use mailgun_operator.Api.DomainTypes.{Domain}
use mailgun_operator.External.{
  MailgunClient, DomainApi, DnsEndpoint, ObjectClient, CreateDomainOptions, Secret,
}
use mailgun_operator.DomainController.Run.{DomainReconciler}
use mailgun_operator.MockServer.{MockServer, Surroundings}
use mailgun_operator.MockServer.Http.{Request, Response, status_ok}
use mailgun_operator.MockServer.Serve.{serve}

-- A request about one domain, with the API key for the password.
abbrev pub domain_request : String → MailgunClient → String → Request
domain_request method mg name = record {
  method = method;
  path = "v4" ∷ "domains" ∷ name ∷ [];
  path_values = [];
  form = [];
  credentials = some ("api", mg.api_key);
}

-- The request for a verification, and the one for a creation, of whose form the server reads the
-- name only.
abbrev pub verification_request : MailgunClient → String → Request
verification_request mg name = record (domain_request "PUT" mg name) {
  path = "v4" ∷ "domains" ∷ name ∷ "verify" ∷ [];
}

abbrev pub creation_request : MailgunClient → String → Request
creation_request mg name = record (domain_request "POST" mg name) {
  path = "v4" ∷ "domains" ∷ [];
  form = ("name", name ∷ []) ∷ [];
}

abbrev pub succeeds : {A : Type 0} → Res A → Bool
succeeds (ok _) = true
succeeds (err _) = false

-- The answers that the library takes for a success.
abbrev pub is_accepted : Option Response → Bool
is_accepted none = false
is_accepted (some answer) = nat_eq answer.status status_ok

-- The methods of a client whose base is the server's URL send one request each. `GetDomain` and
-- `DeleteDomain` succeed exactly if it is answered by 200: no answer to them is lost on its way.
pub record ServedBy {W : Type 0} (mailgun : DomainApi W) (url : String) (server : W → MockServer)
    (around : W → Surroundings) : Type 0 where
  pub get_domain-sent :
      (mg : MailgunClient) (name : String) (w : W)
      → mg.api_base ≡ url
      → server (mailgun.get_domain mg name w).1
        ≡ (serve (domain_request "GET" mg name) (around w) (server w)).1
  pub get_domain-succeeds :
      (mg : MailgunClient) (name : String) (w : W)
      → mg.api_base ≡ url
      → succeeds (mailgun.get_domain mg name w).0
        ≡ is_accepted (serve (domain_request "GET" mg name) (around w) (server w)).0
  pub create_domain-sent :
      (mg : MailgunClient) (name : String) (options : CreateDomainOptions) (w : W)
      → mg.api_base ≡ url
      → server (mailgun.create_domain mg name options w).1
        ≡ (serve (creation_request mg name) (around w) (server w)).1
  pub verify_domain-sent :
      (mg : MailgunClient) (name : String) (w : W)
      → mg.api_base ≡ url
      → server (mailgun.verify_domain mg name w).1
        ≡ (serve (verification_request mg name) (around w) (server w)).1
  pub delete_domain-sent :
      (mg : MailgunClient) (name : String) (w : W)
      → mg.api_base ≡ url
      → server (mailgun.delete_domain mg name w).1
        ≡ (serve (domain_request "DELETE" mg name) (around w) (server w)).1
  pub delete_domain-succeeds :
      (mg : MailgunClient) (name : String) (w : W)
      → mg.api_base ≡ url
      → succeeds (mailgun.delete_domain mg name w).0
        ≡ is_accepted (serve (domain_request "DELETE" mg name) (around w) (server w)).0

-- Any other call leaves the server alone.
pub record IsApart {W Endpoint : Type 0} (r : DomainReconciler W Endpoint) (server : W → MockServer)
    : Type 0 where
  pub update-apart : (d : Domain) (w : W) → server (r.client.update d w).1 ≡ server w
  pub status_update-apart : (d : Domain) (w : W) → server (r.client.status_update d w).1 ≡ server w
  pub get_endpoint-apart : (key : Key) (w : W) → server (r.cluster.get_endpoint key w).1 ≡ server w
  pub create_endpoint-apart :
      (e : DnsEndpoint Endpoint) (w : W) → server (r.cluster.create_endpoint e w).1 ≡ server w
  pub get_secret-apart : (key : Key) (w : W) → server (r.cluster.get_secret key w).1 ≡ server w
  pub create_or_update_secret-apart :
      (secret : Secret) (f : Secret → Secret) (w : W)
      → server (r.cluster.create_or_update_secret secret f w).1 ≡ server w
  pub rand_read-apart : (n : ℕ) (w : W) → server (r.cluster.rand_read n w).1 ≡ server w
  pub now-apart : (w : W) → server (r.cluster.now w).1 ≡ server w
  pub delete_endpoint-apart :
      (e : DnsEndpoint Endpoint) (w : W) → server (r.cluster.delete_endpoint e w).1 ≡ server w
  pub record_event-apart :
      (kind reason message : String) (w : W)
      → server (r.cluster.record_event kind reason message w) ≡ server w

-- An object that is stored is answered with the name of the domain that it was sent with.
pub record KeepsName {W : Type 0} (client : ObjectClient W Domain) : Type 0 where
  pub update-name :
      (d d' : Domain) (w : W) → (client.update d w).0 ≡ ok d' → d'.spec.domain ≡ d.spec.domain
  pub status_update-name :
      (d d' : Domain) (w : W)
      → (client.status_update d w).0 ≡ ok d'
      → d'.spec.domain ≡ d.spec.domain

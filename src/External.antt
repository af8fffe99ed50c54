-- ===== src/External.antt =====
-- What the operator uses of code outside the repository, as data and as operations that the
-- definitions take for arguments: github.com/mailgun/mailgun-go/v4, sigs.k8s.io/controller-runtime
-- and sigs.k8s.io/external-dns. `W` is the state of the world outside the process. Records have
-- the fields that the operator reads or sets.
use mailgun_operator.Base.{ℕ, String, Bool, Option, List}
use mailgun_operator.Base.Int.{ℤ}
use mailgun_operator.Base.Dict.{Dict}
use mailgun_operator.Api.Meta.{Key, Res}

-- A Mailgun client: what `NewMailgun` and `SetAPIBase` are given.
pub record MailgunClient : Type 0 where
  pub domain : String
  pub api_key : String
  pub api_base : String

-- The constants `APIBaseEU` and `APIBaseUS`.
pub record ApiBases : Type 0 where
  pub eu : String
  pub us : String

-- `mailgun.DNSRecord`
pub record MailgunDnsRecord : Type 0 where
  pub name : String
  pub priority : String
  pub record_type : String
  pub valid : String
  pub value : String

-- `mailgun.Domain`; the time of its creation is in seconds.
pub record MailgunDomain : Type 0 where
  pub created_at : ℕ
  pub name : String
  pub smtp_login : String
  pub wildcard : Bool
  pub spam_action : String
  pub state : String
  pub web_scheme : String

-- `mailgun.DomainResponse`; `state` and `smtp_login` are fields of its `Domain`.
pub record DomainResponse : Type 0 where
  pub state : String
  pub smtp_login : String
  pub receiving_dns_records : List MailgunDnsRecord
  pub sending_dns_records : List MailgunDnsRecord

-- `mailgun.CreateDomainOptions`
pub record CreateDomainOptions : Type 0 where
  pub password : String
  pub spam_action : String
  pub wildcard : Bool
  pub force_dkim_authority : Bool
  pub dkim_key_size : ℤ

-- `mailgun.Route`
pub record MailgunRoute : Type 0 where
  pub id : String
  pub priority : ℤ
  pub description : String
  pub expression : String
  pub actions : List String

-- `corev1.Secret`; `none` is a nil map.
pub record Secret : Type 0 where
  pub key : Key
  pub contents : Option (Dict String)

-- `endpoint.DNSEndpoint` over the type of its endpoints.
pub record DnsEndpoint (Endpoint : Type 0) : Type 0 where
  pub key : Key
  pub endpoints : List Endpoint

-- `client.Client` for one kind of custom resource. A call that succeeds gives back the object
-- that it leaves in the caller's variable.
pub record ObjectClient (W Obj : Type 0) : Type 0 where
  pub get : Key → W → Res Obj × W
  pub update : Obj → W → Res Obj × W
  pub status_update : Obj → W → Res Obj × W

-- `controllerutil`, on the list of an object's finalizers. `remove` also tells whether it changed
-- the list.
pub record FinalizerUtil : Type 0 where
  pub has : List String → String → Bool
  pub add : List String → String → List String
  pub remove : List String → String → List String × Bool

-- The calls that a domain's reconciler makes of Mailgun.
pub record DomainApi (W : Type 0) : Type 0 where
  pub get_domain : MailgunClient → String → W → Res DomainResponse × W
  pub create_domain : MailgunClient → String → CreateDomainOptions → W → Res DomainResponse × W
  pub verify_domain : MailgunClient → String → W → Res String × W
  pub delete_domain : MailgunClient → String → W → Res (Unit {0}) × W

-- The calls that it makes of the cluster for other objects than its own, and of the machine:
-- secrets, `controllerutil.CreateOrUpdate` with its callback, DNS endpoints, events (type, reason
-- and message), the text of a key, `rand.Read`, the time.
pub record Cluster (W Endpoint : Type 0) : Type 0 where
  pub get_secret : Key → W → Res Secret × W
  pub create_or_update_secret : Secret → (Secret → Secret) → W → Res (Unit {0}) × W
  pub get_endpoint : Key → W → Res (DnsEndpoint Endpoint) × W
  pub create_endpoint : DnsEndpoint Endpoint → W → Res (Unit {0}) × W
  pub delete_endpoint : DnsEndpoint Endpoint → W → Res (Unit {0}) × W
  pub new_endpoint : String → String → List String → Endpoint
  pub key_text : Key → String
  pub record_event : String → String → String → W → W
  pub rand_read : ℕ → W → Res (List ℕ) × W
  pub now : W → ℕ × W

-- The calls that a route's reconciler makes of Mailgun.
pub record RouteApi (W : Type 0) : Type 0 where
  pub get_domain : MailgunClient → String → W → Res DomainResponse × W
  pub get_route : MailgunClient → String → W → Res MailgunRoute × W
  pub create_route : MailgunClient → MailgunRoute → W → Res MailgunRoute × W
  pub update_route : MailgunClient → String → MailgunRoute → W → Res (Unit {0}) × W
  pub delete_route : MailgunClient → String → W → Res (Unit {0}) × W

-- The other calls that it makes: events, with the type, the reason and the message.
pub record Recorder (W : Type 0) : Type 0 where
  pub record_event : String → String → String → W → W

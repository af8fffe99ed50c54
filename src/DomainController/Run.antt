-- ===== src/DomainController/Run.antt =====
-- The fields of the domains' reconciler, and the calls that it makes.
use mailgun_operator.Base.{String, Option}
use mailgun_operator.Base.Exec.{M, next}
use mailgun_operator.Api.Meta.{Key, Error, Res}
use mailgun_operator.Api.DomainTypes.{Domain, DomainStatus}
use mailgun_operator.External.{
  ApiBases, MailgunClient, DomainResponse, CreateDomainOptions, DnsEndpoint, ObjectClient,
  FinalizerUtil, DomainApi, Cluster,
}
use mailgun_operator.Configuration.{Data}
use mailgun_operator.Controller
use mailgun_operator.Controller.{request}

-- A call and the error that it returned.
pub data Call (Endpoint : Type 0) : Type 0 where
  fetched : Key → Option Error → Call Endpoint
  updated : Domain → Option Error → Call Endpoint
  status_updated : Domain → Option Error → Call Endpoint
  secret_read : Key → Option Error → Call Endpoint
  secret_written : Key → Option Error → Call Endpoint
  endpoint_read : Key → Option Error → Call Endpoint
  endpoint_created : DnsEndpoint Endpoint → Option Error → Call Endpoint
  endpoint_deleted : DnsEndpoint Endpoint → Option Error → Call Endpoint
  event_recorded : String → String → Call Endpoint
  random_read : Option Error → Call Endpoint
  domain_read : String → Option Error → Call Endpoint
  domain_created : String → CreateDomainOptions → Option Error → Call Endpoint
  domain_verified : String → Option Error → Call Endpoint
  domain_deleted : String → Option Error → Call Endpoint

-- The fields of `DomainReconciler`, and the libraries that its methods call.
pub record DomainReconciler (W Endpoint : Type 0) : Type 0 where
  pub client : ObjectClient W Domain
  pub finalizers : FinalizerUtil
  pub cluster : Cluster W Endpoint
  pub mailgun : DomainApi W
  pub bases : ApiBases
  pub config : Data

abbrev pub Run : Type 0 → Type 0 → Type 0
Run W Endpoint = Controller.Run W Domain (Call Endpoint)

-- The calls of Mailgun, each recorded with the name that it is made with.
module _ {W Endpoint R : Type 0} (r : DomainReconciler W Endpoint) (mg : MailgunClient)
    (name : String) where
  abbrev pub get_domain : M (Run W Endpoint) R (Res DomainResponse)
  get_domain = request (domain_read name) (r.mailgun.get_domain mg name)

  abbrev pub verify_domain : M (Run W Endpoint) R (Res String)
  verify_domain = request (domain_verified name) (r.mailgun.verify_domain mg name)

  abbrev pub delete_on_mailgun : M (Run W Endpoint) R (Res (Unit {0}))
  delete_on_mailgun = request (domain_deleted name) (r.mailgun.delete_domain mg name)

module _ {W Endpoint R : Type 0} where
  abbrev pub set_status : (DomainStatus → DomainStatus) → M (Run W Endpoint) R (Unit {0})
  set_status f s = (next tt, record s { object = record s.object { status = f s.object.status } })

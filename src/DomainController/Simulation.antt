-- ===== src/DomainController/Simulation.antt =====
-- A small world for runs of the domains' reconciler with one stored object, the domains that Mailgun
-- has, and a Mailgun that answers a verification in one given way.
use mailgun_operator.Base.{
  ℕ, zero, suc, ◌==◌, String, true, false, Option, none, some, List, [], ◌∷◌, if◌then◌else◌,
}
use mailgun_operator.Base.Int.{pos}
use mailgun_operator.Base.Lists.{contains}
use mailgun_operator.Api.Meta.{Key, Error, Res, ok, err, zero_meta}
use mailgun_operator.Api.DomainTypes.{
  Domain, DomainSpec, zero_domain, zero_spec, zero_status, state_activated,
}
use mailgun_operator.External.{DomainResponse, ObjectClient, FinalizerUtil, DomainApi, Cluster}
use mailgun_operator.Configuration.{Data}
use mailgun_operator.DomainController.Run.{DomainReconciler, Call}
use mailgun_operator.DomainController.Delete.{domain_finalizer}
use mailgun_operator.DomainController.Reconcile.{reconcile}

abbrev pub Endpoint : Type 0
Endpoint = String × (String × List String)

pub record World : Type 0 where
  pub stored : Option Domain
  pub domains : List String
  pub secrets : List String

abbrev pub missing : Error
missing = record { not_found = true; text = "not found" }

abbrev pub broken : Error
broken = record { not_found = false; text = "unavailable" }

abbrev pub response : DomainResponse
response = record {
  state = "unverified";
  smtp_login = "postmaster@example.com";
  receiving_dns_records =
      record { name = ""; priority = "10"; record_type = "MX"; valid = "valid"; value = "mxa.org" }
      ∷ [];
  sending_dns_records = [];
}

abbrev pub client : ObjectClient World Domain
client = record {
  get = λ _ w. (elim w.stored [ none ↦ err missing | some d ↦ ok d ], w);
  update = λ d w. (ok d, record w { stored = some d });
  status_update = λ d w. (ok d, record w { stored = some d });
}

abbrev pub without : List String → String → List String
without [] a = []
without (x ∷ xs) a = if x == a then without xs a else x ∷ without xs a

abbrev pub finalizers : FinalizerUtil
finalizers = record {
  has = contains;
  add = λ l f. if contains l f then l else f ∷ l;
  remove = λ l f. (without l f, contains l f);
}

abbrev pub mailgun : Res String → DomainApi World
mailgun answer = record {
  get_domain = λ _ n w. (if contains w.domains n then ok response else err missing, w);
  create_domain = λ _ n _ w. (ok response, record w { domains = n ∷ w.domains });
  verify_domain = λ _ _ w. (answer, w);
  delete_domain = λ _ n w. (ok tt, record w { domains = without w.domains n });
}

abbrev pub cluster : Cluster World Endpoint
cluster = record {
  get_secret = λ _ w. (err missing, w);
  create_or_update_secret =
      λ secret f w. (ok tt, record w { secrets = secret.key.name ∷ w.secrets });
  get_endpoint = λ _ w. (err missing, w);
  create_endpoint = λ _ w. (ok tt, w);
  delete_endpoint = λ _ w. (ok tt, w);
  new_endpoint = λ n t l. (n, (t, l));
  key_text = λ k. k.name;
  record_event = λ _ _ _ w. w;
  rand_read = λ _ w. (ok (1 ∷ 171 ∷ []), w);
  now = λ w. (7, w);
}

abbrev pub config : Data
config = record {
  operator_namespace = "mailgun";
  api_token = "token";
  api_server = "EU";
  domain_verify_duration = pos 300;
}

-- The reconciler, by the answer to a verification.
abbrev pub reconciler : Res String → DomainReconciler World Endpoint
reconciler answer = record {
  client = client;
  finalizers = finalizers;
  cluster = cluster;
  mailgun = mailgun answer;
  bases = record { eu = "https://eu"; us = "https://us" };
  config = config;
}

abbrev pub active : DomainReconciler World Endpoint
active = reconciler (ok "active")

abbrev pub unreachable : DomainReconciler World Endpoint
unreachable = reconciler (err broken)

abbrev pub key : Key
key = record { namespace = "default"; name = "example" }

abbrev pub spec : DomainSpec
spec = record zero_spec { domain = "example.com"; force_mx_check = some true }

abbrev pub fresh : Domain
fresh = record zero_domain { spec = spec }

abbrev pub registered : Domain
registered = record fresh { meta = record zero_meta { finalizers = domain_finalizer ∷ [] } }

abbrev pub activated : Domain
activated = record registered { status = record zero_status { state = state_activated } }

abbrev pub deleted : Domain
deleted = record activated { meta = record activated.meta { deletion_timestamp = some 5 } }

abbrev pub holding : Domain → List String → World
holding d domains = record { stored = some d; domains = domains; secrets = [] }

abbrev pub calls_of : DomainReconciler World Endpoint → World → List (Call Endpoint)
calls_of r w = (reconcile r key w).1.calls

abbrev pub first : {A : Type 0} → ℕ → List A → List A
first n [] = []
first zero (x ∷ xs) = []
first (suc n) (x ∷ xs) = x ∷ first n xs

abbrev pub after_first : {A : Type 0} → ℕ → List A → List A
after_first n [] = []
after_first zero (x ∷ xs) = x ∷ xs
after_first (suc n) (x ∷ xs) = after_first n xs

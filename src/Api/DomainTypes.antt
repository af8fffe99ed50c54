-- ===== src/Api/DomainTypes.antt =====
-- api/domain/v1/domain_types.go
use mailgun_operator.Base.{ℕ, String, Bool, false, Option, none, List, []}
use mailgun_operator.Base.Int.{ℤ}
use mailgun_operator.Api.Meta.{ObjectMeta, zero_meta}

pub record DnsRecord : Type 0 where
  pub name : String
  pub priority : String
  pub record_type : String
  pub valid : String
  pub value : String

abbrev pub DomainState : Type 0
DomainState = String

abbrev pub state_created : DomainState
state_created = "created"

abbrev pub state_failed : DomainState
state_failed = "failed"

abbrev pub state_activated : DomainState
state_activated = "activated"

-- The fields of `endpoint.Endpoint` that the operator reads.
pub record ExternalRecord : Type 0 where
  pub dns_name : String
  pub record_type : String
  pub targets : List String

pub record DomainSpec : Type 0 where
  pub domain : String
  pub external_dns : Option Bool
  pub external_dns_records : List ExternalRecord
  pub web_scheme : Option String
  pub dkim_key_size : Option ℤ
  pub force_dkim_authority : Option Bool
  pub wildcard : Option Bool
  pub ips : List String
  pub spam_action : Option String
  pub export_credentials : Option Bool
  pub export_secret_name : Option String
  pub export_secret_login_key : Option String
  pub export_secret_password_key : Option String
  pub force_mx_check : Option Bool

-- `last_domain_validation_time` is in seconds.
pub record DomainStatus : Type 0 where
  pub state : DomainState
  pub not_managed : Bool
  pub sending_dns_records : List DnsRecord
  pub receiving_dns_records : List DnsRecord
  pub domain_state : String
  pub mailgun_error : Option String
  pub last_domain_validation_time : Option ℕ
  pub domain_validation_count : Option ℤ
  pub dns_entrypoint_created : Bool

pub record Domain : Type 0 where
  pub meta : ObjectMeta
  pub spec : DomainSpec
  pub status : DomainStatus

-- `&domainv1.Domain{}`
abbrev pub zero_spec : DomainSpec
zero_spec = record {
  domain = "";
  external_dns = none;
  external_dns_records = [];
  web_scheme = none;
  dkim_key_size = none;
  force_dkim_authority = none;
  wildcard = none;
  ips = [];
  spam_action = none;
  export_credentials = none;
  export_secret_name = none;
  export_secret_login_key = none;
  export_secret_password_key = none;
  force_mx_check = none;
}

abbrev pub zero_status : DomainStatus
zero_status = record {
  state = "";
  not_managed = false;
  sending_dns_records = [];
  receiving_dns_records = [];
  domain_state = "";
  mailgun_error = none;
  last_domain_validation_time = none;
  domain_validation_count = none;
  dns_entrypoint_created = false;
}

abbrev pub zero_domain : Domain
zero_domain = record { meta = zero_meta; spec = zero_spec; status = zero_status }

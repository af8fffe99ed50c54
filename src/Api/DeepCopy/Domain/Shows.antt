-- ===== src/Api/DeepCopy/Domain/Shows.antt =====
-- What the struct of a domain stands for in a memory: the value that the reconciler works on.
use mailgun_operator.Base.{◌≡◌, some, List}
use mailgun_operator.Api.DomainTypes.{DomainSpec, DomainStatus, Domain}
use mailgun_operator.Api.DeepCopy.Memory.{Heap}
use mailgun_operator.Api.DeepCopy.Copies.Pointers.{shown}
use mailgun_operator.Api.DeepCopy.Copies.Slices.{listed}
use mailgun_operator.Api.DeepCopy.Copies.Deep.{ShowsSlice, ShowsPtr}
use mailgun_operator.Api.DeepCopy.Structs.{
  Library, DomainSpecStruct, DomainStatusStruct, DomainStruct, DomainListStruct,
}
use mailgun_operator.Api.DeepCopy.Views.{Views, ShowsTime}
use mailgun_operator.Api.DeepCopy.Storage.{
  Cell, bool_storable, int_storable, text_storable, time_storable, texts_storable,
  dns_record_storable, dns_records_storable, endpoint_storable, endpoints_storable, domain_storable,
  domains_storable,
}

pub record ShowsSpec {L : Library} (views : Views L) (x : DomainSpecStruct L) (v : DomainSpec)
    (k : Heap (Cell L)) : Type 0 where
  pub domain : x.domain ≡ v.domain
  pub external_dns : shown x.external_dns k ≡ some v.external_dns
  pub external_dns_records :
      ShowsSlice views.ShowsEndpoint x.external_dns_records v.external_dns_records k
  pub web_scheme : shown x.web_scheme k ≡ some v.web_scheme
  pub dkim_key_size : shown x.dkim_key_size k ≡ some v.dkim_key_size
  pub force_dkim_authority : shown x.force_dkim_authority k ≡ some v.force_dkim_authority
  pub wildcard : shown x.wildcard k ≡ some v.wildcard
  pub ips : listed x.ips k ≡ some v.ips
  pub spam_action : shown x.spam_action k ≡ some v.spam_action
  pub export_credentials : shown x.export_credentials k ≡ some v.export_credentials
  pub export_secret_name : shown x.export_secret_name k ≡ some v.export_secret_name
  pub export_secret_login_key : shown x.export_secret_login_key k ≡ some v.export_secret_login_key
  pub export_secret_password_key :
      shown x.export_secret_password_key k ≡ some v.export_secret_password_key
  pub force_mx_check : shown x.force_mx_check k ≡ some v.force_mx_check

pub record ShowsStatus {L : Library} (views : Views L) (x : DomainStatusStruct L) (v : DomainStatus)
    (k : Heap (Cell L)) : Type 0 where
  pub state : x.state ≡ v.state
  pub not_managed : x.not_managed ≡ v.not_managed
  pub sending_dns_records : listed x.sending_dns_records k ≡ some v.sending_dns_records
  pub receiving_dns_records : listed x.receiving_dns_records k ≡ some v.receiving_dns_records
  pub domain_state : x.domain_state ≡ v.domain_state
  pub mailgun_error : shown x.mailgun_error k ≡ some v.mailgun_error
  pub last_domain_validation_time :
      ShowsPtr (ShowsTime views) x.last_domain_validation_time v.last_domain_validation_time k
  pub domain_validation_count : shown x.domain_validation_count k ≡ some v.domain_validation_count
  pub dns_entrypoint_created : x.dns_entrypoint_created ≡ v.dns_entrypoint_created

-- The value has the kind and the version of the object beside it.
pub record ShowsDomain {L : Library} (views : Views L) (x : DomainStruct L)
    (v : L.TypeMeta × Domain) (k : Heap (Cell L)) : Type 0 where
  pub type_meta : x.type_meta ≡ v.0
  pub object_meta : views.ShowsObjectMeta x.object_meta v.1.meta k
  pub spec : ShowsSpec views x.spec v.1.spec k
  pub status : ShowsStatus views x.status v.1.status k

pub record ShowsDomainList {L : Library} (views : Views L) (x : DomainListStruct L)
    (v : L.TypeMeta × views.ListValue × List (L.TypeMeta × Domain)) (k : Heap (Cell L))
    : Type 0 where
  pub type_meta : x.type_meta ≡ v.0
  pub list_meta : views.ShowsListMeta x.list_meta v.1 k
  pub items : ShowsSlice (ShowsDomain views) x.items v.2 k

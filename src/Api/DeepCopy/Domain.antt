-- ===== src/Api/DeepCopy/Domain.antt =====
-- zz_generated.deepcopy.go: the copies of domains. `DeepCopyInto` gives back the struct that it
-- leaves in `*out`, which starts as `*in`.
pub mod Shows
pub mod Spec
pub mod Status
pub mod Whole
use mailgun_operator.Base.{Option, none, some}
use mailgun_operator.Api.DomainTypes.{DnsRecord}
use mailgun_operator.Api.DeepCopy.Memory.{Ptr, Cmd, ◌>>=◌, ◌>>◌, pure}
use mailgun_operator.Api.DeepCopy.Copies.{copy_pointer, copy_slice, copy_deep_slice, deep_copy_by}
use mailgun_operator.Api.DeepCopy.Structs.{
  Library, DomainSpecStruct, DomainStatusStruct, DomainStruct, DomainListStruct,
}
use mailgun_operator.Api.DeepCopy.Storage.{
  Cell, Calls, bool_storable, int_storable, text_storable, time_storable, texts_storable,
  dns_record_storable, dns_records_storable, endpoint_storable, endpoints_storable,
  domain_spec_storable, domain_status_storable, domain_storable, domains_storable,
  domain_list_storable,
}

module _ {L : Library} where
  unfoldable pub dns_record_deep_copy_into : DnsRecord → Cmd (Cell L) DnsRecord
  dns_record_deep_copy_into r = pure r

  unfoldable pub dns_record_deep_copy :
      Option (Ptr DnsRecord) → Cmd (Cell L) (Option (Ptr DnsRecord))
  dns_record_deep_copy = deep_copy_by dns_record_deep_copy_into

module _ {L : Library} (calls : Calls L) where
  -- `if in.LastDomainValidationTime != nil { *out = (*in).DeepCopy() }`
  unfoldable pub copy_time : Option (Ptr L.Time) → Cmd (Cell L) (Option (Ptr L.Time))
  copy_time none = pure none
  copy_time (some from) = do to ← calls.time_deep_copy from; pure (some to)

  unfoldable pub domain_spec_deep_copy_into : DomainSpecStruct L → Cmd (Cell L) (DomainSpecStruct L)
  domain_spec_deep_copy_into spec = do
    dns ← copy_pointer spec.external_dns
    records ← copy_deep_slice calls.endpoint_deep_copy_into spec.external_dns_records
    scheme ← copy_pointer spec.web_scheme
    size ← copy_pointer spec.dkim_key_size
    authority ← copy_pointer spec.force_dkim_authority
    wild ← copy_pointer spec.wildcard
    addresses ← copy_slice spec.ips
    action ← copy_pointer spec.spam_action
    credentials ← copy_pointer spec.export_credentials
    secret ← copy_pointer spec.export_secret_name
    login_key ← copy_pointer spec.export_secret_login_key
    password_key ← copy_pointer spec.export_secret_password_key
    mx_check ← copy_pointer spec.force_mx_check
    pure (record spec {
      external_dns = dns;
      external_dns_records = records;
      web_scheme = scheme;
      dkim_key_size = size;
      force_dkim_authority = authority;
      wildcard = wild;
      ips = addresses;
      spam_action = action;
      export_credentials = credentials;
      export_secret_name = secret;
      export_secret_login_key = login_key;
      export_secret_password_key = password_key;
      force_mx_check = mx_check;
    })

  unfoldable pub domain_spec_deep_copy :
      Option (Ptr (DomainSpecStruct L)) → Cmd (Cell L) (Option (Ptr (DomainSpecStruct L)))
  domain_spec_deep_copy = deep_copy_by domain_spec_deep_copy_into

  unfoldable pub domain_status_deep_copy_into :
      DomainStatusStruct L → Cmd (Cell L) (DomainStatusStruct L)
  domain_status_deep_copy_into status = do
    sending ← copy_slice status.sending_dns_records
    receiving ← copy_slice status.receiving_dns_records
    error ← copy_pointer status.mailgun_error
    time ← copy_time status.last_domain_validation_time
    count ← copy_pointer status.domain_validation_count
    pure (record status {
      sending_dns_records = sending;
      receiving_dns_records = receiving;
      mailgun_error = error;
      last_domain_validation_time = time;
      domain_validation_count = count;
    })

  unfoldable pub domain_status_deep_copy :
      Option (Ptr (DomainStatusStruct L)) → Cmd (Cell L) (Option (Ptr (DomainStatusStruct L)))
  domain_status_deep_copy = deep_copy_by domain_status_deep_copy_into

  unfoldable pub domain_deep_copy_into : DomainStruct L → Cmd (Cell L) (DomainStruct L)
  domain_deep_copy_into domain = do
    meta ← calls.object_meta_deep_copy_into domain.object_meta
    spec' ← domain_spec_deep_copy_into domain.spec
    status' ← domain_status_deep_copy_into domain.status
    pure (record domain { object_meta = meta; spec = spec'; status = status' })

  unfoldable pub domain_deep_copy :
      Option (Ptr (DomainStruct L)) → Cmd (Cell L) (Option (Ptr (DomainStruct L)))
  domain_deep_copy = deep_copy_by domain_deep_copy_into

  unfoldable pub domain_list_deep_copy_into : DomainListStruct L → Cmd (Cell L) (DomainListStruct L)
  domain_list_deep_copy_into list = do
    meta ← calls.list_meta_deep_copy_into list.list_meta
    domains ← copy_deep_slice domain_deep_copy_into list.items
    pure (record list { list_meta = meta; items = domains })

  unfoldable pub domain_list_deep_copy :
      Option (Ptr (DomainListStruct L)) → Cmd (Cell L) (Option (Ptr (DomainListStruct L)))
  domain_list_deep_copy = deep_copy_by domain_list_deep_copy_into

-- ===== src/Api/DeepCopy/Domain/Spec.antt =====
-- The copy of a domain's specification stands for the same value, by new cells alone.

use mailgun_operator.Api.DomainTypes.{DomainSpec}
use mailgun_operator.Api.DeepCopy.Memory.{Heap}
use mailgun_operator.Api.DeepCopy.Runs.{Grows, Runs}
use mailgun_operator.Api.DeepCopy.Copies.Pointers.{shown-stays}
use mailgun_operator.Api.DeepCopy.Copies.Slices.{listed-stays}
use mailgun_operator.Api.DeepCopy.Copies.Elements.{IsDeepCopy}
use mailgun_operator.Api.DeepCopy.Copies.Deep.{ShowsSlice-stays}
use mailgun_operator.Api.DeepCopy.Copies.Steps.{
  ◌>>=◌, run, finish, pointer_copied, slice_copied, deep_slice_copied,
}
use mailgun_operator.Api.DeepCopy.Structs.{Library, DomainSpecStruct}
use mailgun_operator.Api.DeepCopy.Storage.{
  Cell, Calls, bool_storable, int_storable, text_storable, time_storable, texts_storable,
  dns_record_storable, dns_records_storable, endpoint_storable, endpoints_storable,
}
use mailgun_operator.Api.DeepCopy.Domain.{domain_spec_deep_copy_into}
use mailgun_operator.Api.DeepCopy.Domain.Shows.{ShowsSpec}
use mailgun_operator.Api.DeepCopy.Views.{Views}

module _ {L : Library} (calls : Calls L) (views : Views L)
    (endpoint_law : IsDeepCopy views.ShowsEndpoint calls.endpoint_deep_copy_into) where
  ShowsSpec-stays :
      (x : DomainSpecStruct L) (v : DomainSpec) {h k : Heap (Cell L)}
      → ShowsSpec views x v h
      → Grows h k
      → ShowsSpec views x v k
  ShowsSpec-stays x v s g = record {
    domain = s.domain;
    external_dns = shown-stays x.external_dns v.external_dns s.external_dns g;
    external_dns_records =
        ShowsSlice-stays endpoint_law x.external_dns_records v.external_dns_records
          s.external_dns_records g;
    web_scheme = shown-stays x.web_scheme v.web_scheme s.web_scheme g;
    dkim_key_size = shown-stays x.dkim_key_size v.dkim_key_size s.dkim_key_size g;
    force_dkim_authority =
        shown-stays x.force_dkim_authority v.force_dkim_authority s.force_dkim_authority g;
    wildcard = shown-stays x.wildcard v.wildcard s.wildcard g;
    ips = listed-stays x.ips v.ips s.ips g;
    spam_action = shown-stays x.spam_action v.spam_action s.spam_action g;
    export_credentials =
        shown-stays x.export_credentials v.export_credentials s.export_credentials g;
    export_secret_name =
        shown-stays x.export_secret_name v.export_secret_name s.export_secret_name g;
    export_secret_login_key =
        shown-stays x.export_secret_login_key v.export_secret_login_key s.export_secret_login_key g;
    export_secret_password_key =
        shown-stays x.export_secret_password_key v.export_secret_password_key
          s.export_secret_password_key g;
    force_mx_check = shown-stays x.force_mx_check v.force_mx_check s.force_mx_check g;
  }

  spec_copied :
      (x : DomainSpecStruct L) (v : DomainSpec) (h : Heap (Cell L))
      → ShowsSpec views x v h
      → Runs h (domain_spec_deep_copy_into calls x h) (λ y k. ShowsSpec views y v k)
  unfolding domain_spec_deep_copy_into
  spec_copied x v h s = run (do
    _ ← pointer_copied x.external_dns s.external_dns
    _ ←
        deep_slice_copied endpoint_law x.external_dns_records v.external_dns_records
          s.external_dns_records
    _ ← pointer_copied x.web_scheme s.web_scheme
    _ ← pointer_copied x.dkim_key_size s.dkim_key_size
    _ ← pointer_copied x.force_dkim_authority s.force_dkim_authority
    _ ← pointer_copied x.wildcard s.wildcard
    _ ← slice_copied x.ips s.ips
    _ ← pointer_copied x.spam_action s.spam_action
    _ ← pointer_copied x.export_credentials s.export_credentials
    _ ← pointer_copied x.export_secret_name s.export_secret_name
    _ ← pointer_copied x.export_secret_login_key s.export_secret_login_key
    _ ← pointer_copied x.export_secret_password_key s.export_secret_password_key
    _ ← pointer_copied x.force_mx_check s.force_mx_check
    finish
        (λ k is_force_mx_check is_export_secret_password_key is_export_secret_login_key
            is_export_secret_name is_export_credentials is_spam_action is_ips is_wildcard
            is_force_dkim_authority is_dkim_key_size is_web_scheme is_external_dns_records
            is_external_dns.
          record {
            domain = s.domain;
            external_dns = is_external_dns;
            external_dns_records = is_external_dns_records;
            web_scheme = is_web_scheme;
            dkim_key_size = is_dkim_key_size;
            force_dkim_authority = is_force_dkim_authority;
            wildcard = is_wildcard;
            ips = is_ips;
            spam_action = is_spam_action;
            export_credentials = is_export_credentials;
            export_secret_name = is_export_secret_name;
            export_secret_login_key = is_export_secret_login_key;
            export_secret_password_key = is_export_secret_password_key;
            force_mx_check = is_force_mx_check;
          }))

  pub ShowsSpec-IsDeepCopy : IsDeepCopy (ShowsSpec views) (domain_spec_deep_copy_into calls)
  ShowsSpec-IsDeepCopy = record { copies = spec_copied; stays = ShowsSpec-stays }

-- ===== src/System/Unique/Methods.antt =====
-- What the methods of the domains' reconciler keep, but for the creation.
use mailgun_operator.Base.{◌≡◌, String, Option}
use mailgun_operator.Base.Exec.{modify}
use mailgun_operator.Base.Exec.Leads.{Leads}
use mailgun_operator.Api.Meta.{Error, Res}
use mailgun_operator.External.{MailgunClient, DomainResponse}
use mailgun_operator.DomainController.Run.{DomainReconciler, Run}
use mailgun_operator.DomainController.Delete.{
  delete_domain, delete_endpoint, delete_from_mailgun, release, without_finalizer,
}
use mailgun_operator.DomainController.Create.{checked, hand_over, export_if_asked, store_created}
use mailgun_operator.DomainController.Export.{export_credentials_to_secret}
use mailgun_operator.DomainController.ExternalDns.{create_external_dns_entity}
use mailgun_operator.DomainController.Verify.{
  read_records, check_mx_records_and_set_state, activate, now, verify, store_status,
}
use mailgun_operator.DomainController.Reconcile.{
  with_finalizer, finalize, delete_and_report, register, examine_deletion, settle_creation,
  ensure_external_dns, stop_if_settled, check_domain, update_dns,
}
use mailgun_operator.MockServer.{MockServer, Surroundings}
use mailgun_operator.System.{ServedBy, IsApart, KeepsName}
use mailgun_operator.System.Unique.Calls.{
  call_rules, request-Fine, get_domain-Fine, delete_domain_call-Fine, verify_domain-Fine,
}
use mailgun_operator.System.Unique.Steps.{Good, apart-Harmless}

module _ {W Endpoint : Type 0} (r : DomainReconciler W Endpoint) (url : String)
    (server : W → MockServer) (around : W → Surroundings)
    (served : ServedBy r.mailgun url server around) (apart : IsApart r server)
    (keeps : KeepsName r.client) (name : String) where
  abbrev Fine : Run W Endpoint → Type 0
  Fine = Good server name

  delete_from_mailgun-Fine :
      (mg : MailgunClient) (n : String)
      → mg.api_base ≡ url
      → Leads Fine Fine Fine (delete_from_mailgun r mg n)
  unfolding delete_from_mailgun
  delete_from_mailgun-Fine mg n here =
      search (call_rules, get_domain-Fine, delete_domain_call-Fine) depth 14

  delete_endpoint-Fine : Leads Fine Fine Fine (delete_endpoint r)
  unfolding delete_endpoint
  delete_endpoint-Fine =
      search (call_rules, request-Fine, apart.get_endpoint-apart, apart.delete_endpoint-apart) depth
        20

  release_object-Fine :
      {R : Type 0}
      → Leads {R = R} Fine Fine Fine
          (modify (λ s. record s { object = without_finalizer r s.object }))
  release_object-Fine = record { at = λ s l. l }

  release-Fine : Leads Fine Fine Fine (release r)
  unfolding release
  release-Fine = search (call_rules, release_object-Fine) depth 20

  delete_domain-Fine :
      (mg : MailgunClient) → mg.api_base ≡ url → Leads Fine Fine Fine (delete_domain r mg)
  unfolding delete_domain
  delete_domain-Fine mg here =
      search (call_rules, delete_endpoint-Fine, delete_from_mailgun-Fine, release-Fine) depth 20

  finalize-Fine : (mg : MailgunClient) → mg.api_base ≡ url → Leads Fine Fine Fine (finalize r mg)
  unfolding finalize delete_and_report
  finalize-Fine mg here = search (call_rules, delete_domain-Fine) depth 20

  registered_object-Fine :
      {R : Type 0}
      → Leads {R = R} Fine Fine Fine (modify (λ s. record s { object = with_finalizer r s.object }))
  registered_object-Fine = record { at = λ s l. l }

  register-Fine : Leads Fine Fine Fine (register r)
  unfolding register
  register-Fine = search (call_rules, registered_object-Fine) depth 20

  pub examine_deletion-Fine :
      (mg : MailgunClient) → mg.api_base ≡ url → Leads Fine Fine Fine (examine_deletion r mg)
  unfolding examine_deletion
  examine_deletion-Fine mg here = search (call_rules, finalize-Fine, register-Fine) depth 20

  checked-Fine : {A : Type 0} (x : Res A) → Leads Fine Fine Fine (checked x)
  checked-Fine x = search call_rules depth 20

  export-Fine :
      (login password : String)
      → Leads Fine Fine Fine (export_credentials_to_secret r login password)
  unfolding export_credentials_to_secret
  export-Fine login password =
      search (call_rules, request-Fine, apart.get_secret-apart, apart.create_or_update_secret-apart)
        depth 24

  pub hand_over-Fine :
      (password : String) (resp : DomainResponse) → Leads Fine Fine Fine (hand_over r password resp)
  unfolding hand_over export_if_asked store_created
  hand_over-Fine password resp = search (call_rules, export-Fine) depth 24

  pub settle_creation-Fine : (e : Option Error) → Leads Fine Fine Fine (settle_creation r e)
  unfolding settle_creation
  settle_creation-Fine e = search call_rules depth 24

  external_dns-Fine : Leads Fine Fine Fine (create_external_dns_entity r)
  unfolding create_external_dns_entity
  external_dns-Fine =
      search (call_rules, request-Fine, checked-Fine, apart.create_endpoint-apart) depth 24

  ensure_external_dns-Fine : Leads Fine Fine Fine (ensure_external_dns r)
  unfolding ensure_external_dns
  ensure_external_dns-Fine = search (call_rules, external_dns-Fine) depth 24

  stop_if_settled-Fine : Leads Fine Fine Fine (stop_if_settled r)
  unfolding stop_if_settled
  stop_if_settled-Fine = search call_rules depth 24

  read_records-Fine :
      (mg : MailgunClient) (n : String)
      → mg.api_base ≡ url
      → Leads Fine Fine Fine (read_records r mg n)
  unfolding read_records
  read_records-Fine mg n here = search (call_rules, get_domain-Fine) depth 24

  mx-Fine :
      (mg : MailgunClient)
      → mg.api_base ≡ url
      → Leads Fine Fine Fine (check_mx_records_and_set_state r mg)
  unfolding check_mx_records_and_set_state
  mx-Fine mg here = search (call_rules, get_domain-Fine) depth 24

  activate-Fine :
      (mg : MailgunClient) (state : String)
      → mg.api_base ≡ url
      → Leads Fine Fine Fine (activate r mg state)
  unfolding activate
  activate-Fine mg state here = search (call_rules, mx-Fine) depth 24

  now-Fine : Leads Fine Fine Fine (now r)
  now-Fine = record { at = λ s l. (apart-Harmless server _ apart.now-apart s.world l.0, l.1) }

  verify-Fine :
      (mg : MailgunClient) (n : String) → mg.api_base ≡ url → Leads Fine Fine Fine (verify r mg n)
  unfolding verify
  verify-Fine mg n here = search (call_rules, verify_domain-Fine, activate-Fine, now-Fine) depth 24

  store_status-Fine : Leads Fine Fine Fine (store_status r)
  unfolding store_status
  store_status-Fine = search call_rules depth 24

  pub update_dns-Fine :
      (mg : MailgunClient) (n : String)
      → mg.api_base ≡ url
      → Leads Fine Fine Fine (update_dns r mg n)
  unfolding update_dns check_domain
  update_dns-Fine mg n here =
      search
        (
          call_rules, stop_if_settled-Fine, ensure_external_dns-Fine, read_records-Fine,
          verify-Fine, store_status-Fine,
        )
        depth 24

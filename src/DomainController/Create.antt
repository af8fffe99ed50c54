-- ===== src/DomainController/Create.antt =====
-- `createDomain`, with `RandomHex` of internal/utils/random.go.
pub mod Hex
pub mod Laws
pub mod Password
use mailgun_operator.Base.{
  ℕ, String, Bool, true, false, Option, none, some, is_some, is_set, nonempty_or, if◌then◌else◌,
}
use mailgun_operator.Base.Int.{ℤ, pos, is_positive}
use mailgun_operator.Base.Exec.{M, ◌>>=◌, ◌>>◌, pure, return, gets, when, if_some, invoke}
use mailgun_operator.Api.Meta.{Error, Res, if_failed}
use mailgun_operator.Api.DomainTypes.{DomainSpec, DomainStatus}
use mailgun_operator.External.{MailgunClient, CreateDomainOptions, DomainResponse}
use mailgun_operator.Controller.{request, on_object}
use mailgun_operator.DomainController.Run.{
  DomainReconciler, Run, random_read, domain_created, status_updated, set_status,
}
use mailgun_operator.DomainController.Records.{mg_dns_records_to_dns_records}
use mailgun_operator.DomainController.Export.{export_credentials_to_secret}
use Hex.{hex_encode}

-- `p != nil && *p > 0`, and the value there.
abbrev pub positive_or_zero : Option ℤ → ℤ
positive_or_zero none = pos 0
positive_or_zero (some z) = if is_positive z then z else pos 0

-- The options that the spec and the password determine.
unfoldable pub create_options : DomainSpec → String → CreateDomainOptions
create_options spec password = record {
  password = password;
  spam_action = nonempty_or spec.spam_action "";
  wildcard = is_set spec.wildcard;
  force_dkim_authority = is_set spec.force_dkim_authority;
  dkim_key_size = positive_or_zero spec.dkim_key_size;
}

-- What the answer of `CreateDomain` writes to the status.
abbrev pub record_response : DomainResponse → DomainStatus → DomainStatus
record_response resp status = record status {
  sending_dns_records = mg_dns_records_to_dns_records resp.sending_dns_records;
  receiving_dns_records = mg_dns_records_to_dns_records resp.receiving_dns_records;
  domain_state = resp.state;
}

module _ {W Endpoint : Type 0} where
  -- `if err != nil { return err }` in a method that returns an error.
  abbrev pub check : Option Error → M (Run W Endpoint) (Option Error) (Unit {0})
  check e = if_some e (λ e'. return (some e')) (pure tt)

  abbrev pub checked : {A : Type 0} → Res A → M (Run W Endpoint) (Option Error) A
  checked x = if_failed x (λ e. return (some e)) pure

module _ {W Endpoint : Type 0} (r : DomainReconciler W Endpoint) where
  -- `utils.RandomHex(n)`
  unfoldable pub random_hex : ℕ → M (Run W Endpoint) (Option Error) String
  random_hex n = do
    bytes ← checked (← request random_read (r.cluster.rand_read n))
    pure (hex_encode bytes)

  -- `if domain.Spec.ExportCredentials != nil && *domain.Spec.ExportCredentials`
  unfoldable pub export_if_asked : String → String → M (Run W Endpoint) (Option Error) (Unit {0})
  unfolding export_credentials_to_secret
  export_if_asked login password = do
    spec ← gets (λ s. s.object.spec)
    when (is_set spec.export_credentials)
        do e ← invoke (export_credentials_to_secret r login password); check e

  -- The call of Mailgun, and the part of its answer that the status keeps.
  unfoldable pub submit : MailgunClient → String → M (Run W Endpoint) (Option Error) DomainResponse
  submit mg password = do
    spec ← gets (λ s. s.object.spec)
    let options = create_options spec password
    resp ←
        checked
          (← request (domain_created spec.domain options)
            (r.mailgun.create_domain mg spec.domain options))
    set_status (record_response resp)
    pure resp

  unfoldable pub store_created : M (Run W Endpoint) (Option Error) (Option Error)
  store_created = do e ← on_object status_updated r.client.status_update; check e; return none

  unfoldable pub hand_over :
      String → DomainResponse → M (Run W Endpoint) (Option Error) (Option Error)
  unfolding export_if_asked store_created
  hand_over password resp = do export_if_asked resp.smtp_login password; store_created

  unfoldable pub obtain : MailgunClient → String → M (Run W Endpoint) (Option Error) (Option Error)
  unfolding submit hand_over
  obtain mg password = do resp ← submit mg password; hand_over password resp

  unfoldable pub create_domain : MailgunClient → M (Run W Endpoint) (Option Error) (Option Error)
  unfolding random_hex obtain
  create_domain mg = do password ← random_hex 16; obtain mg password

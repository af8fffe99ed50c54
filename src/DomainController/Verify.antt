-- ===== src/DomainController/Verify.antt =====
-- `checkMXRecordsAndSetState`, and the part of `Reconcile` that asks Mailgun about a domain that
-- exists: the records, the verification, and the status that is stored.
pub mod Requeue
use mailgun_operator.Base.{
  ℕ, String, Bool, false, Option, none, some, List, [], ◌∷◌, ◌^◌, ◌==◌, is_set,
}
use mailgun_operator.Base.Int.{ℤ, pos, increment, scale}
use mailgun_operator.Base.Exec.{M, ◌>>=◌, ◌>>◌, next, return, gets, when, if_else, invoke}
use mailgun_operator.Base.Lists.{all}
use mailgun_operator.Api.Meta.{Res, if_failed}
use mailgun_operator.Api.DomainTypes.{DomainStatus, state_failed, state_activated}
use mailgun_operator.External.{MailgunClient, MailgunDnsRecord, DomainResponse}
use mailgun_operator.Controller.{request, on_object, Reply, reply_of, check_reply}
use mailgun_operator.DomainController.Run.{
  DomainReconciler, Run, status_updated, get_domain, verify_domain, set_status,
}
use mailgun_operator.DomainController.Records.{mg_dns_records_to_dns_records}

-- The tests of `checkMXRecordsAndSetState` on the records: there are some, and the loop ends.
unfoldable pub mx_valid : List MailgunDnsRecord → Bool
unfolding all
mx_valid [] = false
mx_valid (r ∷ records) = all (λ (x : MailgunDnsRecord). x.valid == "valid") (r ∷ records)

-- `if domain.Status.DomainValidationCount == nil { … }`, and `++`
unfoldable pub next_count : Option ℤ → ℤ
unfolding increment
next_count none = increment (pos 0)
next_count (some n) = increment n

-- `time.Duration(seconds) * time.Second`, in nanoseconds.
unfoldable pub seconds : ℤ → ℤ
unfolding scale
seconds n = scale n (10 ^ 9)

abbrev pub active : String
active = "active"

module _ {W Endpoint : Type 0} (r : DomainReconciler W Endpoint) where
  abbrev set_mx_state : Res DomainResponse → M (Run W Endpoint) (Unit {0}) (Unit {0})
  set_mx_state found =
      if_failed found (λ _. return tt)
        λ resp.
          when (mx_valid resp.receiving_dns_records)
            (set_status (λ status. record status { state = state_activated }))

  unfoldable pub check_mx_records_and_set_state :
      MailgunClient → M (Run W Endpoint) (Unit {0}) (Unit {0})
  unfolding mx_valid
  check_mx_records_and_set_state mg = do
    name ← gets (λ s. s.object.spec.domain)
    resp ← get_domain r mg name
    set_mx_state resp

  -- The answer to `GetDomain` before the verification.
  abbrev take_records : Res DomainResponse → M (Run W Endpoint) Reply (Unit {0})
  take_records found =
      if_failed found
        (λ _. do
          set_status (λ status. record status {
            state = state_failed;
            mailgun_error = some "Domain not found on Mailgun";
          })
          e' ← on_object status_updated r.client.status_update
          check_reply e'
          return (reply_of (pos 0) none))
        λ resp. set_status (λ status. record status {
          receiving_dns_records = mg_dns_records_to_dns_records resp.receiving_dns_records;
          sending_dns_records = mg_dns_records_to_dns_records resp.sending_dns_records;
        })

  unfoldable pub read_records : MailgunClient → String → M (Run W Endpoint) Reply (Unit {0})
  read_records mg name = do resp ← get_domain r mg name; take_records resp

  -- What the answer of `VerifyDomain` and the clock write to the status.
  abbrev pub record_verification : String → ℕ → DomainStatus → DomainStatus
  record_verification state time status = record status {
    domain_state = state;
    last_domain_validation_time = some time;
    domain_validation_count = some (next_count status.domain_validation_count);
  }

  abbrev pub now : M (Run W Endpoint) Reply ℕ
  now s = let (t, w) = r.cluster.now s.world in (next t, record s { world = w })

  -- `if mailgunStatus == "active"`
  unfoldable pub activate : MailgunClient → String → M (Run W Endpoint) Reply (Unit {0})
  unfolding check_mx_records_and_set_state
  activate mg state = when (state == active) do
    spec ← gets (λ s. s.object.spec)
    if_else (is_set spec.force_mx_check) (invoke (check_mx_records_and_set_state mg))
        (set_status (λ status. record status { state = state_activated }))

  abbrev take_verification : MailgunClient → Res String → M (Run W Endpoint) Reply (Unit {0})
  take_verification mg answer =
      if_failed answer (λ e. return (reply_of (seconds r.config.domain_verify_duration) (some e)))
        λ state. do time ← now; set_status (record_verification state time); activate mg state

  unfoldable pub verify : MailgunClient → String → M (Run W Endpoint) Reply (Unit {0})
  unfolding activate next_count seconds
  verify mg name = do answer ← verify_domain r mg name; take_verification mg answer

  -- The end of `Reconcile`.
  unfoldable pub store_status : M (Run W Endpoint) Reply Reply
  unfolding seconds
  store_status = do
    e ← on_object status_updated r.client.status_update
    check_reply e
    return (reply_of (seconds r.config.domain_verify_duration) none)

-- ===== src/System/Unique/Calls.antt =====
-- What the calls of the domains' reconciler keep.
use mailgun_operator.Base.{◌≡◌, String, Option}
use mailgun_operator.Base.Exec.Leads.{Leads, keeps_rules}
use mailgun_operator.Api.Meta.{Error, Res}
use mailgun_operator.External.{MailgunClient}
use mailgun_operator.Controller.{on_object, request}
use mailgun_operator.DomainController.Run.{DomainReconciler, Run, Call, updated, status_updated}
use mailgun_operator.DomainController.Delete.{eventf}
use mailgun_operator.DomainController.Create.{check}
use mailgun_operator.MockServer.{MockServer, Surroundings}
use mailgun_operator.System.{ServedBy, IsApart, KeepsName}
use mailgun_operator.System.Unique.Requests.{get-Unique, delete-Unique, verify-Unique}
use mailgun_operator.System.Unique.Steps.{
  Good, Harmless, apart-Harmless, Good-request, Good-record_event, Good-set_status, Good-on_object,
  step_rules,
}

module _ {W Endpoint : Type 0} (r : DomainReconciler W Endpoint) (url : String)
    (server : W → MockServer) (around : W → Surroundings)
    (served : ServedBy r.mailgun url server around) (apart : IsApart r server)
    (keeps : KeepsName r.client) (name : String) where
  abbrev pub Fine : Run W Endpoint → Type 0
  Fine = Good server name

  pub update-Fine : {R : Type 0} → Leads {R = R} Fine Fine Fine (on_object updated r.client.update)
  update-Fine =
      Good-on_object server name updated r.client.update
        (λ d. apart-Harmless server (λ w. (r.client.update d w).1) (apart.update-apart d))
        keeps.update-name

  pub status_update-Fine :
      {R : Type 0} → Leads {R = R} Fine Fine Fine (on_object status_updated r.client.status_update)
  status_update-Fine =
      Good-on_object server name status_updated r.client.status_update
        (λ d.
          apart-Harmless server (λ w. (r.client.status_update d w).1) (apart.status_update-apart d))
        keeps.status_update-name

  pub request-Fine :
      {A R : Type 0} (c : Option Error → Call Endpoint) (f : W → Res A × W)
      → ((w : W) → server (f w).1 ≡ server w)
      → Leads {R = R} Fine Fine Fine (request c f)
  request-Fine c f h = Good-request server name c f (apart-Harmless server (λ w. (f w).1) h)

  pub event-Fine :
      {R : Type 0} (kind reason message : String)
      → Leads {R = R} Fine Fine Fine (eventf r kind reason message)
  event-Fine kind reason message =
      Good-record_event server name _ (r.cluster.record_event kind reason message)
        (apart-Harmless server _ (apart.record_event-apart kind reason message))

  pub get_domain-Fine :
      {R : Type 0} (c : Option Error → Call Endpoint) (mg : MailgunClient) (n : String)
      → mg.api_base ≡ url
      → Leads {R = R} Fine Fine Fine (request c (r.mailgun.get_domain mg n))
  get_domain-Fine c mg n here =
      Good-request server name c (r.mailgun.get_domain mg n)
        λ w u. rw (served.get_domain-sent mg n w here) (get-Unique mg n (around w) (server w) u)

  pub delete_domain_call-Fine :
      {R : Type 0} (c : Option Error → Call Endpoint) (mg : MailgunClient) (n : String)
      → mg.api_base ≡ url
      → Leads {R = R} Fine Fine Fine (request c (r.mailgun.delete_domain mg n))
  delete_domain_call-Fine c mg n here =
      Good-request server name c (r.mailgun.delete_domain mg n) λ w u.
        rw (served.delete_domain-sent mg n w here) (delete-Unique mg n (around w) (server w) u)

  pub verify_domain-Fine :
      {R : Type 0} (c : Option Error → Call Endpoint) (mg : MailgunClient) (n : String)
      → mg.api_base ≡ url
      → Leads {R = R} Fine Fine Fine (request c (r.mailgun.verify_domain mg n))
  verify_domain-Fine c mg n here =
      Good-request server name c (r.mailgun.verify_domain mg n) λ w u.
        rw (served.verify_domain-sent mg n w here) (verify-Unique mg n (around w) (server w) u)

  pub check-Fine : (e : Option Error) → Leads {A = Unit {0}} Fine Fine Fine (check e)
  check-Fine e = search keeps_rules

  pub ruleset call_rules = (step_rules, update-Fine, status_update-Fine, event-Fine, check-Fine)

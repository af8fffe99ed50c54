-- ===== src/System/Activation.antt =====
-- The first run of the domains' reconciler on an object, composed with the mock server: what it
-- relies on in the client's answers.
pub mod Requests
pub mod Stages
pub mod Found
pub mod Activated
mod Tests
use mailgun_operator.Base.{
  ℕ, ◌≡◌, refl, sym, ap, ◌∙◌, String, ◌==◌, Bool, true, false, Option, none, some, List, [], ◌∷◌,
  arith, is_empty, is_set, if◌then◌else◌,
}
use mailgun_operator.Base.Dict.{lookup}
use mailgun_operator.Base.Exec.{next, done}
use mailgun_operator.Base.Lists.{contains}
use mailgun_operator.Api.Meta.{Key, Error, Res, ok, err}
use mailgun_operator.Api.DomainTypes.{Domain, state_activated}
use mailgun_operator.External.{
  MailgunClient, DomainApi, DomainResponse, CreateDomainOptions, MailgunDomain,
}
use mailgun_operator.Configuration.{mailgun_client}
use mailgun_operator.Controller.{reply_of}
use mailgun_operator.DomainController.Run.{DomainReconciler, Run, Call, fetched}
use mailgun_operator.DomainController.Create.{create_options}
use mailgun_operator.DomainController.Create.Hex.{hex_encode}
use mailgun_operator.DomainController.Verify.{seconds, active}
use mailgun_operator.DomainController.Reconcile.{
  has_finalizer, needs_external_dns, is_settled, establish, update_dns, reconcile,
}
use mailgun_operator.DomainController.Convergence.{verified_domain}
use mailgun_operator.DomainController.FirstRun.{
  created_domain, settled_domain, establish-created, update_dns-verified, reconcile-new,
}
use mailgun_operator.MockServer.{MockServer, Surroundings, DomainContainer, find_domain}
use mailgun_operator.MockServer.Http.{Response, Body, Value, object, listing, domain}
use mailgun_operator.MockServer.Records.{new_container, active_state}
use mailgun_operator.MockServer.Domains.{append_domain, refreshed, verified}
use mailgun_operator.MockServer.Domains.Requests.{find_domain-append, find_domain-change_domain}
use mailgun_operator.MockServer.Serve.{serve}
use mailgun_operator.System.{
  domain_request, creation_request, verification_request, succeeds, is_accepted, ServedBy, IsApart,
}
use Requests.{get-absent, get-present, create-served, verify-served, read_server, verified_server}

-- The state that the library takes from an answer, if the answer is accepted.
abbrev state_of : Option Value → Option String
state_of none = none
state_of (some v) = elim v [ domain d ↦ some d.state | _ ↦ none ]

abbrev state_in : Body → Option String
state_in (object entries) = state_of (lookup "domain" entries)
state_in (listing _) = none

abbrev pub answered_state : Option Response → Option String
answered_state none = none
answered_state (some answer) = if is_accepted (some answer) then state_in answer.body else none

abbrev pub verdict : Res String → Option String
verdict (ok state) = some state
verdict (err _) = none

-- `CreateDomain` succeeds if it is answered by 200, and `VerifyDomain` gives back the state of the
-- domain in such an answer.
pub record AnswersTo {W : Type 0} (mailgun : DomainApi W) (url : String) (server : W → MockServer)
    (around : W → Surroundings) : Type 0 where
  pub create_domain-succeeds :
      (mg : MailgunClient) (name : String) (options : CreateDomainOptions) (w : W)
      → mg.api_base ≡ url
      → succeeds (mailgun.create_domain mg name options w).0
        ≡ is_accepted (serve (creation_request mg name) (around w) (server w)).0
  pub verify_domain-state :
      (mg : MailgunClient) (name : String) (w : W)
      → mg.api_base ≡ url
      → verdict (mailgun.verify_domain mg name w).0
        ≡ answered_state (serve (verification_request mg name) (around w) (server w)).0

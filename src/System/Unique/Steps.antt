-- ===== src/System/Unique/Steps.antt =====
-- What the statements of the domains' reconciler keep: different names on the server, and the name
-- of the domain in the object.
use mailgun_operator.Base.{◌≡◌, ◌∙◌, String, Option}
use mailgun_operator.Base.Exec.Leads.{After, Leads, Leads-bind, keeps_rules}
use mailgun_operator.Api.Meta.{Error, Res, ok}
use mailgun_operator.Api.DomainTypes.{Domain, DomainStatus}
use mailgun_operator.Controller.{on_object, request, record_event}
use mailgun_operator.Controller.Leads.{
  Both, Both-request, Both-record_event, Both-on_object, Keeps-if_failed, Keeps-check_reply,
}
use mailgun_operator.DomainController.Run.{Run, Call, set_status}
use mailgun_operator.MockServer.{MockServer}
use mailgun_operator.System.Unique.Requests.{Unique}

abbrev pub Good : {W Endpoint : Type 0} → (W → MockServer) → String → Run W Endpoint → Type 0
Good server name = Both (λ w. Unique (server w)) (λ d. d.spec.domain ≡ name)

module _ {W : Type 0} where
  -- A call that keeps the names different.
  abbrev pub Harmless : (W → MockServer) → (W → W) → Type 0
  Harmless server f = (w : W) → Unique (server w) → Unique (server (f w))

  -- The object that a call answers has the same name.
  abbrev pub KeepsNameOf : (Domain → W → Res Domain × W) → Type 0
  KeepsNameOf f = (d d' : Domain) (w : W) → (f d w).0 ≡ ok d' → d'.spec.domain ≡ d.spec.domain

pub apart-Harmless :
    {W : Type 0} (server : W → MockServer) (f : W → W)
    → ((w : W) → server (f w) ≡ server w)
    → Harmless server f
apart-Harmless server f h w u j = rw (h w) (u j)

module _ {W Endpoint R : Type 0} (server : W → MockServer) (name : String) where
  pub Good-request :
      {A : Type 0} (c : Option Error → Call Endpoint) (f : W → Res A × W)
      → Harmless server (λ w. (f w).1)
      → Leads {R = R} (Good server name) (Good server name) (Good server name) (request c f)
  Good-request = Both-request (λ w. Unique (server w)) (λ d. d.spec.domain ≡ name)

  pub Good-record_event :
      (c : Call Endpoint) (f : W → W)
      → Harmless server f
      → Leads {R = R} (Good server name) (Good server name) (Good server name) (record_event c f)
  Good-record_event = Both-record_event (λ w. Unique (server w)) (λ d. d.spec.domain ≡ name)

  pub Good-set_status :
      (f : DomainStatus → DomainStatus)
      → Leads {R = R}
          (Good {Endpoint = Endpoint} server name)
          (Good server name)
          (Good server name)
          (set_status f)
  Good-set_status f = record { at = λ s l. l }

  pub Good-on_object :
      (c : Domain → Option Error → Call Endpoint) (f : Domain → W → Res Domain × W)
      → ((d : Domain) → Harmless server (λ w. (f d w).1))
      → KeepsNameOf f
      → Leads {R = R} (Good server name) (Good server name) (Good server name) (on_object c f)
  Good-on_object c f h k =
      Both-on_object (λ w. Unique (server w)) (λ d. d.spec.domain ≡ name) c f h
        (λ d d' w e l. k d d' w e ∙ l)

pub ruleset step_rules = (keeps_rules, Keeps-if_failed, Keeps-check_reply, Good-set_status)

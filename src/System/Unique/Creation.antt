-- ===== src/System/Unique/Creation.antt =====
-- What the domains' reconciler knows of the server from the look-up to the creation.
use mailgun_operator.Base.{ℕ, ◌≡◌, refl, sym, ◌∙◌, String, false, Option, none, is_empty}
use mailgun_operator.Base.Exec.{◌>>=◌, ◌>>◌, invoke, pure, return}
use mailgun_operator.Base.Exec.Leads.{
  After, Leads, Leads-bind, Leads-return, Leads-weaken, Leads-invoke, Keeps-when_test, keeps_rules,
}
use mailgun_operator.Base.Int.{pos}
use mailgun_operator.Api.Meta.{Error, Res, ok, err}
use mailgun_operator.External.{CreateDomainOptions, MailgunClient, DomainResponse}
use mailgun_operator.Controller.{reply_of, check_reply, Reply, on_object, request}
use mailgun_operator.Controller.Leads.{Keeps-if_failed, Keeps-check_reply}
use mailgun_operator.DomainController.Run.{
  random_read, DomainReconciler, Run, set_status, status_updated, domain_read,
}
use mailgun_operator.DomainController.Create.{
  create_options, record_response, random_hex, submit, obtain, create_domain, checked, hand_over,
}
use mailgun_operator.DomainController.Reconcile.{
  look_up, refuse_existing, establish, provision, advance, settle_creation, update_dns,
}
use mailgun_operator.MockServer.{MockServer, Surroundings}
use mailgun_operator.System.{succeeds, ServedBy, IsApart, KeepsName}
use mailgun_operator.System.Unique.Requests.{Unique, Free, get-Free, create-Unique}
use mailgun_operator.System.Unique.Calls.{call_rules, status_update-Fine, get_domain-Fine}
use mailgun_operator.System.Unique.Methods.{hand_over-Fine, settle_creation-Fine, update_dns-Fine}
use mailgun_operator.System.Unique.Steps.{Good, apart-Harmless}

module _ {W Endpoint : Type 0} (r : DomainReconciler W Endpoint) (url : String)
    (server : W → MockServer) (around : W → Surroundings)
    (served : ServedBy r.mailgun url server around) (apart : IsApart r server)
    (keeps : KeepsName r.client) (mg : MailgunClient) (name : String) (here : mg.api_base ≡ url)
    (named : is_empty name ≡ false) where
  abbrev Fine : Run W Endpoint → Type 0
  Fine = Good server name

  -- And no domain of the name is on the server.
  abbrev Vacant : Run W Endpoint → Type 0
  Vacant s = Fine s × Free mg name (server s.world)

  stored-refused : Leads {A = Unit {0}} Fine Vacant Fine (
      on_object status_updated r.client.status_update >>= λ e.
      check_reply e >> return (reply_of (pos 0) none))
  stored-refused =
      Leads-bind (on_object status_updated r.client.status_update)
        (λ e. check_reply e >> return (reply_of (pos 0) none))
        (status_update-Fine r url server around served apart keeps name)
        λ e.
          Leads-bind (check_reply e) (λ _. return (reply_of (pos 0) none)) (Keeps-check_reply e)
            (λ _. Leads-return (reply_of (pos 0) none))

  look_up-refused :
      (resp : DomainResponse) → Leads Fine Vacant Fine (refuse_existing r name (ok resp))
  look_up-refused resp = record {
    at = λ s l. stored-refused.at _ (
      apart-Harmless server _ (apart.record_event-apart "Warning" "DomainExisted" _) s.world l.0,
      l.1,
    );
  }

  refused-After :
      (x : Res DomainResponse) (s : Run W Endpoint)
      → Fine s
      → (succeeds x ≡ false → Free mg name (server s.world))
      → After Vacant Fine (refuse_existing r name x s)
  refused-After (ok resp) s l h = (look_up-refused resp).at s l
  refused-After (err e) s l h = (l, h refl)

  read-Free :
      (w : W)
      → Unique (server w)
      → succeeds (r.mailgun.get_domain mg name w).0 ≡ false
      → Free mg name (server (r.mailgun.get_domain mg name w).1)
  read-Free w u h = rw (served.get_domain-sent mg name w here) (
      get-Free mg name (around w) (server w) named u
        (sym (served.get_domain-succeeds mg name w here) ∙ h))

  look_up-Vacant : Leads Fine Vacant Fine (look_up r mg name)
  unfolding look_up
  look_up-Vacant = record {
    at = λ s l.
        refused-After (r.mailgun.get_domain mg name s.world).0 _
          ((get_domain-Fine r url server around served apart keeps name {R = Reply}
              (domain_read name) mg name here).at
            s l)
          (read-Free s.world l.0);
  }

  random_read-Vacant :
      (n : ℕ)
      → Leads {R = Option Error} Vacant Vacant Vacant (request random_read (r.cluster.rand_read n))
  random_read-Vacant n = record { at = λ s l. rw (apart.rand_read-apart n s.world) l }

  random_hex-Vacant : (n : ℕ) → Leads Vacant Vacant Vacant (random_hex r n)
  unfolding random_hex
  random_hex-Vacant n = search (keeps_rules, Keeps-if_failed, random_read-Vacant) depth 20

  recorded-Fine :
      (x : Res DomainResponse)
      → Leads Fine Fine Fine (checked x >>= λ resp. set_status (record_response resp) >> pure resp)
  recorded-Fine x = search (call_rules) depth 20

  created-Unique :
      (options : CreateDomainOptions) (s : Run W Endpoint)
      → Vacant s
      → Unique (server (r.mailgun.create_domain mg s.object.spec.domain options s.world).1)
  created-Unique options s l =
      rw (l.0.1, served.create_domain-sent mg name options s.world here)
        (create-Unique mg name (around s.world) (server s.world) l.0.0 l.1)

  submit-Fine : (password : String) → Leads Vacant Fine Fine (submit r mg password)
  unfolding submit
  submit-Fine password = record {
    at = λ s l.
        (recorded-Fine
            (r.mailgun.create_domain mg s.object.spec.domain (create_options s.object.spec password)
              s.world).0).at
          _ (created-Unique (create_options s.object.spec password) s l, l.0.1);
  }

  create_domain-Fine : Leads Vacant Fine Fine (create_domain r mg)
  unfolding create_domain obtain
  create_domain-Fine =
      Leads-bind (random_hex r 16) (obtain r mg)
        (Leads-weaken Fine (random_hex r 16) (λ s l. l.0) (random_hex-Vacant 16))
        λ password.
          Leads-bind (submit r mg password) (hand_over r password) (submit-Fine password)
            (hand_over-Fine r url server around served apart keeps name password)

  establish-Fine : Leads Fine Fine Fine (establish r mg name)
  unfolding establish
  establish-Fine =
      Leads-bind (look_up r mg name) (λ _. invoke (create_domain r mg) >>= settle_creation r)
        look_up-Vacant
        λ _.
          Leads-bind (invoke (create_domain r mg)) (settle_creation r)
            (Leads-invoke (create_domain r mg) create_domain-Fine)
            (settle_creation-Fine r url server around served apart keeps name)

  provision-Fine : Leads Fine Fine Fine (provision r mg name)
  unfolding provision
  provision-Fine =
      Keeps-when_test (λ s. is_empty s.object.status.state) (establish r mg name) establish-Fine

  pub advance-Fine : Leads Fine Fine Fine (advance r mg name)
  unfolding advance
  advance-Fine =
      Leads-bind (provision r mg name) (λ _. update_dns r mg name) provision-Fine
        (λ _. update_dns-Fine r url server around served apart keeps name mg name here)

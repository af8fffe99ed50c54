-- ===== src/System/Activation/Stages.antt =====
-- The two stages of the first run: the creation, and the verification.
use mailgun_operator.Base.{
  ◌≡◌, refl, ap, ◌∙◌, String, ◌==◌, Bool, true, false, none, some, List, arith, is_empty, is_set,
}
use mailgun_operator.Base.Dict.{lookup}
use mailgun_operator.Base.Exec.{next, done}
use mailgun_operator.Base.Lists.{contains}
use mailgun_operator.Api.Meta.{Error, Res, ok, err}
use mailgun_operator.Api.DomainTypes.{Domain, state_activated}
use mailgun_operator.External.{MailgunClient, DomainResponse}
use mailgun_operator.Controller.{reply_of}
use mailgun_operator.DomainController.Run.{DomainReconciler, Run, Call}
use mailgun_operator.DomainController.Create.{create_options}
use mailgun_operator.DomainController.Create.Hex.{hex_encode}
use mailgun_operator.DomainController.Verify.{seconds, active}
use mailgun_operator.DomainController.Reconcile.{
  needs_external_dns, is_settled, establish, update_dns,
}
use mailgun_operator.DomainController.Convergence.{key_of, verified_domain}
use mailgun_operator.DomainController.FirstRun.{
  created_domain, settled_domain, establish-created, update_dns-verified,
}
use mailgun_operator.MockServer.{MockServer, Surroundings, DomainContainer, find_domain}
use mailgun_operator.MockServer.Http.{to_json, status_ok}
use mailgun_operator.MockServer.Records.{new_container}
use mailgun_operator.MockServer.Domains.{append_domain, domain_body, refreshed, verified}
use mailgun_operator.MockServer.Domains.Requests.{find_domain-change_domain}
use mailgun_operator.MockServer.Serve.{serve}
use mailgun_operator.System.{
  domain_request, creation_request, verification_request, succeeds, is_accepted, ServedBy, IsApart,
}
use mailgun_operator.System.Activation.Requests.{
  get-absent, get-present, create-served, verify-served, read_server, verified_server,
}
use mailgun_operator.System.Activation.{AnswersTo, answered_state, verdict}

succeeds-ok : {A : Type 0} (x : Res A) → succeeds x ≡ true → (a : A) × (x ≡ ok a)
succeeds-ok (ok a) h = (a, refl)
succeeds-ok (err _) h = absurd (ground arith)

succeeds-err : {A : Type 0} (x : Res A) → succeeds x ≡ false → (e : Error) × (x ≡ err e)
succeeds-err (ok _) h = absurd (ground arith)
succeeds-err (err e) h = (e, refl)

verdict-ok : (x : Res String) (state : String) → verdict x ≡ some state → x ≡ ok state
verdict-ok (ok s) state h = ground arith
verdict-ok (err _) state h = absurd (ground arith)

answered-verified :
    (b : Bool) (c : DomainContainer)
    → b ≡ true
    → answered_state (
        some
          (to_json (domain_body "Domain DNS records have been updated" (verified b c)) status_ok))
      ≡ some active
unfolding lookup
answered-verified b c h = rw h refl

pub paired : {A B : Type 0} (p : A × B) (a : A) → p.0 ≡ a → p ≡ (a, p.1)
paired p a h = ap (λ x. (x, p.1)) h

module _ {W Endpoint : Type 0} (r : DomainReconciler W Endpoint) (url : String)
    (server : W → MockServer) (around : W → Surroundings)
    (served : ServedBy r.mailgun url server around)
    (answers : AnswersTo r.mailgun url server around) (apart : IsApart r server)
    (reads : (w : W) → succeeds (r.cluster.rand_read 16 w).0 ≡ true)
    (stores : (d : Domain) (w : W) → (r.client.status_update d w).0 ≡ ok d) where
  -- The creation, on a server that does not have the domain.
  pub establish-served :
      (mg : MailgunClient) (s : Run W Endpoint) (m : MockServer)
      → is_set s.object.spec.export_credentials ≡ false
      → mg.api_base ≡ url
      → is_empty s.object.spec.domain ≡ false
      → server s.world ≡ m
      → (mg.api_key == m.api_token) ≡ true
      → find_domain s.object.spec.domain m.domain_list ≡ none
      → contains m.failed_domains s.object.spec.domain ≡ false
      → (resp : DomainResponse) × (w : W) × (calls : List (Call Endpoint)) × (a : Surroundings)
        × (establish r mg s.object.spec.domain s ≡ (
          next tt,
          record { world = w; object = settled_domain r resp s.object; calls = calls },
        ))
        × (server w ≡ append_domain (new_container m a s.object.spec.domain) m)
  establish-served mg s m x here named at_m allowed absent working =
      let name = s.object.spec.domain in
      let w1 = (r.mailgun.get_domain mg name s.world).1 in
      let got =
        ap (λ n. serve (domain_request "GET" mg name) (around s.world) n) at_m
        ∙ get-absent mg name (around s.world) m named allowed absent in
      let (e, missing) =
        succeeds-err (r.mailgun.get_domain mg name s.world).0
          (served.get_domain-succeeds mg name s.world here ∙ ap (λ q. is_accepted q.0) got) in
      let at_w1 = served.get_domain-sent mg name s.world here ∙ ap (λ q. q.1) got in
      let (bytes, random) = succeeds-ok (r.cluster.rand_read 16 w1).0 (reads w1) in
      let w2 = (r.cluster.rand_read 16 w1).1 in
      let at_w2 = apart.rand_read-apart 16 w1 ∙ at_w1 in
      let options = create_options s.object.spec (hex_encode bytes) in
      let made =
        ap (λ n. serve (creation_request mg name) (around w2) n) at_w2
        ∙ create-served mg name (around w2) m named allowed working in
      let (resp, created) =
        succeeds-ok (r.mailgun.create_domain mg name options w2).0 (
          answers.create_domain-succeeds mg name options w2 here
          ∙ ap (λ q. is_accepted q.0) made) in
      let w3 = (r.mailgun.create_domain mg name options w2).1 in
      let at_w3 = served.create_domain-sent mg name options w2 here ∙ ap (λ q. q.1) made in
      let d1 = created_domain r resp s.object in
      (
        resp,
        (r.client.status_update d1 w3).1,
        _,
        around w2,
        establish-created r mg name s w1 w2 w3 (r.client.status_update d1 w3).1 e bytes resp x
            (paired (r.mailgun.get_domain mg name s.world) (err e) missing)
            (paired (r.cluster.rand_read 16 w1) (ok bytes) random)
            (paired (r.mailgun.create_domain mg name options w2) (ok resp) created)
            (paired (r.client.status_update d1 w3) (ok d1) (stores d1 w3)),
        apart.status_update-apart d1 w3 ∙ at_w3,
      )

  -- The rest of the run, on a server that has the domain and is to find it active.
  pub update_dns-served :
      (mg : MailgunClient) (name : String) (s : Run W Endpoint) (m : MockServer)
      (c : DomainContainer)
      → is_settled s.object.status ≡ false
      → needs_external_dns s.object ≡ false
      → is_set s.object.spec.force_mx_check ≡ false
      → mg.api_base ≡ url
      → is_empty name ≡ false
      → server s.world ≡ m
      → (mg.api_key == m.api_token) ≡ true
      → find_domain name m.domain_list ≡ some c
      → c.domain.name ≡ name
      → contains m.active_domains name ≡ true
      → ((o : Domain) (w : W)
          → r.client.get (key_of o) (r.client.status_update o w).1
            ≡ (ok o, (r.client.status_update o w).1))
      → (t : Run W Endpoint) × (update_dns r mg name s
          ≡ (done (reply_of (seconds r.config.domain_verify_duration) none), t))
        × (t.object.status.state ≡ state_activated)
        × (server t.world ≡ verified_server name (read_server name m))
        × (t.object.meta ≡ s.object.meta)
        × (r.client.get (key_of s.object) t.world ≡ (ok t.object, t.world))
  update_dns-served mg name s m c settled dns mx here named at_m allowed present same activated
        gets =
      let w1 = (r.mailgun.get_domain mg name s.world).1 in
      let got =
        ap (λ n. serve (domain_request "GET" mg name) (around s.world) n) at_m
        ∙ get-present mg name (around s.world) m named allowed c present in
      let (resp, read) =
        succeeds-ok (r.mailgun.get_domain mg name s.world).0
          (served.get_domain-succeeds mg name s.world here ∙ ap (λ q. is_accepted q.0) got) in
      let at_w1 = served.get_domain-sent mg name s.world here ∙ ap (λ q. q.1) got in
      let m1 = read_server name m in
      let found = find_domain-change_domain name (refreshed m name) m.domain_list c refl present in
      let asked =
        ap (λ n. serve (verification_request mg name) (around w1) n) at_w1
        ∙ verify-served mg name (around w1) m1 named allowed (refreshed m name c) found in
      let w2 = (r.mailgun.verify_domain mg name w1).1 in
      let active_now = verdict-ok (r.mailgun.verify_domain mg name w1).0 active (
        answers.verify_domain-state mg name w1 here
        ∙ ap (λ q. answered_state q.0) asked
        ∙ answered-verified (contains m.active_domains name) (refreshed m name c) activated) in
      let at_w2 = served.verify_domain-sent mg name w1 here ∙ ap (λ q. q.1) asked in
      let time = (r.cluster.now w2).0 in
      let w3 = (r.cluster.now w2).1 in
      let d = verified_domain r resp time s.object in
      (
        record { world = (r.client.status_update d w3).1; object = d; calls = _ },
        update_dns-verified r mg name s w1 w2 w3 (r.client.status_update d w3).1 resp time d settled
            dns mx (paired (r.mailgun.get_domain mg name s.world) (ok resp) read)
            (paired (r.mailgun.verify_domain mg name w1) (ok active) active_now) refl
            (paired (r.client.status_update d w3) (ok d) (stores d w3)),
        refl,
        apart.status_update-apart d w3 ∙ apart.now-apart w2 ∙ at_w2,
        refl,
        gets d w3,
      )

-- ===== src/System/Activation/Activated.antt =====
-- A new object becomes activated in one run, if the mock server is to find its domain active.
use mailgun_operator.Base.{
  ℕ, ◌||◌, List, inl, inr, Bool-cases, ◌≡◌, refl, ap, ◌∙◌, String, ◌==◌, true, false, none, some,
  [], ◌∷◌, is_empty, is_set,
}
use mailgun_operator.Base.Exec.{next, done}
use mailgun_operator.Base.Lists.{contains}
use mailgun_operator.Api.Meta.{ok}
use mailgun_operator.Api.DomainTypes.{Domain, state_failed, state_activated}
use mailgun_operator.External.{MailgunClient}
use mailgun_operator.Configuration.{mailgun_client}
use mailgun_operator.Controller.{reply_of}
use mailgun_operator.DomainController.Run.{DomainReconciler, Run, fetched, updated}
use mailgun_operator.DomainController.Verify.{seconds, active}
use mailgun_operator.DomainController.Reconcile.{
  has_finalizer, with_finalizer, loaded, needs_external_dns, is_settled, establish, update_dns,
  reconcile,
}
use mailgun_operator.DomainController.Delete.{domain_finalizer}
use mailgun_operator.DomainController.Convergence.{key_of, rounds, quiet, rounds-quiet}
use mailgun_operator.DomainController.FirstRun.{
  settled_domain, examine-registered, examine-unregistered, reconcile-new,
}
use mailgun_operator.MockServer.{MockServer, Surroundings, DomainContainer, find_domain}
use mailgun_operator.MockServer.Records.{new_container, active_state}
use mailgun_operator.MockServer.Domains.{append_domain}
use mailgun_operator.MockServer.Domains.Bag.{bag, put}
use mailgun_operator.MockServer.Domains.Requests.{find_domain-append}
use mailgun_operator.System.{succeeds, ServedBy, IsApart}
use mailgun_operator.System.Activation.{AnswersTo}
use mailgun_operator.System.Activation.Stages.{paired, establish-served, update_dns-served}
use mailgun_operator.System.Activation.Found.{new_container-name, activated-found, activated-bag}

module _ {W Endpoint : Type 0} (r : DomainReconciler W Endpoint) (url : String)
    (server : W → MockServer) (around : W → Surroundings)
    (served : ServedBy r.mailgun url server around)
    (answers : AnswersTo r.mailgun url server around) (apart : IsApart r server)
    (reads : (w : W) → succeeds (r.cluster.rand_read 16 w).0 ≡ true)
    (stores : (d : Domain) (w : W) → (r.client.status_update d w).0 ≡ ok d)
    (gets : (d : Domain) (w : W)
      → r.client.get (key_of d) (r.client.status_update d w).1
        ≡ (ok d, (r.client.status_update d w).1)) where
  -- Runs on an activated object that is stored only read it.
  quiet-after :
      (n : ℕ) (d : Domain) (s : Run W Endpoint)
      → d.meta.deletion_timestamp ≡ none
      → has_finalizer r d ≡ true
      → s.object.meta ≡ d.meta
      → s.object.status.state ≡ state_activated
      → r.client.get (key_of d) s.world ≡ (ok s.object, s.world)
      → rounds r (key_of d) n s.world ≡ quiet r (key_of d) n
  unfolding is_settled
  quiet-after n d s alive finalized same state got =
      rounds-quiet r (key_of d) n s.world s.object got (ap (λ m. m.deletion_timestamp) same ∙ alive)
        (ap (λ m. r.finalizers.has m.finalizers domain_finalizer) same ∙ finalized)
        (ap (λ t. t == state_failed || t == state_activated) state)

  -- The part of the run behind the examination of the object.
  advanced :
      (mg : MailgunClient) (start : Run W Endpoint) (m : MockServer) (j : String) (n : ℕ)
      → start.object.meta.deletion_timestamp ≡ none
      → has_finalizer r start.object ≡ true
      → needs_external_dns start.object ≡ false
      → is_set start.object.spec.force_mx_check ≡ false
      → is_set start.object.spec.export_credentials ≡ false
      → is_empty start.object.spec.domain ≡ false
      → mg.api_base ≡ url
      → server start.world ≡ m
      → (mg.api_key == m.api_token) ≡ true
      → find_domain start.object.spec.domain m.domain_list ≡ none
      → contains m.failed_domains start.object.spec.domain ≡ false
      → contains m.active_domains start.object.spec.domain ≡ true
      → (s1 : Run W Endpoint) × (s : Run W Endpoint) × (c : DomainContainer) × (establish r mg
            start.object.spec.domain start
          ≡ (next tt, s1))
        × (update_dns r mg start.object.spec.domain s1
            ≡ (done (reply_of (seconds r.config.domain_verify_duration) none), s))
        × (s.object.status.state ≡ state_activated)
        × (find_domain start.object.spec.domain (server s.world).domain_list ≡ some c)
        × (c.domain.state ≡ active_state)
        × (bag (server s.world) j ≡ put start.object.spec.domain (bag m) j)
        × (rounds r (key_of start.object) n s.world ≡ quiet r (key_of start.object) n)
  unfolding is_settled needs_external_dns
  advanced mg start m j n alive finalized dns mx plain named here at_m allowed absent working
        activated =
      let name = start.object.spec.domain in
      let (resp, w1, calls, a, made, at_w1) =
        establish-served r url server around served answers apart reads stores mg start m plain here
          named at_m allowed absent working in
      let c = new_container m a name in
      let s1 : Run W Endpoint = record {
        world = w1;
        object = settled_domain r resp start.object;
        calls = calls;
      } in
      let (s, ends, state, at_s, same, got) =
        update_dns-served r url server around served answers apart reads stores mg name s1
          (append_domain c m) c refl dns mx here named at_w1 allowed
          (find_domain-append name m.domain_list c (new_container-name m a name) absent)
          (new_container-name m a name) activated gets in
      let (held, found, active) = activated-found name m a absent activated in
      (
        s1,
        s,
        held,
        made,
        ends,
        state,
        ap (λ n. find_domain name n.domain_list) at_s ∙ found,
        active,
        ap (λ k. bag k j) at_s ∙ activated-bag name m a j,
        quiet-after n start.object s alive finalized same state got,
      )

  -- An object that has no state, with no deletion pending, no DNS entity to be made, no check of MX
  -- records and no export asked for, and a name that is not empty, is reconciled against the mock
  -- server. The server accepts the client's token; it has no domain of the name, which was given
  -- to `ActivateDomain` and not to `FailedDomain`. Every update that is sent to the API server
  -- succeeds, with the object that was sent for the answer; after a status update `Get` answers
  -- with its object and changes nothing. A finalizer that is added to a list is found there, and
  -- random bytes can be read. Then one run ends without an error, to be repeated after the
  -- configured time, and leaves its object activated; the server has one domain more of the name,
  -- and as many as before of any other name, and the one that it finds by the name is active; and
  -- every later run, however many there are, only reads the object.
  pub reconcile-activates :
      (updates : (d : Domain) (w : W) → (r.client.update d w).0 ≡ ok d)
      → (adds : (l : List String)
          → r.finalizers.has (r.finalizers.add l domain_finalizer) domain_finalizer ≡ true)
      → (w w' : W) (d : Domain) (j : String) (n : ℕ) → r.client.get (key_of d) w ≡ (ok d, w')
      → d.meta.deletion_timestamp ≡ none
      → is_empty d.status.state ≡ true
      → needs_external_dns d ≡ false
      → is_set d.spec.force_mx_check ≡ false
      → is_set d.spec.export_credentials ≡ false
      → is_empty d.spec.domain ≡ false
      → (mailgun_client r.bases r.config d.spec.domain).api_base ≡ url
      → ((mailgun_client r.bases r.config d.spec.domain).api_key == (server w').api_token) ≡ true
      → find_domain d.spec.domain (server w').domain_list ≡ none
      → contains (server w').failed_domains d.spec.domain ≡ false
      → contains (server w').active_domains d.spec.domain ≡ true
      → (s : Run W Endpoint) × (c : DomainContainer) × (reconcile r (key_of d) w
          ≡ (done (reply_of (seconds r.config.domain_verify_duration) none), s))
        × (s.object.status.state ≡ state_activated)
        × (find_domain d.spec.domain (server s.world).domain_list ≡ some c)
        × (c.domain.state ≡ active_state)
        × (bag (server s.world) j ≡ put d.spec.domain (bag (server w')) j)
        × (rounds r (key_of d) n s.world ≡ quiet r (key_of d) n)
  unfolding needs_external_dns
  reconcile-activates updates adds w w' d j n got alive new dns mx plain named here allowed absent
        working activated =
      let mg = mailgun_client r.bases r.config d.spec.domain in
      elim (Bool-cases (has_finalizer r d)) [
        | inl registered ↦
            let start = loaded r (key_of d) d w' in
            let (s1, s, c, made, ends, state, found, active, more, stays) =
              advanced mg start (server w') j n alive registered dns mx plain named here refl
                allowed absent working activated in
            (
              s,
              c,
              reconcile-new r (key_of d) w w' d start s1 got
                    (examine-registered r mg start alive registered) new made
                  ∙ ends,
              state,
              found,
              active,
              more,
              stays,
            )
        | inr unregistered ↦
            let d' = with_finalizer r d in
            let w'' = (r.client.update d' w').1 in
            let start : Run W Endpoint = record {
              world = w'';
              object = d';
              calls = updated d' none ∷ fetched (key_of d) none ∷ [];
            } in
            let examined =
              examine-unregistered r mg (loaded r (key_of d) d w') w'' alive unregistered
                (paired (r.client.update d' w') (ok d') (updates d' w')) in
            let (s1, s, c, made, ends, state, found, active, more, stays) =
              advanced mg start (server w') j n alive (adds d.meta.finalizers) dns mx plain named
                here (apart.update-apart d' w') allowed absent working activated in
            (
              s,
              c,
              reconcile-new r (key_of d) w w' d start s1 got examined new made ∙ ends,
              state,
              found,
              active,
              more,
              stays,
            )
      ]

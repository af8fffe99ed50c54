-- ===== src/DomainController/FirstRun.antt =====
-- The first run on an object whose domain is not on Mailgun, when every call succeeds.
use mailgun_operator.Base.{
  ℕ, ◌≡◌, ap, ◌∙◌, String, true, false, none, some, List, ◌∷◌, is_empty, is_set, is_some,
}
use mailgun_operator.Base.Exec.{continue, M, ◌>>=◌, invoke, next, done}
use mailgun_operator.Api.Meta.{Key, Error, ok, err}
use mailgun_operator.Api.DomainTypes.{Domain, state_created}
use mailgun_operator.External.{MailgunClient, DomainResponse}
use mailgun_operator.Configuration.{mailgun_client}
use mailgun_operator.Controller.{reply_of}
use mailgun_operator.DomainController.Run.{
  DomainReconciler, Run, updated, status_updated, domain_read, domain_verified, random_read,
  domain_created,
}
use mailgun_operator.DomainController.Create.{
  create_options, record_response, create_domain, random_hex, obtain, submit, hand_over,
  export_if_asked, store_created,
}
use mailgun_operator.DomainController.Create.Hex.{hex_encode}
use mailgun_operator.DomainController.Verify.{active, seconds}
use mailgun_operator.DomainController.Reconcile.{
  has_finalizer, with_finalizer, register, examine_deletion, provision, process, advance, loaded,
  reconcile-fetched, needs_external_dns, establish, settle_creation, update_dns, reconcile,
  is_settled,
}
use mailgun_operator.DomainController.Convergence.{verified_domain}

next-bind :
    {S R A B : Type 0} (m : M S R A) (f : A → M S R B) (s s' : S) (a : A)
    → m s ≡ (next a, s')
    → (m >>= f) s ≡ f a s'
next-bind m f s s' a e = ap (λ p. continue p.0 f p.1) e

invoke-bind :
    {S R A B : Type 0} (body : M S A A) (f : A → M S R B) (s s' : S) (a : A)
    → body s ≡ (done a, s')
    → (invoke body >>= f) s ≡ f a s'
invoke-bind body f s s' a e = ap (λ p. (invoke (λ _. p) >>= f) s) e

module _ {W Endpoint : Type 0} (r : DomainReconciler W Endpoint) where
  -- The object that is stored behind `CreateDomain`, and the one that the creation leaves.
  abbrev pub created_domain : DomainResponse → Domain → Domain
  created_domain resp d = record d { status = record_response resp d.status }

  abbrev pub settled_domain : DomainResponse → Domain → Domain
  settled_domain resp d = record d {
    status = record (record_response resp d.status) { state = state_created };
  }

  -- Behind `CreateDomain`.
  abbrev created_run : DomainResponse → List ℕ → W → Run W Endpoint → Run W Endpoint
  created_run resp bytes w s = record {
    world = w;
    object = created_domain resp s.object;
    calls =
        status_updated (created_domain resp s.object) none
        ∷ domain_created s.object.spec.domain (create_options s.object.spec (hex_encode bytes)) none
        ∷ random_read none
        ∷ s.calls;
  }

  create_domain-created :
      (mg : MailgunClient) (s : Run W Endpoint) (w2 w3 w4 : W) (bytes : List ℕ)
      (resp : DomainResponse)
      → is_set s.object.spec.export_credentials ≡ false
      → r.cluster.rand_read 16 s.world ≡ (ok bytes, w2)
      → r.mailgun.create_domain mg s.object.spec.domain
          (create_options s.object.spec (hex_encode bytes))
          w2
        ≡ (ok resp, w3)
      → r.client.status_update (created_domain resp s.object) w3
        ≡ (ok (created_domain resp s.object), w4)
      → create_domain r mg s ≡ (done none, created_run resp bytes w4 s)
  unfolding create_domain random_hex obtain submit hand_over export_if_asked store_created
  create_domain-created mg s w2 w3 w4 bytes resp x b c u = simp (x, b, c, u)

  pub establish-created :
      (mg : MailgunClient) (name : String) (s : Run W Endpoint) (w1 w2 w3 w4 : W) (e : Error)
      (bytes : List ℕ) (resp : DomainResponse)
      → is_set s.object.spec.export_credentials ≡ false
      → r.mailgun.get_domain mg name s.world ≡ (err e, w1)
      → r.cluster.rand_read 16 w1 ≡ (ok bytes, w2)
      → r.mailgun.create_domain mg s.object.spec.domain
          (create_options s.object.spec (hex_encode bytes))
          w2
        ≡ (ok resp, w3)
      → r.client.status_update (created_domain resp s.object) w3
        ≡ (ok (created_domain resp s.object), w4)
      → establish r mg name s ≡ (
        next tt,
        record {
          world = w4;
          object = settled_domain resp s.object;
          calls =
              status_updated (created_domain resp s.object) none
              ∷ domain_created s.object.spec.domain
                  (create_options s.object.spec (hex_encode bytes))
                  none
              ∷ random_read none
              ∷ domain_read name (some e)
              ∷ s.calls;
        },
      )
  unfolding establish settle_creation
  establish-created mg name s w1 w2 w3 w4 e bytes resp x a b c u =
      let looked : Run W Endpoint = record {
        world = w1;
        object = s.object;
        calls = domain_read name (some e) ∷ s.calls;
      } in
      simp a (
        invoke-bind (create_domain r mg) (settle_creation r) looked
          (created_run resp bytes w4 looked) none
          (create_domain-created mg looked w2 w3 w4 bytes resp x b c u))

  pub update_dns-verified :
      (mg : MailgunClient) (name : String) (s : Run W Endpoint) (w1 w2 w3 w4 : W)
      (resp : DomainResponse) (time : ℕ) (d : Domain)
      → is_settled s.object.status ≡ false
      → needs_external_dns s.object ≡ false
      → is_set s.object.spec.force_mx_check ≡ false
      → r.mailgun.get_domain mg name s.world ≡ (ok resp, w1)
      → r.mailgun.verify_domain mg name w1 ≡ (ok active, w2)
      → r.cluster.now w2 ≡ (time, w3)
      → r.client.status_update (verified_domain r resp time s.object) w3 ≡ (ok d, w4)
      → update_dns r mg name s ≡ (
        done (reply_of (seconds r.config.domain_verify_duration) none),
        record {
          world = w4;
          object = d;
          calls =
              status_updated (verified_domain r resp time s.object) none
              ∷ domain_verified name none
              ∷ domain_read name none
              ∷ s.calls;
        },
      )
  unfolding update_dns
  update_dns-verified mg name s w1 w2 w3 w4 resp time d t n x a b c u = simp (t, n, x, a, b, c, u)

  -- The object has its finalizer, or gets it.
  pub examine-registered :
      (mg : MailgunClient) (s : Run W Endpoint)
      → s.object.meta.deletion_timestamp ≡ none
      → has_finalizer r s.object ≡ true
      → examine_deletion r mg s ≡ (next tt, s)
  unfolding examine_deletion
  examine-registered mg s t f = simp (t, f)

  register-added :
      (s : Run W Endpoint) (w : W)
      → has_finalizer r s.object ≡ false
      → r.client.update (with_finalizer r s.object) s.world ≡ (ok (with_finalizer r s.object), w)
      → register r s ≡ (
        next tt,
        record {
          world = w;
          object = with_finalizer r s.object;
          calls = updated (with_finalizer r s.object) none ∷ s.calls;
        },
      )
  unfolding register
  register-added s w f u = simp (f, u)

  pub examine-unregistered :
      (mg : MailgunClient) (s : Run W Endpoint) (w : W)
      → s.object.meta.deletion_timestamp ≡ none
      → has_finalizer r s.object ≡ false
      → r.client.update (with_finalizer r s.object) s.world ≡ (ok (with_finalizer r s.object), w)
      → examine_deletion r mg s ≡ (
        next tt,
        record {
          world = w;
          object = with_finalizer r s.object;
          calls = updated (with_finalizer r s.object) none ∷ s.calls;
        },
      )
  unfolding examine_deletion
  examine-unregistered mg s w t f u = let alive = ap is_some t in rw alive (register-added s w f u)

  pub reconcile-new :
      (key : Key) (w w' : W) (d : Domain) (start s : Run W Endpoint)
      → r.client.get key w ≡ (ok d, w')
      → examine_deletion r (mailgun_client r.bases r.config d.spec.domain) (loaded r key d w')
        ≡ (next tt, start)
      → is_empty start.object.status.state ≡ true
      → establish r (mailgun_client r.bases r.config d.spec.domain) d.spec.domain start
        ≡ (next tt, s)
      → reconcile r key w
        ≡ update_dns r (mailgun_client r.bases r.config d.spec.domain) d.spec.domain s
  unfolding process advance provision
  reconcile-new key w w' d start s g t n e =
      let name = d.spec.domain in
      let mg = mailgun_client r.bases r.config name in
      reconcile-fetched r key w w' d g
      ∙ next-bind (examine_deletion r mg) (λ _. advance r mg name) (loaded r key d w') start tt t
      ∙ next-bind (provision r mg name) (λ _. update_dns r mg name) start s tt (rw n e)

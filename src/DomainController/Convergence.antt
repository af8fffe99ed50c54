-- ===== src/DomainController/Convergence.antt =====
-- Runs of `Reconcile` one after another, on an API server that keeps what it is sent.
use mailgun_operator.Base.{
  ℕ, zero, suc, ◌≡◌, refl, ap, true, false, Option, none, some, List, [], ◌∷◌, is_empty, is_set,
}
use mailgun_operator.Base.Exec.{done}
use mailgun_operator.Api.Meta.{Key, ok}
use mailgun_operator.Api.DomainTypes.{Domain, DomainStatus, state_activated}
use mailgun_operator.External.{ObjectClient, DomainResponse}
use mailgun_operator.Configuration.{mailgun_client}
use mailgun_operator.Controller.{reply_of}
use mailgun_operator.DomainController.Run.{
  DomainReconciler, Call, fetched, status_updated, domain_read, domain_verified,
}
use mailgun_operator.DomainController.Records.{mg_dns_records_to_dns_records}
use mailgun_operator.DomainController.Verify.{active, seconds, record_verification}
use mailgun_operator.DomainController.Reconcile.{
  has_finalizer, is_settled, needs_external_dns, reconcile,
}
use mailgun_operator.DomainController.Settled.{reconcile-settled}

-- The key of an object.
abbrev pub key_of : Domain → Key
key_of d = record { namespace = d.meta.namespace; name = d.meta.name }

-- What is relied on in the API server: it answers a `Get` with the object that is stored, which
-- it does not change by it, and after a status update that succeeds the object that it answers,
-- is the one sent and is stored, if it differed from the stored one in the status only.
pub record KeepsStatus {W : Type 0} (client : ObjectClient W Domain)
    (stored : Key → W → Option Domain) : Type 0 where
  pub get-stored : (k : Key) (w : W) (d : Domain) → stored k w ≡ some d → client.get k w ≡ (ok d, w)
  pub stored-status_update :
      (d d' : Domain) (status : DomainStatus) (w w' : W)
      → stored (key_of d) w ≡ some (record d { status = status })
      → client.status_update d w ≡ (ok d', w')
      → (d' ≡ d) × (stored (key_of d) w' ≡ some d)

module _ {W Endpoint : Type 0} (r : DomainReconciler W Endpoint) (key : Key) where
  -- The calls of so many runs, each in the world that the one before has left.
  unfoldable pub rounds : ℕ → W → List (List (Call Endpoint))
  rounds zero w = []
  rounds (suc n) w = (reconcile r key w).1.calls ∷ rounds n (reconcile r key w).1.world

  abbrev pub quiet : ℕ → List (List (Call Endpoint))
  quiet zero = []
  quiet (suc n) = (fetched key none ∷ []) ∷ quiet n

  pub rounds-quiet :
      (n : ℕ) (w : W) (d : Domain)
      → r.client.get key w ≡ (ok d, w)
      → d.meta.deletion_timestamp ≡ none
      → has_finalizer r d ≡ true
      → is_settled d.status ≡ true
      → rounds n w ≡ quiet n
  unfolding rounds
  rounds-quiet zero w d g t f s = refl
  rounds-quiet (suc n) w d g t f s =
      rw (reconcile-settled r key w w d g t f s)
        (ap (λ l. (fetched key none ∷ []) ∷ l) (rounds-quiet n w d g t f s))

module _ {W Endpoint : Type 0} (r : DomainReconciler W Endpoint) where
  -- The status that a run sends which finds the domain verified, at a time.
  abbrev pub verified_status : DomainResponse → ℕ → DomainStatus → DomainStatus
  verified_status resp time status =
      record (record_verification r active time (record status {
        receiving_dns_records = mg_dns_records_to_dns_records resp.receiving_dns_records;
        sending_dns_records = mg_dns_records_to_dns_records resp.sending_dns_records;
      })) { state = state_activated }

  abbrev pub verified_domain : DomainResponse → ℕ → Domain → Domain
  verified_domain resp time d = record d { status = verified_status resp time d.status }

  reconcile-verified :
      (key : Key) (w w' w1 w2 w3 w4 : W) (d d' : Domain) (resp : DomainResponse) (time : ℕ)
      → r.client.get key w ≡ (ok d, w')
      → d.meta.deletion_timestamp ≡ none
      → has_finalizer r d ≡ true
      → is_empty d.status.state ≡ false
      → is_settled d.status ≡ false
      → needs_external_dns d ≡ false
      → is_set d.spec.force_mx_check ≡ false
      → r.mailgun.get_domain (mailgun_client r.bases r.config d.spec.domain) d.spec.domain w'
        ≡ (ok resp, w1)
      → r.mailgun.verify_domain (mailgun_client r.bases r.config d.spec.domain) d.spec.domain w1
        ≡ (ok active, w2)
      → r.cluster.now w2 ≡ (time, w3)
      → r.client.status_update (verified_domain resp time d) w3 ≡ (ok d', w4)
      → reconcile r key w ≡ (
        done (reply_of (seconds r.config.domain_verify_duration) none),
        record {
          world = w4;
          object = d';
          calls =
              status_updated (verified_domain resp time d) none
              ∷ domain_verified d.spec.domain none
              ∷ domain_read d.spec.domain none
              ∷ fetched key none
              ∷ [];
        },
      )
  unfolding reconcile
  reconcile-verified key w w' w1 w2 w3 w4 d d' resp time g t f n s x m a b c u =
      rw g (simp (t, f, n, s, x, m, a, b, c, u))

module _ {W Endpoint : Type 0} (r : DomainReconciler W Endpoint) (stored : Key → W → Option Domain)
    (laws : KeepsStatus r.client stored) where
  -- A stored domain that was created, with its finalizer, no deletion pending, no DNS entity to be
  -- made and no check of MX records asked for, becomes activated in the next run if Mailgun has it
  -- and finds it active, if the object is still the same when the status is stored, and if that
  -- succeeds. From then on every run, however many there are, only reads the object.
  pub rounds-verified :
      (n : ℕ) (w w1 w2 w3 w4 : W) (d d' : Domain) (resp : DomainResponse) (time : ℕ)
      → stored (key_of d) w ≡ some d
      → d.meta.deletion_timestamp ≡ none
      → has_finalizer r d ≡ true
      → is_empty d.status.state ≡ false
      → is_settled d.status ≡ false
      → needs_external_dns d ≡ false
      → is_set d.spec.force_mx_check ≡ false
      → r.mailgun.get_domain (mailgun_client r.bases r.config d.spec.domain) d.spec.domain w
        ≡ (ok resp, w1)
      → r.mailgun.verify_domain (mailgun_client r.bases r.config d.spec.domain) d.spec.domain w1
        ≡ (ok active, w2)
      → r.cluster.now w2 ≡ (time, w3)
      → stored (key_of d) w3 ≡ some d
      → r.client.status_update (verified_domain r resp time d) w3 ≡ (ok d', w4)
      → rounds r (key_of d) (suc n) w
        ≡ (status_updated (verified_domain r resp time d) none
            ∷ domain_verified d.spec.domain none
            ∷ domain_read d.spec.domain none
            ∷ fetched (key_of d) none
            ∷ [])
          ∷ quiet r (key_of d) n
  unfolding rounds is_settled
  rounds-verified n w w1 w2 w3 w4 d d' resp time g t f e s x m a b c k u =
      let sent = verified_domain r resp time d in
      rw
        (reconcile-verified r (key_of d) w w w1 w2 w3 w4 d d' resp time
          (laws.get-stored (key_of d) w d g) t f e s x m a b c u)
        (ap
          (λ l.
            (status_updated sent none
              ∷ domain_verified d.spec.domain none
              ∷ domain_read d.spec.domain none
              ∷ fetched (key_of d) none
              ∷ [])
            ∷ l)
          (rounds-quiet r (key_of d) n w4 sent
            (laws.get-stored (key_of d) w4 sent
              (laws.stored-status_update sent d' d.status w3 w4 k u).1)
            t f refl))

-- ===== src/DomainController/Persistence.antt =====
-- Which states of a domain are sent to the API server.
use mailgun_operator.Base.{
  ◌≡◌, refl, String, Bool, true, false, not, ◌&&◌, ◌||◌, Option, some, List, [], ◌∷◌, arith,
  is_empty,
}
use mailgun_operator.Base.Exec.{◌>>=◌, ◌>>◌, invoke}
use mailgun_operator.Base.Exec.Triple.{
  Triple, Triple-bind, Triple-invoke, Triple-when_test, ends_all,
}
use mailgun_operator.Api.Meta.{Key, Error}
use mailgun_operator.Api.DomainTypes.{zero_domain}
use mailgun_operator.External.{MailgunClient}
use mailgun_operator.Configuration.{mailgun_client}
use mailgun_operator.DomainController.Run.{
  DomainReconciler, Run, Call, domain_verified, status_updated, endpoint_created,
}
use mailgun_operator.DomainController.Create.{
  random_hex, submit, export_if_asked, store_created, hand_over, obtain, create_domain,
}
use mailgun_operator.DomainController.Verify.{read_records, verify, store_status}
use mailgun_operator.DomainController.Reconcile.{
  fetch, examine_deletion, look_up, settle_creation, establish, provision, stop_if_settled,
  ensure_external_dns, check_domain, update_dns, advance, process, reconcile_body, reconcile,
}

not_lost : (u e n : Bool) → u ≡ true → e ≡ false → (not u || (e || n)) ≡ true → n ≡ true
not_lost u e n p q h = ground arith

module _ {Endpoint : Type 0} where
  -- Every status that was sent has an empty state.
  abbrev pub sends_no_state : List (Call Endpoint) → Bool
  sends_no_state [] = true
  sends_no_state (status_updated d _ ∷ calls) = is_empty d.status.state && sends_no_state calls
  sends_no_state (_ ∷ calls) = sends_no_state calls

  abbrev pub makes_endpoint : List (Call Endpoint) → Bool
  makes_endpoint [] = false
  makes_endpoint (endpoint_created _ _ ∷ calls) = true
  makes_endpoint (_ ∷ calls) = makes_endpoint calls

  abbrev pub ends_unverified : List (Call Endpoint) → Bool
  ends_unverified (domain_verified _ (some _) ∷ _) = true
  ends_unverified _ = false

module _ {W Endpoint : Type 0} where
  abbrev is_silent : Run W Endpoint → Bool
  is_silent s = makes_endpoint s.calls || sends_no_state s.calls

  abbrev is_blank : Run W Endpoint → Bool
  is_blank s = is_silent s && is_empty s.object.status.state

  abbrev is_lost : Run W Endpoint → Bool
  is_lost s = not (ends_unverified s.calls) || (makes_endpoint s.calls || sends_no_state s.calls)

module _ {W Endpoint : Type 0} (r : DomainReconciler W Endpoint) where
  read_records-silent :
      (mg : MailgunClient) (name : String)
      → Triple is_silent (read_records r mg name) (λ _. is_silent) (λ _. is_lost) is_lost
  unfolding read_records
  read_records-silent mg name = record { at = λ s h. ground arith }

  verify-silent :
      (mg : MailgunClient) (name : String)
      → Triple is_silent (verify r mg name) (λ _ s. true) (λ _. is_lost) is_lost
  unfolding verify
  verify-silent mg name = record { at = λ s h. ground arith }

  store_status-silent : Triple (λ s. true) (store_status r) (λ _. is_lost) (λ _. is_lost) is_lost
  unfolding store_status
  store_status-silent = record { at = λ s h. ground arith }

  fetch-silent :
      (key : Key) → Triple is_silent (fetch r key) (λ _. is_silent) (λ _. is_lost) is_lost
  unfolding fetch
  fetch-silent key = record { at = λ s h. ground arith }

  examine_deletion-silent :
      (mg : MailgunClient)
      → Triple is_silent (examine_deletion r mg) (λ _. is_silent) (λ _. is_lost) is_lost
  unfolding examine_deletion
  examine_deletion-silent mg = record { at = λ s h. ground arith }

  look_up-silent :
      (mg : MailgunClient) (name : String)
      → Triple is_blank (look_up r mg name) (λ _. is_blank) (λ _. is_lost) is_lost
  unfolding look_up
  look_up-silent mg name = record { at = λ s h. ground arith }

  random_hex-silent : Triple is_blank (random_hex r 16) (λ _. is_blank) (λ _. is_silent) is_lost
  unfolding random_hex
  random_hex-silent = record { at = λ s h. ground arith }

  submit-silent :
      (mg : MailgunClient) (password : String)
      → Triple is_blank (submit r mg password) (λ _. is_blank) (λ _. is_silent) is_lost
  unfolding submit
  submit-silent mg password = record { at = λ s h. ground arith }

  export_if_asked-silent :
      (login password : String)
      → Triple is_blank (export_if_asked r login password) (λ _. is_blank) (λ _. is_silent) is_lost
  unfolding export_if_asked
  export_if_asked-silent login password = record { at = λ s h. ground arith }

  store_created-silent : Triple is_blank (store_created r) (λ _. is_silent) (λ _. is_silent) is_lost
  unfolding store_created
  store_created-silent = record { at = λ s h. ground arith }

  create_domain-silent :
      (mg : MailgunClient)
      → Triple is_blank (create_domain r mg) (λ _. is_silent) (λ _. is_silent) is_lost
  unfolding create_domain
  create_domain-silent mg =
      Triple-bind (random_hex r 16) (obtain r mg) _ random_hex-silent λ password.
        Triple-bind (submit r mg password) (hand_over r password) _ (submit-silent mg password)
          λ resp.
            Triple-bind (export_if_asked r resp.smtp_login password) (λ _. store_created r) _
              (export_if_asked-silent resp.smtp_login password) (λ _. store_created-silent)

  settle_creation-silent :
      (e : Option Error)
      → Triple is_silent (settle_creation r e) (λ _. is_silent) (λ _. is_lost) is_lost
  unfolding settle_creation
  settle_creation-silent e = record { at = λ s h. ground arith }

  establish-silent :
      (mg : MailgunClient) (name : String)
      → Triple is_blank (establish r mg name) (λ _. is_silent) (λ _. is_lost) is_lost
  unfolding establish
  establish-silent mg name =
      Triple-bind (look_up r mg name) (λ _. invoke (create_domain r mg) >>= settle_creation r) _
        (look_up-silent mg name)
        λ _.
          Triple-bind (invoke (create_domain r mg)) (settle_creation r) (λ _. is_silent)
            (Triple-invoke (create_domain r mg) (create_domain-silent mg)) settle_creation-silent

  provision-silent :
      (mg : MailgunClient) (name : String)
      → Triple is_silent (provision r mg name) (λ _. is_silent) (λ _. is_lost) is_lost
  unfolding provision
  provision-silent mg name =
      Triple-when_test (λ s. is_empty s.object.status.state) (establish r mg name)
        (establish-silent mg name) (λ s h. h)

  stop_if_settled-silent :
      Triple is_silent (stop_if_settled r) (λ _. is_silent) (λ _. is_lost) is_lost
  unfolding stop_if_settled
  stop_if_settled-silent = record { at = λ s h. ground arith }

  ensure_external_dns-silent :
      Triple is_silent (ensure_external_dns r) (λ _. is_silent) (λ _. is_lost) is_lost
  unfolding ensure_external_dns
  ensure_external_dns-silent = record { at = λ s h. ground arith }

  advance-silent :
      (mg : MailgunClient) (name : String)
      → Triple is_silent (advance r mg name) (λ _. is_lost) (λ _. is_lost) is_lost
  unfolding advance
  advance-silent mg name =
      Triple-bind (provision r mg name) (λ _. update_dns r mg name) _ (provision-silent mg name)
        λ _.
          Triple-bind (stop_if_settled r) (λ _. ensure_external_dns r >> check_domain r mg name) _
            stop_if_settled-silent
            λ _.
              Triple-bind (ensure_external_dns r) (λ _. check_domain r mg name) _
                ensure_external_dns-silent
                λ _.
                  Triple-bind (read_records r mg name) (λ _. verify r mg name >> store_status r) _
                    (read_records-silent mg name)
                    λ _.
                      Triple-bind (verify r mg name) (λ _. store_status r) _ (verify-silent mg name)
                        (λ _. store_status-silent)

  reconcile_body-silent :
      (key : Key) → Triple is_silent (reconcile_body r key) (λ _. is_lost) (λ _. is_lost) is_lost
  unfolding reconcile_body process
  reconcile_body-silent key =
      Triple-bind (fetch r key) (λ _. process r) _ (fetch-silent key)
        λ _. record {
          at = λ s h.
              let name = s.object.spec.domain in
              let mg = mailgun_client r.bases r.config name in
              (Triple-bind (examine_deletion r mg) (λ _. advance r mg name) _
                  (examine_deletion-silent mg) (λ _. advance-silent mg name)).at
                s h;
        }

  -- A run that ends with a failed verification, and in which no DNS entity was created, has sent
  -- the API server no status with a state, also when it has created the domain.
  pub reconcile_forgets_creation :
      (key : Key) (w : W)
      → ends_unverified (reconcile r key w).1.calls ≡ true
      → makes_endpoint (reconcile r key w).1.calls ≡ false
      → sends_no_state (reconcile r key w).1.calls ≡ true
  unfolding reconcile
  reconcile_forgets_creation key w u e =
      let s : Run W Endpoint = record { world = w; object = zero_domain; calls = [] } in
      not_lost _ _ _ u e
        (ends_all is_lost (reconcile_body r key s) ((reconcile_body-silent key).at s refl))

-- ===== src/DomainController/Create/Laws.antt =====
-- When the creation of a domain panics.
use mailgun_operator.Base.{
  ◌≡◌, ℕ, List, String, Bool, true, false, none, ◌∷◌, not, ◌&&◌, is_some, is_set, arith,
}
use mailgun_operator.Base.Exec.{Exit, next, done, panic}
use mailgun_operator.Api.Meta.{Res, ok}
use mailgun_operator.External.{MailgunClient, DomainResponse}
use mailgun_operator.DomainController.Run.{DomainReconciler, Run, random_read, domain_created}
use mailgun_operator.DomainController.Create.Hex.{hex_encode}
use mailgun_operator.DomainController.Create.{
  create_options, record_response, random_hex, submit, export_if_asked, store_created, hand_over,
  obtain, create_domain,
}

abbrev pub is_panic : {R A : Type 0} → Exit R A → Bool
is_panic (next _) = false
is_panic (done _) = false
is_panic panic = true

module _ {W Endpoint : Type 0} (r : DomainReconciler W Endpoint) where
  export_if_asked-panic :
      (login password : String) (s : Run W Endpoint)
      → is_panic (export_if_asked r login password s).0 ≡ (
          is_set s.object.spec.export_credentials && not (is_some s.object.spec.export_secret_name))
  unfolding export_if_asked
  export_if_asked-panic login password s = ground arith

  store_created-panic : (s : Run W Endpoint) → is_panic (store_created r s).0 ≡ false
  unfolding store_created
  store_created-panic s = ground arith

  hand_over-panic :
      (password : String) (resp : DomainResponse) (s : Run W Endpoint)
      → is_panic (hand_over r password resp s).0 ≡ (
          is_set s.object.spec.export_credentials && not (is_some s.object.spec.export_secret_name))
  unfolding hand_over
  hand_over-panic password resp s = ground (
    arith,
    export_if_asked-panic resp.smtp_login password s,
    store_created-panic (export_if_asked r resp.smtp_login password s).1,
  )

  -- The password, if the random bytes can be read, and the answer of Mailgun to it.
  abbrev pub random : Run W Endpoint → Res (List ℕ)
  random s = (r.cluster.rand_read 16 s.world).0

  abbrev pub created : MailgunClient → Run W Endpoint → List ℕ → Res DomainResponse
  created mg s bytes =
      (r.mailgun.create_domain mg s.object.spec.domain
        (create_options s.object.spec (hex_encode bytes)) (r.cluster.rand_read 16 s.world).1).0

  -- When the random bytes can be read and Mailgun creates the domain, `createDomain` panics exactly
  -- if the spec asks for the credentials to be exported and names no secret.
  pub create_domain-panic :
      (mg : MailgunClient) (s : Run W Endpoint) (bytes : List ℕ) (resp : DomainResponse)
      → random s ≡ ok bytes
      → created mg s bytes ≡ ok resp
      → is_panic (create_domain r mg s).0 ≡ (
          is_set s.object.spec.export_credentials && not (is_some s.object.spec.export_secret_name))
  unfolding create_domain random_hex submit obtain
  create_domain-panic mg s bytes resp a b =
      let options = create_options s.object.spec (hex_encode bytes) in
      let w = (r.cluster.rand_read 16 s.world).1 in
      let s' : Run W Endpoint = record {
        world = (r.mailgun.create_domain mg s.object.spec.domain options w).1;
        object = record s.object { status = record_response resp s.object.status };
        calls = domain_created s.object.spec.domain options none ∷ random_read none ∷ s.calls;
      } in
      rw (a, b) (hand_over-panic (hex_encode bytes) resp s')

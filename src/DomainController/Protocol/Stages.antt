-- ===== src/DomainController/Protocol/Stages.antt =====
-- Each part of `Reconcile` keeps to the order of the calls.
use mailgun_operator.Base.{String, Bool, true, false, Option, none, some, arith, is_some, is_empty}
use mailgun_operator.Base.Exec.{M, ◌>>=◌, ◌>>◌, invoke}
use mailgun_operator.Base.Exec.Triple.{Triple, Triple-bind, Triple-invoke, Triple-when}
use mailgun_operator.Api.Meta.{Key, Error}
use mailgun_operator.External.{MailgunClient}
use mailgun_operator.Controller.{Reply}
use mailgun_operator.DomainController.Run.{DomainReconciler, Run}
use mailgun_operator.DomainController.Protocol.{Phase, phase, follow}
use mailgun_operator.DomainController.Reconcile.{
  fetch, examine_deletion, look_up, settle_creation, establish, provision, stop_if_settled,
  ensure_external_dns, check_domain, update_dns, advance,
}
use mailgun_operator.DomainController.Create.{
  random_hex, submit, export_if_asked, store_created, hand_over, obtain, create_domain,
}
use mailgun_operator.DomainController.Verify.{read_records, verify, store_status}

abbrev pub is_start : Option Phase → Bool
is_start (some Phase.start) = true
is_start _ = false

abbrev pub is_loaded : Option Phase → Bool
is_loaded (some Phase.loaded) = true
is_loaded _ = false

abbrev pub is_examined : Option Phase → Bool
is_examined (some Phase.loaded) = true
is_examined (some Phase.registered) = true
is_examined _ = false

abbrev pub is_unclaimed : Option Phase → Bool
is_unclaimed (some Phase.unclaimed) = true
is_unclaimed _ = false

-- After `createDomain` with its result.
abbrev pub is_created : Option Error → Option Phase → Bool
is_created none (some Phase.provisioned) = true
is_created (some _) (some Phase.failing) = true
is_created (some _) (some Phase.exporting) = true
is_created _ _ = false

abbrev pub is_secured : Option Phase → Bool
is_secured (some Phase.secured) = true
is_secured _ = false

abbrev pub is_made : Option Phase → Bool
is_made (some Phase.made) = true
is_made _ = false

abbrev pub is_exported : Option Phase → Bool
is_exported (some Phase.made) = true
is_exported (some Phase.exported) = true
is_exported _ = false

abbrev pub is_provisioned : Option Phase → Bool
is_provisioned (some Phase.loaded) = true
is_provisioned (some Phase.registered) = true
is_provisioned (some Phase.provisioned) = true
is_provisioned _ = false

abbrev pub is_announced : Option Phase → Bool
is_announced (some Phase.loaded) = true
is_announced (some Phase.registered) = true
is_announced (some Phase.provisioned) = true
is_announced (some Phase.announced) = true
is_announced _ = false

abbrev pub is_present : Option Phase → Bool
is_present (some Phase.present) = true
is_present _ = false

abbrev pub is_checked : Option Phase → Bool
is_checked (some Phase.checked) = true
is_checked (some Phase.inspected) = true
is_checked _ = false

module _ {W Endpoint : Type 0} where
  abbrev pub Follows :
      {A : Type 0}
      → (Option Phase → Bool)
      → M (Run W Endpoint) Reply A
      → (Option Phase → Bool)
      → Type 0
  Follows p m q =
      Triple (λ s. p (phase s.calls)) m (λ _ s. q (phase s.calls)) (λ _ s. is_some (phase s.calls))
        (λ s. is_some (phase s.calls))

  -- The same for the methods that return an error, with the test on it at the end.
  abbrev Creates :
      {A : Type 0}
      → (Option Phase → Bool)
      → M (Run W Endpoint) (Option Error) A
      → (A → Option Phase → Bool)
      → Type 0
  Creates p m q =
      Triple (λ s. p (phase s.calls)) m (λ a s. q a (phase s.calls))
        (λ e s. is_created e (phase s.calls)) (λ s. is_some (phase s.calls))

module _ {W Endpoint : Type 0} (r : DomainReconciler W Endpoint) where
  pub fetch-Follows : (k : Key) → Follows is_start (fetch r k) is_loaded
  unfolding fetch follow
  fetch-Follows k = record { at = λ s h. ground arith }

  pub examine_deletion-Follows :
      (mg : MailgunClient) → Follows is_loaded (examine_deletion r mg) is_examined
  unfolding examine_deletion follow
  examine_deletion-Follows mg = record { at = λ s h. ground arith }

  look_up-Follows :
      (mg : MailgunClient) (name : String) → Follows is_examined (look_up r mg name) is_unclaimed
  unfolding look_up follow
  look_up-Follows mg name = record { at = λ s h. ground arith }

  random_hex-Creates : Creates is_unclaimed (random_hex r 16) (λ _. is_secured)
  unfolding random_hex follow
  random_hex-Creates = record { at = λ s h. ground arith }

  submit-Creates :
      (mg : MailgunClient) (password : String)
      → Creates is_secured (submit r mg password) (λ _. is_made)
  unfolding submit follow
  submit-Creates mg password = record { at = λ s h. ground arith }

  export_if_asked-Creates :
      (login password : String)
      → Creates is_made (export_if_asked r login password) (λ _. is_exported)
  unfolding export_if_asked follow
  export_if_asked-Creates login password = record { at = λ s h. ground arith }

  store_created-Creates : Creates is_exported (store_created r) is_created
  unfolding store_created follow
  store_created-Creates = record { at = λ s h. ground arith }

  create_domain-Creates :
      (mg : MailgunClient) → Creates is_unclaimed (create_domain r mg) is_created
  unfolding create_domain
  create_domain-Creates mg =
      Triple-bind (random_hex r 16) (obtain r mg) _ random_hex-Creates λ password.
        Triple-bind (submit r mg password) (hand_over r password) _ (submit-Creates mg password)
          λ resp.
            Triple-bind (export_if_asked r resp.smtp_login password) (λ _. store_created r) _
              (export_if_asked-Creates resp.smtp_login password) (λ _. store_created-Creates)

  settle_creation-Triple :
      (e : Option Error)
      → Triple
          (λ s. is_created e (phase s.calls))
          (settle_creation r e)
          (λ _ s. is_provisioned (phase s.calls))
          (λ _ s. is_some (phase s.calls))
          (λ s. is_some (phase s.calls))
  unfolding settle_creation follow
  settle_creation-Triple e = record { at = λ s h. ground arith }

  establish-Follows :
      (mg : MailgunClient) (name : String)
      → Follows is_examined (establish r mg name) is_provisioned
  unfolding establish
  establish-Follows mg name =
      Triple-bind (look_up r mg name) (λ _. invoke (create_domain r mg) >>= settle_creation r) _
        (look_up-Follows mg name)
        λ _.
          Triple-bind (invoke (create_domain r mg)) (settle_creation r) _
            (Triple-invoke (create_domain r mg) (create_domain-Creates mg)) settle_creation-Triple

  provision-Follows :
      (mg : MailgunClient) (name : String)
      → Follows is_examined (provision r mg name) is_provisioned
  unfolding provision
  provision-Follows mg name =
      Triple-when (λ s. is_empty s.object.status.state) (establish r mg name)
        (establish-Follows mg name) (λ s h. ground arith)

  stop_if_settled-Follows : Follows is_provisioned (stop_if_settled r) is_provisioned
  unfolding stop_if_settled
  stop_if_settled-Follows = record { at = λ s h. ground arith }

  ensure_external_dns-Follows : Follows is_provisioned (ensure_external_dns r) is_announced
  unfolding ensure_external_dns follow
  ensure_external_dns-Follows = record { at = λ s h. ground arith }

  read_records-Follows :
      (mg : MailgunClient) (name : String)
      → Follows is_announced (read_records r mg name) is_present
  unfolding read_records follow
  read_records-Follows mg name = record { at = λ s h. ground arith }

  verify-Follows :
      (mg : MailgunClient) (name : String) → Follows is_present (verify r mg name) is_checked
  unfolding verify follow
  verify-Follows mg name = record { at = λ s h. ground arith }

  store_status-Follows : Follows is_checked (store_status r) is_some
  unfolding store_status follow
  store_status-Follows = record { at = λ s h. ground arith }

  pub advance-Follows :
      (mg : MailgunClient) (name : String) → Follows is_examined (advance r mg name) is_some
  unfolding advance
  advance-Follows mg name =
      Triple-bind (provision r mg name) (λ _. update_dns r mg name) _ (provision-Follows mg name)
        λ _.
          Triple-bind (stop_if_settled r) (λ _. ensure_external_dns r >> check_domain r mg name) _
            stop_if_settled-Follows
            λ _.
              Triple-bind (ensure_external_dns r) (λ _. check_domain r mg name) _
                ensure_external_dns-Follows
                λ _.
                  Triple-bind (read_records r mg name) (λ _. verify r mg name >> store_status r) _
                    (read_records-Follows mg name)
                    λ _.
                      Triple-bind (verify r mg name) (λ _. store_status r) _
                        (verify-Follows mg name) (λ _. store_status-Follows)

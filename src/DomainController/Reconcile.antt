-- ===== src/DomainController/Reconcile.antt =====
-- `Reconcile`.
use mailgun_operator.Base.{
  String, ◌<>◌, Bool, true, not, ◌&&◌, ◌||◌, Option, none, some, [], ◌∷◌, ◌≡◌, ◌==◌, is_empty,
  is_some, is_set,
}
use mailgun_operator.Base.Int.{pos}
use mailgun_operator.Base.Exec.{
  Exit, M, ◌>>=◌, ◌>>◌, pure, return, gets, modify, when, if_else, if_some, invoke,
}
use mailgun_operator.Api.Meta.{Key, Error, Res, ok, if_failed}
use mailgun_operator.Api.DomainTypes.{
  Domain, DomainStatus, zero_domain, state_created, state_failed, state_activated,
}
use mailgun_operator.External.{MailgunClient, DomainResponse}
use mailgun_operator.Controller.{Reply, reply_of, check_reply, fetch_object, on_object}
use mailgun_operator.Configuration.{mailgun_client}
use mailgun_operator.DomainController.Run.{
  DomainReconciler, Run, fetched, updated, status_updated, get_domain, set_status,
}
use mailgun_operator.DomainController.Create.{create_domain}
use mailgun_operator.DomainController.ExternalDns.{create_external_dns_entity}
use mailgun_operator.DomainController.Delete.{domain_finalizer, eventf, delete_domain}
use mailgun_operator.DomainController.Verify.{read_records, verify, store_status}

-- `mailgunDomain.Spec.ExternalDNS != nil && …`
unfoldable pub needs_external_dns : Domain → Bool
needs_external_dns d = is_set d.spec.external_dns && not d.status.dns_entrypoint_created

-- `Status.State == DomainStateFailed || Status.State == DomainStateActivated`
unfoldable pub is_settled : DomainStatus → Bool
is_settled status = status.state == state_failed || status.state == state_activated

module _ {W Endpoint : Type 0} (r : DomainReconciler W Endpoint) where
  -- `return ctrl.Result{}, client.IgnoreNotFound(err)`
  abbrev check_fetched : Option Error → M (Run W Endpoint) Reply (Unit {0})
  check_fetched failed =
      if_some failed
        (λ e.
          if_else e.not_found (return (reply_of (pos 0) none)) (return (reply_of (pos 0) (some e))))
        (pure tt)

  unfoldable pub fetch : Key → M (Run W Endpoint) Reply (Unit {0})
  fetch key = do e ← fetch_object fetched r.client.get key; check_fetched e

  -- `controllerutil.AddFinalizer`
  abbrev pub with_finalizer : Domain → Domain
  with_finalizer d = record d {
    meta = record d.meta { finalizers = r.finalizers.add d.meta.finalizers domain_finalizer };
  }

  -- `controllerutil.ContainsFinalizer`
  abbrev pub has_finalizer : Domain → Bool
  has_finalizer d = r.finalizers.has d.meta.finalizers domain_finalizer

  -- The object is not being deleted.
  unfoldable pub register : M (Run W Endpoint) Reply (Unit {0})
  register = do
    d ← gets (λ s. s.object)
    when (not (has_finalizer d)) do
      modify (λ s. record s { object = with_finalizer s.object })
      e ← on_object updated r.client.update
      check_reply e

  abbrev pub report : Option Error → M (Run W Endpoint) Reply (Unit {0})
  report e = do check_reply e; return (reply_of (pos 0) none)

  unfoldable pub delete_and_report : MailgunClient → M (Run W Endpoint) Reply (Unit {0})
  unfolding delete_domain
  delete_and_report mg = do e ← invoke (delete_domain r mg); report e

  -- The object is being deleted.
  unfoldable pub finalize : MailgunClient → M (Run W Endpoint) Reply (Unit {0})
  unfolding delete_and_report
  finalize mg s = when (has_finalizer s.object) (delete_and_report mg) s

  unfoldable pub examine_deletion : MailgunClient → M (Run W Endpoint) Reply (Unit {0})
  unfolding register finalize
  examine_deletion mg = do
    meta ← gets (λ s. s.object.meta)
    if_else (is_some meta.deletion_timestamp) (finalize mg) register

  -- The domain exists on Mailgun before the operator has made it.
  abbrev pub refuse_existing : String → Res DomainResponse → M (Run W Endpoint) Reply (Unit {0})
  refuse_existing name found =
      if_failed found (λ _. pure tt)
        λ _. do
          eventf r "Warning" "DomainExisted"
              (("Domain " <> name) <> " is already exists on mailgun")
          set_status (λ status. record status {
            not_managed = true;
            state = state_failed;
            mailgun_error = some "Domain already exists on Mailgun";
          })
          e ← on_object status_updated r.client.status_update
          check_reply e
          return (reply_of (pos 0) none)

  abbrev take_creation : Option Error → M (Run W Endpoint) Reply (Unit {0})
  take_creation failed =
      if_some failed
        (λ e. do
          set_status (λ status. record status { state = state_failed; mailgun_error = some e.text })
          e' ← on_object status_updated r.client.status_update
          check_reply e'
          return (reply_of (pos 0) none))
        (pure tt)

  -- The body of `if len(mailgunDomain.Status.State) == 0`.
  unfoldable pub look_up : MailgunClient → String → M (Run W Endpoint) Reply (Unit {0})
  look_up mg name = do found ← get_domain r mg name; refuse_existing name found

  unfoldable pub settle_creation : Option Error → M (Run W Endpoint) Reply (Unit {0})
  settle_creation e = do
    take_creation e
    set_status (λ status. record status { state = state_created })

  unfoldable pub establish : MailgunClient → String → M (Run W Endpoint) Reply (Unit {0})
  unfolding look_up create_domain settle_creation
  establish mg name = do look_up mg name; e ← invoke (create_domain r mg); settle_creation e

  unfoldable pub provision : MailgunClient → String → M (Run W Endpoint) Reply (Unit {0})
  unfolding establish
  provision mg name s = when (is_empty s.object.status.state) (establish mg name) s

  -- `No need to continue if domain already failed or activated`
  unfoldable pub stop_if_settled : M (Run W Endpoint) Reply (Unit {0})
  stop_if_settled = do
    status ← gets (λ s. s.object.status)
    when (is_settled status) (return (reply_of (pos 0) none))

  unfoldable pub ensure_external_dns : M (Run W Endpoint) Reply (Unit {0})
  unfolding create_external_dns_entity
  ensure_external_dns = do
    d ← gets (λ s. s.object)
    when (needs_external_dns d) do e ← invoke (create_external_dns_entity r); check_reply e

  -- The rest of `Reconcile`: the questions to Mailgun, and the status that is stored.
  unfoldable pub check_domain : MailgunClient → String → M (Run W Endpoint) Reply Reply
  unfolding read_records verify store_status
  check_domain mg name = do read_records r mg name; verify r mg name; store_status r

  -- The part behind the creation.
  unfoldable pub update_dns : MailgunClient → String → M (Run W Endpoint) Reply Reply
  unfolding stop_if_settled ensure_external_dns check_domain
  update_dns mg name = do stop_if_settled; ensure_external_dns; check_domain mg name

  -- The part behind the examination of the deletion timestamp.
  unfoldable pub advance : MailgunClient → String → M (Run W Endpoint) Reply Reply
  unfolding provision update_dns
  advance mg name = do provision mg name; update_dns mg name

  -- The part behind the fetch.
  unfoldable pub process : M (Run W Endpoint) Reply Reply
  unfolding examine_deletion advance mailgun_client
  process s =
      let name = s.object.spec.domain in
      let mg = mailgun_client r.bases r.config name in (examine_deletion mg >> advance mg name) s

  unfoldable pub reconcile_body : Key → M (Run W Endpoint) Reply Reply
  unfolding fetch process
  reconcile_body key = do fetch key; process

  -- One call of `Reconcile`, with the calls that it makes.
  unfoldable pub reconcile : Key → W → Exit Reply Reply × Run W Endpoint
  unfolding reconcile_body
  reconcile key w = reconcile_body key (record { world = w; object = zero_domain; calls = [] })

  -- A run whose fetch succeeds.
  abbrev pub loaded : Key → Domain → W → Run W Endpoint
  loaded key d w = record { world = w; object = d; calls = fetched key none ∷ [] }

  pub reconcile-fetched :
      (key : Key) (w w' : W) (d : Domain)
      → r.client.get key w ≡ (ok d, w')
      → reconcile key w ≡ process (loaded key d w')
  unfolding reconcile
  reconcile-fetched key w w' d g = rw g

-- ===== src/DomainController/Delete.antt =====
-- `deleteDomain`.
use mailgun_operator.Base.{String, ◌<>◌, Option, none, some, [], if◌then◌else◌}
use mailgun_operator.Base.Exec.{M, ◌>>=◌, ◌>>◌, pure, return, gets, modify}
use mailgun_operator.Api.Meta.{Key, Error, Res, ok, err, if_failed}
use mailgun_operator.Api.DomainTypes.{Domain, state_failed}
use mailgun_operator.External.{MailgunClient, DomainResponse, DnsEndpoint}
use mailgun_operator.Controller.{record_event, request, on_object}
use mailgun_operator.DomainController.Run.{
  DomainReconciler, Run, updated, status_updated, endpoint_read, endpoint_deleted, event_recorded,
  get_domain, delete_on_mailgun, set_status,
}
use mailgun_operator.DomainController.Create.{check}

abbrev pub domain_finalizer : String
domain_finalizer = "domain.mailgun.com/finalizer"

module _ {W Endpoint R : Type 0} (r : DomainReconciler W Endpoint) where
  -- `r.Recorder.Eventf`
  abbrev pub eventf : String → String → String → M (Run W Endpoint) R (Unit {0})
  eventf kind reason message =
      record_event (event_recorded kind reason) (r.cluster.record_event kind reason message)

module _ {W Endpoint : Type 0} (r : DomainReconciler W Endpoint) where
  -- `controllerutil.RemoveFinalizer`
  abbrev pub without_finalizer : Domain → Domain
  without_finalizer d = record d {
    meta = record d.meta {
      finalizers = (r.finalizers.remove d.meta.finalizers domain_finalizer).0;
    };
  }

-- What `Get` leaves in a variable of type `DNSEndpoint`, or the error that ends the method.
abbrev pub endpoint_or_zero :
    {Endpoint : Type 0} → Res (DnsEndpoint Endpoint) → Res (DnsEndpoint Endpoint)
endpoint_or_zero (ok endpoint) = ok endpoint
endpoint_or_zero (err e) =
    if e.not_found
    then ok (record { key = record { namespace = ""; name = "" }; endpoints = [] })
    else err e

module _ {W Endpoint : Type 0} (r : DomainReconciler W Endpoint) where
  -- The answer to the deletion of the DNS endpoint.
  abbrev pub endpoint_gone : Key → Res (Unit {0}) → M (Run W Endpoint) (Option Error) (Unit {0})
  endpoint_gone key answer =
      if_failed answer
        (λ e. do
          let message = (("Unable to delete DNS endpoint " <> key.name) <> ": ") <> e.text
          set_status (λ status. record status { mailgun_error = some message })
          e' ← on_object updated r.client.update
          check e')
        λ _.
          eventf r "Normal" "DeletedEndpoint"
            (("Deleted linked Endpoint " <> r.cluster.key_text key) <> " from DNS")

  abbrev pub remove_endpoint :
      Key → Res (DnsEndpoint Endpoint) → M (Run W Endpoint) (Option Error) (Unit {0})
  remove_endpoint key found =
      if_failed found (λ e. return (some e))
        λ endpoint. do
          answer ← request (endpoint_deleted endpoint) (r.cluster.delete_endpoint endpoint)
          endpoint_gone key answer

  -- The part about the DNS endpoint.
  unfoldable pub delete_endpoint : M (Run W Endpoint) (Option Error) (Unit {0})
  delete_endpoint = do
    meta ← gets (λ s. s.object.meta)
    let key : Key = record { namespace = meta.namespace; name = meta.name }
    found ← request (endpoint_read key) (r.cluster.get_endpoint key)
    remove_endpoint key (endpoint_or_zero found)

  -- The answer to the deletion of the domain.
  abbrev pub domain_gone : String → Res (Unit {0}) → M (Run W Endpoint) (Option Error) (Unit {0})
  domain_gone name answer =
      if_failed answer
        (λ e. do
          eventf r "Warning" "DeletingDomainFailed"
              (("Deleting domain " <> name) <> " from mailgun is failed")
          set_status (λ status. record status {
            state = state_failed;
            mailgun_error = some ("Unable to delete domain: " <> e.text);
          })
          e' ← on_object status_updated r.client.status_update
          check e'
          return (some e))
        (λ _. pure tt)

  abbrev pub remove_domain :
      MailgunClient → String → Res DomainResponse → M (Run W Endpoint) (Option Error) (Unit {0})
  remove_domain mg name found =
      if_failed found (λ _. pure tt)
        λ _. do answer ← delete_on_mailgun r mg name; domain_gone name answer

  -- The part about the domain on Mailgun.
  unfoldable pub delete_from_mailgun :
      MailgunClient → String → M (Run W Endpoint) (Option Error) (Unit {0})
  delete_from_mailgun mg name = do found ← get_domain r mg name; remove_domain mg name found

  -- The removal of the finalizer.
  unfoldable pub release : M (Run W Endpoint) (Option Error) (Option Error)
  release = do
    modify (λ s. record s { object = without_finalizer r s.object })
    e ← on_object updated r.client.update
    check e
    return none

  unfoldable pub delete_domain : MailgunClient → M (Run W Endpoint) (Option Error) (Option Error)
  unfolding delete_endpoint delete_from_mailgun release
  delete_domain mg = do
    name ← gets (λ s. s.object.spec.domain)
    eventf r "Normal" "DeletingDomain" (("Deleting domain " <> name) <> " from mailgun")
    delete_endpoint
    delete_from_mailgun mg name
    release

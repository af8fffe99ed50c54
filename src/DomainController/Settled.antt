-- ===== src/DomainController/Settled.antt =====
-- Objects that `Reconcile` leaves alone, and objects that are gone.
use mailgun_operator.Base.{◌≡◌, ◌<>◌, eq_iff, true, false, none, some, [], ◌∷◌, arith, is_empty}
use mailgun_operator.Base.Int.{pos}
use mailgun_operator.Base.Exec.{done}
use mailgun_operator.Api.Meta.{Key, ok}
use mailgun_operator.Api.DomainTypes.{DomainStatus, Domain, state_failed, state_activated}
use mailgun_operator.External.{DomainResponse}
use mailgun_operator.Configuration.{mailgun_client}
use mailgun_operator.Controller.{reply_of}
use mailgun_operator.DomainController.Run.{
  DomainReconciler, fetched, status_updated, event_recorded, domain_read,
}
use mailgun_operator.DomainController.Reconcile.{has_finalizer, is_settled, reconcile}

is_settled-nonempty :
    (status : DomainStatus) → is_settled status ≡ true → is_empty status.state ≡ false
unfolding is_settled
is_settled-nonempty status h = ground (
  arith,
  eq_iff status.state "",
  eq_iff status.state state_failed,
  eq_iff status.state state_activated,
  eq_iff "" state_failed,
  eq_iff "" state_activated,
)

module _ {W Endpoint : Type 0} (r : DomainReconciler W Endpoint) where
  -- A domain that was fetched and has failed or is activated, with its finalizer and no deletion
  -- pending, is only read: Mailgun is not called, nothing is written, and no further run is asked
  -- for.
  pub reconcile-settled :
      (key : Key) (w w' : W) (d : Domain)
      → r.client.get key w ≡ (ok d, w')
      → d.meta.deletion_timestamp ≡ none
      → has_finalizer r d ≡ true
      → is_settled d.status ≡ true
      → reconcile r key w ≡ (
        done (reply_of (pos 0) none),
        record { world = w'; object = d; calls = fetched key none ∷ [] },
      )
  unfolding reconcile
  reconcile-settled key w w' d g t f h = rw (g, t, f, is_settled-nonempty d.status h, h)

  abbrev pub refused : Domain → Domain
  refused d = record d {
    status = record d.status {
      not_managed = true;
      state = state_failed;
      mailgun_error = some "Domain already exists on Mailgun";
    };
  }

  -- A domain that was fetched with no state yet, and that Mailgun already has, is stored as failed
  -- and not managed, and Mailgun is only read. (The object has its finalizer and no deletion
  -- pending, and the status can be stored.)
  pub reconcile-existing :
      (key : Key) (w w' w'' v : W) (d d' : Domain) (resp : DomainResponse)
      → r.client.get key w ≡ (ok d, w')
      → d.meta.deletion_timestamp ≡ none
      → has_finalizer r d ≡ true
      → is_empty d.status.state ≡ true
      → r.mailgun.get_domain (mailgun_client r.bases r.config d.spec.domain) d.spec.domain w'
        ≡ (ok resp, w'')
      → r.client.status_update (refused d) (
          r.cluster.record_event "Warning" "DomainExisted"
            (("Domain " <> d.spec.domain) <> " is already exists on mailgun")
            w'')
        ≡ (ok d', v)
      → reconcile r key w ≡ (
        done (reply_of (pos 0) none),
        record {
          world = v;
          object = d';
          calls =
              status_updated (refused d) none
              ∷ event_recorded "Warning" "DomainExisted"
              ∷ domain_read d.spec.domain none
              ∷ fetched key none
              ∷ [];
        },
      )
  unfolding reconcile
  reconcile-existing key w w' w'' v d d' resp g t f n m u = rw g (simp (t, f, n, m, u))

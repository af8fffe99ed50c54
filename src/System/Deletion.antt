-- ===== src/System/Deletion.antt =====
-- A domain's deletion by the operator, as the server sees it.
pub mod Steps
use mailgun_operator.Base.{
  ℕ, ◌≡◌, refl, sym, ap, ◌∙◌, String, ◌<>◌, ◌==◌, Bool, true, false, Option, none, some, is_empty,
  is_some,
}
use mailgun_operator.Base.Exec.{M, done, ◌>>=◌, ◌>>◌, invoke}
use mailgun_operator.Base.Exec.Outcome.{Ends, Ends-bind, Ends-invoke, Ends-done}
use mailgun_operator.Api.Meta.{Key, Error, ok}
use mailgun_operator.Api.DomainTypes.{Domain}
use mailgun_operator.External.{MailgunClient}
use mailgun_operator.Configuration.{mailgun_client}
use mailgun_operator.Controller.{Reply}
use mailgun_operator.DomainController.Run.{DomainReconciler, Run}
use mailgun_operator.DomainController.Delete.{
  eventf, delete_domain, delete_endpoint, delete_from_mailgun, release,
}
use mailgun_operator.DomainController.Reconcile.{
  has_finalizer, report, delete_and_report, examine_deletion, advance, process, reconcile, loaded,
  reconcile-fetched,
}
use mailgun_operator.MockServer.{MockServer, Surroundings}
use mailgun_operator.MockServer.Domains.Bag.{bag, take}
use mailgun_operator.System.{ServedBy, IsApart}
use mailgun_operator.System.Deletion.Steps.{delete_domain-Taken}

module _ {W Endpoint : Type 0} (r : DomainReconciler W Endpoint) (url : String)
    (server : W → MockServer) (around : W → Surroundings)
    (served : ServedBy r.mailgun url server around) (apart : IsApart r server) where
  -- If no error is returned, one domain of the name is gone from the server.
  abbrev Answers : String → MockServer → Option Error → Run W Endpoint → Type 0
  Answers name m e s = e ≡ none → (j : String) → bag (server s.world) j ≡ take name (bag m) j

  abbrev Replies : String → MockServer → Reply → Run W Endpoint → Type 0
  Replies name m reply s = Answers name m reply.error s

  abbrev Never : {A : Type 0} → A → Run W Endpoint → Type 0
  Never _ _ = ⊥

  report-Replies :
      (name : String) (m : MockServer) (e : Option Error) (s : Run W Endpoint)
      → Answers name m e s
      → Ends {A = Unit {0}} Never (Replies name m) (report r e s)
  report-Replies name m none s h = h
  report-Replies name m (some e) s h = h

  delete_and_report-Replies :
      (mg : MailgunClient) (s : Run W Endpoint)
      → mg.api_base ≡ url
      → is_empty s.object.spec.domain ≡ false
      → (mg.api_key == (server s.world).api_token) ≡ true
      → Ends Never (Replies s.object.spec.domain (server s.world)) (delete_and_report r mg s)
  unfolding delete_and_report
  delete_and_report-Replies mg s here named allowed =
      let name = s.object.spec.domain in
      let m = server s.world in
      Ends-bind Never (Replies name m) (invoke (delete_domain r mg)) (report r) s (Answers name m)
        (Ends-invoke (Answers name m) (Replies name m) (delete_domain r mg) s (
          delete_domain-Taken r url server around served apart mg name m here named allowed s refl
            refl))
        (report-Replies name m)

  process-Replies :
      (s : Run W Endpoint) (t : ℕ)
      → s.object.meta.deletion_timestamp ≡ some t
      → has_finalizer r s.object ≡ true
      → (mailgun_client r.bases r.config s.object.spec.domain).api_base ≡ url
      → is_empty s.object.spec.domain ≡ false
      → (r.config.api_token == (server s.world).api_token) ≡ true
      → Ends
          (Replies s.object.spec.domain (server s.world))
          (Replies s.object.spec.domain (server s.world))
          (process r s)
  unfolding process examine_deletion mailgun_client
  process-Replies s t dt f here named allowed =
      let name = s.object.spec.domain in
      let m = server s.world in
      let mg = mailgun_client r.bases r.config name in
      Ends-bind (Replies name m) (Replies name m) (examine_deletion r mg) (λ _. advance r mg name) s
        Never (rw (ap is_some dt, f) (delete_and_report-Replies mg s here named allowed))
        (λ _ _ h. absurd h)

  -- The operator against the mock server, with the server's URL and token in its settings: a run on
  -- a domain under deletion, with its finalizer and a name, that reports no error has taken one
  -- domain of that name from the server if there was one, and no domain of another name. Mailgun's
  -- library sends one request for each call and takes 200 for a success, and the cluster's calls
  -- leave the server alone.
  pub reconcile-served :
      (key : Key) (w w' : W) (d : Domain) (t : ℕ) (reply : Reply)
      → r.client.get key w ≡ (ok d, w')
      → d.meta.deletion_timestamp ≡ some t
      → has_finalizer r d ≡ true
      → (mailgun_client r.bases r.config d.spec.domain).api_base ≡ url
      → (r.config.api_token == (server w').api_token) ≡ true
      → is_empty d.spec.domain ≡ false
      → (reconcile r key w).0 ≡ done reply
      → reply.error ≡ none
      → (j : String)
      → bag (server (reconcile r key w).1.world) j ≡ take d.spec.domain (bag (server w')) j
  reconcile-served key w w' d t reply g dt f here allowed named e n j =
      rw (reconcile-fetched r key w w' d g) (
        Ends-done (Replies d.spec.domain (server w')) (Replies d.spec.domain (server w'))
          (process r (loaded r key d w')) reply
          (process-Replies (loaded r key d w') t dt f here named allowed)
          (sym (ap (λ x. x.0) (reconcile-fetched r key w w' d g)) ∙ e) n j)

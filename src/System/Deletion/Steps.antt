-- ===== src/System/Deletion/Steps.antt =====
-- What the steps of `deleteDomain` make of the server.
use mailgun_operator.Base.{
  ◌≡◌, refl, ap, ◌∙◌, String, ◌==◌, true, false, Option, none, some, is_empty,
}
use mailgun_operator.Base.Exec.{◌>>=◌, ◌>>◌, return}
use mailgun_operator.Base.Exec.Outcome.{Ends, Ends-bind}
use mailgun_operator.Api.Meta.{Key, Error, Res, ok, err}
use mailgun_operator.Api.DomainTypes.{Domain}
use mailgun_operator.External.{MailgunClient, DnsEndpoint, DomainResponse}
use mailgun_operator.Controller.{on_object}
use mailgun_operator.Controller.Outcome.{Ends-on_object}
use mailgun_operator.DomainController.Create.{check}
use mailgun_operator.DomainController.Run.{DomainReconciler, Run, updated, status_updated}
use mailgun_operator.DomainController.Delete.{
  eventf, delete_domain, delete_endpoint, delete_from_mailgun, release, endpoint_gone,
  remove_endpoint, endpoint_or_zero, domain_gone, remove_domain,
}
use mailgun_operator.MockServer.{MockServer, Surroundings}
use mailgun_operator.MockServer.Domains.Bag.{bag, take}
use mailgun_operator.System.{succeeds, ServedBy, IsApart}
use mailgun_operator.System.Requests.{read-missing, read-bag, read-token, removal-taken}

module _ {W Endpoint : Type 0} (r : DomainReconciler W Endpoint) (url : String)
    (server : W → MockServer) (around : W → Surroundings)
    (served : ServedBy r.mailgun url server around) (apart : IsApart r server) (mg : MailgunClient)
    (name : String) (m : MockServer) (here : mg.api_base ≡ url) (named : is_empty name ≡ false)
    (allowed : (mg.api_key == m.api_token) ≡ true) where
  -- The server is as before, or has one domain of the name less.
  abbrev Before : {A : Type 0} → A → Run W Endpoint → Type 0
  Before _ s = server s.world ≡ m

  abbrev Taken : {A : Type 0} → A → Run W Endpoint → Type 0
  Taken _ s = (j : String) → bag (server s.world) j ≡ take name (bag m) j

  -- Unless an error is returned.
  abbrev Reports : Option Error → Run W Endpoint → Type 0
  Reports e s = e ≡ none → Taken tt s

  event-Before :
      (reason : String) (s : Run W Endpoint)
      → Before tt s
      → Ends Before Reports (eventf r "Normal" "DeletingDomain" reason s)
  event-Before reason s h = apart.record_event-apart "Normal" "DeletingDomain" reason s.world ∙ h

  -- An early return of an error.
  check-Before :
      (e : Option Error) (s : Run W Endpoint) → Before tt s → Ends Before Reports (check e s)
  check-Before none s h = h
  check-Before (some e) s h = λ n. absurd (cc)

  update-Before :
      (s : Run W Endpoint)
      → Before tt s
      → Ends Before Reports ((on_object updated r.client.update >>= check) s)
  update-Before s h =
      Ends-bind Before Reports (on_object updated r.client.update) check s Before
        (Ends-on_object (λ w. server w ≡ m) Reports updated r.client.update s
          (apart.update-apart s.object s.world ∙ h))
        check-Before

  endpoint_gone-Before :
      (key : Key) (x : Res (Unit {0})) (s : Run W Endpoint)
      → Before tt s
      → Ends Before Reports (endpoint_gone r key x s)
  endpoint_gone-Before key (ok _) s h =
      apart.record_event-apart "Normal" "DeletedEndpoint" _ s.world ∙ h
  endpoint_gone-Before key (err e) s h = update-Before _ h

  remove_endpoint-Before :
      (key : Key) (x : Res (DnsEndpoint Endpoint)) (s : Run W Endpoint)
      → Before tt s
      → Ends Before Reports (remove_endpoint r key x s)
  remove_endpoint-Before key (err e) s h = λ n. absurd (cc)
  remove_endpoint-Before key (ok e) s h =
      endpoint_gone-Before key (r.cluster.delete_endpoint e s.world).0 _
        (apart.delete_endpoint-apart e s.world ∙ h)

  delete_endpoint-Before :
      (s : Run W Endpoint) → Before tt s → Ends Before Reports (delete_endpoint r s)
  unfolding delete_endpoint
  delete_endpoint-Before s h =
      let key : Key = record { namespace = s.object.meta.namespace; name = s.object.meta.name } in
      remove_endpoint-Before key (endpoint_or_zero (r.cluster.get_endpoint key s.world).0) _
        (apart.get_endpoint-apart key s.world ∙ h)

  -- A deletion that fails is reported, whatever the report's own call answers.
  fails :
      (e : Error) (e' : Option Error) (s : Run W Endpoint)
      → Ends {A = Unit {0}} Taken Reports ((check e' >> return (some e)) s)
  fails e none s = λ n. absurd (cc)
  fails e (some _) s = λ n. absurd (cc)

  reported :
      (e : Error) (x : Res Domain) (w : W) (s : Run W Endpoint)
      → Ends {A = Unit {0}} Taken Reports
          ((on_object status_updated (λ _ _. (x, w)) >>= (λ e'. check e' >> return (some e))) s)
  reported e (ok d) w s = λ n. absurd (cc)
  reported e (err e') w s = λ n. absurd (cc)

  report-Taken :
      (e : Error) (s : Run W Endpoint)
      → Ends {A = Unit {0}} Taken Reports (
          (on_object status_updated r.client.status_update >>= (λ e'. check e' >> return (some e)))
            s)
  report-Taken e s =
      reported e (r.client.status_update s.object s.world).0
        (r.client.status_update s.object s.world).1 s

  domain_gone-Taken :
      (x : Res (Unit {0})) (s : Run W Endpoint)
      → (succeeds x ≡ true → Taken tt s)
      → Ends Taken Reports (domain_gone r name x s)
  domain_gone-Taken (ok _) s h = h refl
  domain_gone-Taken (err e) s h = report-Taken e _

  remove_domain-Taken :
      (x : Res DomainResponse) (s : Run W Endpoint)
      → (succeeds x ≡ false → Taken tt s)
      → (succeeds (r.mailgun.delete_domain mg name s.world).0 ≡ true
          → (j : String)
          → bag (server (r.mailgun.delete_domain mg name s.world).1) j ≡ take name (bag m) j)
      → Ends Taken Reports (remove_domain r mg name x s)
  remove_domain-Taken (err e) s h k = h refl
  remove_domain-Taken (ok e) s h k =
      domain_gone-Taken (r.mailgun.delete_domain mg name s.world).0 _ k

  delete_from_mailgun-Taken :
      (s : Run W Endpoint) → Before tt s → Ends Taken Reports (delete_from_mailgun r mg name s)
  unfolding delete_from_mailgun
  delete_from_mailgun-Taken s h =
      let w = (r.mailgun.get_domain mg name s.world).1 in
      remove_domain-Taken (r.mailgun.get_domain mg name s.world).0 _
        (read-missing r.mailgun url server around served mg name m here named allowed s.world h)
        (λ d j.
          removal-taken r.mailgun url server around served mg name m here named allowed w
            (read-token r.mailgun url server around served mg name m here named allowed s.world h) d
            j
          ∙ rw
              (read-bag r.mailgun url server around served mg name m here named allowed s.world h j)
              refl)

  answered :
      (e : Option Error) (s : Run W Endpoint)
      → Taken tt s
      → Ends Reports Reports ((check e >> return none) s)
  answered none s h = λ n. h
  answered (some e) s h = λ n. h

  release-Taken : (s : Run W Endpoint) → Taken tt s → Ends Reports Reports (release r s)
  unfolding release
  release-Taken s h = released _ h
    where
      released :
          (s : Run W Endpoint)
          → Taken tt s
          → Ends Reports Reports
              ((on_object updated r.client.update >>= (λ e. check e >> return none)) s)
      released s h =
          Ends-bind Reports Reports (on_object updated r.client.update)
            (λ e. check e >> return none) s Taken
            (Ends-on_object (λ w. (j : String) → bag (server w) j ≡ take name (bag m) j) Reports
              updated r.client.update s
              (λ j. ap (λ v. bag v j) (apart.update-apart s.object s.world) ∙ h j))
            answered

  rest-Taken :
      (s : Run W Endpoint)
      → Before tt s
      → Ends Reports Reports ((delete_endpoint r >> (delete_from_mailgun r mg name >> release r)) s)
  rest-Taken s h =
      Ends-bind Reports Reports (delete_endpoint r)
        (λ _. delete_from_mailgun r mg name >> release r) s Before (delete_endpoint-Before s h)
        λ _ s h.
          Ends-bind Reports Reports (delete_from_mailgun r mg name) (λ _. release r) s Taken
            (delete_from_mailgun-Taken s h) (λ _. release-Taken)

  -- `deleteDomain` takes one domain of the name from the server, unless it returns an error.
  pub delete_domain-Taken :
      (s : Run W Endpoint)
      → s.object.spec.domain ≡ name
      → Before tt s
      → Ends Reports Reports (delete_domain r mg s)
  unfolding delete_domain
  delete_domain-Taken s e h = rw e (rest-Taken _ (event-Before _ s h))

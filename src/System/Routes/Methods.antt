-- ===== src/System/Routes/Methods.antt =====
-- What the statements and the methods of the routes' reconciler keep: the entry of another id on the
-- server, and the id in the object.
use mailgun_operator.Base.{◌≡◌, ◌∙◌, String, ◌==◌, false, Option, some, List, is_empty}
use mailgun_operator.Base.Exec.{M, ◌>>=◌, gets, deref}
use mailgun_operator.Base.Exec.Leads.{After, Leads, keeps_rules}
use mailgun_operator.Api.Meta.{Error, Res}
use mailgun_operator.Api.RouteTypes.{Route}
use mailgun_operator.External.{MailgunClient, MailgunRoute, DomainResponse}
use mailgun_operator.Controller.{Reply, on_object, request, question}
use mailgun_operator.Controller.Leads.{
  Both, Both-request, Both-question, Both-record_event, Both-on_object, Keeps-if_failed,
  Keeps-check_reply,
}
use mailgun_operator.RouteController.Run.{
  RouteReconciler, Run, Call, updated, status_updated, set_status, set_finalizers, eventf,
}
use mailgun_operator.RouteController.Delete.{
  remove_finalizer, release, release_if_absent, release_if_gone, report_deletion, remove_route,
  finalize,
}
use mailgun_operator.RouteController.Sync.{
  await_domain, update_existing, sync_known, sync, route_request,
}
use mailgun_operator.RouteController.Reconcile.{register, examine_deletion, advance}
use mailgun_operator.MockServer.{MockServer, Surroundings}
use mailgun_operator.MockServer.Routes.Entries.{table}
use mailgun_operator.System.Routes.{ServesRoutes, RoutesApart, KeepsId}
use mailgun_operator.System.Routes.Requests.{
  get_domain-table, get_route-table, update_route-table, delete_route-table,
}

-- The entry of the id `j`, and the id in the object.
abbrev pub Kept :
    {W : Type 0} → (W → MockServer) → String → String → Option MailgunRoute → Run W → Type 0
Kept server id j t = Both (λ w. table (server w) j ≡ t) (λ d. d.status.route_id ≡ some id)

module _ {W : Type 0} (r : RouteReconciler W) (url : String) (server : W → MockServer)
    (around : W → Surroundings) (served : ServesRoutes r.mailgun url server around)
    (apart : RoutesApart r server) (keeps : KeepsId r.client) (id j : String)
    (t : Option MailgunRoute) (named : is_empty id ≡ false) (other : (id == j) ≡ false) where
  abbrev Entry : W → Type 0
  Entry w = table (server w) j ≡ t

  abbrev HasId : Route → Type 0
  HasId d = d.status.route_id ≡ some id

  abbrev Fine : Run W → Type 0
  Fine = Kept server id j t

  from_server : (w w' : W) → server w' ≡ server w → Entry w → Entry w'
  from_server w w' e h = rw e h

  update-Fine : {R : Type 0} → Leads {R = R} Fine Fine Fine (on_object updated r.client.update)
  update-Fine =
      Both-on_object Entry HasId updated r.client.update
        (λ d w. from_server w (r.client.update d w).1 (apart.update-apart d w))
        (λ d d' w e h. keeps.update-id d d' w e ∙ h)

  status_update-Fine :
      {R : Type 0} → Leads {R = R} Fine Fine Fine (on_object status_updated r.client.status_update)
  status_update-Fine =
      Both-on_object Entry HasId status_updated r.client.status_update
        (λ d w. from_server w (r.client.status_update d w).1 (apart.status_update-apart d w))
        (λ d d' w e h. keeps.status_update-id d d' w e ∙ h)

  event-Fine :
      {R : Type 0} (kind reason message : String)
      → Leads {R = R} Fine Fine Fine (eventf r kind reason message)
  event-Fine kind reason message =
      Both-record_event Entry HasId _ (r.recorder.record_event kind reason message) (λ w.
        from_server w (r.recorder.record_event kind reason message w)
          (apart.record_event-apart kind reason message w))

  mailgun_error-Fine :
      {R : Type 0} (e : Option String)
      → Leads {R = R} Fine Fine Fine (set_status (λ status. record status { mailgun_error = e }))
  mailgun_error-Fine e = record { at = λ s l. l }

  set_finalizers-Fine :
      {R : Type 0} (l : List String) → Leads {R = R} Fine Fine Fine (set_finalizers l)
  set_finalizers-Fine l = record { at = λ s l. l }

  remove_finalizer-Fine : Leads Fine Fine Fine (remove_finalizer r)
  remove_finalizer-Fine = record { at = λ s l. l }

  get_domain-Fine :
      {R : Type 0} (c : Res DomainResponse → Call) (mg : MailgunClient) (name : String)
      → mg.api_base ≡ url
      → Leads {R = R} Fine Fine Fine (question c (r.mailgun.get_domain mg name))
  get_domain-Fine c mg name here = Both-question Entry HasId c (r.mailgun.get_domain mg name) λ w h.
      rw (served.get_domain-sent mg name w here)
        (get_domain-table (around w) (server w) j mg name ∙ h)

  get_route-Fine :
      {R : Type 0} (c : Option Error → Call) (mg : MailgunClient)
      → mg.api_base ≡ url
      → Leads {R = R} Fine Fine Fine (request c (r.mailgun.get_route mg id))
  get_route-Fine c mg here = Both-request Entry HasId c (r.mailgun.get_route mg id) λ w h.
      rw (served.get_route-sent mg id w here)
        (get_route-table (around w) (server w) j mg id named ∙ h)

  update_route-Fine :
      {R : Type 0} (c : Option Error → Call) (mg : MailgunClient) (x : MailgunRoute)
      → mg.api_base ≡ url
      → Leads {R = R} Fine Fine Fine (request c (r.mailgun.update_route mg id x))
  update_route-Fine c mg x here = Both-request Entry HasId c (r.mailgun.update_route mg id x) λ w h.
      let (form, e) = served.update_route-sent mg id x w here in
      rw e (update_route-table (around w) (server w) j mg id named form other ∙ h)

  delete_route-Fine :
      {R : Type 0} (c : Option Error → Call) (mg : MailgunClient)
      → mg.api_base ≡ url
      → Leads {R = R} Fine Fine Fine (request c (r.mailgun.delete_route mg id))
  delete_route-Fine c mg here = Both-request Entry HasId c (r.mailgun.delete_route mg id) λ w h.
      rw (served.delete_route-sent mg id w here)
        (delete_route-table (around w) (server w) j mg id named other ∙ h)

  -- `*route.Status.RouteID`
  deref-After :
      {A : Type 0} (o : Option String) (f : String → M (Run W) Reply A) (s : Run W)
      → o ≡ some id
      → After Fine Fine (f id s)
      → After Fine Fine ((deref o >>= f) s)
  deref-After o f s e h = rw e h

  known-Fine :
      {A : Type 0} (f : String → M (Run W) Reply A)
      → Leads Fine Fine Fine (f id)
      → Leads Fine Fine Fine (gets (λ s. s.object.status.route_id) >>= λ o. deref o >>= f)
  known-Fine f h = record { at = λ s l. deref-After s.object.status.route_id f s l.1 (h.at s l) }

  ruleset route_rules = (
    keeps_rules, Keeps-if_failed, Keeps-check_reply, update-Fine, status_update-Fine, event-Fine,
    mailgun_error-Fine, set_finalizers-Fine, remove_finalizer-Fine,
  )

  release-Fine : Leads Fine Fine Fine (release r)
  unfolding release
  release-Fine = search route_rules depth 20

  release_if_gone-Fine : (x : Res MailgunRoute) → Leads Fine Fine Fine (release_if_gone r x)
  unfolding release_if_gone
  release_if_gone-Fine x = search (route_rules, release-Fine) depth 20

  report_deletion-Fine : (x : Res (Unit {0})) → Leads Fine Fine Fine (report_deletion r x)
  unfolding report_deletion
  report_deletion-Fine x = search route_rules depth 20

  remove_route-Fine :
      (mg : MailgunClient) → mg.api_base ≡ url → Leads Fine Fine Fine (remove_route r mg)
  unfolding remove_route
  remove_route-Fine mg here =
      search
        (
          route_rules, known-Fine, get_route-Fine, delete_route-Fine, release_if_gone-Fine,
          report_deletion-Fine,
        )
        depth 24

  release_if_absent-Fine : (o : Option String) → Leads Fine Fine Fine (release_if_absent r o)
  unfolding release_if_absent
  release_if_absent-Fine o = search (route_rules, release-Fine) depth 20

  finalize-Fine : (mg : MailgunClient) → mg.api_base ≡ url → Leads Fine Fine Fine (finalize r mg)
  unfolding finalize
  finalize-Fine mg here = search (route_rules, release_if_absent-Fine, remove_route-Fine) depth 24

  register-Fine : Leads Fine Fine Fine (register r)
  unfolding register
  register-Fine = search route_rules depth 24

  pub examine_deletion-Fine :
      (mg : MailgunClient) → mg.api_base ≡ url → Leads Fine Fine Fine (examine_deletion r mg)
  unfolding examine_deletion
  examine_deletion-Fine mg here = search (route_rules, finalize-Fine, register-Fine) depth 24

  await_domain-Fine :
      (mg : MailgunClient) (name : String)
      → mg.api_base ≡ url
      → Leads Fine Fine Fine (await_domain r mg name)
  unfolding await_domain
  await_domain-Fine mg name here = search (route_rules, get_domain-Fine) depth 24

  update_existing-Fine :
      (mg : MailgunClient) (x : MailgunRoute)
      → mg.api_base ≡ url
      → Leads Fine Fine Fine (update_existing r mg id x)
  unfolding update_existing
  update_existing-Fine mg x here =
      search (route_rules, known-Fine, get_route-Fine, update_route-Fine) depth 24

  known-After :
      (mg : MailgunClient) (x : MailgunRoute) (o : Option String) (s : Run W)
      → o ≡ some id
      → After Fine Fine (update_existing r mg id x s)
      → After Fine Fine (sync_known r mg x o s)
  known-After mg x o s e h = rw (e, named) h

  sync-Fine : (mg : MailgunClient) → mg.api_base ≡ url → Leads Fine Fine Fine (sync r mg)
  unfolding sync
  sync-Fine mg here = record {
    at = λ s l.
        let x = route_request s.object.spec in
        known-After mg x s.object.status.route_id s l.1 ((update_existing-Fine mg x here).at s l);
  }

  pub advance-Fine :
      (mg : MailgunClient) (name : String)
      → mg.api_base ≡ url
      → Leads Fine Fine Fine (advance r mg name)
  unfolding advance
  advance-Fine mg name here = search (route_rules, await_domain-Fine, sync-Fine) depth 24

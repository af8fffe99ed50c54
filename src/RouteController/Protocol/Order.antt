-- ===== src/RouteController/Protocol/Order.antt =====
-- A run of a route's `Reconcile` keeps to the order of the calls, and when it may panic.
use mailgun_operator.Base.{
  ◌≡◌, refl, String, Bool, true, false, not, ◌&&◌, ◌==◌, eq_iff, Option, none, some, List, arith,
  is_some, is_empty,
}
use mailgun_operator.Base.Exec.{Exit, M, next, done, panic}
use mailgun_operator.Base.Exec.Triple.{Triple, Triple-bind, ends}
use mailgun_operator.Api.Meta.{Key, ok}
use mailgun_operator.Api.RouteTypes.{Route}
use mailgun_operator.External.{MailgunClient, FinalizerUtil}
use mailgun_operator.Configuration.{mailgun_client}
use mailgun_operator.Controller.{Reply}
use mailgun_operator.RouteController.Run.{RouteReconciler, Run, route_finalizer}
use mailgun_operator.RouteController.Delete.{has_finalizer}
use mailgun_operator.RouteController.Sync.{await_domain, sync}
use mailgun_operator.RouteController.Reconcile.{
  route_domain, register, examine_deletion, advance, process, loaded, reconcile, reconcile-fetched,
}
use mailgun_operator.RouteController.Protocol.{Mode, mode, follow, phase}
use mailgun_operator.RouteController.Protocol.Stages.{
  is_loaded, is_examined, never, Follows, is_unanswered, await_domain-gated, await_domain-free,
  sync-gated, sync-free,
}

-- What the operator relies on in `controllerutil.RemoveFinalizer`: it reports a change where the
-- object has the finalizer.
pub record RemovesFinalizer (u : FinalizerUtil) : Type 0 where
  pub reports : (l : List String) (f : String) → u.has l f ≡ true → (u.remove l f).1 ≡ true

module _ {W : Type 0} (r : RouteReconciler W) where
  abbrev is_removing : Route → Bool
  is_removing route = is_some route.meta.deletion_timestamp && has_finalizer r route

  abbrev kept : Mode → Run W → Bool
  kept m s = is_loaded (phase m s.calls) && not (is_removing s.object)

  examine_deletion-gated :
      (mg : MailgunClient) (domain : String)
      → Triple
          (kept (Mode.gated domain))
          (examine_deletion r mg)
          (λ _ s. is_examined (phase (Mode.gated domain) s.calls))
          (λ _ s. is_some (phase (Mode.gated domain) s.calls))
          (is_unanswered (Mode.gated domain))
  unfolding examine_deletion register follow
  examine_deletion-gated mg domain = record { at = λ s h. ground arith }

  examine_deletion-free :
      (mg : MailgunClient)
      → Triple
          (kept Mode.free)
          (examine_deletion r mg)
          (λ _ s. is_examined (phase Mode.free s.calls))
          (λ _ s. is_some (phase Mode.free s.calls))
          (is_unanswered Mode.free)
  unfolding examine_deletion register follow
  examine_deletion-free mg = record { at = λ s h. ground arith }

  abbrev is_of : String → Option String → Bool
  is_of id none = false
  is_of id (some i) = i == id

  module _ (u : RemovesFinalizer r.finalizers) where
    examine_deletion-unknown :
        (mg : MailgunClient)
        → Triple
            (λ s.
              is_loaded (phase Mode.remove_unknown s.calls)
              && (is_removing s.object && not (is_some s.object.status.route_id)))
            (examine_deletion r mg)
            (λ _. never)
            (λ _ s. is_some (phase Mode.remove_unknown s.calls))
            (is_unanswered Mode.remove_unknown)
    unfolding examine_deletion follow
    examine_deletion-unknown mg = record {
      at = λ s h. ground (arith, u.reports s.object.meta.finalizers route_finalizer);
    }

    examine_deletion-known :
        (mg : MailgunClient) (id : String)
        → Triple
            (λ s.
              is_loaded (phase (Mode.remove_known id) s.calls)
              && (is_removing s.object && is_of id s.object.status.route_id))
            (examine_deletion r mg)
            (λ _. never)
            (λ _ s. is_some (phase (Mode.remove_known id) s.calls))
            (is_unanswered (Mode.remove_known id))
    unfolding examine_deletion follow
    examine_deletion-known mg id = record {
      at = λ s h. ground (arith, u.reports s.object.meta.finalizers route_finalizer);
    }

  never-any :
      {A : Type 0} (m : Mode) (body : M (Run W) Reply A)
      → Triple never body
          (λ _ s. is_some (phase m s.calls))
          (λ _ s. is_some (phase m s.calls))
          (is_unanswered m)
  never-any m body = record { at = λ s h. cc }

  advance-gated :
      (mg : MailgunClient) (domain : String)
      → is_empty domain ≡ false
      → Follows (Mode.gated domain) is_examined (advance r mg domain) is_some
  unfolding advance
  advance-gated mg domain e =
      Triple-bind (await_domain r mg domain) (λ _. sync r mg) _ (await_domain-gated r mg domain e)
        (λ _. sync-gated r mg domain)

  advance-free :
      (mg : MailgunClient) (domain : String)
      → is_empty domain ≡ true
      → Follows Mode.free is_examined (advance r mg domain) is_some
  unfolding advance
  advance-free mg domain e =
      Triple-bind (await_domain r mg domain) (λ _. sync r mg) _ (await_domain-free r mg domain e)
        (λ _. sync-free r mg)

  -- What a mode says of the object.
  abbrev Fits : Mode → Route → Type 0
  Fits (Mode.remove_known id) o = (is_removing o && is_of id o.status.route_id) ≡ true
  Fits Mode.remove_unknown o = (is_removing o && not (is_some o.status.route_id)) ≡ true
  Fits (Mode.gated domain) o =
      (is_removing o ≡ false) × (is_empty domain ≡ false) × (route_domain o ≡ domain)
  Fits Mode.free o = (is_removing o ≡ false) × (is_empty (route_domain o) ≡ true)

  mode-Fits : (m : Mode) (o : Route) → mode r o ≡ m → Fits m o
  mode-Fits (Mode.remove_known id) o e = ground (arith, eq_iff id id)
  mode-Fits Mode.remove_unknown o e = ground arith
  mode-Fits (Mode.gated domain) o e = ground arith
  mode-Fits Mode.free o e = ground arith

  -- The calls keep to the order, and a panic comes only from an answer without the id.
  abbrev pub keeps_order : Mode → Exit Reply Reply × Run W → Bool
  keeps_order m x =
      ends (λ _ s. is_some (phase m s.calls)) (λ _ s. is_some (phase m s.calls)) (is_unanswered m) x

  process-keeps_order :
      RemovesFinalizer r.finalizers
      → (m : Mode) (s : Run W) → Fits m s.object
      → is_loaded (phase m s.calls) ≡ true
      → keeps_order m (process r s) ≡ true
  unfolding process
  process-keeps_order u (Mode.remove_known id) s f h =
      let mg = mailgun_client r.bases r.config (route_domain s.object) in
      (Triple-bind (examine_deletion r mg) (λ _. advance r mg (route_domain s.object)) _
          (examine_deletion-known u mg id) (λ _. never-any (Mode.remove_known id) _)).at
        s (rw (h, f))
  process-keeps_order u Mode.remove_unknown s f h =
      let mg = mailgun_client r.bases r.config (route_domain s.object) in
      (Triple-bind (examine_deletion r mg) (λ _. advance r mg (route_domain s.object)) _
          (examine_deletion-unknown u mg) (λ _. never-any Mode.remove_unknown _)).at
        s (rw (h, f))
  process-keeps_order u (Mode.gated domain) s f h =
      let mg = mailgun_client r.bases r.config domain in
      rw f.2 (
        (Triple-bind (examine_deletion r mg) (λ _. advance r mg domain) _
            (examine_deletion-gated mg domain) (λ _. advance-gated mg domain f.1)).at
          s (rw (h, f.0)))
  process-keeps_order u Mode.free s f h =
      let mg = mailgun_client r.bases r.config (route_domain s.object) in
      (Triple-bind (examine_deletion r mg) (λ _. advance r mg (route_domain s.object)) _
          (examine_deletion-free mg) (λ _. advance-free mg _ f.1)).at
        s (rw (h, f.0))

  pub ordered_calls :
      (m : Mode) (x : Exit Reply Reply × Run W)
      → keeps_order m x ≡ true
      → is_some (phase m x.1.calls) ≡ true
  ordered_calls m (next a, s) h = h
  ordered_calls m (done a, s) h = h
  ordered_calls m (panic, s) h = ground arith

  -- Whatever Mailgun and the API server answer, each call of a run on an object that was fetched
  -- is one that the state machine `follow`, in the mode of the object, allows after the calls
  -- before it and their answers: the look-up is of the domain that the object names, and where the
  -- object is under deletion with the finalizer and the id of a route, only the route of that id
  -- is read and deleted. The run ends in a panic only directly behind the storing of a new route's
  -- finalizer, where the object that the API server answered to that has no id of a route.
  -- (`RemoveFinalizer` tells a change of a list that has the finalizer.)
  pub route_reconcile-keeps_order :
      RemovesFinalizer r.finalizers
      → (key : Key) (w w' : W) (route : Route) → r.client.get key w ≡ (ok route, w')
      → keeps_order (mode r route) (reconcile r key w) ≡ true
  unfolding follow
  route_reconcile-keeps_order u key w w' route g = rw (reconcile-fetched r key w w' route g) (
      process-keeps_order u (mode r route) (loaded r key route w')
        (mode-Fits (mode r route) route refl) refl)

-- ===== src/RouteController/Reconcile.antt =====
-- `Reconcile`.
use mailgun_operator.Base.{
  String, Bool, false, not, ◌&&◌, Option, none, some, [], ◌∷◌, ◌≡◌, is_empty, is_some, nonempty_or,
}
use mailgun_operator.Base.Int.{pos}
use mailgun_operator.Base.Exec.{Exit, M, ◌>>=◌, ◌>>◌, pure, return, gets, when, if_else, if_some}
use mailgun_operator.Api.Meta.{Key, Error, ok}
use mailgun_operator.Api.RouteTypes.{Route, zero_route}
use mailgun_operator.External.{MailgunClient}
use mailgun_operator.Configuration.{mailgun_client}
use mailgun_operator.Controller.{Reply, reply_of, fetch_object}
use mailgun_operator.RouteController.Run.{
  RouteReconciler, Run, fetched, route_finalizer, set_finalizers,
}
use mailgun_operator.RouteController.Delete.{has_finalizer, update_route_object, finalize}
use mailgun_operator.RouteController.Sync.{await_domain, sync}

-- `RouteID != nil && len(*RouteID) > 0`
abbrev pub is_known : Option String → Bool
is_known none = false
is_known (some id) = not (is_empty id)

-- `routeDomain`
abbrev pub route_domain : Route → String
route_domain route = nonempty_or route.spec.domain ""

module _ {W : Type 0} (r : RouteReconciler W) where
  -- `return ctrl.Result{}, client.IgnoreNotFound(err)`
  abbrev check_fetched : Option Error → M (Run W) Reply (Unit {0})
  check_fetched failed =
      if_some failed
        (λ e.
          if_else e.not_found (return (reply_of (pos 0) none)) (return (reply_of (pos 0) (some e))))
        (pure tt)

  unfoldable pub fetch : Key → M (Run W) Reply (Unit {0})
  fetch key = do e ← fetch_object fetched r.client.get key; check_fetched e

  -- The object is not being deleted.
  unfoldable pub register : M (Run W) Reply (Unit {0})
  register = do
    route ← gets (λ s. s.object)
    when (not (has_finalizer r route) && is_known route.status.route_id) do
      set_finalizers (r.finalizers.add route.meta.finalizers route_finalizer)
      update_route_object r

  unfoldable pub examine_deletion : MailgunClient → M (Run W) Reply (Unit {0})
  unfolding register finalize
  examine_deletion mg = do
    meta ← gets (λ s. s.object.meta)
    if_else (is_some meta.deletion_timestamp) (finalize r mg) (register)

  -- The part behind the examination of the deletion timestamp.
  unfoldable pub advance : MailgunClient → String → M (Run W) Reply Reply
  unfolding await_domain sync
  advance mg domain = do await_domain r mg domain; sync r mg

  -- The part behind the fetch.
  unfoldable pub process : M (Run W) Reply Reply
  unfolding examine_deletion advance mailgun_client
  process s =
      let domain = route_domain s.object in
      let mg = mailgun_client r.bases r.config domain in
      (examine_deletion mg >> advance mg domain) s

  unfoldable pub reconcile_body : Key → M (Run W) Reply Reply
  unfolding fetch process
  reconcile_body key = do fetch key; process

  -- One call of `Reconcile`, with the calls that it makes.
  unfoldable pub reconcile : Key → W → Exit Reply Reply × Run W
  unfolding reconcile_body
  reconcile key w = reconcile_body key (record { world = w; object = zero_route; calls = [] })

  -- A run whose fetch succeeds.
  abbrev pub loaded : Key → Route → W → Run W
  loaded key route w = record { world = w; object = route; calls = fetched key none ∷ [] }

  pub reconcile-fetched :
      (key : Key) (w w' : W) (route : Route)
      → r.client.get key w ≡ (ok route, w')
      → reconcile key w ≡ process (loaded key route w')
  unfolding reconcile
  reconcile-fetched key w w' route g = rw g

-- ===== src/RouteController/Protocol/Creation.antt =====
-- What the order of the calls means for the creation of a route.
use mailgun_operator.Base.{
  ◌≡◌, refl, ap, String, true, false, Option, none, some, List, [], ◌∷◌, ◌++◌, arith, is_some,
  is_empty, eq_iff,
}
use mailgun_operator.Api.Meta.{Key, Error, ok}
use mailgun_operator.Api.RouteTypes.{Route}
use mailgun_operator.External.{MailgunRoute}
use mailgun_operator.RouteController.Run.{RouteReconciler, Call, domain_read, route_created}
use mailgun_operator.RouteController.Reconcile.{route_domain, reconcile}
use mailgun_operator.RouteController.Protocol.{Mode, Phase, mode, follow, phase, and_then}
use mailgun_operator.RouteController.Protocol.Order.{
  RemovesFinalizer, ordered_calls, route_reconcile-keeps_order,
}

is_some-and_then :
    (m : Mode) (p : Option Phase) (c : Call) → is_some (and_then m p c) ≡ true → is_some p ≡ true
is_some-and_then m none c h = h
is_some-and_then m (some p) c h = refl

pub phase_before :
    (m : Mode) (after before : List Call)
    → is_some (phase m (after ++ before)) ≡ true
    → is_some (phase m before) ≡ true
phase_before m [] before h = h
phase_before m (c ∷ after) before h =
    phase_before m after before (is_some-and_then m (phase m (after ++ before)) c h)

from_vetted :
    (m : Mode) (p : Option Phase) (x : MailgunRoute) (e : Option Error) (domain : String)
    → m ≡ Mode.gated domain
    → is_some (and_then m p (route_created x e)) ≡ true
    → p ≡ some Phase.vetted
unfolding follow
from_vetted m p x e domain n h = ground arith

to_vetted :
    (domain : String) (p : Option Phase) (c : Call)
    → and_then (Mode.gated domain) p c ≡ some Phase.vetted
    → c ≡ domain_read domain (some "active")
unfolding follow
to_vetted domain p (domain_read n (some state)) h =
    ground (arith, eq_iff state "active", eq_iff n domain)
to_vetted domain p (domain_read n none) h = absurd (ground arith)
to_vetted domain p c h = absurd (ground arith)

vetted-cons :
    (domain : String) (calls : List Call)
    → phase (Mode.gated domain) calls ≡ some Phase.vetted
    → (old : List Call) × (calls ≡ domain_read domain (some "active") ∷ old)
vetted-cons domain [] h = absurd (cc)
vetted-cons domain (c ∷ old) h =
    (old, ap (λ c'. c' ∷ old) (to_vetted domain (phase (Mode.gated domain) old) c h))

created_after_active :
    (m : Mode) (before : List Call) (x : MailgunRoute) (e : Option Error) (domain : String)
    → m ≡ Mode.gated domain
    → is_some (phase m (route_created x e ∷ before)) ≡ true
    → (old : List Call) × (before ≡ domain_read domain (some "active") ∷ old)
created_after_active m before x e domain n h =
    vetted-cons domain before (rw n at (from_vetted m (phase m before) x e domain n h))

module _ {W : Type 0} (r : RouteReconciler W) where
  -- An object that names a domain is in the mode of that domain where a route may be created.
  creating-gated :
      (route : Route) (x : MailgunRoute) (e : Option Error) (p : Option Phase)
      → is_empty (route_domain route) ≡ false
      → is_some (and_then (mode r route) p (route_created x e)) ≡ true
      → mode r route ≡ Mode.gated (route_domain route)
  unfolding follow
  creating-gated route x e p d h = ground arith

  -- The route of an object that was fetched and names a domain is only created directly behind a
  -- call of `GetDomain` for that domain, which answered that it is active. (`RemoveFinalizer`
  -- tells a change of a list that has the finalizer.)
  pub reconcile_creates_after_active :
      RemovesFinalizer r.finalizers
      → (key : Key) (w w' : W) (route : Route) (after before : List Call) (x : MailgunRoute)
        (e : Option Error)
      → r.client.get key w ≡ (ok route, w')
      → is_empty (route_domain route) ≡ false
      → (reconcile r key w).1.calls ≡ after ++ (route_created x e ∷ before)
      → (old : List Call) × (before ≡ domain_read (route_domain route) (some "active") ∷ old)
  reconcile_creates_after_active u key w w' route after before x e g d h =
      let m = mode r route in
      let kept = phase_before m after (route_created x e ∷ before) (
        rw h at (
          ordered_calls r m (reconcile r key w)
            (route_reconcile-keeps_order r u key w w' route g))) in
      created_after_active m before x e (route_domain route)
        (creating-gated route x e (phase m before) d kept) kept

-- ===== src/RouteController/Protocol/Stages.antt =====
-- The calls of the stages of a route's `Reconcile` behind the examination of its deletion: the
-- look-up of the domain, and what brings the route in line.
use mailgun_operator.Base.{
  ◌≡◌, String, Bool, true, false, not, ◌&&◌, ◌||◌, eq_iff, Option, none, some, arith, is_some,
  is_empty,
}
use mailgun_operator.Base.Exec.{M, if_else}
use mailgun_operator.Base.Exec.Triple.{Triple}
use mailgun_operator.External.{MailgunClient, MailgunRoute}
use mailgun_operator.Controller.{Reply}
use mailgun_operator.RouteController.Run.{RouteReconciler, Run}
use mailgun_operator.RouteController.Sync.{
  await_domain, route_request, create, update_existing, sync_known, sync,
}
use mailgun_operator.RouteController.Protocol.{Mode, Phase, follow, phase}

abbrev pub is_loaded : Option Phase → Bool
is_loaded (some Phase.loaded) = true
is_loaded _ = false

abbrev pub is_examined : Option Phase → Bool
is_examined (some Phase.loaded) = true
is_examined (some Phase.registered) = true
is_examined _ = false

abbrev pub is_vetted : Option Phase → Bool
is_vetted (some Phase.vetted) = true
is_vetted _ = false

abbrev is_adopted : Option Phase → Bool
is_adopted (some Phase.adopted) = true
is_adopted _ = false

abbrev pub never : {S : Type 0} → S → Bool
never _ = false

module _ {W : Type 0} where
  -- The finalizer of a new route was stored last, and the answer has no id of a route.
  abbrev pub is_unanswered : Mode → Run W → Bool
  is_unanswered m s = is_adopted (phase m s.calls) && not (is_some s.object.status.route_id)

  -- In a mode, from one set of phases to another, or to the end with no call out of order; and
  -- with a panic only where the answer of the API server has lost the id of a new route.
  abbrev pub Follows :
      {A : Type 0}
      → Mode
      → (Option Phase → Bool)
      → M (Run W) Reply A
      → (Option Phase → Bool)
      → Type 0
  Follows m p body q =
      Triple (λ s. p (phase m s.calls)) body (λ _ s. q (phase m s.calls))
        (λ _ s. is_some (phase m s.calls)) (is_unanswered m)

module _ {W : Type 0} (r : RouteReconciler W) where
  pub await_domain-gated :
      (mg : MailgunClient) (domain : String)
      → is_empty domain ≡ false
      → Follows (Mode.gated domain) is_examined (await_domain r mg domain) is_vetted
  unfolding await_domain follow
  await_domain-gated mg domain e = record { at = λ s h. ground (arith, eq_iff domain domain) }

  pub await_domain-free :
      (mg : MailgunClient) (domain : String)
      → is_empty domain ≡ true
      → Follows Mode.free is_examined (await_domain r mg domain) is_examined
  unfolding await_domain follow
  await_domain-free mg domain e = record { at = λ s h. ground arith }

  pub sync-gated :
      (mg : MailgunClient) (domain : String)
      → Follows (Mode.gated domain) is_vetted (sync r mg) is_some
  unfolding sync follow
  sync-gated mg domain = record { at = λ s h. ground arith }

  -- Where an id is known, the object has one.
  abbrev is_ready : Option String → Run W → Bool
  is_ready known s =
      is_examined (phase Mode.free s.calls)
      && (not (is_some known) || is_some s.object.status.route_id)

  -- From there to the end.
  abbrev Completes : Option String → M (Run W) Reply Reply → Type 0
  Completes known body =
      Triple (is_ready known) body (λ _ s. is_some (phase Mode.free s.calls))
        (λ _ s. is_some (phase Mode.free s.calls)) (is_unanswered Mode.free)

  create-Completes :
      (mg : MailgunClient) (wanted : MailgunRoute) (known : Option String)
      → Completes known (create r mg wanted)
  unfolding create follow
  create-Completes mg wanted known = record { at = λ s h. ground arith }

  update_existing-Completes :
      (mg : MailgunClient) (wanted : MailgunRoute) (id : String)
      → Completes (some id) (update_existing r mg id wanted)
  unfolding update_existing follow
  update_existing-Completes mg wanted id = record { at = λ s h. ground arith }

  sync_known-Completes :
      (mg : MailgunClient) (wanted : MailgunRoute) (known : Option String)
      → Completes known (sync_known r mg wanted known)
  sync_known-Completes mg wanted none = create-Completes mg wanted none
  sync_known-Completes mg wanted (some id) = chosen (is_empty id)
    where
      chosen :
          (b : Bool)
          → Completes (some id) (if_else b (create r mg wanted) (update_existing r mg id wanted))
      chosen true = create-Completes mg wanted (some id)
      chosen false = update_existing-Completes mg wanted id

  ready :
      (s : Run W)
      → is_examined (phase Mode.free s.calls) ≡ true
      → is_ready s.object.status.route_id s ≡ true
  ready s h = ground arith

  pub sync-free : (mg : MailgunClient) → Follows Mode.free is_examined (sync r mg) is_some
  unfolding sync
  sync-free mg = record {
    at = λ s h.
        (sync_known-Completes mg (route_request s.object.spec) s.object.status.route_id).at s
          (ready s h);
  }

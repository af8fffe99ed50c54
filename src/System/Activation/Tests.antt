-- ===== src/System/Activation/Tests.antt =====
-- A new domain, and a server that is to find it active.
use mailgun_operator.Base.{List, true, arith, ◌≡◌, refl, String, Option, none, some}
use mailgun_operator.Base.Exec.{done}
use mailgun_operator.Base.Int.{pos}
use mailgun_operator.Base.Lists.{contains}
use mailgun_operator.Api.Meta.{Res, ok, err}
use mailgun_operator.Api.DomainTypes.{Domain, state_activated}
use mailgun_operator.External.{DomainApi}
use mailgun_operator.Configuration.{mailgun_client}
use mailgun_operator.Controller.{reply_of}
use mailgun_operator.DomainController.Run.{DomainReconciler, Run}
use mailgun_operator.DomainController.Simulation.{missing, response, fresh, Endpoint}
use mailgun_operator.DomainController.Delete.{domain_finalizer}
use mailgun_operator.DomainController.Convergence.{key_of, rounds, quiet}
use mailgun_operator.DomainController.Reconcile.{needs_external_dns, reconcile}
use mailgun_operator.DomainController.Verify.{seconds}
use mailgun_operator.MockServer.{DomainContainer, new_mailgun_server, activate_domain, find_domain}
use mailgun_operator.MockServer.Domains.Bag.{bag}
use mailgun_operator.MockServer.Records.{active_state}
use mailgun_operator.MockServer.Serve.{serve}
use mailgun_operator.System.{verification_request, ServedBy, IsApart}
use mailgun_operator.System.Simulation.{World, around, reconciler, mailgun, succeeds-answered}
use mailgun_operator.System.Activation.{AnswersTo, answered_state, verdict}
use mailgun_operator.System.Activation.Activated.{reconcile-activates}

abbrev stated : Option String → Res String
stated none = err missing
stated (some state) = ok state

verdict-stated : (o : Option String) → verdict (stated o) ≡ o
verdict-stated none = refl
verdict-stated (some _) = refl

-- A client that gives back the state of the answer.
abbrev stating : DomainApi World
stating = record mailgun {
  verify_domain = λ mg n w.
      let (answer, m) = serve (verification_request mg n) (around w) w.mock in
      (stated (answered_state answer), record w { mock = m });
}

abbrev operator : DomainReconciler World Endpoint
operator = record reconciler { mailgun = stating }

stating-ServedBy : ServedBy stating "https://eu" (λ w. w.mock) around
stating-ServedBy = record {
  get_domain-sent = λ mg n w h. refl;
  get_domain-succeeds = λ mg n w h. succeeds-answered response _;
  create_domain-sent = λ mg n o w h. refl;
  verify_domain-sent = λ mg n w h. refl;
  delete_domain-sent = λ mg n w h. refl;
  delete_domain-succeeds = λ mg n w h. succeeds-answered tt _;
}

stating-AnswersTo : AnswersTo stating "https://eu" (λ w. w.mock) around
stating-AnswersTo = record {
  create_domain-succeeds = λ mg n o w h. succeeds-answered response _;
  verify_domain-state = λ mg n w h. verdict-stated _;
}

operator-IsApart : IsApart operator (λ w. w.mock)
operator-IsApart = record {
  update-apart = λ d w. refl;
  status_update-apart = λ d w. refl;
  get_endpoint-apart = λ key w. refl;
  create_endpoint-apart = λ e w. refl;
  get_secret-apart = λ key w. refl;
  create_or_update_secret-apart = λ secret f w. refl;
  rand_read-apart = λ n w. refl;
  now-apart = λ w. refl;
  delete_endpoint-apart = λ e w. refl;
  record_event-apart = λ kind reason message w. refl;
}

finalizer_added :
    (l : List String)
    → operator.finalizers.has (operator.finalizers.add l domain_finalizer) domain_finalizer ≡ true
unfolding contains
finalizer_added l = ground arith

abbrev unchecked : Domain
unchecked = record fresh { spec = record fresh.spec { force_mx_check = none } }

abbrev starting : World
starting = record {
  stored = some unchecked;
  mock = activate_domain "example.com" (new_mailgun_server "token");
}

reconcile-activates_example :
    (s : Run World Endpoint) × (c : DomainContainer) × (reconcile operator
        (key_of unchecked)
        starting
      ≡ (done (reply_of (seconds (pos 300)) none), s))
    × (s.object.status.state ≡ state_activated)
    × (find_domain "example.com" s.world.mock.domain_list ≡ some c)
    × (c.domain.state ≡ active_state)
    × (bag s.world.mock "example.com" ≡ 1)
    × (rounds operator (key_of unchecked) 2 s.world ≡ quiet operator (key_of unchecked) 2)
unfolding activate_domain new_mailgun_server contains mailgun_client needs_external_dns find_domain
reconcile-activates_example =
    reconcile-activates operator "https://eu" (λ w. w.mock) around stating-ServedBy
      stating-AnswersTo operator-IsApart (λ w. refl) (λ d w. refl) (λ d w. refl) (λ d w. refl)
      finalizer_added starting starting unchecked "example.com" 2 refl refl refl refl refl refl refl
      refl refl refl refl refl

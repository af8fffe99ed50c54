-- ===== src/System/Routes/Tests.antt =====
-- The routes' reconciler against a mock server with two routes.
use mailgun_operator.Base.{
  ◌≡◌, refl, sym, ap, String, Option, none, some, List, [], ◌∷◌, if◌then◌else◌,
}
use mailgun_operator.Base.Dict.{Dict, lookup, erase}
use mailgun_operator.Base.Lists.{contains}
use mailgun_operator.Api.Meta.{Res, ok, err}
use mailgun_operator.Api.RouteTypes.{Route}
use mailgun_operator.External.{MailgunRoute, ObjectClient, RouteApi}
use mailgun_operator.Configuration.{mailgun_client}
use mailgun_operator.RouteController.Run.{RouteReconciler}
use mailgun_operator.RouteController.Reconcile.{reconcile}
use mailgun_operator.RouteController.Simulation.{missing, finalizers, key, deleted, forwarding}
use mailgun_operator.DomainController.Simulation.{response, config}
use mailgun_operator.MockServer.{MockServer, Surroundings, new_mailgun_server}
use mailgun_operator.MockServer.Http.{Request, path_value}
use mailgun_operator.MockServer.Routes.{is_failing}
use mailgun_operator.MockServer.Routes.Entries.{table}
use mailgun_operator.MockServer.Serve.{serve}
use mailgun_operator.System.{domain_request, is_accepted}
use mailgun_operator.System.Routes.{route_request, ServesRoutes, RoutesApart, KeepsId}
use mailgun_operator.System.Routes.Others.{reconcile-others}

record World : Type 0 where
  stored : Option Route
  mock : MockServer

abbrev around : World → Surroundings
around _ = record { now = 7; random = "abcdefghij"; spam_action_disabled = "disabled" }

abbrev client : ObjectClient World Route
client = record {
  get = λ _ w. (elim w.stored [ none ↦ err missing | some d ↦ ok d ], w);
  update = λ d w. (ok d, record w { stored = some d });
  status_update = λ d w. (ok d, record w { stored = some d });
}

abbrev send : {A : Type 0} → A → Request → World → Res A × World
send a r w =
    let (answer, m) = serve r (around w) w.mock in
    (if is_accepted answer then ok a else err missing, record w { mock = m })

-- An update sends the new expression, a creation is not asked for here.
abbrev update_form : MailgunRoute → Dict (List String)
update_form x = ("expression", x.expression ∷ []) ∷ []

abbrev mailgun : RouteApi World
mailgun = record {
  get_domain = λ mg n w. send response (domain_request "GET" mg n) w;
  get_route = λ mg id w. send forwarding (route_request "GET" mg id []) w;
  create_route = λ mg x w. (err missing, w);
  update_route = λ mg id x w. send tt (route_request "PUT" mg id (update_form x)) w;
  delete_route = λ mg id w. send tt (route_request "DELETE" mg id []) w;
}

abbrev reconciler : RouteReconciler World
reconciler = record {
  client = client;
  finalizers = finalizers;
  recorder = record { record_event = λ _ _ _ w. w };
  mailgun = mailgun;
  bases = record { eu = "https://eu"; us = "https://us" };
  config = config;
}

abbrev two_routes : World
two_routes = record {
  stored = some deleted;
  mock = record (new_mailgun_server "token") {
    routes = some (("r1", forwarding) ∷ ("r2", record forwarding { id = "r2" }) ∷ []);
  };
}

mailgun-ServesRoutes : ServesRoutes mailgun "https://eu" (λ w. w.mock) around
mailgun-ServesRoutes = record {
  get_domain-sent = λ mg n w h. refl;
  get_route-sent = λ mg id w h. refl;
  update_route-sent = λ mg id x w h. (update_form x, refl);
  delete_route-sent = λ mg id w h. refl;
}

reconciler-RoutesApart : RoutesApart reconciler (λ w. w.mock)
reconciler-RoutesApart = record {
  update-apart = λ d w. refl;
  status_update-apart = λ d w. refl;
  record_event-apart = λ kind reason message w. refl;
}

-- The id that an answer has.
abbrev id_of : Res Route → Option String
id_of (ok d) = d.status.route_id
id_of (err _) = none

client-KeepsId : KeepsId client
client-KeepsId = record {
  update-id = λ d d' w h. sym (ap id_of h);
  status_update-id = λ d d' w h. sym (ap id_of h);
}

deleted-removed : table (reconcile reconciler key two_routes).1.world.mock "r1" ≡ none
unfolding reconcile serve contains lookup erase mailgun_client new_mailgun_server path_value
    is_failing
deleted-removed = refl

reconcile-others_example :
    table (reconcile reconciler key two_routes).1.world.mock "r2"
    ≡ some (record forwarding { id = "r2" })
unfolding mailgun_client lookup
reconcile-others_example =
    reconcile-others reconciler "https://eu" (λ w. w.mock) around mailgun-ServesRoutes
      reconciler-RoutesApart client-KeepsId key two_routes two_routes deleted "r1" "r2" refl refl
      refl refl refl

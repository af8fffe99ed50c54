-- ===== src/RouteController/Simulation.antt =====
-- A small world for runs of the routes' reconciler, with one stored object, the state of every
-- domain and at most one route on Mailgun.
use mailgun_operator.Base.{String, true, ◌==◌, if◌then◌else◌, Option, none, some, List, [], ◌∷◌}
use mailgun_operator.Base.Int.{pos}
use mailgun_operator.Base.Lists.{contains}
use mailgun_operator.Api.Meta.{Key, Error, ok, err, zero_meta}
use mailgun_operator.Api.RouteTypes.{Route, RouteSpec, zero_route}
use mailgun_operator.External.{MailgunClient, MailgunRoute, ObjectClient, FinalizerUtil, RouteApi}
use mailgun_operator.RouteController.Run.{RouteReconciler, Run, route_finalizer}

pub record World : Type 0 where
  pub stored : Option Route
  pub domain_state : String
  pub created : Option MailgunRoute

abbrev pub missing : Error
missing = record { not_found = true; text = "not found" }

abbrev pub client : ObjectClient World Route
client = record {
  get = λ _ w. (elim w.stored [ none ↦ err missing | some d ↦ ok d ], w);
  update = λ d w. (ok d, record w { stored = some d });
  status_update = λ d w. (ok d, record w { stored = some d });
}

abbrev pub without : List String → String → List String
without [] a = []
without (x ∷ xs) a = if x == a then without xs a else x ∷ without xs a

abbrev pub finalizers : FinalizerUtil
finalizers = record {
  has = contains;
  add = λ l f. if contains l f then l else f ∷ l;
  remove = λ l f. (without l f, contains l f);
}

-- A route that Mailgun creates gets the id "r1".
abbrev pub named : MailgunRoute → MailgunRoute
named x = record x { id = "r1" }

abbrev pub mailgun : RouteApi World
mailgun = record {
  get_domain = λ _ _ w. (
    ok (record {
      state = w.domain_state;
      smtp_login = "";
      receiving_dns_records = [];
      sending_dns_records = [];
    }),
    w,
  );
  get_route = λ _ _ w. (elim w.created [ none ↦ err missing | some x ↦ ok x ], w);
  create_route = λ _ x w. (ok (named x), record w { created = some (named x) });
  update_route = λ _ _ x w. (ok tt, record w { created = some (named x) });
  delete_route = λ _ _ w. (ok tt, record w { created = none });
}

abbrev pub reconciler : RouteReconciler World
reconciler = record {
  client = client;
  finalizers = finalizers;
  recorder = record { record_event = λ _ _ _ w. w };
  mailgun = mailgun;
  bases = record { eu = "https://eu"; us = "https://us" };
  config = record {
    operator_namespace = "mailgun";
    api_token = "token";
    api_server = "EU";
    domain_verify_duration = pos 300;
  };
}

abbrev pub key : Key
key = record { namespace = "default"; name = "inbound" }

abbrev pub mg : MailgunClient
mg = record { domain = "example.com"; api_key = "token"; api_base = "https://eu" }

abbrev pub spec : RouteSpec
spec = record {
  description = "inbound";
  expression = "catch_all()";
  actions = "stop()" ∷ [];
  priority = none;
  domain = some "example.com";
}

abbrev pub fresh : Route
fresh = record zero_route {
  meta = record zero_meta { finalizers = route_finalizer ∷ [] };
  spec = spec;
}

abbrev pub known : Route
known = record fresh { status = record fresh.status { route_id = some "r1" } }

abbrev pub deleted : Route
deleted = record known { meta = record known.meta { deletion_timestamp = some 5 } }

abbrev pub holding : Route → String → Option MailgunRoute → World
holding d state x = record { stored = some d; domain_state = state; created = x }

-- The route of the spec, but for its action.
abbrev pub forwarding : MailgunRoute
forwarding = record {
  id = "r1";
  priority = pos 0;
  description = "inbound";
  expression = "catch_all()";
  actions = "forward()" ∷ [];
}

abbrev pub renamed : MailgunRoute
renamed = record forwarding { description = "old" }

abbrev pub loaded_run : MailgunRoute → Run World
loaded_run x = record { world = holding known "active" (some x); object = known; calls = [] }

-- ===== src/MockServer/Tests.antt =====
-- Requests to a server with one activated domain.
use mailgun_operator.Base.{◌≡◌, refl, ◌≢◌, String, true, false, none, some, List, [], ◌∷◌}
use mailgun_operator.Base.Int.{pos}
use mailgun_operator.Base.Lists.{contains}
use mailgun_operator.Base.Dict.{Dict, lookup}
use mailgun_operator.External.{MailgunRoute}
use mailgun_operator.MockServer.{MockServer, Surroundings, new_mailgun_server, find_domain}
use mailgun_operator.MockServer.Http.{
  Request, form, form_value, path_value, text, route, object, to_json, message, status_ok,
}
use mailgun_operator.MockServer.Records.{new_container}
use mailgun_operator.MockServer.Domains.{domain_body, create_domain, get_domain, verify_domain}
use mailgun_operator.MockServer.Domains.Requests.{
  verified_body, get_domain-create_domain, get_domain-verify_domain,
}
use mailgun_operator.MockServer.Domains.Bag.{bag, bag-init_routes}
use mailgun_operator.MockServer.Routes.{id_required, priority_of}
use mailgun_operator.MockServer.Routes.Entries.{table}
use mailgun_operator.MockServer.Routes.Table.{table-init_routes}
use mailgun_operator.Configuration.Parse.{parse_int}
use mailgun_operator.MockServer.Serve.{Pattern, is_authorized, init_routes, match_pattern, serve}
use mailgun_operator.MockServer.Serve.Access.{serve-unauthorized, serve-id_required}
use mailgun_operator.MockServer.Events.{requested, activated, run}
use mailgun_operator.MockServer.Events.Soundness.{IsSound}
use mailgun_operator.MockServer.Events.Invariant.{run-IsSound}

abbrev around : Surroundings
around = record { now = 7; random = "abcdefghij"; spam_action_disabled = "disabled" }

abbrev request : String → List String → Dict (List String) → Request
request method path form = record {
  method = method;
  path = path;
  path_values = [];
  form = form;
  credentials = some ("api", "token");
}

-- What the multiplexer hands to a handler.
abbrev request_for : String → String → Request
request_for key value = record (request "GET" [] []) { path_values = (key, value) ∷ [] }

abbrev creation : Request
creation = request "POST" ("v4" ∷ "domains" ∷ []) (("name", "a.org" ∷ []) ∷ [])

abbrev route_creation : Request
route_creation = request "POST" ("v4" ∷ "routes" ∷ []) (
    ("expression", "catch_all()" ∷ [])
    ∷ ("action", "stop()" ∷ "store()" ∷ [])
    ∷ ("priority", "3" ∷ [])
    ∷ [])

abbrev server : MockServer
server = record {
  api_token = "token";
  active_domains = "a.org" ∷ [];
  active_mx_domains = [];
  failed_domains = [];
  domain_list = [];
  routes = none;
  fail_routes = none;
}

-- The server with the domain.
abbrev serving : MockServer
serving = record server { domain_list = new_container server around "a.org" ∷ [] }

abbrev created_route : MailgunRoute
created_route = record {
  id = "route-abcdefghij";
  priority = pos 3;
  description = "";
  expression = "catch_all()";
  actions = "stop()" ∷ "store()" ∷ [];
}

creation_answer : (serve creation around server).1 ≡ serving
unfolding serve form_value lookup new_container
creation_answer = refl

anonymous_answer :
    (serve (record creation { credentials = none }) around server)
    ≡ (some (to_json (message "Invalid private key") 401), server)
unfolding serve
anonymous_answer = refl

no_pattern : (serve (record creation { method = "PATCH" }) around server).0 ≡ none
unfolding serve
no_pattern = refl

run-IsSound_example :
    IsSound (run (activated "a.org" ∷ requested creation around ∷ []) (new_mailgun_server "token"))
run-IsSound_example = run-IsSound "token" (activated "a.org" ∷ requested creation around ∷ [])

serve-unauthorized_example :
    serve (record creation { credentials = some ("api", "guess") }) around server
    ≡ (some (to_json (message "Invalid private key") 401), server)
unfolding is_authorized match_pattern
serve-unauthorized_example =
    serve-unauthorized (record creation { credentials = some ("api", "guess") }) around server refl

serve-id_required_example :
    (serve (request "GET" ("v4" ∷ "routes" ∷ "r1" ∷ []) []) around server).0 ≢ some id_required
serve-id_required_example =
    serve-id_required (request "GET" ("v4" ∷ "routes" ∷ "r1" ∷ []) []) around server

bag-init_routes_example :
    bag (init_routes Pattern.post_domains creation around serving).1 "a.org" ≡ 2
unfolding is_authorized form_value lookup new_container contains
bag-init_routes_example = bag-init_routes creation around serving "a.org" Pattern.post_domains refl

table-init_routes_example :
    (table (init_routes Pattern.post_routes route_creation around server).1 "route-abcdefghij"
      ≡ some created_route)
    × ((init_routes Pattern.post_routes route_creation around server).0
        ≡ to_json
            (object
              (("message", text "Route has been created") ∷ ("route", route created_route) ∷ []))
            200)
unfolding is_authorized form_value lookup priority_of parse_int
table-init_routes_example =
    table-init_routes route_creation around server "route-abcdefghij" Pattern.post_routes refl

get_domain-create_domain_example :
    (get_domain (request_for "domain" "a.org") around (create_domain creation around server).1).0
    ≡ to_json
        (domain_body "Domain DNS records have been retrieved" (new_container server around "a.org"))
        status_ok
unfolding form_value path_value contains find_domain lookup
get_domain-create_domain_example =
    get_domain-create_domain creation (request_for "domain" "a.org") around around server "a.org"
      refl refl refl refl

get_domain-verify_domain_example :
    (get_domain
      (request_for "domain" "a.org")
      around
      (verify_domain (request_for "domain" "a.org") around serving).1).0
    ≡ to_json (verified_body true false (new_container server around "a.org")) 200
unfolding path_value contains find_domain lookup new_container
get_domain-verify_domain_example =
    get_domain-verify_domain (request_for "domain" "a.org") (request_for "domain" "a.org") around
      around serving "a.org" (new_container server around "a.org") refl refl refl

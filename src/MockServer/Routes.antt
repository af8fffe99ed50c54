-- ===== src/MockServer/Routes.antt =====
-- The handlers of routes.
pub mod Entries
pub mod Table
use mailgun_operator.Base.{
  String, ◌<>◌, ◌==◌, Bool, false, if◌then◌else◌, Option, none, some, List, [], ◌∷◌, is_empty,
}
use mailgun_operator.Base.Int.{ℤ, pos}
use mailgun_operator.Base.Lists.{contains}
use mailgun_operator.Base.Dict.{Dict, lookup, insert, erase}
use mailgun_operator.External.{MailgunRoute}
use mailgun_operator.Configuration.Parse.{parse_int}
use mailgun_operator.MockServer.{MockServer, Surroundings, read, made}
use mailgun_operator.MockServer.Http.{
  Request, form, form_value, path_value, text, route, Body, object, Response, to_json, message,
  status_ok, status_bad_request, status_not_found, status_internal_server_error, Handler,
}

-- `m.routes[id] = route`
abbrev pub put_route : String → MailgunRoute → MockServer → MockServer
put_route id x m = record m { routes = some (insert id x (made m.routes)) }

abbrev pub route_body : String → MailgunRoute → Body
route_body s x = object (("message", text s) ∷ ("route", route x) ∷ [])

abbrev pub invalid_priority : Response
invalid_priority = to_json (message "Invalid priority value") status_bad_request

abbrev pub id_required : Response
id_required = to_json (message "Route ID is required") status_bad_request

abbrev pub route_not_found : Response
route_not_found = to_json (message "Route not found") status_not_found

-- The priority of a form: none is the default, and `none` is a text that `strconv.Atoi` refuses.
unfoldable pub priority_of : String → ℤ → Option ℤ
priority_of s default = if is_empty s then some default else parse_int s

-- `newRoute`
abbrev pub new_route : Request → Surroundings → ℤ → MailgunRoute
new_route r around priority = record {
  id = "route-" <> around.random;
  priority = priority;
  description = form_value r "description";
  expression = form_value r "expression";
  actions = form r "action";
}

abbrev pub answer_created : Request → Surroundings → MockServer → Option ℤ → Response × MockServer
answer_created r around m none = (invalid_priority, m)
answer_created r around m (some priority) =
    let x = new_route r around priority in
    (to_json (route_body "Route has been created" x) status_ok, put_route x.id x m)

unfoldable pub create_route : Handler
unfolding priority_of insert
create_route r around m =
    if form_value r "description" == "fail"
    then (
      to_json (message "Failed to create route due to invalid expression.")
          status_internal_server_error,
      m,
    )
    else answer_created r around m (priority_of (form_value r "priority") (pos 0))

abbrev is_listed : Option (List String) → String → Bool
is_listed none id = false
is_listed (some ids) id = contains ids id

-- `m.failRoutes[action]` is there and contains the id.
unfoldable pub is_failing : MockServer → String → String → Bool
unfolding lookup contains
is_failing m action id = is_listed (read action m.fail_routes) id

abbrev answer_found : Option MailgunRoute → Response
answer_found none = route_not_found
answer_found (some x) = to_json (object (("route", route x) ∷ [])) status_ok

unfoldable pub get_route : Handler
unfolding is_failing lookup
get_route r around m =
    let id = path_value r "id" in
    if is_empty id
    then (id_required, m)
    else if is_failing m "get" id
    then (to_json (message "Failed to get route") status_internal_server_error, m)
    else (answer_found (read id m.routes), m)

abbrev pub without_route : String → Option (Dict MailgunRoute) → Option (Dict MailgunRoute)
without_route id none = none
without_route id (some entries) = some (erase id entries)

unfoldable pub delete_route : Handler
unfolding is_failing lookup erase
delete_route r around m =
    let id = path_value r "id" in
    if is_empty id
    then (id_required, m)
    else if is_failing m "delete" id
    then (to_json (message "Failed to delete route") status_internal_server_error, m)
    else (
      to_json (object (("message", text "Route has been deleted") ∷ ("id", text id) ∷ []))
          status_ok,
      record m { routes = without_route id m.routes },
    )

-- A field of a form that is given, or the old value.
abbrev pub given_or : String → String → String
given_or s old = if is_empty s then old else s

abbrev pub changed_route : Request → MailgunRoute → ℤ → MailgunRoute
changed_route r x priority = record {
  id = x.id;
  priority = priority;
  description = given_or (form_value r "description") x.description;
  expression = given_or (form_value r "expression") x.expression;
  actions = if is_empty (form_value r "action") then x.actions else form r "action";
}

abbrev pub answer_parsed :
    Request → String → MailgunRoute → MockServer → Option ℤ → Response × MockServer
answer_parsed r id x m none = (invalid_priority, m)
answer_parsed r id x m (some priority) =
    let x' = changed_route r x priority in
    (to_json (route_body "Route has been updated" x') status_ok, put_route id x' m)

abbrev pub answer_updated :
    Request → String → MockServer → Option MailgunRoute → Response × MockServer
answer_updated r id m none = (route_not_found, m)
answer_updated r id m (some x) =
    answer_parsed r id x m (priority_of (form_value r "priority") x.priority)

unfoldable pub update_route : Handler
unfolding priority_of lookup insert
update_route r around m =
    let id = path_value r "id" in
    if is_empty id then (id_required, m) else answer_updated r id m (read id m.routes)

-- ===== src/MockServer/Routes/Entries.antt =====
-- The routes as a table from ids to routes, and an account of what each request makes of the table
-- and how it is answered, which is written without the handlers.
use mailgun_operator.Base.{
  ◌≡◌, String, ◌<>◌, ◌==◌, Bool, if◌then◌else◌, Option, none, some, [], ◌∷◌, is_empty,
}
use mailgun_operator.Base.Int.{ℤ, pos}
use mailgun_operator.External.{MailgunRoute}
use mailgun_operator.Configuration.Parse.{parse_int}
use mailgun_operator.MockServer.{MockServer, Surroundings, read}
use mailgun_operator.MockServer.Http.{
  Request, form, form_value, path_value, text, route, object, Response, to_json, message,
}
use mailgun_operator.MockServer.Serve.{Pattern}

abbrev pub Table : Type 0
Table = String → Option MailgunRoute

abbrev pub table : MockServer → Table
table m id = read id m.routes

-- A table with one entry written, or taken out.
abbrev pub written : String → Option MailgunRoute → Table → Table
written id x t j = if id == j then x else t j

-- The priority that a form asks for; `none` where its text is not a number.
abbrev pub asked_priority : Request → ℤ → Option ℤ
asked_priority r default =
    if is_empty (form_value r "priority") then some default else parse_int (form_value r "priority")

-- The route that a form describes.
abbrev pub described : Request → Surroundings → ℤ → MailgunRoute
described r around priority = record {
  id = "route-" <> around.random;
  priority = priority;
  description = form_value r "description";
  expression = form_value r "expression";
  actions = form r "action";
}

-- A route with the fields that a form gives.
abbrev pub amended : Request → MailgunRoute → ℤ → MailgunRoute
amended r x priority = record {
  id = x.id;
  priority = priority;
  description =
      if is_empty (form_value r "description") then x.description else form_value r "description";
  expression =
      if is_empty (form_value r "expression") then x.expression else form_value r "expression";
  actions = if is_empty (form_value r "action") then x.actions else form r "action";
}

abbrev pub created : Request → Surroundings → Table → Option ℤ → Table
created r around t none = t
created r around t (some p) = written ("route-" <> around.random) (some (described r around p)) t

abbrev pub changed : Request → String → MailgunRoute → Table → Option ℤ → Table
changed r id x t none = t
changed r id x t (some p) = written id (some (amended r x p)) t

abbrev pub updated : Request → String → Table → Option MailgunRoute → Table
updated r id t none = t
updated r id t (some x) = changed r id x t (asked_priority r x.priority)

-- What an authorized request of a pattern makes of the table, where `failing` tells whether the
-- deletion of an id fails.
abbrev pub table_after : Pattern → Request → Surroundings → (String → Bool) → Table → Table
table_after Pattern.post_routes r around failing t =
    if form_value r "description" == "fail"
    then t
    else created r around t (asked_priority r (pos 0))
table_after Pattern.put_route_at r around failing t =
    if is_empty (path_value r "id")
    then t
    else updated r (path_value r "id") t (t (path_value r "id"))
table_after Pattern.delete_route_at r around failing t =
    if is_empty (path_value r "id")
    then t
    else if failing (path_value r "id")
    then t
    else written (path_value r "id") none t
table_after _ r around failing t = t

abbrev pub bad_request : String → Response
bad_request s = to_json (message s) 400

abbrev pub answer_described : Request → Surroundings → Option ℤ → Response
answer_described r around none = bad_request "Invalid priority value"
answer_described r around (some p) =
    to_json
      (object
        (("message", text "Route has been created") ∷ ("route", route (described r around p)) ∷ []))
      200

abbrev pub answer_entry : Option MailgunRoute → Response
answer_entry none = to_json (message "Route not found") 404
answer_entry (some x) = to_json (object (("route", route x) ∷ [])) 200

abbrev pub answer_amended : Request → MailgunRoute → Option ℤ → Response
answer_amended r x none = bad_request "Invalid priority value"
answer_amended r x (some p) =
    to_json
      (object (("message", text "Route has been updated") ∷ ("route", route (amended r x p)) ∷ []))
      200

abbrev pub answer_change : Request → Option MailgunRoute → Response
answer_change r none = to_json (message "Route not found") 404
answer_change r (some x) = answer_amended r x (asked_priority r x.priority)

-- How an authorized request of a pattern for routes is answered, where `failing` tells whether an
-- action on an id fails.
abbrev pub Answers :
    Pattern → Request → Surroundings → (String → String → Bool) → Table → Response → Type 0
Answers Pattern.post_routes r around failing t answer = answer ≡ (
    if form_value r "description" == "fail"
    then to_json (message "Failed to create route due to invalid expression.") 500
    else answer_described r around (asked_priority r (pos 0)))
Answers Pattern.get_route_at r around failing t answer = answer ≡ (
    if is_empty (path_value r "id")
    then bad_request "Route ID is required"
    else if failing "get" (path_value r "id")
    then to_json (message "Failed to get route") 500
    else answer_entry (t (path_value r "id")))
Answers Pattern.put_route_at r around failing t answer = answer ≡ (
    if is_empty (path_value r "id")
    then bad_request "Route ID is required"
    else answer_change r (t (path_value r "id")))
Answers Pattern.delete_route_at r around failing t answer = answer ≡ (
    if is_empty (path_value r "id")
    then bad_request "Route ID is required"
    else if failing "delete" (path_value r "id")
    then to_json (message "Failed to delete route") 500
    else to_json
        (object
          (("message", text "Route has been deleted") ∷ ("id", text (path_value r "id")) ∷ []))
        200)
Answers _ r around failing t answer = Unit

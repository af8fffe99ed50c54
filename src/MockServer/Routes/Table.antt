-- ===== src/MockServer/Routes/Table.antt =====
-- The handlers of routes keep a table of routes and answer from it; the map, and whether it is nil,
-- is forgotten.
use mailgun_operator.Base.{
  ◌≡◌, refl, String, ◌==◌, true, if◌then◌else◌, Option, none, some, [], arith,
}
use mailgun_operator.Base.Int.{ℤ, pos}
use mailgun_operator.Base.Dict.{Dict, lookup, insert, lookup-insert, lookup-erase}
use mailgun_operator.External.{MailgunRoute}
use mailgun_operator.MockServer.{MockServer, Surroundings, read, made}
use mailgun_operator.MockServer.Http.{Request, path_value}
use mailgun_operator.MockServer.Routes.{
  put_route, priority_of, new_route, changed_route, is_failing, without_route, answer_created,
  answer_parsed, answer_updated, create_route, get_route, update_route, delete_route,
}
use mailgun_operator.MockServer.Routes.Entries.{
  table, written, asked_priority, created, changed, updated, table_after, answer_described,
  answer_amended, answer_change, Answers,
}
use mailgun_operator.MockServer.Serve.{Pattern, is_authorized, init_routes}

table-put_route :
    (id : String) (x : MailgunRoute) (m : MockServer) (j : String)
    → table (put_route id x m) j ≡ written id (some x) (table m) j
unfolding lookup
table-put_route id x m j = putting m.routes
  where
    putting :
        (o : Option (Dict MailgunRoute))
        → lookup j (insert id x (made o)) ≡ (if id == j then some x else read j o)
    putting none = lookup-insert id j x []
    putting (some entries) = lookup-insert id j x entries

table-without_route :
    (id : String) (o : Option (Dict MailgunRoute)) (j : String)
    → read j (without_route id o) ≡ written id none (λ k. read k o) j
table-without_route id none j = ground arith
table-without_route id (some entries) j = lookup-erase id j entries

module _ (r : Request) (around : Surroundings) (m : MockServer) (j : String) where
  table-answer_created :
      (p : Option ℤ) → table (answer_created r around m p).1 j ≡ created r around (table m) p j
  table-answer_created none = refl
  table-answer_created (some p) =
      table-put_route (new_route r around p).id (new_route r around p) m j

  table-create_route :
      table (create_route r around m).1 j
      ≡ table_after Pattern.post_routes r around (is_failing m "delete") (table m) j
  unfolding create_route
  table-create_route = ground (arith, table-answer_created (asked_priority r (pos 0)))

  table-delete_route :
      table (delete_route r around m).1 j
      ≡ table_after Pattern.delete_route_at r around (is_failing m "delete") (table m) j
  unfolding delete_route
  table-delete_route = ground (arith, table-without_route (path_value r "id") m.routes j)

  table-answer_parsed :
      (id : String) (x : MailgunRoute) (p : Option ℤ)
      → table (answer_parsed r id x m p).1 j ≡ changed r id x (table m) p j
  table-answer_parsed id x none = refl
  table-answer_parsed id x (some p) = table-put_route id (changed_route r x p) m j

  table-answer_updated :
      (id : String) (o : Option MailgunRoute)
      → table (answer_updated r id m o).1 j ≡ updated r id (table m) o j
  unfolding priority_of
  table-answer_updated id none = refl
  table-answer_updated id (some x) = table-answer_parsed id x (asked_priority r x.priority)

  table-update_route :
      table (update_route r around m).1 j
      ≡ table_after Pattern.put_route_at r around (is_failing m "delete") (table m) j
  unfolding update_route
  table-update_route =
      ground (arith, table-answer_updated (path_value r "id") (read (path_value r "id") m.routes))

  answer-answer_created :
      (p : Option ℤ) → (answer_created r around m p).0 ≡ answer_described r around p
  answer-answer_created none = refl
  answer-answer_created (some p) = refl

  answer-answer_parsed :
      (id : String) (x : MailgunRoute) (p : Option ℤ)
      → (answer_parsed r id x m p).0 ≡ answer_amended r x p
  answer-answer_parsed id x none = refl
  answer-answer_parsed id x (some p) = refl

  answer-answer_updated :
      (id : String) (o : Option MailgunRoute) → (answer_updated r id m o).0 ≡ answer_change r o
  unfolding priority_of
  answer-answer_updated id none = refl
  answer-answer_updated id (some x) = answer-answer_parsed id x (asked_priority r x.priority)

  answer-create_route :
      Answers Pattern.post_routes r around (is_failing m) (table m) (create_route r around m).0
  unfolding create_route
  answer-create_route = ground (arith, answer-answer_created (asked_priority r (pos 0)))

  answer-get_route :
      Answers Pattern.get_route_at r around (is_failing m) (table m) (get_route r around m).0
  unfolding get_route
  answer-get_route = ground arith

  answer-update_route :
      Answers Pattern.put_route_at r around (is_failing m) (table m) (update_route r around m).0
  unfolding update_route
  answer-update_route =
      ground (arith, answer-answer_updated (path_value r "id") (read (path_value r "id") m.routes))

  answer-delete_route :
      Answers Pattern.delete_route_at r around (is_failing m) (table m) (delete_route r around m).0
  unfolding delete_route
  answer-delete_route = ground arith

  answer-init_routes :
      (p : Pattern)
      → is_authorized m r.credentials ≡ true
      → Answers p r around (is_failing m) (table m) (init_routes p r around m).0
  unfolding init_routes
  answer-init_routes Pattern.post_routes h = rw h answer-create_route
  answer-init_routes Pattern.get_route_at h = rw h answer-get_route
  answer-init_routes Pattern.put_route_at h = rw h answer-update_route
  answer-init_routes Pattern.delete_route_at h = rw h answer-delete_route
  answer-init_routes _ h = tt

  table-handled :
      (p : Pattern)
      → is_authorized m r.credentials ≡ true
      → table (init_routes p r around m).1 j
        ≡ table_after p r around (is_failing m "delete") (table m) j
  unfolding init_routes
  table-handled p h = ground (arith, table-create_route, table-update_route, table-delete_route)

  -- An authorized request changes the routes, seen as a table, as `table_after` says, and is
  -- answered from the table as `Answers` says: with the entry that it asks for, makes or changes,
  -- or with the status of what is wrong. The handlers of domains leave the table as it is.
  pub table-init_routes :
      (p : Pattern)
      → is_authorized m r.credentials ≡ true
      → (table (init_routes p r around m).1 j
          ≡ table_after p r around (is_failing m "delete") (table m) j)
        × Answers p r around (is_failing m) (table m) (init_routes p r around m).0
  table-init_routes p h = (table-handled p h, answer-init_routes p h)

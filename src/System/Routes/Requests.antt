-- ===== src/System/Routes/Requests.antt =====
-- Which requests leave the entry of another id in the server's table alone.
use mailgun_operator.Base.{
  ◌≡◌, refl, ◌∙◌, inl, inr, String, ◌==◌, true, false, Option, none, some, List, [], ◌∷◌, arith,
  is_empty, Bool-cases,
}
use mailgun_operator.Base.Dict.{Dict, lookup}
use mailgun_operator.External.{MailgunClient, MailgunRoute}
use mailgun_operator.MockServer.{MockServer, Surroundings}
use mailgun_operator.MockServer.Http.{Request, path_value}
use mailgun_operator.MockServer.Routes.{is_failing}
use mailgun_operator.MockServer.Routes.Entries.{
  table, asked_priority, table_after, updated, changed,
}
use mailgun_operator.MockServer.Routes.Table.{table-init_routes}
use mailgun_operator.MockServer.Serve.{Pattern, is_authorized, init_routes, serve}
use mailgun_operator.MockServer.Serve.Access.{init_routes-unauthorized}
use mailgun_operator.System.{domain_request}
use mailgun_operator.System.Routes.{route_request}

-- A request with what the multiplexer finds for the wildcard.
abbrev at_path : String → String → Request → Request
at_path key value r = record r { path_values = (key, value) ∷ [] }

module _ (around : Surroundings) (m : MockServer) (j : String) where
  init_routes-table :
      (p : Pattern) (r : Request)
      → table_after p r around (is_failing m "delete") (table m) j ≡ table m j
      → table (init_routes p r around m).1 j ≡ table m j
  init_routes-table p r h = elim (Bool-cases (is_authorized m r.credentials)) [
    | inl a ↦ (table-init_routes r around m j p a).0 ∙ h
    | inr a ↦ rw (init_routes-unauthorized p r around m a) refl
  ]

  changed-other :
      (r : Request) (id : String) (x : MailgunRoute) (p : Option _)
      → (id == j) ≡ false
      → changed r id x (table m) p j ≡ table m j
  changed-other r id x none h = refl
  changed-other r id x (some p) h = rw h refl

  updated-other :
      (r : Request) (id : String) (o : Option MailgunRoute)
      → (id == j) ≡ false
      → updated r id (table m) o j ≡ table m j
  updated-other r id none h = refl
  updated-other r id (some x) h = changed-other r id x (asked_priority r x.priority) h

  nameless-table :
      (mg : MailgunClient) (name : String)
      → is_empty name ≡ true
      → table (serve (domain_request "GET" mg name) around m).1 j ≡ table m j
  unfolding serve
  nameless-table mg name e = rw e refl

  module _ (mg : MailgunClient) (id : String) (named : is_empty id ≡ false) where
    named_domain-table : table (serve (domain_request "GET" mg id) around m).1 j ≡ table m j
    unfolding serve
    named_domain-table = rw named (
        init_routes-table Pattern.get_domain_at (at_path "domain" id (domain_request "GET" mg id))
          refl)

    pub get_route-table : table (serve (route_request "GET" mg id []) around m).1 j ≡ table m j
    unfolding serve
    get_route-table = rw named (
        init_routes-table Pattern.get_route_at (at_path "id" id (route_request "GET" mg id []))
          refl)

    pub update_route-table :
        (form : Dict (List String))
        → (id == j) ≡ false
        → table (serve (route_request "PUT" mg id form) around m).1 j ≡ table m j
    unfolding serve path_value lookup
    update_route-table form h = rw named (
        init_routes-table Pattern.put_route_at (at_path "id" id (route_request "PUT" mg id form)) (
          rw named
            (updated-other (at_path "id" id (route_request "PUT" mg id form)) id (table m id) h)))

    pub delete_route-table :
        (id == j) ≡ false → table (serve (route_request "DELETE" mg id []) around m).1 j ≡ table m j
    unfolding serve path_value lookup
    delete_route-table h = rw named (
        init_routes-table Pattern.delete_route_at
          (at_path "id" id (route_request "DELETE" mg id [])) (ground arith))

  pub get_domain-table :
      (mg : MailgunClient) (name : String)
      → table (serve (domain_request "GET" mg name) around m).1 j ≡ table m j
  get_domain-table mg name = elim (Bool-cases (is_empty name)) [
    | inl e ↦ nameless-table mg name e
    | inr e ↦ named_domain-table mg name e
  ]

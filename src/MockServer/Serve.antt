-- ===== src/MockServer/Serve.antt =====
-- `authHandler` and `initRoutes`: what the server answers to a request.
pub mod Access
use mailgun_operator.Base.{
  String, ◌==◌, Bool, true, false, not, ◌&&◌, ◌||◌, if◌then◌else◌, Option, none, some, List, [],
  ◌∷◌, is_empty,
}
use mailgun_operator.Base.Dict.{Dict}
use mailgun_operator.MockServer.{MockServer, Surroundings}
use mailgun_operator.MockServer.Http.{
  Request, Response, to_json, message, status_unauthorized, Handler,
}
use mailgun_operator.MockServer.Domains.{
  create_domain, get_domains, get_domain, verify_domain, delete_domain,
}
use mailgun_operator.MockServer.Routes.{create_route, get_route, update_route, delete_route}

-- The password of the credentials, if any, is the token.
unfoldable pub is_authorized : MockServer → Option (String × String) → Bool
is_authorized m none = false
is_authorized m (some credentials) = credentials.1 == m.api_token

abbrev pub unauthorized : Response
unauthorized = to_json (message "Invalid private key") status_unauthorized

unfoldable pub auth_handler : Handler → Handler
unfolding is_authorized
auth_handler next r around m =
    if is_authorized m r.credentials then next r around m else (unauthorized, m)

-- The patterns that `initRoutes` registers.
pub data Pattern : Type 0 where
  post_domains get_domains_at get_domain_at put_verify delete_domain_at : Pattern
  post_routes get_route_at put_route_at delete_route_at : Pattern

-- The handler of a pattern.
unfoldable pub init_routes : Pattern → Handler
unfolding create_domain get_domains get_domain verify_domain delete_domain create_route get_route
    update_route delete_route auth_handler
init_routes post_domains = auth_handler create_domain
init_routes get_domains_at = auth_handler get_domains
init_routes get_domain_at = auth_handler get_domain
init_routes put_verify = auth_handler verify_domain
init_routes delete_domain_at = auth_handler delete_domain
init_routes post_routes = auth_handler create_route
init_routes get_route_at = auth_handler get_route
init_routes put_route_at = auth_handler update_route
init_routes delete_route_at = auth_handler delete_route

-- A pattern's method; "GET" stands for HEAD too.
abbrev is_get : String → Bool
is_get method = method == "GET" || method == "HEAD"

abbrev on_domains : String → Option Pattern
on_domains method =
    if method == "POST"
    then some post_domains
    else if is_get method
    then some get_domains_at
    else none

abbrev on_domain : String → Option Pattern
on_domain method =
    if is_get method
    then some get_domain_at
    else if method == "DELETE"
    then some delete_domain_at
    else none

abbrev on_route : String → Option Pattern
on_route method =
    if is_get method
    then some get_route_at
    else if method == "PUT"
    then some put_route_at
    else if method == "DELETE"
    then some delete_route_at
    else none

-- The pattern that a method and a path match, with the path's value for the wildcard, which
-- matches a segment that is not empty.
unfoldable pub match_pattern : String → List String → Option Pattern × Dict String
match_pattern method (root ∷ kind ∷ []) = (
  if not (root == "v4")
      then none
      else if kind == "domains"
      then on_domains method
      else if kind == "routes" && method == "POST"
      then some post_routes
      else none,
  [],
)
match_pattern method (root ∷ kind ∷ name ∷ []) =
    if not (root == "v4") || is_empty name
    then (none, [])
    else if kind == "domains"
    then (on_domain method, ("domain", name) ∷ [])
    else if kind == "routes"
    then (on_route method, ("id", name) ∷ [])
    else (none, [])
match_pattern method (root ∷ kind ∷ name ∷ verb ∷ []) = (
  if root == "v4" && kind == "domains" && not (is_empty name) && verb == "verify" && method == "PUT"
      then some put_verify
      else none,
  ("domain", name) ∷ [],
)
match_pattern method _ = (none, [])

abbrev pub handle :
    Request
    → Surroundings
    → MockServer
    → Option Pattern
    → Dict String
    → Option Response × MockServer
handle r around m none values = (none, m)
handle r around m (some p) values =
    let (answer, m') = init_routes p (record r { path_values = values }) around m in
    (some answer, m')

-- One request; `none` is an answer of the multiplexer's own, which has no handler for it.
unfoldable pub serve : Request → Surroundings → MockServer → Option Response × MockServer
unfolding match_pattern init_routes
serve r around m = let (p, values) = match_pattern r.method r.path in handle r around m p values

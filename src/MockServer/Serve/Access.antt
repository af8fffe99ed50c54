-- ===== src/MockServer/Serve/Access.antt =====
-- Who may change the server, and an answer that no request gets.
use mailgun_operator.Base.{
  ◌≡◌, refl, ◌≢◌, String, eq_iff, Bool, true, false, Option, none, some, List, [], ◌∷◌, arith,
  is_empty,
}
use mailgun_operator.Base.Dict.{Dict, lookup}
use mailgun_operator.MockServer.{MockServer, Surroundings}
use mailgun_operator.MockServer.Http.{Request, Response, to_json, message, path_value}
use mailgun_operator.MockServer.Routes.{id_required}
use mailgun_operator.MockServer.Serve.{
  Pattern, is_authorized, unauthorized, init_routes, match_pattern, handle, serve,
}

pub init_routes-unauthorized :
    (p : Pattern) (r : Request) (around : Surroundings) (m : MockServer)
    → is_authorized m r.credentials ≡ false
    → init_routes p r around m ≡ (unauthorized, m)
unfolding init_routes
init_routes-unauthorized p r around m h = ground arith

-- The answer to a request without the token: none where no pattern matches.
abbrev pub refused : Option Pattern → Option Response
refused none = none
refused (some _) = some (to_json (message "Invalid private key") 401)

-- A request without the token as its password leaves the server as it was. If its method and path
-- match a pattern, whichever it is, it is answered by "Invalid private key" with the status 401;
-- and if they match none, no handler answers.
pub serve-unauthorized :
    (r : Request) (around : Surroundings) (m : MockServer)
    → is_authorized m r.credentials ≡ false
    → serve r around m ≡ (refused (match_pattern r.method r.path).0, m)
unfolding serve
serve-unauthorized r around m h =
    answered (match_pattern r.method r.path).0 (match_pattern r.method r.path).1
  where
    answered :
        (p : Option Pattern) (values : Dict String) → handle r around m p values ≡ (refused p, m)
    answered none values = refl
    answered (some p) values =
        rw (init_routes-unauthorized p (record r { path_values = values }) around m h) refl

abbrev names_route : Pattern → Bool
names_route Pattern.get_route_at = true
names_route Pattern.put_route_at = true
names_route Pattern.delete_route_at = true
names_route _ = false

-- A request for one route has a path value that is not empty.
match_pattern-path :
    (method : String) (path : List String) (p : Pattern) (values : Dict String)
    → match_pattern method path ≡ (some p, values)
    → names_route p ≡ true
    → (name : String) × (values ≡ ("id", name) ∷ []) × (is_empty name ≡ false)
unfolding match_pattern
match_pattern-path method [] p values h k = absurd (ground arith)
match_pattern-path method (root ∷ []) p values h k = absurd (ground arith)
match_pattern-path method (root ∷ kind ∷ []) p values h k = absurd (ground arith)
match_pattern-path method (root ∷ kind ∷ name ∷ []) p values h k =
    (name, ground arith, ground arith)
match_pattern-path method (root ∷ kind ∷ name ∷ verb ∷ []) p values h k = absurd (ground arith)
match_pattern-path method (root ∷ kind ∷ name ∷ verb ∷ more ∷ rest) p values h k =
    absurd (ground arith)

-- The handlers that ask for an id do so only if there is none.
route_answer :
    (p : Pattern) (r : Request) (around : Surroundings) (m : MockServer)
    → (names_route p ≡ true → is_empty (path_value r "id") ≡ false)
    → (init_routes p r around m).0 ≢ id_required
unfolding init_routes
route_answer p r around m h e =
    ground (arith, eq_iff "Invalid priority value" "Route ID is required")

path_value-single :
    (r : Request) (name : String)
    → is_empty name ≡ false
    → is_empty (path_value (record r { path_values = ("id", name) ∷ [] }) "id") ≡ false
unfolding path_value lookup
path_value-single r name h = h

-- No request gets the answer "Route ID is required": the multiplexer gives the handlers of a
-- route no path without an id.
pub serve-id_required :
    (r : Request) (around : Surroundings) (m : MockServer) → (serve r around m).0 ≢ some id_required
unfolding serve
serve-id_required r around m =
    answered (match_pattern r.method r.path).0 (match_pattern r.method r.path).1 refl
  where
    answered :
        (p : Option Pattern) (values : Dict String)
        → match_pattern r.method r.path ≡ (p, values)
        → (handle r around m p values).0 ≢ some id_required
    answered none values h e = absurd (cc)
    answered (some p) values h e =
        route_answer p (record r { path_values = values }) around m
          (λ k.
            let (name, q, n) = match_pattern-path r.method r.path p values h k in
            rw q (path_value-single r name n))
          (cc e)

-- ===== src/MockServer/Http.antt =====
-- What the handlers use of net/http: a request behind the multiplexer and the parsing of its form,
-- and the answer that `toJSON` writes.
use mailgun_operator.Base.{ℕ, String, Option, none, some, List, [], ◌∷◌}
use mailgun_operator.Base.Dict.{Dict, lookup}
use mailgun_operator.External.{MailgunDnsRecord, MailgunDomain, MailgunRoute}
use mailgun_operator.MockServer.{DomainContainer, MockServer, Surroundings}

-- `path` is split at its slashes; `credentials` are those of `BasicAuth`.
pub record Request : Type 0 where
  pub method : String
  pub path : List String
  pub path_values : Dict String
  pub form : Dict (List String)
  pub credentials : Option (String × String)

-- `r.Form[name]`; a nil slice is empty.
abbrev pub or_empty : Option (List String) → List String
or_empty none = []
or_empty (some values) = values

unfoldable pub form : Request → String → List String
unfolding lookup
form r name = or_empty (lookup name r.form)

abbrev pub first_or_empty : List String → String
first_or_empty [] = ""
first_or_empty (value ∷ _) = value

-- `r.FormValue(name)`
unfoldable pub form_value : Request → String → String
unfolding form
form_value r name = first_or_empty (form r name)

abbrev text_or_empty : Option String → String
text_or_empty none = ""
text_or_empty (some value) = value

-- `r.PathValue(name)`
unfoldable pub path_value : Request → String → String
unfolding lookup
path_value r name = text_or_empty (lookup name r.path_values)

-- The values of a map that is written as JSON.
pub data Value : Type 0 where
  text : String → Value
  domain : MailgunDomain → Value
  records : List MailgunDnsRecord → Value
  route : MailgunRoute → Value

-- What `toJSON` is given: a map, or the list of domains.
pub data Body : Type 0 where
  object : Dict Value → Body
  listing : List DomainContainer → Body

pub record Response : Type 0 where
  pub status : ℕ
  pub content_type : String
  pub body : Body

-- `toJSON`. Such a body can always be written, so that its error branches are not taken.
abbrev pub to_json : Body → ℕ → Response
to_json body status = record { status = status; content_type = "application/json"; body = body }

-- A body that is a message only.
abbrev pub message : String → Body
message s = object (("message", text s) ∷ [])

abbrev pub status_ok : ℕ
status_ok = 200

abbrev pub status_bad_request : ℕ
status_bad_request = 400

abbrev pub status_unauthorized : ℕ
status_unauthorized = 401

abbrev pub status_not_found : ℕ
status_not_found = 404

abbrev pub status_internal_server_error : ℕ
status_internal_server_error = 500

abbrev pub Handler : Type 0
Handler = Request → Surroundings → MockServer → Response × MockServer

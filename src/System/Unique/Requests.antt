-- ===== src/System/Unique/Requests.antt =====
-- Which requests keep the names of a server's domains different from one another.
use mailgun_operator.Base.{
  ◌≡◌, ap, ◌∙◌, ◌≤◌, inl, inr, String, ◌==◌, eq_iff, true, false, [], ◌∷◌, arith, is_empty,
  Bool-cases,
}
use mailgun_operator.Base.Dict.{lookup}
use mailgun_operator.External.{MailgunClient}
use mailgun_operator.MockServer.{MockServer, Surroundings}
use mailgun_operator.MockServer.Http.{Request, form_value}
use mailgun_operator.MockServer.Domains.Bag.{bag, take, bag_after, bag-init_routes}
use mailgun_operator.MockServer.Serve.{Pattern, is_authorized, init_routes, serve}
use mailgun_operator.MockServer.Serve.Access.{init_routes-unauthorized}
use mailgun_operator.System.{domain_request, verification_request, creation_request, is_accepted}
use mailgun_operator.System.Requests.{matched, serve-get, serve-delete, get-bag, get-missing}

abbrev pub Unique : MockServer → Type 0
Unique m = (j : String) → bag m j ≤ 1

-- No domain has the name, as far as a client with the token can tell.
abbrev pub Free : MailgunClient → String → MockServer → Type 0
Free mg name m = (mg.api_key == m.api_token) ≡ true → bag m name ≡ 0

init_routes-Unique :
    (p : Pattern) (r : Request) (around : Surroundings) (m : MockServer)
    → Unique m
    → (is_authorized m r.credentials ≡ true
        → (j : String) → bag_after p r m.failed_domains (bag m) j ≤ 1)
    → Unique (init_routes p r around m).1
init_routes-Unique p r around m u h j = elim (Bool-cases (is_authorized m r.credentials)) [
  | inl a ↦ rw (bag-init_routes r around m j p a) (h a j)
  | inr a ↦ rw (init_routes-unauthorized p r around m a) (u j)
]

-- A request with an empty name matches no pattern.
module _ (mg : MailgunClient) (name : String) (around : Surroundings) (m : MockServer)
    (nameless : is_empty name ≡ true) (u : Unique m) where
  nameless-Unique : (method : String) → Unique (serve (domain_request method mg name) around m).1
  unfolding serve
  nameless-Unique method = rw nameless u

  nameless_verify-Unique : Unique (serve (verification_request mg name) around m).1
  unfolding serve
  nameless_verify-Unique = rw nameless u

module _ (mg : MailgunClient) (name : String) (around : Surroundings) (m : MockServer)
    (named : is_empty name ≡ false) (u : Unique m) where
  named_get-Unique : Unique (serve (domain_request "GET" mg name) around m).1
  named_get-Unique =
      rw (serve-get mg name around m named)
        (init_routes-Unique Pattern.get_domain_at (matched "GET" mg name) around m u (λ _. u))

  named_delete-Unique : Unique (serve (domain_request "DELETE" mg name) around m).1
  named_delete-Unique = rw (serve-delete mg name around m named) (
      init_routes-Unique Pattern.delete_domain_at (matched "DELETE" mg name) around m u
        λ _ j. ground (arith, u j))

  named_verify-Unique : Unique (serve (verification_request mg name) around m).1
  unfolding serve
  named_verify-Unique = rw named (
      init_routes-Unique Pattern.put_verify
        (record (verification_request mg name) { path_values = ("domain", name) ∷ [] }) around m u
        (λ _. u))

module _ (mg : MailgunClient) (name : String) (around : Surroundings) (m : MockServer)
    (u : Unique m) where
  pub get-Unique : Unique (serve (domain_request "GET" mg name) around m).1
  get-Unique = elim (Bool-cases (is_empty name)) [
    | inl e ↦ nameless-Unique mg name around m e u "GET"
    | inr e ↦ named_get-Unique mg name around m e u
  ]

  pub delete-Unique : Unique (serve (domain_request "DELETE" mg name) around m).1
  delete-Unique = elim (Bool-cases (is_empty name)) [
    | inl e ↦ nameless-Unique mg name around m e u "DELETE"
    | inr e ↦ named_delete-Unique mg name around m e u
  ]

  pub verify-Unique : Unique (serve (verification_request mg name) around m).1
  verify-Unique = elim (Bool-cases (is_empty name)) [
    | inl e ↦ nameless_verify-Unique mg name around m e u
    | inr e ↦ named_verify-Unique mg name around m e u
  ]

  pub create-Unique : Free mg name m → Unique (serve (creation_request mg name) around m).1
  unfolding serve is_authorized form_value lookup
  create-Unique f =
      init_routes-Unique Pattern.post_domains (creation_request mg name) around m u
        λ a j. ground (arith, eq_iff name j, u j, f a)

module _ (mg : MailgunClient) (name : String) (around : Surroundings) (m : MockServer)
    (named : is_empty name ≡ false) (u : Unique m) where
  get-unauthorized :
      (mg.api_key == m.api_token) ≡ false → (serve (domain_request "GET" mg name) around m).1 ≡ m
  unfolding is_authorized
  get-unauthorized a = rw (serve-get mg name around m named) (
      ap (λ x. x.1)
        (init_routes-unauthorized Pattern.get_domain_at (matched "GET" mg name) around m a))

  missing-none : bag m name ≡ take name (bag m) name → bag m name ≡ 0
  missing-none h = ground (arith, eq_iff name name, u name)

  -- A domain that the server does not show is not there.
  pub get-Free :
      is_accepted (serve (domain_request "GET" mg name) around m).0 ≡ false
      → Free mg name (serve (domain_request "GET" mg name) around m).1
  get-Free h a = elim (Bool-cases (mg.api_key == m.api_token)) [
    | inl b ↦
        get-bag mg name around m named b name
        ∙ missing-none (get-missing mg name around m named b h name)
    | inr b ↦ absurd (cc (get-unauthorized b))
  ]

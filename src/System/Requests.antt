-- ===== src/System/Requests.antt =====
-- What the requests of a deletion make of the server's bag of names.
use mailgun_operator.Base.{
  ◌≡◌, refl, sym, ap, ◌∙◌, String, ◌==◌, Bool, true, false, Option, none, some, [], ◌∷◌, arith,
  is_empty, if◌then◌else◌,
}
use mailgun_operator.Base.Lists.{contains}
use mailgun_operator.Base.Dict.{lookup}
use mailgun_operator.External.{MailgunClient, DomainApi}
use mailgun_operator.MockServer.{MockServer, Surroundings, DomainContainer, find_domain}
use mailgun_operator.MockServer.Http.{Request, Response, path_value}
use mailgun_operator.MockServer.Domains.{
  get_domain, delete_domain, answer_changed, answer_removed, refusal, refreshed,
}
use mailgun_operator.MockServer.Domains.Bag.{
  bag, take, copies-find_domain, copies-remove_domain, bag-init_routes,
}
use mailgun_operator.MockServer.Serve.{Pattern, is_authorized, init_routes, serve}
use mailgun_operator.System.{domain_request, is_accepted, succeeds, ServedBy}

-- The request with the path value that the multiplexer finds.
abbrev pub matched : String → MailgunClient → String → Request
matched method mg name = record (domain_request method mg name) {
  path_values = ("domain", name) ∷ [];
}

module _ (mg : MailgunClient) (name : String) (around : Surroundings) (m : MockServer)
    (named : is_empty name ≡ false) where
  pub serve-get : serve (domain_request "GET" mg name) around m ≡ (
    some (init_routes Pattern.get_domain_at (matched "GET" mg name) around m).0,
    (init_routes Pattern.get_domain_at (matched "GET" mg name) around m).1,
  )
  unfolding serve
  serve-get = rw named refl

  pub serve-delete : serve (domain_request "DELETE" mg name) around m ≡ (
    some (init_routes Pattern.delete_domain_at (matched "DELETE" mg name) around m).0,
    (init_routes Pattern.delete_domain_at (matched "DELETE" mg name) around m).1,
  )
  unfolding serve
  serve-delete = rw named refl

module _ (mg : MailgunClient) (name : String) (around : Surroundings) (m : MockServer)
    (named : is_empty name ≡ false) (allowed : (mg.api_key == m.api_token) ≡ true) where
  abbrev pub got : Option Response × MockServer
  got = serve (domain_request "GET" mg name) around m

  abbrev deleted : Option Response × MockServer
  deleted = serve (domain_request "DELETE" mg name) around m

  abbrev pub found : Option DomainContainer
  found = find_domain name m.domain_list

  abbrev pub answer_found : Option DomainContainer → Response × MockServer
  answer_found o =
      answer_changed name "Domain DNS records have been retrieved" (refreshed m name) m o

  pub get-served : got ≡ (some (answer_found found).0, (answer_found found).1)
  unfolding init_routes path_value lookup is_authorized get_domain
  get-served = rw (serve-get mg name around m named, allowed) refl

  abbrev answer_failing : Bool → Option DomainContainer → Response × MockServer
  answer_failing fails o = if fails then (refusal, m) else answer_removed name m o

  delete-served : deleted ≡ (
    some (answer_failing (contains m.failed_domains name) found).0,
    (answer_failing (contains m.failed_domains name) found).1,
  )
  unfolding init_routes path_value lookup is_authorized delete_domain
  delete-served = rw (serve-delete mg name around m named, allowed) refl

  pub get-bag : (j : String) → bag got.1 j ≡ bag m j
  unfolding is_authorized
  get-bag j =
      rw (serve-get mg name around m named)
        (bag-init_routes (matched "GET" mg name) around m j Pattern.get_domain_at allowed)

  found-token : (o : Option DomainContainer) → (answer_found o).1.api_token ≡ m.api_token
  found-token none = refl
  found-token (some c) = refl

  pub get-token : got.1.api_token ≡ m.api_token
  get-token = rw get-served (found-token found)

  refused-none :
      (o : Option DomainContainer) → is_accepted (some (answer_found o).0) ≡ false → o ≡ none
  refused-none none h = refl
  refused-none (some c) h = absurd (ground arith)

  pub get-missing : is_accepted got.0 ≡ false → (j : String) → bag m j ≡ take name (bag m) j
  get-missing h j =
      copies-find_domain name m.domain_list j
        (refused-none found (sym (ap (λ x. is_accepted x.0) get-served) ∙ h))

  accepted-taken :
      (fails : Bool) (o : Option DomainContainer) (j : String)
      → is_accepted (some (answer_failing fails o).0) ≡ true
      → bag (answer_failing fails o).1 j ≡ take name (bag m) j
  accepted-taken true o j h = absurd (ground arith)
  accepted-taken false none j h = absurd (ground arith)
  accepted-taken false (some c) j h = copies-remove_domain name m.domain_list j

  delete-taken : is_accepted deleted.0 ≡ true → (j : String) → bag deleted.1 j ≡ take name (bag m) j
  delete-taken h j = rw delete-served (
      accepted-taken (contains m.failed_domains name) found j
        (sym (ap (λ x. is_accepted x.0) delete-served) ∙ h))

-- The same of the calls that send the requests.
module _ {W : Type 0} (mailgun : DomainApi W) (url : String) (server : W → MockServer)
    (around : W → Surroundings) (served : ServedBy mailgun url server around) (mg : MailgunClient)
    (name : String) (m : MockServer) (here : mg.api_base ≡ url) (named : is_empty name ≡ false)
    (allowed : (mg.api_key == m.api_token) ≡ true) where
  pub read-missing :
      (w : W)
      → server w ≡ m
      → succeeds (mailgun.get_domain mg name w).0 ≡ false
      → (j : String) → bag (server (mailgun.get_domain mg name w).1) j ≡ take name (bag m) j
  read-missing w h g j =
      rw (served.get_domain-sent mg name w here, h)
        (get-bag mg name (around w) m named allowed j
          ∙ get-missing mg name (around w) m named allowed
              (sym (served.get_domain-succeeds mg name w here ∙ rw h refl) ∙ g) j)

  pub read-bag :
      (w : W)
      → server w ≡ m
      → (j : String) → bag (server (mailgun.get_domain mg name w).1) j ≡ bag m j
  read-bag w h j =
      rw (served.get_domain-sent mg name w here, h) (get-bag mg name (around w) m named allowed j)

  pub read-token :
      (w : W)
      → server w ≡ m
      → (mg.api_key == (server (mailgun.get_domain mg name w).1).api_token) ≡ true
  read-token w h =
      rw (served.get_domain-sent mg name w here, h, get-token mg name (around w) m named allowed)
        allowed

  pub removal-taken :
      (w : W)
      → (mg.api_key == (server w).api_token) ≡ true
      → succeeds (mailgun.delete_domain mg name w).0 ≡ true
      → (j : String)
      → bag (server (mailgun.delete_domain mg name w).1) j ≡ take name (bag (server w)) j
  removal-taken w k d j = rw (served.delete_domain-sent mg name w here) (
      delete-taken mg name (around w) (server w) named k
        (sym (served.delete_domain-succeeds mg name w here) ∙ d) j)

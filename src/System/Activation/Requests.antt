-- ===== src/System/Activation/Requests.antt =====
-- What the requests of the first run make of a server that does not have the domain.
use mailgun_operator.Base.{◌≡◌, refl, String, ◌==◌, true, false, none, some, is_empty}
use mailgun_operator.Base.Lists.{contains}
use mailgun_operator.Base.Dict.{lookup}
use mailgun_operator.External.{MailgunClient}
use mailgun_operator.MockServer.{
  MockServer, Surroundings, DomainContainer, find_domain, change_domain,
}
use mailgun_operator.MockServer.Http.{path_value, form_value, form, to_json, status_ok}
use mailgun_operator.MockServer.Records.{new_container}
use mailgun_operator.MockServer.Domains.{
  create_domain, verify_domain, append_domain, domain_body, domain_not_found, refreshed, verified,
}
use mailgun_operator.MockServer.Serve.{auth_handler, is_authorized, init_routes, serve}
use mailgun_operator.System.{domain_request, creation_request, verification_request}
use mailgun_operator.System.Requests.{get-served}

-- The server after a `GET`, and after a verification, of a domain that it has.
abbrev pub read_server : String → MockServer → MockServer
read_server name m = record m { domain_list = change_domain name (refreshed m name) m.domain_list }

abbrev pub verified_server : String → MockServer → MockServer
verified_server name m = record m {
  domain_list = change_domain name (verified (contains m.active_domains name)) m.domain_list;
}

module _ (mg : MailgunClient) (name : String) (around : Surroundings) (m : MockServer)
    (named : is_empty name ≡ false) (allowed : (mg.api_key == m.api_token) ≡ true) where
  pub get-absent :
      find_domain name m.domain_list ≡ none
      → serve (domain_request "GET" mg name) around m ≡ (some domain_not_found, m)
  get-absent h = rw (get-served mg name around m named allowed, h) refl

  pub get-present :
      (c : DomainContainer)
      → find_domain name m.domain_list ≡ some c
      → serve (domain_request "GET" mg name) around m ≡ (
        some (
            to_json
              (domain_body "Domain DNS records have been retrieved" (refreshed m name c))
              status_ok),
        read_server name m,
      )
  get-present c h = rw (get-served mg name around m named allowed, h) refl

  pub create-served :
      contains m.failed_domains name ≡ false
      → serve (creation_request mg name) around m ≡ (
        some (
            to_json
              (domain_body "Domain DNS records have been created" (new_container m around name))
              status_ok),
        append_domain (new_container m around name) m,
      )
  unfolding serve init_routes auth_handler form_value form lookup is_authorized create_domain
  create-served h = rw (allowed, h) refl

  pub verify-served :
      (c : DomainContainer)
      → find_domain name m.domain_list ≡ some c
      → serve (verification_request mg name) around m ≡ (
        some (
            to_json
              (domain_body "Domain DNS records have been updated"
                (verified (contains m.active_domains name) c))
              status_ok),
        verified_server name m,
      )
  unfolding serve init_routes auth_handler path_value lookup is_authorized verify_domain
  verify-served c h = rw named (rw (allowed, h) refl)

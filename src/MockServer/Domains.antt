-- ===== src/MockServer/Domains.antt =====
-- `AddDomain` and the handlers of domains.
pub mod Requests
pub mod Bag
use mailgun_operator.Base.{
  ℕ, String, Bool, false, if◌then◌else◌, Option, none, some, List, [], ◌∷◌, ◌++◌, map,
}
use mailgun_operator.Base.Lists.{contains}
use mailgun_operator.External.{MailgunDnsRecord, MailgunDomain}
use mailgun_operator.MockServer.{
  DomainContainer, MockServer, Surroundings, find_domain, change_domain, remove_domain,
}
use mailgun_operator.MockServer.Http.{
  Request, form_value, path_value, text, domain, records, Body, object, listing, Response, to_json,
  message, status_ok, status_not_found, status_internal_server_error, Handler,
}
use mailgun_operator.MockServer.Records.{valid_dns, active_state, records_for, new_container}

-- `m.domainList = append(m.domainList, …)`
abbrev pub append_domain : DomainContainer → MockServer → MockServer
append_domain c m = record m { domain_list = m.domain_list ++ c ∷ [] }

unfoldable pub add_domain : Surroundings → String → MockServer → MockServer
unfolding new_container
add_domain around name m = append_domain (new_container m around name) m

-- The body of the answers about a domain.
abbrev pub domain_body : String → DomainContainer → Body
domain_body s c = object (
    ("message", text s)
    ∷ ("domain", domain c.domain)
    ∷ ("receiving_dns_records", records c.receiving_dns_records)
    ∷ ("sending_dns_records", records c.sending_dns_records)
    ∷ [])

abbrev pub refusal : Response
refusal =
    to_json (message "Failed to create domain due to invalid DNS configuration.")
      status_internal_server_error

abbrev pub domain_not_found : Response
domain_not_found = to_json (message "Domain not found") status_not_found

unfoldable pub create_domain : Handler
unfolding contains new_container
create_domain r around m =
    let name = form_value r "name" in
    let c = new_container m around name in
    if contains m.failed_domains name then (refusal, m) else (
      to_json (domain_body "Domain DNS records have been created" c) status_ok,
      append_domain c m,
    )

unfoldable pub get_domains : Handler
get_domains r around m = (to_json (listing m.domain_list) status_ok, m)

-- The MX records are made anew.
abbrev pub refreshed : MockServer → String → DomainContainer → DomainContainer
refreshed m name c = record c { receiving_dns_records = records_for m name false }

-- The end of a loop over the domains that changes the one that it finds.
abbrev pub answer_changed :
    String
    → String
    → (DomainContainer → DomainContainer)
    → MockServer
    → Option DomainContainer
    → Response × MockServer
answer_changed name s f m none = (domain_not_found, m)
answer_changed name s f m (some c) = (
  to_json (domain_body s (f c)) status_ok,
  record m { domain_list = change_domain name f m.domain_list },
)

unfoldable pub get_domain : Handler
unfolding find_domain change_domain contains
get_domain r around m =
    let name = path_value r "domain" in
    answer_changed name "Domain DNS records have been retrieved" (refreshed m name) m
      (find_domain name m.domain_list)

-- The loops over the records of a domain.
abbrev pub validated : List MailgunDnsRecord → List MailgunDnsRecord
validated = map (λ (x : MailgunDnsRecord). record x { valid = valid_dns })

abbrev pub activated_if : Bool → MailgunDomain → MailgunDomain
activated_if active d = if active then record d { state = active_state } else d

abbrev pub verified : Bool → DomainContainer → DomainContainer
verified active c = record {
  domain = activated_if active c.domain;
  receiving_dns_records = validated c.receiving_dns_records;
  sending_dns_records = validated c.sending_dns_records;
}

unfoldable pub verify_domain : Handler
unfolding find_domain change_domain contains
verify_domain r around m =
    let name = path_value r "domain" in
    answer_changed name "Domain DNS records have been updated"
      (verified (contains m.active_domains name)) m (find_domain name m.domain_list)

abbrev pub answer_removed : String → MockServer → Option DomainContainer → Response × MockServer
answer_removed name m none = (domain_not_found, m)
answer_removed name m (some c) = (
  to_json (message "Domain have been removed") status_ok,
  record m { domain_list = remove_domain name m.domain_list },
)

unfoldable pub delete_domain : Handler
unfolding find_domain remove_domain contains
delete_domain r around m =
    let name = path_value r "domain" in
    if contains m.failed_domains name
    then (refusal, m)
    else answer_removed name m (find_domain name m.domain_list)

-- ===== src/MockServer/Domains/Requests.antt =====
-- What one request for a domain leaves for the next.
use mailgun_operator.Base.{
  ◌≡◌, refl, String, eq_iff, Bool, true, false, none, some, List, [], ◌∷◌, ◌++◌, arith, map,
  if◌then◌else◌,
}
use mailgun_operator.Base.Lists.{contains}
use mailgun_operator.External.{MailgunDnsRecord}
use mailgun_operator.MockServer.{
  DomainContainer, MockServer, Surroundings, find_domain, change_domain,
}
use mailgun_operator.MockServer.Http.{
  Request, form_value, path_value, text, domain, records, Body, object, to_json, status_ok,
}
use mailgun_operator.MockServer.Records.{new_mg_dns_records_for, new_container}
use mailgun_operator.MockServer.Domains.{
  domain_body, create_domain, get_domain, verify_domain, activated_if, validated, verified,
}

pub find_domain-append :
    (name : String) (l : List DomainContainer) (c : DomainContainer)
    → c.domain.name ≡ name
    → find_domain name l ≡ none
    → find_domain name (l ++ c ∷ []) ≡ some c
unfolding find_domain
find_domain-append name [] c e h = ground (arith, eq_iff name c.domain.name)
find_domain-append name (x ∷ l) c e h = ground (arith, find_domain-append name l c)

pub find_domain-change_domain :
    (name : String) (f : DomainContainer → DomainContainer) (l : List DomainContainer)
    (c : DomainContainer)
    → (f c).domain.name ≡ c.domain.name
    → find_domain name l ≡ some c
    → find_domain name (change_domain name f l) ≡ some (f c)
unfolding find_domain change_domain
find_domain-change_domain name f [] c e h = absurd (cc)
find_domain-change_domain name f (x ∷ l) c e h = ground (
  arith,
  eq_iff name x.domain.name,
  eq_iff name (f x).domain.name,
  find_domain-change_domain name f l c,
)

-- A domain that is created, where none has its name and it is not one of those that fail, is
-- answered to the next `GET` as it was made.
pub get_domain-create_domain :
    (r r' : Request) (around around' : Surroundings) (m : MockServer) (name : String)
    → form_value r "name" ≡ name
    → path_value r' "domain" ≡ name
    → contains m.failed_domains name ≡ false
    → find_domain name m.domain_list ≡ none
    → (get_domain r' around' (create_domain r around m).1).0
      ≡ to_json
          (domain_body "Domain DNS records have been retrieved" (new_container m around name))
          status_ok
unfolding get_domain create_domain new_container
get_domain-create_domain r r' around around' m name f p k h =
    let c = new_container m around name in
    rw (f, k, p, find_domain-append name m.domain_list c refl h)

-- An MX record of Mailgun.
abbrev pub mx_record : Bool → String → MailgunDnsRecord
mx_record active value = record {
  name = "";
  priority = "10";
  record_type = "MX";
  valid = if active then "valid" else "unknown";
  value = value;
}

-- The answer to a `GET` of a container's domain behind its verification, from the domain and the
-- records for sending before, and from whether its name and its MX records were activated.
abbrev pub verified_body : Bool → Bool → DomainContainer → Body
verified_body active active_mx c = object (
    ("message", text "Domain DNS records have been retrieved")
    ∷ ("domain", domain (record c.domain { state = if active then "active" else c.domain.state }))
    ∷ (
      "receiving_dns_records",
      records (mx_record active_mx "mxa.mailgun.org" ∷ mx_record active_mx "mxb.mailgun.org" ∷ []),
    )
    ∷ (
      "sending_dns_records",
      records (map (λ (x : MailgunDnsRecord). record x { valid = "valid" }) c.sending_dns_records),
    )
    ∷ [])

-- A verification of a domain that the server has is answered to the next `GET` with the state
-- "active" if the domain was activated, with its old state if not, and with the records for
-- sending as they were but "valid". Those for receiving are the two of Mailgun made anew, "valid"
-- if its MX records were activated, and "unknown" if not.
pub get_domain-verify_domain :
    (r r' : Request) (around around' : Surroundings) (m : MockServer) (name : String)
    (c : DomainContainer)
    → path_value r "domain" ≡ name
    → path_value r' "domain" ≡ name
    → find_domain name m.domain_list ≡ some c
    → (get_domain r' around' (verify_domain r around m).1).0
      ≡ to_json
          (verified_body (contains m.active_domains name) (contains m.active_mx_domains name) c)
          200
unfolding get_domain verify_domain new_container new_mg_dns_records_for
get_domain-verify_domain r r' around around' m name c p q h =
    let active = contains m.active_domains name in
    let active_mx = contains m.active_mx_domains name in
    rw
      (
        p,
        q,
        h,
        find_domain-change_domain name (verified active) m.domain_list c
            (activated_if-name active c) h,
      )
      (answered active active_mx)
  where
    activated_if-name :
        (b : Bool) (c : DomainContainer) → (activated_if b c.domain).name ≡ c.domain.name
    activated_if-name true c = refl
    activated_if-name false c = refl

    answered :
        (active active_mx : Bool)
        → to_json
            (domain_body "Domain DNS records have been retrieved" (record {
              domain = activated_if active c.domain;
              receiving_dns_records = new_mg_dns_records_for name false active active_mx;
              sending_dns_records = validated c.sending_dns_records;
            }))
            status_ok
          ≡ to_json (verified_body active active_mx c) 200
    answered true true = refl
    answered true false = refl
    answered false true = refl
    answered false false = refl

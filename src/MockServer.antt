-- ===== src/MockServer.antt =====
-- internal/utils/mailgun_mock_server.go: the Mailgun in memory that the operator's tests run
-- against. Its state, and the methods by which a test prepares it.
pub mod Http
pub mod Records
pub mod Domains
pub mod Routes
pub mod Serve
pub mod Events
mod Tests
use mailgun_operator.Base.{ℕ, String, ◌==◌, if◌then◌else◌, Option, none, some, List, [], ◌∷◌, ◌++◌}
use mailgun_operator.Base.Dict.{Dict, lookup, insert}
use mailgun_operator.External.{MailgunDnsRecord, MailgunDomain, MailgunRoute}

-- `mailgun.DomainContainer`
pub record DomainContainer : Type 0 where
  pub domain : MailgunDomain
  pub receiving_dns_records : List MailgunDnsRecord
  pub sending_dns_records : List MailgunDnsRecord

-- The fields of `MailgunMockServer` but for its HTTP server and its mutex. `none` is a nil map.
pub record MockServer : Type 0 where
  pub api_token : String
  pub active_domains : List String
  pub active_mx_domains : List String
  pub failed_domains : List String
  pub domain_list : List DomainContainer
  pub routes : Option (Dict MailgunRoute)
  pub fail_routes : Option (Dict (List String))

-- What a handler takes from outside: the time, the text that `rand.String(10)` gives, and the
-- constant `SpamActionDisabled` of the library.
pub record Surroundings : Type 0 where
  pub now : ℕ
  pub random : String
  pub spam_action_disabled : String

-- `NewMailgunServer`
unfoldable pub new_mailgun_server : String → MockServer
new_mailgun_server token = record {
  api_token = token;
  active_domains = [];
  active_mx_domains = [];
  failed_domains = [];
  domain_list = [];
  routes = none;
  fail_routes = none;
}

-- A read of a map that may be nil.
abbrev pub read : {V : Type 0} → String → Option (Dict V) → Option V
read key none = none
read key (some entries) = lookup key entries

-- `if m == nil { m = map[…]…{} }`
abbrev pub made : {V : Type 0} → Option (Dict V) → Dict V
made none = []
made (some entries) = entries

-- The loop over the domains that stops at the first of a name: what it finds, and the list with
-- that one changed, or without it.
unfoldable pub find_domain : String → List DomainContainer → Option DomainContainer
find_domain name [] = none
find_domain name (c ∷ rest) = if name == c.domain.name then some c else find_domain name rest

unfoldable pub change_domain :
    String → (DomainContainer → DomainContainer) → List DomainContainer → List DomainContainer
change_domain name f [] = []
change_domain name f (c ∷ rest) =
    if name == c.domain.name then f c ∷ rest else c ∷ change_domain name f rest

unfoldable pub remove_domain : String → List DomainContainer → List DomainContainer
remove_domain name [] = []
remove_domain name (c ∷ rest) = if name == c.domain.name then rest else c ∷ remove_domain name rest

-- `ActivateDomain`
unfoldable pub activate_domain : String → MockServer → MockServer
activate_domain name m = record m { active_domains = m.active_domains ++ name ∷ [] }

-- `ActivateMXDomain`
unfoldable pub activate_mx_domain : String → MockServer → MockServer
activate_mx_domain name m = record m { active_mx_domains = m.active_mx_domains ++ name ∷ [] }

-- `FailedDomain`
unfoldable pub failed_domain : String → MockServer → MockServer
failed_domain name m = record m { failed_domains = m.failed_domains ++ name ∷ [] }

-- `DeleteDomain`
unfoldable pub drop_domain : String → MockServer → MockServer
unfolding remove_domain
drop_domain name m = record m { domain_list = remove_domain name m.domain_list }

abbrev with_failure :
    String → Dict (List String) → Option (List String) → String → Dict (List String)
with_failure action entries none id = insert action (id ∷ []) entries
with_failure action entries (some ids) id = insert action (ids ++ id ∷ []) entries

-- `FailRoutes`
unfoldable pub fail_route : String → String → MockServer → MockServer
unfolding lookup insert
fail_route action id m = record m {
  fail_routes =
      some (with_failure action (made m.fail_routes) (lookup action (made m.fail_routes)) id);
}

-- ===== src/System/Activation/Found.antt =====
-- What the server has for the domain after the requests of the first run.
use mailgun_operator.Base.{◌≡◌, refl, ap, ◌∙◌, String, Bool, true, false, none, some}
use mailgun_operator.Base.Lists.{contains}
use mailgun_operator.DomainController.Verify.{active}
use mailgun_operator.MockServer.{MockServer, Surroundings, DomainContainer, find_domain}
use mailgun_operator.MockServer.Records.{new_container, active_state}
use mailgun_operator.MockServer.Domains.{append_domain, refreshed, verified}
use mailgun_operator.MockServer.Domains.Bag.{bag, put, copies-append, copies-change_domain}
use mailgun_operator.MockServer.Domains.Requests.{find_domain-append, find_domain-change_domain}
use mailgun_operator.System.Activation.Requests.{read_server, verified_server}

pub new_container-name :
    (m : MockServer) (a : Surroundings) (name : String)
    → (new_container m a name).domain.name ≡ name
unfolding new_container
new_container-name m a name = refl

verified-name : (b : Bool) (c : DomainContainer) → (verified b c).domain.name ≡ c.domain.name
verified-name true c = refl
verified-name false c = refl

-- What the server has for the domain after the requests.
pub activated-found :
    (name : String) (m : MockServer) (a : Surroundings)
    → find_domain name m.domain_list ≡ none
    → contains m.active_domains name ≡ true
    → (c : DomainContainer) × (find_domain name
          (verified_server name
            (read_server name (append_domain (new_container m a name) m))).domain_list
        ≡ some c)
      × (c.domain.state ≡ active_state)
activated-found name m a absent active =
    let c = new_container m a name in
    let m1 = append_domain c m in
    let b = contains m.active_domains name in
    let read = refreshed m1 name c in
    let found = find_domain-append name m.domain_list c (new_container-name m a name) absent in
    let kept = find_domain-change_domain name (refreshed m1 name) m1.domain_list c refl found in
    (
      verified b read,
      find_domain-change_domain name (verified b) (read_server name m1).domain_list read
          (verified-name b read) kept,
      ap (λ b'. (verified b' read).domain.state) active,
    )

pub activated-bag :
    (name : String) (m : MockServer) (a : Surroundings) (j : String)
    → bag (verified_server name (read_server name (append_domain (new_container m a name) m))) j
      ≡ put name (bag m) j
activated-bag name m a j =
    let c = new_container m a name in
    let m1 = append_domain c m in
    copies-change_domain name (verified (contains m.active_domains name))
      (read_server name m1).domain_list j (verified-name (contains m.active_domains name))
    ∙ copies-change_domain name (refreshed m1 name) m1.domain_list j (λ _. refl)
    ∙ copies-append m.domain_list c j
    ∙ ap (λ n. put n (bag m) j) (new_container-name m a name)

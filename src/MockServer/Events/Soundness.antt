-- ===== src/MockServer/Events/Soundness.antt =====
-- The invariant of the server's state.
use mailgun_operator.Base.{
  ◌≡◌, ◌⊎◌, String, ◌<>◌, true, Option, none, some, List, [], ◌∷◌, ◌++◌, arith, eq_iff,
}
use mailgun_operator.Base.Lists.{length, contains, length-map}
use mailgun_operator.Base.Dict.{Dict, lookup, insert, erase}
use mailgun_operator.External.{MailgunDnsRecord, MailgunRoute}
use mailgun_operator.MockServer.{
  DomainContainer, MockServer, Surroundings, change_domain, remove_domain, read, made,
}
use mailgun_operator.MockServer.Records.{valid_dns, unverified_state, active_state, new_container}
use mailgun_operator.MockServer.Domains.{refreshed, verified}

-- A domain is active only if it was activated, its login is that of its name, and it has two
-- records for receiving and three for sending.
pub record SoundDomain (active : List String) (c : DomainContainer) : Type 0 where
  pub state :
      (c.domain.state ≡ unverified_state)
      ⊎ ((c.domain.state ≡ active_state) × (contains active c.domain.name ≡ true))
  pub login : c.domain.smtp_login ≡ "postmaster@" <> c.domain.name
  pub receiving : length c.receiving_dns_records ≡ 2
  pub sending : length c.sending_dns_records ≡ 3

abbrev pub SoundDomains : List String → List DomainContainer → Type 0
SoundDomains active [] = Unit
SoundDomains active (c ∷ rest) = SoundDomain active c × SoundDomains active rest

-- A route stands under its id.
abbrev pub Keyed : Dict MailgunRoute → Type 0
Keyed [] = Unit
Keyed (entry ∷ rest) = (entry.0 ≡ entry.1.id) × Keyed rest

abbrev pub SoundRoutes : Option (Dict MailgunRoute) → Type 0
SoundRoutes none = Unit
SoundRoutes (some entries) = Keyed entries

pub record IsSound (m : MockServer) : Type 0 where
  pub domains : SoundDomains m.active_domains m.domain_list
  pub routes : SoundRoutes m.routes

contains-append :
    (xs ys : List String) (a : String) → contains xs a ≡ true → contains (xs ++ ys) a ≡ true
unfolding contains
contains-append [] ys a h = cc
contains-append (x ∷ xs) ys a h = ground (arith, contains-append xs ys a)

SoundDomain-append :
    (active more : List String) (c : DomainContainer)
    → SoundDomain active c
    → SoundDomain (active ++ more) c
SoundDomain-append active more c s = record {
  state = ground (arith, contains-append active more c.domain.name);
  login = s.login;
  receiving = s.receiving;
  sending = s.sending;
}

pub SoundDomains-grow :
    (active more : List String) (l : List DomainContainer)
    → SoundDomains active l
    → SoundDomains (active ++ more) l
SoundDomains-grow active more [] h = tt
SoundDomains-grow active more (c ∷ l) (s, h) =
    (SoundDomain-append active more c s, SoundDomains-grow active more l h)

pub SoundDomains-append :
    (active : List String) (l : List DomainContainer) (c : DomainContainer)
    → SoundDomains active l
    → SoundDomain active c
    → SoundDomains active (l ++ c ∷ [])
SoundDomains-append active [] c h s = (s, tt)
SoundDomains-append active (x ∷ l) c (s', h) s = (s', SoundDomains-append active l c h s)

pub SoundDomains-remove_domain :
    (active : List String) (name : String) (l : List DomainContainer)
    → SoundDomains active l
    → SoundDomains active (remove_domain name l)
unfolding remove_domain
SoundDomains-remove_domain active name [] h = tt
SoundDomains-remove_domain active name (c ∷ l) (s, h) =
    ground (arith, SoundDomains-remove_domain active name l h)

pub SoundDomains-change_domain :
    (active : List String) (name : String) (f : DomainContainer → DomainContainer)
    (l : List DomainContainer)
    → ((c : DomainContainer)
        → c.domain.name ≡ name
        → SoundDomain active c
        → SoundDomain active (f c))
    → SoundDomains active l
    → SoundDomains active (change_domain name f l)
unfolding change_domain
SoundDomains-change_domain active name f [] k h = tt
SoundDomains-change_domain active name f (c ∷ l) k (s, h) =
    ground (arith, eq_iff name c.domain.name, k c, SoundDomains-change_domain active name f l k h)

pub new_container-SoundDomain :
    (m : MockServer) (around : Surroundings) (name : String)
    → SoundDomain m.active_domains (new_container m around name)
unfolding new_container
new_container-SoundDomain m around name = ground arith

pub refreshed-SoundDomain :
    (m : MockServer) (name : String) (c : DomainContainer)
    → SoundDomain m.active_domains c
    → SoundDomain m.active_domains (refreshed m name c)
unfolding new_container
refreshed-SoundDomain m name c s = ground arith

pub verified-SoundDomain :
    (active : List String) (name : String) (c : DomainContainer)
    → c.domain.name ≡ name
    → SoundDomain active c
    → SoundDomain active (verified (contains active name) c)
verified-SoundDomain active name c e s = rw (← e) (
    ground (
      arith,
      length-map (λ (x : MailgunDnsRecord). record x { valid = valid_dns }) c.receiving_dns_records,
      length-map (λ (x : MailgunDnsRecord). record x { valid = valid_dns }) c.sending_dns_records,
    ))

pub Keyed-insert :
    (id : String) (x : MailgunRoute) (entries : Dict MailgunRoute)
    → id ≡ x.id
    → Keyed entries
    → Keyed (insert id x entries)
unfolding insert
Keyed-insert id x [] e h = (e, tt)
Keyed-insert id x (entry ∷ rest) e h = ground (arith, Keyed-insert id x rest)

pub Keyed-erase :
    (id : String) (entries : Dict MailgunRoute) → Keyed entries → Keyed (erase id entries)
unfolding erase
Keyed-erase id [] h = tt
Keyed-erase id (entry ∷ rest) (e, h) = ground (arith, Keyed-erase id rest h)

Keyed-lookup :
    (id : String) (x : MailgunRoute) (entries : Dict MailgunRoute)
    → Keyed entries
    → lookup id entries ≡ some x
    → id ≡ x.id
unfolding lookup
Keyed-lookup id x [] h e = absurd (cc)
Keyed-lookup id x (entry ∷ rest) (k, h) e =
    ground (arith, eq_iff entry.0 id, Keyed-lookup id x rest h)

pub made-Keyed : (routes : Option (Dict MailgunRoute)) → SoundRoutes routes → Keyed (made routes)
made-Keyed none h = tt
made-Keyed (some entries) h = h

pub read-SoundRoutes :
    (id : String) (x : MailgunRoute) (routes : Option (Dict MailgunRoute))
    → SoundRoutes routes
    → read id routes ≡ some x
    → id ≡ x.id
read-SoundRoutes id x none h e = absurd (cc)
read-SoundRoutes id x (some entries) h e = Keyed-lookup id x entries h e

-- ===== src/MockServer/Domains/Bag.antt =====
-- The domains as a bag of names, which forgets their order, and what each request makes of it.
use mailgun_operator.Base.{
  ℕ, suc, ◌+◌, ◌-◌, ◌≡◌, refl, String, ◌==◌, eq_iff, Bool, true, false, if◌then◌else◌, Option, none,
  some, List, [], ◌∷◌, ◌++◌, arith,
}
use mailgun_operator.Base.Lists.{contains}
use mailgun_operator.MockServer.{
  DomainContainer, MockServer, Surroundings, find_domain, change_domain, remove_domain,
}
use mailgun_operator.MockServer.Http.{Request, form_value, path_value}
use mailgun_operator.MockServer.Records.{new_container}
use mailgun_operator.MockServer.Domains.{
  answer_changed, create_domain, get_domain, verify_domain, delete_domain, refreshed, verified,
}
use mailgun_operator.MockServer.Serve.{Pattern, is_authorized, init_routes}

-- How often a name occurs.
abbrev pub Bag : Type 0
Bag = String → ℕ

abbrev pub copies : List DomainContainer → Bag
copies [] name = 0
copies (c ∷ rest) name = if c.domain.name == name then suc (copies rest name) else copies rest name

abbrev pub bag : MockServer → Bag
bag m = copies m.domain_list

-- One more, or one less if there is one.
abbrev pub put : String → Bag → Bag
put name b j = if name == j then b j + 1 else b j

abbrev pub take : String → Bag → Bag
take name b j = if name == j then b j - 1 else b j

-- What an authorized request of a pattern makes of the bag, where `failing` are the names that
-- were given to `FailedDomain`.
abbrev pub bag_after : Pattern → Request → List String → Bag → Bag
bag_after Pattern.post_domains r failing b =
    if contains failing (form_value r "name") then b else put (form_value r "name") b
bag_after Pattern.delete_domain_at r failing b =
    if contains failing (path_value r "domain") then b else take (path_value r "domain") b
bag_after _ r failing b = b

pub copies-append :
    (l : List DomainContainer) (c : DomainContainer) (j : String)
    → copies (l ++ c ∷ []) j ≡ put c.domain.name (copies l) j
copies-append [] c j = ground arith
copies-append (x ∷ l) c j = ground (arith, copies-append l c j)

pub copies-change_domain :
    (name : String) (f : DomainContainer → DomainContainer) (l : List DomainContainer) (j : String)
    → ((c : DomainContainer) → (f c).domain.name ≡ c.domain.name)
    → copies (change_domain name f l) j ≡ copies l j
unfolding change_domain
copies-change_domain name f [] j k = refl
copies-change_domain name f (x ∷ l) j k = ground (arith, k x, copies-change_domain name f l j k)

pub copies-remove_domain :
    (name : String) (l : List DomainContainer) (j : String)
    → copies (remove_domain name l) j ≡ take name (copies l) j
unfolding remove_domain
copies-remove_domain name [] j = ground arith
copies-remove_domain name (x ∷ l) j = ground (
  arith,
  eq_iff name x.domain.name,
  eq_iff x.domain.name j,
  eq_iff name j,
  copies-remove_domain name l j,
)

pub copies-find_domain :
    (name : String) (l : List DomainContainer) (j : String)
    → find_domain name l ≡ none
    → copies l j ≡ take name (copies l) j
unfolding find_domain
copies-find_domain name [] j h = ground arith
copies-find_domain name (x ∷ l) j h = ground (
  arith,
  eq_iff name x.domain.name,
  eq_iff x.domain.name j,
  eq_iff name j,
  copies-find_domain name l j,
)

module _ (r : Request) (around : Surroundings) (m : MockServer) (j : String) where
  bag-create_domain :
      bag (create_domain r around m).1 j
      ≡ bag_after Pattern.post_domains r m.failed_domains (bag m) j
  unfolding create_domain new_container
  bag-create_domain =
      ground (arith, copies-append m.domain_list (new_container m around (form_value r "name")) j)

  bag-answer_changed :
      (name s : String) (f : DomainContainer → DomainContainer) (o : Option DomainContainer)
      → ((c : DomainContainer) → (f c).domain.name ≡ c.domain.name)
      → bag (answer_changed name s f m o).1 j ≡ bag m j
  bag-answer_changed name s f none k = refl
  bag-answer_changed name s f (some c) k = copies-change_domain name f m.domain_list j k

  verified-name :
      (active : Bool) (c : DomainContainer) → (verified active c).domain.name ≡ c.domain.name
  verified-name true c = refl
  verified-name false c = refl

  bag-get_domain : bag (get_domain r around m).1 j ≡ bag m j
  unfolding get_domain
  bag-get_domain =
      let name = path_value r "domain" in
      bag-answer_changed name _ (refreshed m name) (find_domain name m.domain_list) (λ c. refl)

  bag-verify_domain : bag (verify_domain r around m).1 j ≡ bag m j
  unfolding verify_domain
  bag-verify_domain =
      let name = path_value r "domain" in
      let active = contains m.active_domains name in
      bag-answer_changed name _ (verified active) (find_domain name m.domain_list)
        (verified-name active)

  bag-delete_domain :
      bag (delete_domain r around m).1 j
      ≡ bag_after Pattern.delete_domain_at r m.failed_domains (bag m) j
  unfolding delete_domain
  bag-delete_domain =
      let name = path_value r "domain" in
      ground
        (arith, copies-remove_domain name m.domain_list j, copies-find_domain name m.domain_list j)

  -- An authorized request changes the domains, seen as a bag of names, as `bag_after` says: a
  -- creation adds one, also where there is one of that name, a deletion takes one, and no other
  -- request changes it.
  pub bag-init_routes :
      (p : Pattern)
      → is_authorized m r.credentials ≡ true
      → bag (init_routes p r around m).1 j ≡ bag_after p r m.failed_domains (bag m) j
  unfolding init_routes
  bag-init_routes p h =
      ground (arith, bag-create_domain, bag-get_domain, bag-verify_domain, bag-delete_domain)

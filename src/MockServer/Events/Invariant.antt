-- ===== src/MockServer/Events/Invariant.antt =====
-- Every event keeps the invariant.
use mailgun_operator.Base.{◌≡◌, refl, String, Option, none, some, List, [], ◌∷◌, arith}
use mailgun_operator.Base.Lists.{contains}
use mailgun_operator.Base.Int.{ℤ, pos}
use mailgun_operator.Base.Dict.{Dict}
use mailgun_operator.External.{MailgunRoute}
use mailgun_operator.MockServer.{MockServer, Surroundings, new_mailgun_server, read, made}
use mailgun_operator.MockServer.Http.{Request, form_value, path_value}
use mailgun_operator.MockServer.Records.{new_container}
use mailgun_operator.MockServer.Domains.{
  refreshed, verified, create_domain, get_domain, verify_domain, delete_domain,
}
use mailgun_operator.MockServer.Routes.{
  put_route, priority_of, new_route, changed_route, answer_created, answer_parsed, answer_updated,
  without_route, create_route, get_route, update_route, delete_route,
}
use mailgun_operator.MockServer.Serve.{Pattern, init_routes, match_pattern, handle, serve}
use mailgun_operator.MockServer.Events.{
  Event, requested, added, activated, mx_activated, failing, dropped, failing_route, apply, run,
}
use mailgun_operator.MockServer.Events.Soundness.{
  IsSound, SoundRoutes, SoundDomains-grow, SoundDomains-append, SoundDomains-remove_domain,
  SoundDomains-change_domain, new_container-SoundDomain, refreshed-SoundDomain,
  verified-SoundDomain, Keyed-insert, Keyed-erase, made-Keyed, read-SoundRoutes,
}

module _ (r : Request) (around : Surroundings) (m : MockServer) (s : IsSound m) where
  create_domain-IsSound : IsSound (create_domain r around m).1
  unfolding create_domain
  create_domain-IsSound =
      let name = form_value r "name" in
      ground (
        arith,
        SoundDomains-append m.active_domains m.domain_list (new_container m around name) s.domains
            (new_container-SoundDomain m around name),
      )

  get_domain-IsSound : IsSound (get_domain r around m).1
  unfolding get_domain
  get_domain-IsSound =
      let name = path_value r "domain" in
      ground (
        arith,
        SoundDomains-change_domain m.active_domains name (refreshed m name) m.domain_list
            (λ c e k. refreshed-SoundDomain m name c k) s.domains,
      )

  verify_domain-IsSound : IsSound (verify_domain r around m).1
  unfolding verify_domain
  verify_domain-IsSound =
      let name = path_value r "domain" in
      ground (
        arith,
        SoundDomains-change_domain m.active_domains name (verified (contains m.active_domains name))
            m.domain_list (verified-SoundDomain m.active_domains name) s.domains,
      )

  delete_domain-IsSound : IsSound (delete_domain r around m).1
  unfolding delete_domain
  delete_domain-IsSound = ground (
    arith,
    SoundDomains-remove_domain m.active_domains (path_value r "domain") m.domain_list s.domains,
  )

  put_route-IsSound : (id : String) (x : MailgunRoute) → id ≡ x.id → IsSound (put_route id x m)
  put_route-IsSound id x e = record {
    domains = s.domains;
    routes = Keyed-insert id x (made m.routes) e (made-Keyed m.routes s.routes);
  }

  answer_created-IsSound : (p : Option ℤ) → IsSound (answer_created r around m p).1
  answer_created-IsSound none = s
  answer_created-IsSound (some p) = put_route-IsSound _ (new_route r around p) refl

  create_route-IsSound : IsSound (create_route r around m).1
  unfolding create_route
  create_route-IsSound =
      ground (arith, answer_created-IsSound (priority_of (form_value r "priority") (pos 0)))

  without_route-SoundRoutes :
      (id : String) (routes : Option (Dict MailgunRoute))
      → SoundRoutes routes
      → SoundRoutes (without_route id routes)
  without_route-SoundRoutes id none h = tt
  without_route-SoundRoutes id (some entries) h = Keyed-erase id entries h

  delete_route-IsSound : IsSound (delete_route r around m).1
  unfolding delete_route
  delete_route-IsSound =
      ground (arith, without_route-SoundRoutes (path_value r "id") m.routes s.routes)

  answer_parsed-IsSound :
      (id : String) (x : MailgunRoute)
      → id ≡ x.id
      → (p : Option ℤ) → IsSound (answer_parsed r id x m p).1
  answer_parsed-IsSound id x e none = s
  answer_parsed-IsSound id x e (some p) = put_route-IsSound id (changed_route r x p) e

  answer_updated-IsSound :
      (id : String) (o : Option MailgunRoute)
      → ((x : MailgunRoute) → o ≡ some x → id ≡ x.id)
      → IsSound (answer_updated r id m o).1
  answer_updated-IsSound id none k = s
  answer_updated-IsSound id (some x) k =
      answer_parsed-IsSound id x (k x refl) (priority_of (form_value r "priority") x.priority)

  update_route-IsSound : IsSound (update_route r around m).1
  unfolding update_route
  update_route-IsSound =
      let id = path_value r "id" in
      ground (
        arith,
        answer_updated-IsSound id (read id m.routes) (λ x. read-SoundRoutes id x m.routes s.routes),
      )

  get_route-IsSound : IsSound (get_route r around m).1
  unfolding get_route
  get_route-IsSound = ground arith

  init_routes-IsSound : (p : Pattern) → IsSound (init_routes p r around m).1
  unfolding init_routes
  init_routes-IsSound p = ground (
    arith, create_domain-IsSound, get_domain-IsSound, verify_domain-IsSound, delete_domain-IsSound,
    create_route-IsSound, get_route-IsSound, update_route-IsSound, delete_route-IsSound,
  )

serve-IsSound :
    (r : Request) (around : Surroundings) (m : MockServer)
    → IsSound m
    → IsSound (serve r around m).1
unfolding serve
serve-IsSound r around m s =
    handle-IsSound (match_pattern r.method r.path).0 (match_pattern r.method r.path).1
  where
    handle-IsSound :
        (p : Option Pattern) (values : Dict String) → IsSound (handle r around m p values).1
    handle-IsSound none values = s
    handle-IsSound (some p) values =
        init_routes-IsSound (record r { path_values = values }) around m s p

pub apply-IsSound : (e : Event) (m : MockServer) → IsSound m → IsSound (apply e m)
unfolding apply
apply-IsSound (requested r around) m s = serve-IsSound r around m s
apply-IsSound (added around name) m s = record {
  domains =
      SoundDomains-append m.active_domains m.domain_list (new_container m around name) s.domains
        (new_container-SoundDomain m around name);
  routes = s.routes;
}
apply-IsSound (activated name) m s = record {
  domains = SoundDomains-grow m.active_domains (name ∷ []) m.domain_list s.domains;
  routes = s.routes;
}
apply-IsSound (mx_activated name) m s = record { domains = s.domains; routes = s.routes }
apply-IsSound (failing name) m s = record { domains = s.domains; routes = s.routes }
apply-IsSound (dropped name) m s = record {
  domains = SoundDomains-remove_domain m.active_domains name m.domain_list s.domains;
  routes = s.routes;
}
apply-IsSound (failing_route action id) m s = record { domains = s.domains; routes = s.routes }

run_keeps : (events : List Event) (m : MockServer) → IsSound m → IsSound (run events m)
unfolding run
run_keeps [] m s = s
run_keeps (e ∷ events) m s = run_keeps events (apply e m) (apply-IsSound e m s)

-- Whatever happens to a new server, each of its domains is active only if it was activated, has
-- the login of its name and two and three records, and each of its routes stands under its id.
pub run-IsSound :
    (token : String) (events : List Event) → IsSound (run events (new_mailgun_server token))
unfolding new_mailgun_server
run-IsSound token events =
    run_keeps events (new_mailgun_server token) (record { domains = tt; routes = tt })

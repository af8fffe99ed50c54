-- ===== src/MockServer/Events.antt =====
-- What can happen to the server: a request, or one of the methods by which a test prepares it.
pub mod Soundness
pub mod Invariant
use mailgun_operator.Base.{String, List, [], ◌∷◌}
use mailgun_operator.MockServer.{
  MockServer, Surroundings, activate_domain, activate_mx_domain, failed_domain, drop_domain,
  fail_route,
}
use mailgun_operator.MockServer.Http.{Request}
use mailgun_operator.MockServer.Domains.{add_domain}
use mailgun_operator.MockServer.Serve.{serve}

pub data Event : Type 0 where
  requested : Request → Surroundings → Event
  added : Surroundings → String → Event
  activated mx_activated failing dropped : String → Event
  failing_route : String → String → Event

unfoldable pub apply : Event → MockServer → MockServer
unfolding serve add_domain activate_domain activate_mx_domain failed_domain drop_domain fail_route
apply (requested r around) m = (serve r around m).1
apply (added around name) m = add_domain around name m
apply (activated name) m = activate_domain name m
apply (mx_activated name) m = activate_mx_domain name m
apply (failing name) m = failed_domain name m
apply (dropped name) m = drop_domain name m
apply (failing_route action id) m = fail_route action id m

-- The mutex puts the events in an order, in which they follow one another.
unfoldable pub run : List Event → MockServer → MockServer
run [] m = m
run (e ∷ events) m = run events (apply e m)

-- ===== src/System/Tests.antt =====
-- The operator against a mock server with one domain.
use mailgun_operator.Base.{[], ◌∷◌, arith, ◌≡◌, refl, none, some}
use mailgun_operator.Base.Int.{pos}
use mailgun_operator.Base.Dict.{lookup}
use mailgun_operator.Base.Lists.{contains}
use mailgun_operator.Controller.{reply_of}
use mailgun_operator.Api.DomainTypes.{Domain}
use mailgun_operator.Configuration.{mailgun_client}
use mailgun_operator.DomainController.Simulation.{key, fresh, deleted}
use mailgun_operator.DomainController.Reconcile.{is_settled, needs_external_dns, reconcile}
use mailgun_operator.MockServer.{new_mailgun_server}
use mailgun_operator.MockServer.Domains.{add_domain}
use mailgun_operator.MockServer.Domains.Bag.{bag}
use mailgun_operator.MockServer.Http.{path_value, form_value}
use mailgun_operator.MockServer.Records.{new_container}
use mailgun_operator.MockServer.Serve.{serve}
use mailgun_operator.System.Simulation.{
  World, around, reconciler, mailgun-ServedBy, reconciler-IsApart, client-KeepsName, naming,
  naming-IsApart, naming-KeepsName, naming-ReadsNamed,
}
use mailgun_operator.System.Deletion.{reconcile-served}
use mailgun_operator.System.Unique.{reconcile-Unique}
use mailgun_operator.System.Unique.Histories.{runs, runs-Unique}
use mailgun_operator.System.Unique.Requests.{Unique}

-- One server with the domain that is under deletion.
abbrev holding : Domain → World
holding d = record {
  stored = some d;
  mock =
      add_domain (record { now = 7; random = "abcdefghij"; spam_action_disabled = "disabled" })
        "example.com" (new_mailgun_server "token");
}

reconcile-served_example :
    bag (reconcile reconciler key (holding deleted)).1.world.mock "example.com" ≡ 0
unfolding add_domain new_container contains serve mailgun_client new_mailgun_server reconcile lookup
    path_value
reconcile-served_example =
    reconcile-served reconciler "https://eu" (λ w. w.mock) around mailgun-ServedBy
      reconciler-IsApart key (holding deleted) (holding deleted) deleted 5 (reply_of (pos 0) none)
      refl refl refl refl refl refl refl refl "example.com"

-- A new domain and a server without domains.
abbrev starting : World
starting = record { stored = some fresh; mock = new_mailgun_server "token" }

starting-created : bag (reconcile reconciler key starting).1.world.mock "example.com" ≡ 1
unfolding new_container contains serve mailgun_client new_mailgun_server reconcile lookup path_value
    form_value is_settled needs_external_dns
starting-created = refl

reconcile-Unique_example : Unique (reconcile reconciler key starting).1.world.mock
unfolding mailgun_client new_mailgun_server
reconcile-Unique_example =
    reconcile-Unique reconciler "https://eu" (λ w. w.mock) around mailgun-ServedBy
      reconciler-IsApart client-KeepsName key starting starting fresh refl refl refl
      (λ j. omega arith)

-- A run that creates the domain, one more, and one after it.
runs-Unique_example : Unique (runs naming (key ∷ key ∷ key ∷ []) starting).mock
unfolding mailgun_client new_mailgun_server
runs-Unique_example =
    runs-Unique naming "https://eu" (λ w. w.mock) around mailgun-ServedBy naming-IsApart
      naming-KeepsName naming-ReadsNamed (λ name. refl) (key ∷ key ∷ key ∷ []) starting
      (λ j. omega arith)

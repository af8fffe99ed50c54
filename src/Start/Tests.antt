-- ===== src/Start/Tests.antt =====
-- A start in a small world, in which every call succeeds but the start of the manager may not.
use mailgun_operator.Base.{◌≡◌, refl, String, true, false, Option, none, some, [], ◌∷◌}
use mailgun_operator.Base.Int.{pos}
use mailgun_operator.Base.Dict.{lookup, insert}
use mailgun_operator.Base.Exec.{done}
use mailgun_operator.Api.Meta.{ok}
use mailgun_operator.External.{ApiBases}
use mailgun_operator.Configuration.{Data, new_configuration}
use mailgun_operator.Configuration.Load.{ConfigClient, load_configuration}
use mailgun_operator.Start.Options.{Flags, manager_options}
use mailgun_operator.Start.Run.{
  domains, routes, Runtime, manager_created, client_created, configuration_loaded, registered,
  health_check_added, ready_check_added, started,
}
use mailgun_operator.Start.Main.{main}
use mailgun_operator.Start.Order.{Explained, main-Explained}
use mailgun_operator.Start.Config.{registration, main-registration}

abbrev World : Type 0
World = Unit {0}

abbrev config_client : ConfigClient World
config_client = record {
  get_config_map = λ _ w. (ok (("api_server", "US") ∷ []), w);
  get_secret = λ _ w. (ok (("api_token", "token") ∷ []), w);
}

abbrev runtime : Option String → Runtime World (Unit {0})
runtime namespace = record {
  new_manager = λ _ w. (ok tt, w);
  lookup_env = λ _ _. namespace;
  new_client = λ _ w. (ok config_client, w);
  complete = λ _ _ w. (ok tt, w);
  add_healthz_check = λ _ _ w. (ok tt, w);
  add_readyz_check = λ _ _ w. (ok tt, w);
  start = λ _ w. (ok tt, w);
}

abbrev bases : ApiBases
bases = record { eu = "https://eu"; us = "https://us" }

abbrev flags : Flags
flags = record {
  metrics_addr = "0";
  enable_leader_election = false;
  probe_addr = ":8081";
  secure_metrics = true;
  enable_http2 = false;
  config_map_name = "settings";
  secret_name = "credentials";
}

abbrev loaded : Data
loaded = record {
  operator_namespace = "mailgun";
  api_token = "token";
  api_server = "US";
  domain_verify_duration = pos 300;
}

-- Without the namespace the process ends with the code 1.
missing_namespace : (main (runtime none) bases flags tt).0 ≡ done 1
unfolding main
missing_namespace = refl

main-Explained_example : Explained (main (runtime (some "mailgun")) bases flags tt)
main-Explained_example = main-Explained (runtime (some "mailgun")) bases flags tt

main-registration_example : main (runtime (some "mailgun")) bases flags tt ≡ (
  done 0,
  record {
    world = tt;
    config = loaded;
    calls =
        started none
        ∷ ready_check_added none
        ∷ health_check_added none
        ∷ registered (registration routes loaded) none
        ∷ registered (registration domains loaded) none
        ∷ configuration_loaded none
        ∷ client_created none
        ∷ manager_created (manager_options flags) none
        ∷ [];
  },
)
unfolding load_configuration new_configuration lookup insert
main-registration_example =
    main-registration (runtime (some "mailgun")) bases flags tt config_client "mailgun" loaded tt tt
      tt tt tt tt tt tt tt refl refl refl refl refl refl refl refl refl

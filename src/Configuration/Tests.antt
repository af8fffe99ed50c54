-- ===== src/Configuration/Tests.antt =====
-- Loading a configuration from a config map and a secret.
use mailgun_operator.Base.{◌≡◌, refl, String, none, some, [], ◌∷◌}
use mailgun_operator.Base.Int.{pos, negsuc}
use mailgun_operator.Base.Dict.{Dict, lookup}
use mailgun_operator.Api.Meta.{ok}
use mailgun_operator.Configuration.{Data}
use mailgun_operator.Configuration.Parse.{parse_int}
use mailgun_operator.Configuration.Load.{hash_to_config, ConfigClient, LoadRun}
use mailgun_operator.Configuration.Load.Laws.{hash_to_config_lem}

abbrev defaults : Data
defaults = record {
  operator_namespace = "mailgun";
  api_token = "";
  api_server = "https://eu";
  domain_verify_duration = pos 300;
}

abbrev config_map : Dict String
config_map = ("api_server", "US") ∷ ("api_token", "old") ∷ []

abbrev secret : Dict String
secret = ("api_token", "token") ∷ ("domain_verification_timeout", "60") ∷ []

abbrev client : ConfigClient (Unit {0})
client = record { get_config_map = λ _ w. (ok config_map, w); get_secret = λ _ w. (ok secret, w) }

abbrev run : LoadRun (Unit {0})
run = record { world = tt; config = defaults }

abbrev loaded : Data
loaded = record {
  operator_namespace = "mailgun";
  api_token = "token";
  api_server = "US";
  domain_verify_duration = pos 60;
}

parse_negative : parse_int "-12" ≡ some (negsuc 11)
unfolding parse_int
parse_negative = refl

parse_word : parse_int "12m" ≡ none
unfolding parse_int
parse_word = refl

hash_to_config_lem_example :
    hash_to_config secret defaults ≡ some (record loaded { api_server = "https://eu" })
unfolding lookup parse_int
hash_to_config_lem_example = hash_to_config_lem secret defaults

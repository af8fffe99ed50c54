-- ===== src/Configuration/Load.antt =====
-- `LoadConfiguration`, `readConfigMap`, `readSecret` and `hashToConfig`.
pub mod Laws
use mailgun_operator.Base.{
  String, Bool, Option, none, some, List, [], ◌∷◌, ◌==◌, not, is_empty, if◌then◌else◌,
}
use mailgun_operator.Base.Int.{ℤ}
use mailgun_operator.Base.Exec.{
  Exit, M, next, done, panic, ◌>>=◌, ◌>>◌, pure, return, gets, when, if_some,
}
use mailgun_operator.Base.Dict.{Dict, lookup, insert}
use mailgun_operator.Api.Meta.{Key, Error, Res, ok, err, if_failed}
use mailgun_operator.Configuration.{Data}
use mailgun_operator.Configuration.Parse.{parse_int, before_comma}

-- The fields of `Data` in their order, as reflection lists them.
pub data Field : Type 0 where
  operator_namespace api_token api_server domain_verify_duration : Field

abbrev pub fields : List Field
fields = operator_namespace ∷ api_token ∷ api_server ∷ domain_verify_duration ∷ []

-- `field.Tag.Get("json")`
unfoldable pub tag : Field → String
tag operator_namespace = ""
tag api_token = "api_token,omitempty"
tag api_server = "api_server,omitempty"
tag domain_verify_duration = "domain_verification_timeout,omitempty"

abbrev key_of : Field → String
key_of f = before_comma (tag f)

-- `SetInt`, or the panic of a value that is no number.
abbrev set_duration : Option ℤ → Data → Option Data
set_duration none d = none
set_duration (some n) d = some (record d { domain_verify_duration = n })

-- The `switch` on the kind of a field; `none` is a panic, which ends the process, so that what
-- was set before it is dropped.
unfoldable pub set_field : Field → String → Data → Option Data
set_field operator_namespace value d = some (record d { operator_namespace = value })
set_field api_token value d = some (record d { api_token = value })
set_field api_server value d = some (record d { api_server = value })
set_field domain_verify_duration value d = set_duration (parse_int value) d

abbrev set_found : Field → Option String → Data → Option Data
set_found f none d = some d
set_found f (some value) d = set_field f value d

-- One round of the loop.
unfoldable pub load_field : Dict String → Field → Data → Option Data
unfolding set_field tag before_comma
load_field values f d =
    if is_empty (tag f) then some d else set_found f (lookup (key_of f) values) d

abbrev pub bind_data : Option Data → (Data → Option Data) → Option Data
bind_data none f = none
bind_data (some d) f = f d

-- The loop over the fields.
unfoldable pub load_fields : Dict String → List Field → Data → Option Data
unfolding load_field
load_fields values [] d = some d
load_fields values (f ∷ fs) d = bind_data (load_field values f d) (load_fields values fs)

unfoldable pub hash_to_config : Dict String → Data → Option Data
unfolding load_fields
hash_to_config values d = load_fields values fields d

-- `for k, v := range data { configData[k] = v }`
unfoldable pub merge : Dict String → Dict String → Dict String
merge values [] = values
merge values ((k, v) ∷ rest) = merge (insert k v values) rest

-- The calls of the API server: a ConfigMap and a Secret by their keys.
pub record ConfigClient (W : Type 0) : Type 0 where
  pub get_config_map : Key → W → Res (Dict String) × W
  pub get_secret : Key → W → Res (Dict String) × W

-- `readConfigMap` and `readSecret` behind the call: what is not found is empty.
unfoldable pub found_or_empty : Res (Dict String) → Res (Dict String)
found_or_empty (ok values) = ok values
found_or_empty (err e) = if e.not_found then ok [] else err e

-- `readConfigMap` and `readSecret`.
module _ {W : Type 0} (c : ConfigClient W) (namespace name : String) where
  unfoldable pub read_config_map : W → Res (Dict String) × W
  unfolding found_or_empty
  read_config_map w =
      let (x, w') = c.get_config_map (record { namespace = namespace; name = name }) w in
      (found_or_empty x, w')

  unfoldable pub read_secret : W → Res (Dict String) × W
  unfolding found_or_empty
  read_secret w =
      let (x, w') = c.get_secret (record { namespace = namespace; name = name }) w in
      (found_or_empty x, w')

-- What a call of `LoadConfiguration` works on.
pub record LoadRun (W : Type 0) : Type 0 where
  pub world : W
  pub config : Data

module _ {W : Type 0} where
  -- `if name != "" { … }`: the values of the source are put over those so far.
  unfoldable pub load_source :
      (String → String → W → Res (Dict String) × W)
      → String
      → Dict String
      → M (LoadRun W) (Option Error) (Dict String)
  unfolding merge
  load_source read name values s =
      let (x, w) = read s.config.operator_namespace name s.world in
      if is_empty name
      then (next values, s)
      else if_failed x (λ e. return (some e)) (λ v. pure (merge values v)) (record s { world = w })

  -- `if len(configData) > 0 { hashToConfig(d, configData) }`
  unfoldable pub apply_values : Dict String → M (LoadRun W) (Option Error) (Option Error)
  unfolding hash_to_config
  apply_values [] s = (done none, s)
  apply_values (v ∷ values) s = elim (hash_to_config (v ∷ values) s.config) [
    | none ↦ (panic, s)
    | some d ↦ (done none, record s { config = d })
  ]

  unfoldable pub load_configuration :
      ConfigClient W → String → String → M (LoadRun W) (Option Error) (Option Error)
  unfolding load_source read_config_map read_secret apply_values
  load_configuration c config_map_name secret_name = do
    values ← load_source (read_config_map c) config_map_name []
    values' ← load_source (read_secret c) secret_name values
    apply_values values'

-- ===== src/Configuration/Load/Laws.antt =====
-- What loading the configuration leaves in it.
use mailgun_operator.Base.{◌≡◌, refl, eq_iff, String, Option, none, some, [], ◌∷◌, arith}
use mailgun_operator.Base.Int.{ℤ}
use mailgun_operator.Base.Exec.{Exit, done, panic}
use mailgun_operator.Base.Dict.{Dict, lookup, insert, lookup-insert}
use mailgun_operator.Api.Meta.{Key, Error}
use mailgun_operator.Configuration.{Data}
use mailgun_operator.Configuration.Parse.{parse_int}
use mailgun_operator.Configuration.Load.{hash_to_config, merge, LoadRun}

abbrev or_old : Option String → String → String
or_old none old = old
or_old (some value) old = value

abbrev duration_or_old : Option String → ℤ → Option ℤ
duration_or_old none old = some old
duration_or_old (some value) old = parse_int value

-- What the values of the three tags make of a configuration; `none` where the duration is no
-- 64-bit decimal integer.
abbrev pub settings : Option String → Option String → Option String → Data → Option Data
settings token server duration d = elim (duration_or_old duration d.domain_verify_duration) [
  | none ↦ none
  | some n ↦ some (record {
    operator_namespace = d.operator_namespace;
    api_token = or_old token d.api_token;
    api_server = or_old server d.api_server;
    domain_verify_duration = n;
  })
]

-- Each of the three tagged fields takes the value under its tag, if there is one, and keeps its
-- old value if not; the namespace is kept. It panics exactly if the duration is given as a text
-- that is no 64-bit decimal integer.
pub hash_to_config_lem :
    (values : Dict String) (d : Data)
    → hash_to_config values d
      ≡ settings
          (lookup "api_token" values)
          (lookup "api_server" values)
          (lookup "domain_verification_timeout" values)
          d
unfolding hash_to_config
hash_to_config_lem values d = ground arith

-- No key stands twice, as in every Go map.
abbrev pub Distinct : Dict String → Type 0
Distinct [] = Unit
Distinct ((k, v) ∷ m) = (lookup k m ≡ none) × Distinct m

abbrev pub or_else : Option String → Option String → Option String
or_else none o = o
or_else (some v) o = some v

pub lookup-merge :
    (k : String) (old new : Dict String)
    → Distinct new
    → lookup k (merge old new) ≡ or_else (lookup k new) (lookup k old)
unfolding lookup merge
lookup-merge k old [] h = refl
lookup-merge k old ((j, v) ∷ new) (fresh, h) =
    ground (arith, eq_iff j k, lookup-merge k (insert j v old) new h, lookup-insert j k v old)

-- The value under a key when a secret's values are put over those of a config map.
abbrev pub over : Dict String → Dict String → String → Option String
over secret config_map k = or_else (lookup k secret) (lookup k config_map)

abbrev pub loaded_with :
    {W : Type 0} → Data → W → Option Data → Exit (Option Error) (Option Error) × LoadRun W
loaded_with old w none = (panic, record { world = w; config = old })
loaded_with old w (some d) = (done none, record { world = w; config = d })

module _ {W : Type 0} where
  abbrev pub in_namespace : LoadRun W → String → Key
  in_namespace s name = record { namespace = s.config.operator_namespace; name = name }

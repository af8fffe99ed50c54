-- ===== src/Configuration.antt =====
-- internal/configuration/configuration.go: the operator's settings.
pub mod Parse
pub mod Load
mod Tests
use mailgun_operator.Base.{String, ◌==◌, if◌then◌else◌}
use mailgun_operator.Base.Int.{ℤ, pos}
use mailgun_operator.External.{ApiBases, MailgunClient}

pub record Data : Type 0 where
  pub operator_namespace : String
  pub api_token : String
  pub api_server : String
  pub domain_verify_duration : ℤ

unfoldable pub new_configuration : ApiBases → Data
new_configuration bases = record {
  operator_namespace = "mailgun-operator-system";
  api_token = "";
  api_server = bases.eu;
  domain_verify_duration = pos 300;
}

-- `MailgunClient`: the switch on the server's name.
unfoldable pub mailgun_client : ApiBases → Data → String → MailgunClient
mailgun_client bases d domain_name = record {
  domain = domain_name;
  api_key = d.api_token;
  api_base =
      if d.api_server == "EU"
      then bases.eu
      else if d.api_server == "US"
      then bases.us
      else d.api_server;
}

-- ===== src/Start/Options.antt =====
-- The flags, and the options that they give the manager and its servers.
use mailgun_operator.Base.{
  String, Bool, true, false, if◌then◌else◌, Option, none, some, List, [], ◌∷◌,
}

-- The variables that `flag` fills.
pub record Flags : Type 0 where
  pub metrics_addr : String
  pub enable_leader_election : Bool
  pub probe_addr : String
  pub secure_metrics : Bool
  pub enable_http2 : Bool
  pub config_map_name : String
  pub secret_name : String

-- Their defaults.
unfoldable pub default_flags : Flags
default_flags = record {
  metrics_addr = "0";
  enable_leader_election = false;
  probe_addr = ":8081";
  secure_metrics = true;
  enable_http2 = false;
  config_map_name = "";
  secret_name = "";
}

-- The field of `tls.Config` that is set.
pub record TlsConfig : Type 0 where
  pub next_protos : List String

unfoldable pub disable_http2 : TlsConfig → TlsConfig
disable_http2 c = record { next_protos = "http/1.1" ∷ [] }

-- `tlsOpts`
unfoldable pub tls_opts : Flags → List (TlsConfig → TlsConfig)
unfolding disable_http2
tls_opts f = if f.enable_http2 then [] else disable_http2 ∷ []

-- `filters.WithAuthenticationAndAuthorization`, as the only value of its kind.
pub data FilterProvider : Type 0 where
  with_authentication_and_authorization : FilterProvider

-- `metricsserver.Options`
pub record MetricsOptions : Type 0 where
  pub bind_address : String
  pub secure_serving : Bool
  pub tls_opts : List (TlsConfig → TlsConfig)
  pub filter_provider : Option FilterProvider

-- `metricsServerOptions`
unfoldable pub metrics_server_options : Flags → MetricsOptions
unfolding tls_opts
metrics_server_options f = record {
  bind_address = f.metrics_addr;
  secure_serving = f.secure_metrics;
  tls_opts = tls_opts f;
  filter_provider = if f.secure_metrics then some with_authentication_and_authorization else none;
}

-- `ctrl.Options`; `webhook_tls_opts` are those of the webhook server.
pub record ManagerOptions : Type 0 where
  pub metrics : MetricsOptions
  pub webhook_tls_opts : List (TlsConfig → TlsConfig)
  pub health_probe_bind_address : String
  pub leader_election : Bool
  pub leader_election_id : String

unfoldable pub manager_options : Flags → ManagerOptions
unfolding metrics_server_options
manager_options f = record {
  metrics = metrics_server_options f;
  webhook_tls_opts = tls_opts f;
  health_probe_bind_address = f.probe_addr;
  leader_election = f.enable_leader_election;
  leader_election_id = "abe245e7.mailgun.com";
}

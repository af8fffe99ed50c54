-- ===== src/Api/DeepCopy/Storage/Cells.antt =====
-- What a cell of the memory holds.
use mailgun_operator.Base.{String, Bool, false, none, List}
use mailgun_operator.Base.Int.{ℤ}
use mailgun_operator.Api.DomainTypes.{DnsRecord}
use mailgun_operator.Api.DeepCopy.Structs.{
  Library, DomainSpecStruct, DomainStatusStruct, DomainStruct, DomainListStruct, RouteSpecStruct,
  RouteStatusStruct, RouteStruct, RouteListStruct,
}

pub data Cell (L : Library) : Type 0 where
  bool_cell : Bool → Cell L
  int_cell : ℤ → Cell L
  text_cell : String → Cell L
  time_cell : L.Time → Cell L
  texts_cell : List String → Cell L
  dns_record_cell : DnsRecord → Cell L
  dns_records_cell : List DnsRecord → Cell L
  endpoint_cell : L.Endpoint → Cell L
  endpoints_cell : List L.Endpoint → Cell L
  domain_spec_cell : DomainSpecStruct L → Cell L
  domain_status_cell : DomainStatusStruct L → Cell L
  domain_cell : DomainStruct L → Cell L
  domains_cell : List (DomainStruct L) → Cell L
  domain_list_cell : DomainListStruct L → Cell L
  route_spec_cell : RouteSpecStruct → Cell L
  route_status_cell : RouteStatusStruct → Cell L
  route_cell : RouteStruct L → Cell L
  routes_cell : List (RouteStruct L) → Cell L
  route_list_cell : RouteListStruct L → Cell L
  other_cell : L.Other → Cell L

abbrev pub zero_route_spec : RouteSpecStruct
zero_route_spec = record {
  description = "";
  expression = "";
  actions = none;
  priority = none;
  domain = none;
}

abbrev pub zero_route_status : RouteStatusStruct
zero_route_status = record { route_id = none; mailgun_error = none }

module _ {L : Library} where
  abbrev pub zero_domain_spec : DomainSpecStruct L
  zero_domain_spec = record {
    domain = "";
    external_dns = none;
    external_dns_records = none;
    web_scheme = none;
    dkim_key_size = none;
    force_dkim_authority = none;
    wildcard = none;
    ips = none;
    spam_action = none;
    export_credentials = none;
    export_secret_name = none;
    export_secret_login_key = none;
    export_secret_password_key = none;
    force_mx_check = none;
  }

  abbrev pub zero_domain_status : DomainStatusStruct L
  zero_domain_status = record {
    state = "";
    not_managed = false;
    sending_dns_records = none;
    receiving_dns_records = none;
    domain_state = "";
    mailgun_error = none;
    last_domain_validation_time = none;
    domain_validation_count = none;
    dns_entrypoint_created = false;
  }

-- ===== src/MockServer/Records.antt =====
-- `newMGDomainFor` and `newMGDnsRecordsFor`.
use mailgun_operator.Base.{String, ◌<>◌, Bool, true, false, if◌then◌else◌, List, [], ◌∷◌}
use mailgun_operator.Base.Lists.{contains}
use mailgun_operator.External.{MailgunDnsRecord, MailgunDomain}
use mailgun_operator.MockServer.{DomainContainer, MockServer, Surroundings}

abbrev pub unknown_dns : String
unknown_dns = "unknown"

abbrev pub valid_dns : String
valid_dns = "valid"

abbrev pub unverified_state : String
unverified_state = "unverified"

abbrev pub active_state : String
active_state = "active"

unfoldable pub new_mg_domain_for : MockServer → Surroundings → String → MailgunDomain
unfolding contains
new_mg_domain_for m around name = record {
  created_at = around.now;
  name = name;
  smtp_login = "postmaster@" <> name;
  wildcard = true;
  spam_action = around.spam_action_disabled;
  state = if contains m.active_domains name then active_state else unverified_state;
  web_scheme = "http";
}

abbrev validity : Bool → String
validity active = if active then valid_dns else unknown_dns

-- The fields of a record that its literal sets.
abbrev sending_record : String → Bool → String → String → MailgunDnsRecord
sending_record kind active name value = record {
  name = name;
  priority = "";
  record_type = kind;
  valid = validity active;
  value = value;
}

abbrev receiving_record : Bool → String → MailgunDnsRecord
receiving_record active value = record {
  name = "";
  priority = "10";
  record_type = "MX";
  valid = validity active;
  value = value;
}

unfoldable pub new_mg_dns_records_for : String → Bool → Bool → Bool → List MailgunDnsRecord
new_mg_dns_records_for name sending active active_mx =
    if sending
    then sending_record "TXT" active name "v=spf1 include:mailgun.org ~all"
      ∷ sending_record "TXT" active ("d.mail." <> name) "k=rsa; p=MIGfMA0GCSqGSIb3DQEBAQUA...."
      ∷ sending_record "CNAME" active ("email." <> name) "mailgun.org"
      ∷ []
    else receiving_record active_mx "mxa.mailgun.org"
      ∷ receiving_record active_mx "mxb.mailgun.org"
      ∷ []

-- The records of a name as the server stands.
abbrev pub records_for : MockServer → String → Bool → List MailgunDnsRecord
records_for m name sending =
    new_mg_dns_records_for name sending (contains m.active_domains name)
      (contains m.active_mx_domains name)

-- The container that `AddDomain` and `createDomain` append.
unfoldable pub new_container : MockServer → Surroundings → String → DomainContainer
unfolding new_mg_domain_for new_mg_dns_records_for
new_container m around name = record {
  domain = new_mg_domain_for m around name;
  receiving_dns_records = records_for m name false;
  sending_dns_records = records_for m name true;
}

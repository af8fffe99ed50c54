-- ===== src/DomainController/Records.antt =====
-- `mgDNSRecordsToDnsRecords`, and the loops of `createExternalDNSEntity` over the records.
pub mod Laws
use mailgun_operator.Base.{String, ◌<>◌, List, [], ◌∷◌, ◌++◌, map, ◌==◌, if◌then◌else◌}
use mailgun_operator.Api.DomainTypes.{DnsRecord, ExternalRecord}
use mailgun_operator.External.{MailgunDnsRecord}

abbrev pub to_dns_record : MailgunDnsRecord → DnsRecord
to_dns_record r = record {
  name = r.name;
  priority = r.priority;
  record_type = r.record_type;
  valid = r.valid;
  value = r.value;
}

unfoldable pub mg_dns_records_to_dns_records : List MailgunDnsRecord → List DnsRecord
mg_dns_records_to_dns_records records = map to_dns_record records

-- `fmt.Sprintf("%s %s", record.Priority, record.Value)`
abbrev pub mx_target : DnsRecord → String
mx_target r = (r.priority <> " ") <> r.value

module _ {Endpoint : Type 0} (new_endpoint : String → String → List String → Endpoint) where
  -- The first loop, with the two slices that it appends to.
  unfoldable pub split_records :
      List DnsRecord → List String → List Endpoint → List String × List Endpoint
  split_records [] mx_records endpoints = (mx_records, endpoints)
  split_records (r ∷ records) mx_records endpoints =
      split_records records
        (if r.record_type == "MX" then mx_records ++ (mx_target r ∷ []) else mx_records)
        (if r.record_type == "MX"
          then endpoints
          else endpoints ++ (new_endpoint r.name r.record_type (r.value ∷ []) ∷ []))

  -- `if len(mxRecords) > 0`
  unfoldable pub add_mx : String → List String → List Endpoint → List Endpoint
  add_mx domain_name [] endpoints = endpoints
  add_mx domain_name (m ∷ mx_records) endpoints =
      endpoints ++ (new_endpoint domain_name "MX" (m ∷ mx_records) ∷ [])

  -- The last loop.
  unfoldable pub add_external : List ExternalRecord → List Endpoint → List Endpoint
  add_external [] endpoints = endpoints
  add_external (r ∷ records) endpoints =
      add_external records (endpoints ++ (new_endpoint r.dns_name r.record_type r.targets ∷ []))

  -- The endpoints of the entity for a domain, its records and the extra records of its spec.
  unfoldable pub endpoints_for : String → List DnsRecord → List ExternalRecord → List Endpoint
  unfolding split_records add_mx add_external
  endpoints_for domain_name records extra =
      let (mx_records, endpoints) = split_records records [] [] in
      add_external extra (add_mx domain_name mx_records endpoints)

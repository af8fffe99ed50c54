-- ===== src/DomainController/Records/Laws.antt =====
-- The endpoints of a domain's DNS entity, described without the loops.
use mailgun_operator.Base.{
  ◌≡◌, refl, ◌∙◌, sym, ◌==◌, String, Bool, not, inl, inr, Bool-cases, List, [], ◌∷◌, ◌++◌, map,
  if◌then◌else◌,
}
use mathlib.Core.List.{append_assoc, append-nil}
use mailgun_operator.Api.DomainTypes.{DnsRecord, ExternalRecord}
use mailgun_operator.DomainController.Records.{
  mx_target, split_records, add_mx, add_external, endpoints_for,
}

-- The elements that pass a test, in their order.
abbrev keep : {A : Type 0} → (A → Bool) → List A → List A
keep p [] = []
keep p (x ∷ xs) = if p x then x ∷ keep p xs else keep p xs

abbrev is_mx : DnsRecord → Bool
is_mx x = x.record_type == "MX"

module _ {Endpoint : Type 0} (new_endpoint : String → String → List String → Endpoint) where
  abbrev of_record : DnsRecord → Endpoint
  of_record x = new_endpoint x.name x.record_type (x.value ∷ [])

  abbrev of_external : ExternalRecord → Endpoint
  of_external x = new_endpoint x.dns_name x.record_type x.targets

  abbrev of_mx : String → List String → List Endpoint
  of_mx name [] = []
  of_mx name (m ∷ targets) = new_endpoint name "MX" (m ∷ targets) ∷ []

  split_records-keep :
      (records : List DnsRecord) (mx : List String) (endpoints : List Endpoint)
      → split_records new_endpoint records mx endpoints ≡ (
        mx ++ map mx_target (keep is_mx records),
        endpoints ++ map of_record (keep (λ x. not (is_mx x)) records),
      )
  unfolding split_records
  split_records-keep [] mx endpoints = simp append-nil
  split_records-keep (x ∷ records) mx endpoints = elim (Bool-cases (is_mx x)) [
    | inl e ↦ rw e (split_records-keep records _ _ ∙ simp append_assoc)
    | inr e ↦ rw e (split_records-keep records _ _ ∙ simp append_assoc)
  ]

  add_mx-append :
      (name : String) (targets : List String) (endpoints : List Endpoint)
      → add_mx new_endpoint name targets endpoints ≡ endpoints ++ of_mx name targets
  unfolding add_mx
  add_mx-append name [] endpoints = sym (append-nil endpoints)
  add_mx-append name (m ∷ targets) endpoints = refl

  add_external-append :
      (extra : List ExternalRecord) (endpoints : List Endpoint)
      → add_external new_endpoint extra endpoints ≡ endpoints ++ map of_external extra
  unfolding add_external
  add_external-append [] endpoints = sym (append-nil endpoints)
  add_external-append (x ∷ extra) endpoints =
      add_external-append extra (endpoints ++ (of_external x ∷ [])) ∙ append_assoc endpoints _ _

  -- One endpoint for each record that is not an MX record, in the order of the records; then one
  -- for all MX records together, if there are any, under the domain's name; then one for each
  -- extra record of the spec.
  pub endpoints_for_lem :
      (name : String) (records : List DnsRecord) (extra : List ExternalRecord)
      → endpoints_for new_endpoint name records extra
        ≡ map of_record (keep (λ x. not (is_mx x)) records)
          ++ (of_mx name (map mx_target (keep is_mx records)) ++ map of_external extra)
  unfolding endpoints_for
  endpoints_for_lem name records extra =
      rw (split_records-keep, add_external-append, add_mx-append)
        (append_assoc (map of_record (keep (λ x. not (is_mx x)) records))
          (of_mx name (map mx_target (keep is_mx records))) (map of_external extra))

-- ===== src/Api/DeepCopy/Storage/Plain.antt =====
-- The values that pointers and slices in the structs lead to, with their zero values.
use mailgun_operator.Base.{String, Bool, false, none, some, List, [], refl}
use mailgun_operator.Base.Int.{ℤ, pos}
use mailgun_operator.Api.DomainTypes.{DnsRecord}
use mailgun_operator.Api.DeepCopy.Memory.{Storable}
use mailgun_operator.Api.DeepCopy.Structs.{Library}
use mailgun_operator.Api.DeepCopy.Storage.Cells.{
  Cell, bool_cell, int_cell, text_cell, time_cell, texts_cell, dns_record_cell, dns_records_cell,
  endpoint_cell, endpoints_cell,
}

module _ {L : Library} where
  instance abbrev pub bool_storable : Storable (Cell L) Bool
  bool_storable = record {
    zero_value = false;
    into = bool_cell;
    from = λ c. elim c [ bool_cell x ↦ some x | _ ↦ none ];
    from-into = λ _. refl;
  }

  instance abbrev pub int_storable : Storable (Cell L) ℤ
  int_storable = record {
    zero_value = pos 0;
    into = int_cell;
    from = λ c. elim c [ int_cell x ↦ some x | _ ↦ none ];
    from-into = λ _. refl;
  }

  instance abbrev pub text_storable : Storable (Cell L) String
  text_storable = record {
    zero_value = "";
    into = text_cell;
    from = λ c. elim c [ text_cell x ↦ some x | _ ↦ none ];
    from-into = λ _. refl;
  }

  instance abbrev pub time_storable : Storable (Cell L) L.Time
  time_storable = record {
    zero_value = L.zero_time;
    into = time_cell;
    from = λ c. elim c [ time_cell x ↦ some x | _ ↦ none ];
    from-into = λ _. refl;
  }

  instance abbrev pub texts_storable : Storable (Cell L) (List String)
  texts_storable = record {
    zero_value = [];
    into = texts_cell;
    from = λ c. elim c [ texts_cell x ↦ some x | _ ↦ none ];
    from-into = λ _. refl;
  }

  instance abbrev pub dns_record_storable : Storable (Cell L) DnsRecord
  dns_record_storable = record {
    zero_value = record { name = ""; priority = ""; record_type = ""; valid = ""; value = "" };
    into = dns_record_cell;
    from = λ c. elim c [ dns_record_cell x ↦ some x | _ ↦ none ];
    from-into = λ _. refl;
  }

  instance abbrev pub dns_records_storable : Storable (Cell L) (List DnsRecord)
  dns_records_storable = record {
    zero_value = [];
    into = dns_records_cell;
    from = λ c. elim c [ dns_records_cell x ↦ some x | _ ↦ none ];
    from-into = λ _. refl;
  }

  instance abbrev pub endpoint_storable : Storable (Cell L) L.Endpoint
  endpoint_storable = record {
    zero_value = L.zero_endpoint;
    into = endpoint_cell;
    from = λ c. elim c [ endpoint_cell x ↦ some x | _ ↦ none ];
    from-into = λ _. refl;
  }

  instance abbrev pub endpoints_storable : Storable (Cell L) (List L.Endpoint)
  endpoints_storable = record {
    zero_value = [];
    into = endpoints_cell;
    from = λ c. elim c [ endpoints_cell x ↦ some x | _ ↦ none ];
    from-into = λ _. refl;
  }

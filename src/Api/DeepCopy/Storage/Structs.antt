-- ===== src/Api/DeepCopy/Storage/Structs.antt =====
-- The structs and the arrays of structs, with their zero values.
use mailgun_operator.Base.{none, some, List, [], refl}
use mailgun_operator.Api.DeepCopy.Memory.{Storable}
use mailgun_operator.Api.DeepCopy.Structs.{
  Library, DomainSpecStruct, DomainStatusStruct, DomainStruct, DomainListStruct, RouteSpecStruct,
  RouteStatusStruct, RouteStruct, RouteListStruct,
}
use mailgun_operator.Api.DeepCopy.Storage.Cells.{
  Cell, zero_domain_spec, zero_domain_status, zero_route_spec, zero_route_status, domain_spec_cell,
  domain_status_cell, domain_cell, domains_cell, domain_list_cell, route_spec_cell,
  route_status_cell, route_cell, routes_cell, route_list_cell,
}

module _ {L : Library} where
  instance abbrev pub domain_spec_storable : Storable (Cell L) (DomainSpecStruct L)
  domain_spec_storable = record {
    zero_value = zero_domain_spec;
    into = domain_spec_cell;
    from = λ c. elim c [ domain_spec_cell x ↦ some x | _ ↦ none ];
    from-into = λ _. refl;
  }

  instance abbrev pub domain_status_storable : Storable (Cell L) (DomainStatusStruct L)
  domain_status_storable = record {
    zero_value = zero_domain_status;
    into = domain_status_cell;
    from = λ c. elim c [ domain_status_cell x ↦ some x | _ ↦ none ];
    from-into = λ _. refl;
  }

  instance abbrev pub domain_storable : Storable (Cell L) (DomainStruct L)
  domain_storable = record {
    zero_value = record {
      type_meta = L.zero_type_meta;
      object_meta = L.zero_object_meta;
      spec = zero_domain_spec;
      status = zero_domain_status;
    };
    into = domain_cell;
    from = λ c. elim c [ domain_cell x ↦ some x | _ ↦ none ];
    from-into = λ _. refl;
  }

  instance abbrev pub domains_storable : Storable (Cell L) (List (DomainStruct L))
  domains_storable = record {
    zero_value = [];
    into = domains_cell;
    from = λ c. elim c [ domains_cell x ↦ some x | _ ↦ none ];
    from-into = λ _. refl;
  }

  instance abbrev pub domain_list_storable : Storable (Cell L) (DomainListStruct L)
  domain_list_storable = record {
    zero_value = record {
      type_meta = L.zero_type_meta;
      list_meta = L.zero_list_meta;
      items = none;
    };
    into = domain_list_cell;
    from = λ c. elim c [ domain_list_cell x ↦ some x | _ ↦ none ];
    from-into = λ _. refl;
  }

  instance abbrev pub route_spec_storable : Storable (Cell L) RouteSpecStruct
  route_spec_storable = record {
    zero_value = zero_route_spec;
    into = route_spec_cell;
    from = λ c. elim c [ route_spec_cell x ↦ some x | _ ↦ none ];
    from-into = λ _. refl;
  }

  instance abbrev pub route_status_storable : Storable (Cell L) RouteStatusStruct
  route_status_storable = record {
    zero_value = zero_route_status;
    into = route_status_cell;
    from = λ c. elim c [ route_status_cell x ↦ some x | _ ↦ none ];
    from-into = λ _. refl;
  }

  instance abbrev pub route_storable : Storable (Cell L) (RouteStruct L)
  route_storable = record {
    zero_value = record {
      type_meta = L.zero_type_meta;
      object_meta = L.zero_object_meta;
      spec = zero_route_spec;
      status = zero_route_status;
    };
    into = route_cell;
    from = λ c. elim c [ route_cell x ↦ some x | _ ↦ none ];
    from-into = λ _. refl;
  }

  instance abbrev pub routes_storable : Storable (Cell L) (List (RouteStruct L))
  routes_storable = record {
    zero_value = [];
    into = routes_cell;
    from = λ c. elim c [ routes_cell x ↦ some x | _ ↦ none ];
    from-into = λ _. refl;
  }

  instance abbrev pub route_list_storable : Storable (Cell L) (RouteListStruct L)
  route_list_storable = record {
    zero_value = record {
      type_meta = L.zero_type_meta;
      list_meta = L.zero_list_meta;
      items = none;
    };
    into = route_list_cell;
    from = λ c. elim c [ route_list_cell x ↦ some x | _ ↦ none ];
    from-into = λ _. refl;
  }

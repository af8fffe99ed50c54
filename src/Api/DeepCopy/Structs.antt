-- ===== src/Api/DeepCopy/Structs.antt =====
-- api/domain/v1/domain_types.go and route_types.go: the structs as they lie in memory, with the
-- pointers and slices that the values of `Api.DomainTypes` and `Api.RouteTypes` leave out.
use mailgun_operator.Base.{String, Bool, Option}
use mailgun_operator.Base.Int.{ℤ}
use mailgun_operator.Api.DomainTypes.{DnsRecord}
use mailgun_operator.Api.DeepCopy.Memory.{Ptr, Slice}

-- The types of apimachinery and external-dns that the structs use, with their zero values;
-- `Other` is whatever else copies of them put in memory.
pub record Library : Type 1 where
  pub TypeMeta : Type 0
  pub ObjectMeta : Type 0
  pub ListMeta : Type 0
  pub Endpoint : Type 0
  pub Time : Type 0
  pub Other : Type 0
  pub zero_type_meta : TypeMeta
  pub zero_object_meta : ObjectMeta
  pub zero_list_meta : ListMeta
  pub zero_endpoint : Endpoint
  pub zero_time : Time

pub record DomainSpecStruct (L : Library) : Type 0 where
  pub domain : String
  pub external_dns : Option (Ptr Bool)
  pub external_dns_records : Slice L.Endpoint
  pub web_scheme : Option (Ptr String)
  pub dkim_key_size : Option (Ptr ℤ)
  pub force_dkim_authority : Option (Ptr Bool)
  pub wildcard : Option (Ptr Bool)
  pub ips : Slice String
  pub spam_action : Option (Ptr String)
  pub export_credentials : Option (Ptr Bool)
  pub export_secret_name : Option (Ptr String)
  pub export_secret_login_key : Option (Ptr String)
  pub export_secret_password_key : Option (Ptr String)
  pub force_mx_check : Option (Ptr Bool)

pub record DomainStatusStruct (L : Library) : Type 0 where
  pub state : String
  pub not_managed : Bool
  pub sending_dns_records : Slice DnsRecord
  pub receiving_dns_records : Slice DnsRecord
  pub domain_state : String
  pub mailgun_error : Option (Ptr String)
  pub last_domain_validation_time : Option (Ptr L.Time)
  pub domain_validation_count : Option (Ptr ℤ)
  pub dns_entrypoint_created : Bool

pub record DomainStruct (L : Library) : Type 0 where
  pub type_meta : L.TypeMeta
  pub object_meta : L.ObjectMeta
  pub spec : DomainSpecStruct L
  pub status : DomainStatusStruct L

pub record DomainListStruct (L : Library) : Type 0 where
  pub type_meta : L.TypeMeta
  pub list_meta : L.ListMeta
  pub items : Slice (DomainStruct L)

pub record RouteSpecStruct : Type 0 where
  pub description : String
  pub expression : String
  pub actions : Slice String
  pub priority : Option (Ptr ℤ)
  pub domain : Option (Ptr String)

pub record RouteStatusStruct : Type 0 where
  pub route_id : Option (Ptr String)
  pub mailgun_error : Option (Ptr String)

pub record RouteStruct (L : Library) : Type 0 where
  pub type_meta : L.TypeMeta
  pub object_meta : L.ObjectMeta
  pub spec : RouteSpecStruct
  pub status : RouteStatusStruct

pub record RouteListStruct (L : Library) : Type 0 where
  pub type_meta : L.TypeMeta
  pub list_meta : L.ListMeta
  pub items : Slice (RouteStruct L)

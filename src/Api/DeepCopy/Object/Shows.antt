-- ===== src/Api/DeepCopy/Object/Shows.antt =====
-- What an object stands for in a memory.
use mailgun_operator.Base.{◌≡◌, Bool, true, false, Option, none, some, List}
use mailgun_operator.Api.DomainTypes.{Domain}
use mailgun_operator.Api.RouteTypes.{Route}
use mailgun_operator.Api.DeepCopy.Memory.{Heap, Ptr}
use mailgun_operator.Api.DeepCopy.Copies.Deep.{ShowsPtr}
use mailgun_operator.Api.DeepCopy.Structs.{
  Library, DomainStruct, DomainListStruct, RouteStruct, RouteListStruct,
}
use mailgun_operator.Api.DeepCopy.Storage.{
  Cell, domain_storable, domain_list_storable, route_storable, route_list_storable,
}
use mailgun_operator.Api.DeepCopy.Views.{Views}
use mailgun_operator.Api.DeepCopy.Domain.Shows.{ShowsDomain, ShowsDomainList}
use mailgun_operator.Api.DeepCopy.Route.Shows.{ShowsRoute, ShowsRouteList}
use mailgun_operator.Api.DeepCopy.Object.{
  Object, domain_object, domain_list_object, route_object, route_list_object,
}

-- The value of an object of each kind; `none` for a nil pointer.
pub data Value {L : Library} (views : Views L) : Type 0 where
  domain_value : Option (L.TypeMeta × Domain) → Value views
  domain_list_value :
      Option (L.TypeMeta × views.ListValue × List (L.TypeMeta × Domain)) → Value views
  route_value : Option (L.TypeMeta × Route) → Value views
  route_list_value : Option (L.TypeMeta × views.ListValue × List (L.TypeMeta × Route)) → Value views

abbrev is_none : {A : Type 0} → Option A → Bool
is_none none = true
is_none (some _) = false

pub data ShowsObject {L : Library} (views : Views L)
    : Object L → Value views → Heap (Cell L) → Type 0 where
  shows_domain :
      {p : Option (Ptr (DomainStruct L))} {v : Option (L.TypeMeta × Domain)} {k : Heap (Cell L)}
      → ShowsPtr (ShowsDomain views) p v k
      → ShowsObject views (domain_object p) (domain_value v) k
  shows_domain_list :
      {p : Option (Ptr (DomainListStruct L))}
      {v : Option (L.TypeMeta × views.ListValue × List (L.TypeMeta × Domain))} {k : Heap (Cell L)}
      → ShowsPtr (ShowsDomainList views) p v k
      → ShowsObject views (domain_list_object p) (domain_list_value v) k
  shows_route :
      {p : Option (Ptr (RouteStruct L))} {v : Option (L.TypeMeta × Route)} {k : Heap (Cell L)}
      → ShowsPtr (ShowsRoute views) p v k
      → ShowsObject views (route_object p) (route_value v) k
  shows_route_list :
      {p : Option (Ptr (RouteListStruct L))}
      {v : Option (L.TypeMeta × views.ListValue × List (L.TypeMeta × Route))} {k : Heap (Cell L)}
      → ShowsPtr (ShowsRouteList views) p v k
      → ShowsObject views (route_list_object p) (route_list_value v) k

module _ {L : Library} (views : Views L) where
  unfoldable pub is_nil : Value views → Bool
  is_nil (domain_value v) = is_none v
  is_nil (domain_list_value v) = is_none v
  is_nil (route_value v) = is_none v
  is_nil (route_list_value v) = is_none v

  -- A copy stands for the value, and is the nil interface for that of a nil pointer.
  unfoldable pub ShowsCopy : Option (Object L) → Value views → Heap (Cell L) → Type 0
  ShowsCopy none v k = is_nil v ≡ true
  ShowsCopy (some c) v k = (is_nil v ≡ false) × ShowsObject views c v k

-- ===== src/Api/DeepCopy/Object.antt =====
-- zz_generated.deepcopy.go: `DeepCopyObject`, which an object's `runtime.Object` is copied by.
pub mod Shows
pub mod Independence
use mailgun_operator.Base.{Option, none, some}
use mailgun_operator.Api.DeepCopy.Memory.{Ptr, Cmd, ◌>>=◌, pure}
use mailgun_operator.Api.DeepCopy.Structs.{
  Library, DomainStruct, DomainListStruct, RouteStruct, RouteListStruct,
}
use mailgun_operator.Api.DeepCopy.Storage.{Cell, Calls}
use mailgun_operator.Api.DeepCopy.Domain.{domain_deep_copy, domain_list_deep_copy}
use mailgun_operator.Api.DeepCopy.Route.{route_deep_copy, route_list_deep_copy}

-- A `runtime.Object` of one of the four kinds; the pointer in it may be nil.
pub data Object (L : Library) : Type 0 where
  domain_object : Option (Ptr (DomainStruct L)) → Object L
  domain_list_object : Option (Ptr (DomainListStruct L)) → Object L
  route_object : Option (Ptr (RouteStruct L)) → Object L
  route_list_object : Option (Ptr (RouteListStruct L)) → Object L

-- `if c != nil { return c }; return nil`
unfoldable pub unless_nil :
    {L : Library} {A : Type 0} → (Option (Ptr A) → Object L) → Option (Ptr A) → Option (Object L)
unless_nil object none = none
unless_nil object (some c) = some (object (some c))

module _ {L : Library} (calls : Calls L) where
  unfoldable pub domain_deep_copy_object :
      Option (Ptr (DomainStruct L)) → Cmd (Cell L) (Option (Object L))
  domain_deep_copy_object domain = do
    c ← domain_deep_copy calls domain
    pure (unless_nil domain_object c)

  unfoldable pub domain_list_deep_copy_object :
      Option (Ptr (DomainListStruct L)) → Cmd (Cell L) (Option (Object L))
  domain_list_deep_copy_object list = do
    c ← domain_list_deep_copy calls list
    pure (unless_nil domain_list_object c)

  unfoldable pub route_deep_copy_object :
      Option (Ptr (RouteStruct L)) → Cmd (Cell L) (Option (Object L))
  route_deep_copy_object route = do
    c ← route_deep_copy calls route
    pure (unless_nil route_object c)

  unfoldable pub route_list_deep_copy_object :
      Option (Ptr (RouteListStruct L)) → Cmd (Cell L) (Option (Object L))
  route_list_deep_copy_object list = do
    c ← route_list_deep_copy calls list
    pure (unless_nil route_list_object c)

  -- The method that the interface finds.
  unfoldable pub deep_copy_object : Object L → Cmd (Cell L) (Option (Object L))
  deep_copy_object (domain_object p) = domain_deep_copy_object p
  deep_copy_object (domain_list_object p) = domain_list_deep_copy_object p
  deep_copy_object (route_object p) = route_deep_copy_object p
  deep_copy_object (route_list_object p) = route_list_deep_copy_object p

-- ===== src/Api/DeepCopy/Route/Whole.antt =====
-- The copies of a route and of a list of routes stand for the same values, by new cells alone.
use mailgun_operator.Base.{List}
use mailgun_operator.Api.RouteTypes.{Route}
use mailgun_operator.Api.DeepCopy.Memory.{Heap}
use mailgun_operator.Api.DeepCopy.Runs.{Grows, Runs}
use mailgun_operator.Api.DeepCopy.Copies.Elements.{IsDeepCopy}
use mailgun_operator.Api.DeepCopy.Copies.Deep.{ShowsSlice-stays}
use mailgun_operator.Api.DeepCopy.Copies.Steps.{
  ◌>>=◌, run, finish, struct_copied, deep_slice_copied,
}
use mailgun_operator.Api.DeepCopy.Structs.{Library, RouteStruct, RouteListStruct}
use mailgun_operator.Api.DeepCopy.Storage.{Cell, Calls, route_storable, routes_storable}
use mailgun_operator.Api.DeepCopy.Views.{Views, AreDeep}
use mailgun_operator.Api.DeepCopy.Route.{route_deep_copy_into, route_list_deep_copy_into}
use mailgun_operator.Api.DeepCopy.Route.Shows.{ShowsRoute, ShowsRouteList}
use mailgun_operator.Api.DeepCopy.Route.Parts.{ShowsSpec-IsDeepCopy, ShowsStatus-IsDeepCopy}

module _ {L : Library} (calls : Calls L) (views : Views L) (deep : AreDeep calls views) where
  ShowsRoute-stays :
      (x : RouteStruct L) (v : L.TypeMeta × Route) {h k : Heap (Cell L)}
      → ShowsRoute views x v h
      → Grows h k
      → ShowsRoute views x v k
  ShowsRoute-stays x v s g = record {
    type_meta = s.type_meta;
    object_meta = deep.object_meta.stays x.object_meta v.1.meta s.object_meta g;
    spec = (ShowsSpec-IsDeepCopy).stays x.spec v.1.spec s.spec g;
    status = (ShowsStatus-IsDeepCopy).stays x.status v.1.status s.status g;
  }

  route_copied :
      (x : RouteStruct L) (v : L.TypeMeta × Route) (h : Heap (Cell L))
      → ShowsRoute views x v h
      → Runs h (route_deep_copy_into calls x h) (λ y k. ShowsRoute views y v k)
  unfolding route_deep_copy_into
  route_copied x v h s = run (do
    _ ← struct_copied deep.object_meta x.object_meta s.object_meta
    _ ← struct_copied ShowsSpec-IsDeepCopy x.spec s.spec
    _ ← struct_copied ShowsStatus-IsDeepCopy x.status s.status
    finish (λ k shows_status shows_spec shows_meta. record {
      type_meta = s.type_meta;
      object_meta = shows_meta;
      spec = shows_spec;
      status = shows_status;
    }))

  pub ShowsRoute-IsDeepCopy : IsDeepCopy (ShowsRoute views) (route_deep_copy_into calls)
  ShowsRoute-IsDeepCopy = record { copies = route_copied; stays = ShowsRoute-stays }

  ShowsRouteList-stays :
      (x : RouteListStruct L) (v : L.TypeMeta × views.ListValue × List (L.TypeMeta × Route))
      → {h k : Heap (Cell L)} → ShowsRouteList views x v h
      → Grows h k
      → ShowsRouteList views x v k
  ShowsRouteList-stays x v s g = record {
    type_meta = s.type_meta;
    list_meta = deep.list_meta.stays x.list_meta v.1 s.list_meta g;
    items = ShowsSlice-stays ShowsRoute-IsDeepCopy x.items v.2 s.items g;
  }

  route_list_copied :
      (x : RouteListStruct L) (v : L.TypeMeta × views.ListValue × List (L.TypeMeta × Route))
      → (h : Heap (Cell L)) → ShowsRouteList views x v h
      → Runs h (route_list_deep_copy_into calls x h) (λ y k. ShowsRouteList views y v k)
  unfolding route_list_deep_copy_into
  route_list_copied x v h s = run (do
    _ ← struct_copied deep.list_meta x.list_meta s.list_meta
    _ ← deep_slice_copied ShowsRoute-IsDeepCopy x.items v.2 s.items
    finish (λ k shows_items shows_meta. record {
      type_meta = s.type_meta;
      list_meta = shows_meta;
      items = shows_items;
    }))

  pub ShowsRouteList-IsDeepCopy :
      IsDeepCopy (ShowsRouteList views) (route_list_deep_copy_into calls)
  ShowsRouteList-IsDeepCopy = record { copies = route_list_copied; stays = ShowsRouteList-stays }

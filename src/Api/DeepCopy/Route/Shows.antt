-- ===== src/Api/DeepCopy/Route/Shows.antt =====
-- What the struct of a route stands for in a memory: the value that the reconciler works on.
use mailgun_operator.Base.{◌≡◌, some, List}
use mailgun_operator.Api.RouteTypes.{RouteSpec, RouteStatus, Route}
use mailgun_operator.Api.DeepCopy.Memory.{Heap}
use mailgun_operator.Api.DeepCopy.Copies.Pointers.{shown}
use mailgun_operator.Api.DeepCopy.Copies.Slices.{listed}
use mailgun_operator.Api.DeepCopy.Copies.Deep.{ShowsSlice}
use mailgun_operator.Api.DeepCopy.Structs.{
  Library, RouteSpecStruct, RouteStatusStruct, RouteStruct, RouteListStruct,
}
use mailgun_operator.Api.DeepCopy.Views.{Views}
use mailgun_operator.Api.DeepCopy.Storage.{
  Cell, int_storable, text_storable, texts_storable, route_storable, routes_storable,
}

pub record ShowsSpec {L : Library} (x : RouteSpecStruct) (v : RouteSpec) (k : Heap (Cell L))
    : Type 0 where
  pub description : x.description ≡ v.description
  pub expression : x.expression ≡ v.expression
  pub actions : listed x.actions k ≡ some v.actions
  pub priority : shown x.priority k ≡ some v.priority
  pub domain : shown x.domain k ≡ some v.domain

pub record ShowsStatus {L : Library} (x : RouteStatusStruct) (v : RouteStatus) (k : Heap (Cell L))
    : Type 0 where
  pub route_id : shown x.route_id k ≡ some v.route_id
  pub mailgun_error : shown x.mailgun_error k ≡ some v.mailgun_error

-- The value has the kind and the version of the object beside it.
pub record ShowsRoute {L : Library} (views : Views L) (x : RouteStruct L) (v : L.TypeMeta × Route)
    (k : Heap (Cell L)) : Type 0 where
  pub type_meta : x.type_meta ≡ v.0
  pub object_meta : views.ShowsObjectMeta x.object_meta v.1.meta k
  pub spec : ShowsSpec x.spec v.1.spec k
  pub status : ShowsStatus x.status v.1.status k

pub record ShowsRouteList {L : Library} (views : Views L) (x : RouteListStruct L)
    (v : L.TypeMeta × views.ListValue × List (L.TypeMeta × Route)) (k : Heap (Cell L))
    : Type 0 where
  pub type_meta : x.type_meta ≡ v.0
  pub list_meta : views.ShowsListMeta x.list_meta v.1 k
  pub items : ShowsSlice (ShowsRoute views) x.items v.2 k

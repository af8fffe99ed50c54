-- ===== src/Api/DeepCopy/Route.antt =====
-- zz_generated.deepcopy.go: the copies of routes. `DeepCopyInto` gives back the struct that it
-- leaves in `*out`, which starts as `*in`.
pub mod Shows
pub mod Parts
pub mod Whole
use mailgun_operator.Base.{Option}
use mailgun_operator.Api.DeepCopy.Memory.{Ptr, Cmd, ◌>>=◌, pure}
use mailgun_operator.Api.DeepCopy.Copies.{copy_pointer, copy_slice, copy_deep_slice, deep_copy_by}
use mailgun_operator.Api.DeepCopy.Structs.{
  Library, RouteSpecStruct, RouteStatusStruct, RouteStruct, RouteListStruct,
}
use mailgun_operator.Api.DeepCopy.Storage.{
  Cell, Calls, int_storable, text_storable, texts_storable, route_spec_storable,
  route_status_storable, route_storable, routes_storable, route_list_storable,
}

module _ {L : Library} where
  unfoldable pub route_spec_deep_copy_into : RouteSpecStruct → Cmd (Cell L) RouteSpecStruct
  route_spec_deep_copy_into spec = do
    actions' ← copy_slice spec.actions
    priority' ← copy_pointer spec.priority
    domain' ← copy_pointer spec.domain
    pure (record spec { actions = actions'; priority = priority'; domain = domain' })

  unfoldable pub route_spec_deep_copy :
      Option (Ptr RouteSpecStruct) → Cmd (Cell L) (Option (Ptr RouteSpecStruct))
  route_spec_deep_copy = deep_copy_by route_spec_deep_copy_into

  unfoldable pub route_status_deep_copy_into : RouteStatusStruct → Cmd (Cell L) RouteStatusStruct
  route_status_deep_copy_into status = do
    id ← copy_pointer status.route_id
    error ← copy_pointer status.mailgun_error
    pure (record status { route_id = id; mailgun_error = error })

  unfoldable pub route_status_deep_copy :
      Option (Ptr RouteStatusStruct) → Cmd (Cell L) (Option (Ptr RouteStatusStruct))
  route_status_deep_copy = deep_copy_by route_status_deep_copy_into

module _ {L : Library} (calls : Calls L) where
  unfoldable pub route_deep_copy_into : RouteStruct L → Cmd (Cell L) (RouteStruct L)
  route_deep_copy_into route = do
    meta ← calls.object_meta_deep_copy_into route.object_meta
    spec' ← route_spec_deep_copy_into route.spec
    status' ← route_status_deep_copy_into route.status
    pure (record route { object_meta = meta; spec = spec'; status = status' })

  unfoldable pub route_deep_copy :
      Option (Ptr (RouteStruct L)) → Cmd (Cell L) (Option (Ptr (RouteStruct L)))
  route_deep_copy = deep_copy_by route_deep_copy_into

  unfoldable pub route_list_deep_copy_into : RouteListStruct L → Cmd (Cell L) (RouteListStruct L)
  route_list_deep_copy_into list = do
    meta ← calls.list_meta_deep_copy_into list.list_meta
    routes ← copy_deep_slice route_deep_copy_into list.items
    pure (record list { list_meta = meta; items = routes })

  unfoldable pub route_list_deep_copy :
      Option (Ptr (RouteListStruct L)) → Cmd (Cell L) (Option (Ptr (RouteListStruct L)))
  route_list_deep_copy = deep_copy_by route_list_deep_copy_into

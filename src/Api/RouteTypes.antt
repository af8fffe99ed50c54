-- ===== src/Api/RouteTypes.antt =====
-- api/domain/v1/route_types.go
use mailgun_operator.Base.{String, Option, none, List, []}
use mailgun_operator.Base.Int.{ℤ}
use mailgun_operator.Api.Meta.{ObjectMeta, zero_meta}

pub record RouteSpec : Type 0 where
  pub description : String
  pub expression : String
  pub actions : List String
  pub priority : Option ℤ
  pub domain : Option String

pub record RouteStatus : Type 0 where
  pub route_id : Option String
  pub mailgun_error : Option String

pub record Route : Type 0 where
  pub meta : ObjectMeta
  pub spec : RouteSpec
  pub status : RouteStatus

-- `&domainv1.Route{}`
abbrev pub zero_route : Route
zero_route = record {
  meta = zero_meta;
  spec = record { description = ""; expression = ""; actions = []; priority = none; domain = none };
  status = record { route_id = none; mailgun_error = none };
}

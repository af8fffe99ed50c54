-- ===== src/Api.antt =====
-- api/domain/v1: the custom resources.
pub mod Meta
pub mod DomainTypes
pub mod RouteTypes
pub mod DeepCopy

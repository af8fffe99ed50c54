-- ===== src/DomainController/Protocol.antt =====
-- The order of the calls of one `Reconcile`, as a state machine that is written without looking
-- at the program: which call may follow which, and what it has to have answered.
pub mod Stages
pub mod Order
use mailgun_operator.Base.{
  String, Bool, true, false, Option, none, some, List, [], ◌∷◌, ◌==◌, if◌then◌else◌,
}
use mailgun_operator.Api.Meta.{Error}
use mailgun_operator.DomainController.Run.{
  Call, fetched, updated, status_updated, secret_read, secret_written, endpoint_read,
  endpoint_created, endpoint_deleted, event_recorded, random_read, domain_read, domain_created,
  domain_verified, domain_deleted,
}

-- How far a run is. `loaded`: the object is read, and `registered`: its finalizer is stored.
-- Creation: `unclaimed` (Mailgun has no such domain), `secured` (there is a password), `made` (the
-- domain is created), `exporting`, `exported`, `provisioned` (the status is stored).
-- `described`: the DNS entity is created, `announced`: that is stored.
-- `present`: Mailgun has the domain; `checked`: it was verified; `inspected`: its MX records were
-- read. Deletion: `removing`, `endpoint_known`, `endpoint_settled`, `endpoint_failed`, `existing`,
-- `gone`, `refused`, `refusing`. `halted`: no call may follow.
pub data Phase : Type 0 where
  start loaded registered unclaimed secured made exporting exported provisioned described
        announced :
      Phase
  present checked inspected : Phase
  removing endpoint_known endpoint_settled endpoint_failed existing gone refused refusing : Phase
  failing halted : Phase

-- `p` if the call succeeded, `q` if it failed.
abbrev pub by_error : Option Error → Phase → Phase → Option Phase
by_error none p q = some p
by_error (some _) p q = some q

module _ {Endpoint : Type 0} where
  -- The phase that a call leads to; `none` if it must not be made.
  unfoldable pub follow : Phase → Call Endpoint → Option Phase
  follow start (fetched _ e) = by_error e loaded halted
  follow loaded (updated _ e) = by_error e registered halted
  follow loaded (domain_read _ e) = by_error e present unclaimed
  follow loaded (endpoint_created _ e) = by_error e described halted
  follow loaded (event_recorded _ _) = some removing
  follow registered (domain_read _ e) = by_error e present unclaimed
  follow registered (endpoint_created _ e) = by_error e described halted
  follow unclaimed (random_read e) = by_error e secured failing
  follow unclaimed (status_updated _ _) = some halted
  follow secured (domain_created _ _ e) = by_error e made failing
  follow made (secret_read _ e) = some exporting
  follow made (status_updated _ e) = by_error e provisioned failing
  follow exporting (secret_written _ e) = by_error e exported failing
  follow exporting (status_updated _ e) = some halted
  follow exported (status_updated _ e) = by_error e provisioned failing
  follow provisioned (endpoint_created _ e) = by_error e described halted
  follow provisioned (domain_read _ e) = by_error e present failing
  follow described (status_updated _ e) = by_error e announced halted
  follow announced (domain_read _ e) = by_error e present failing
  follow present (event_recorded _ _) = some failing
  follow present (domain_verified _ e) = by_error e checked halted
  follow checked (domain_read _ _) = some inspected
  follow checked (status_updated _ _) = some halted
  follow inspected (status_updated _ _) = some halted
  follow removing (endpoint_read _ _) = some endpoint_known
  follow endpoint_known (endpoint_deleted _ e) = by_error e endpoint_settled endpoint_failed
  follow endpoint_settled (event_recorded _ _) = some refused
  follow endpoint_failed (updated _ e) = by_error e refused halted
  follow refused (domain_read _ e) = by_error e existing gone
  follow existing (domain_deleted _ e) = by_error e gone refusing
  follow refusing (event_recorded _ _) = some failing
  follow gone (updated _ _) = some halted
  follow failing (status_updated _ _) = some halted
  follow _ _ = none

  abbrev pub and_then : Option Phase → Call Endpoint → Option Phase
  and_then none c = none
  and_then (some p) c = follow p c

  -- The phase after the calls, newest first, of a run; `none` if they break the order.
  abbrev pub phase : List (Call Endpoint) → Option Phase
  phase [] = some start
  phase (c ∷ calls) = and_then (phase calls) c

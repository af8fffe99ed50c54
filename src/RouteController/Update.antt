-- ===== src/RouteController/Update.antt =====
-- When a route on Mailgun is updated.
use mailgun_operator.Base.{◌≡◌, ◌↔◌, eq_iff, true, false, arith}
use mailgun_operator.Base.Int.{ℤ, pos, negsuc, int_eq}
use mailgun_operator.Base.Lists.{length}
use mailgun_operator.External.{MailgunRoute}
use mailgun_operator.RouteController.Run.{Run}
use mailgun_operator.RouteController.Sync.{needs_update}

int_eq_iff : (a b : ℤ) → (int_eq a b ≡ true) ↔ (a ≡ b)
int_eq_iff (pos a) (pos b) = ground arith
int_eq_iff (negsuc a) (negsuc b) = ground arith
int_eq_iff (pos a) (negsuc b) = ground arith
int_eq_iff (negsuc a) (pos b) = ground arith

-- The parts of a route that the operator compares: of the actions only their number.
pub record InLine (existing wanted : MailgunRoute) : Type 0 where
  pub description : existing.description ≡ wanted.description
  pub expression : existing.expression ≡ wanted.expression
  pub actions : length existing.actions ≡ length wanted.actions
  pub priority : existing.priority ≡ wanted.priority

-- The test for an update fails exactly on the routes that agree in the compared parts.
pub needs_update_iff :
    (existing wanted : MailgunRoute)
    → (needs_update existing wanted ≡ false) ↔ InLine existing wanted
unfolding needs_update
needs_update_iff existing wanted = ground (
  arith,
  eq_iff existing.description wanted.description,
  eq_iff existing.expression wanted.expression,
  int_eq_iff existing.priority wanted.priority,
)

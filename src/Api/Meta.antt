-- ===== src/Api/Meta.antt =====
-- The part of an object's metadata that the operator reads (`metav1.ObjectMeta`), and the
-- errors of the libraries as far as the operator looks at them.
use mailgun_operator.Base.Exec.{M}
use mailgun_operator.Base.{ℕ, String, Bool, Option, none, some, List, []}

-- `types.NamespacedName`
pub record Key : Type 0 where
  pub namespace : String
  pub name : String

-- A deletion timestamp is a time in seconds; `none` is the zero value.
pub record ObjectMeta : Type 0 where
  pub name : String
  pub namespace : String
  pub deletion_timestamp : Option ℕ
  pub finalizers : List String

abbrev pub zero_meta : ObjectMeta
zero_meta = record { name = ""; namespace = ""; deletion_timestamp = none; finalizers = [] }

-- The operator asks an error only whether it is a "not found" and for its text.
pub record Error : Type 0 where
  pub not_found : Bool
  pub text : String

-- The `(value, error)` that a call of a library returns.
pub data Res (A : Type 0) : Type 0 where
  ok : A → Res A
  err : Error → Res A

-- `err` of such a call.
abbrev pub error_of : {A : Type 0} → Res A → Option Error
error_of (ok _) = none
error_of (err e) = some e

-- `if err != nil { m } else { n }`
abbrev pub if_failed : {S R A B : Type 0} → Res B → (Error → M S R A) → (B → M S R A) → M S R A
if_failed x m n s = elim x [ ok b ↦ n b s | err e ↦ m e s ]

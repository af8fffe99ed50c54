-- ===== src/Api/DeepCopy/Storage.antt =====
-- What a cell of the memory holds, the zero value of each type, and the copies of the libraries.
mod Cells
mod Plain
mod Structs
pub use Cells.*
pub use Plain.*
pub use Structs.*
use mailgun_operator.Api.DeepCopy.Memory.{Ptr, Cmd}
use mailgun_operator.Api.DeepCopy.Structs.{Library}

-- `DeepCopyInto` of `metav1.ObjectMeta`, `metav1.ListMeta` and `endpoint.Endpoint`, and `DeepCopy`
-- of a `*metav1.Time` that is not nil.
pub record Calls (L : Library) : Type 0 where
  pub object_meta_deep_copy_into : L.ObjectMeta → Cmd (Cell L) L.ObjectMeta
  pub list_meta_deep_copy_into : L.ListMeta → Cmd (Cell L) L.ListMeta
  pub endpoint_deep_copy_into : L.Endpoint → Cmd (Cell L) L.Endpoint
  pub time_deep_copy : Ptr L.Time → Cmd (Cell L) (Ptr L.Time)

-- ===== src/Api/DeepCopy/Simulation.antt =====
-- Libraries for a run: metadata has a slice of finalizers, and the other structs have no pointers.
use mailgun_operator.Base.{ℕ, String, none, []}
use mailgun_operator.Api.DomainTypes.{ExternalRecord}
use mailgun_operator.Api.DeepCopy.Memory.{Slice, ◌>>=◌, pure, load, allocate}
use mailgun_operator.Api.DeepCopy.Copies.{copy_slice}
use mailgun_operator.Api.DeepCopy.Structs.{Library}
use mailgun_operator.Api.DeepCopy.Storage.{Calls, text_storable, texts_storable, time_storable}

-- The metadata of an object: its name and the slice of its finalizers.
pub record Metadata : Type 0 where
  pub name : String
  pub finalizers : Slice String

abbrev pub library : Library
library = record {
  TypeMeta = String;
  ObjectMeta = Metadata;
  ListMeta = String;
  Endpoint = ExternalRecord;
  Time = ℕ;
  Other = Unit;
  zero_type_meta = "";
  zero_object_meta = record { name = ""; finalizers = none };
  zero_list_meta = "";
  zero_endpoint = record { dns_name = ""; record_type = ""; targets = [] };
  zero_time = 0;
}

abbrev pub calls : Calls library
calls = record {
  object_meta_deep_copy_into = λ m. do
    copies ← copy_slice m.finalizers
    pure (record m { finalizers = copies });
  list_meta_deep_copy_into = pure;
  endpoint_deep_copy_into = pure;
  time_deep_copy = λ p. do
    t ← load p
    allocate t;
}

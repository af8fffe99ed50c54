-- ===== src/Api/DeepCopy/Views.antt =====
-- What the structs of the libraries stand for in a memory, and that the libraries' copies are deep.
use mailgun_operator.Base.{ℕ, ◌≡◌, some}
use mailgun_operator.Api.Meta.{ObjectMeta}
use mailgun_operator.Api.DomainTypes.{ExternalRecord}
use mailgun_operator.Api.DeepCopy.Memory.{Heap, Ptr, read}
use mailgun_operator.Api.DeepCopy.Runs.{Runs}
use mailgun_operator.Api.DeepCopy.Copies.Elements.{IsDeepCopy}
use mailgun_operator.Api.DeepCopy.Structs.{Library}
use mailgun_operator.Api.DeepCopy.Storage.{Cell, Calls, time_storable}

-- What the structs of the libraries stand for.
pub record Views (L : Library) : Type 1 where
  pub ListValue : Type 0
  pub ShowsObjectMeta : L.ObjectMeta → ObjectMeta → Heap (Cell L) → Type 0
  pub ShowsListMeta : L.ListMeta → ListValue → Heap (Cell L) → Type 0
  pub ShowsEndpoint : L.Endpoint → ExternalRecord → Heap (Cell L) → Type 0
  pub seconds : L.Time → ℕ

module _ {L : Library} (views : Views L) where
  abbrev pub ShowsTime : L.Time → ℕ → Heap (Cell L) → Type 0
  ShowsTime t n _ = views.seconds t ≡ n

pub record AreDeep {L : Library} (calls : Calls L) (views : Views L) : Type 0 where
  pub object_meta : IsDeepCopy views.ShowsObjectMeta calls.object_meta_deep_copy_into
  pub list_meta : IsDeepCopy views.ShowsListMeta calls.list_meta_deep_copy_into
  pub endpoint : IsDeepCopy views.ShowsEndpoint calls.endpoint_deep_copy_into
  pub time :
      (p : Ptr L.Time) (t : L.Time) (h : Heap (Cell L))
      → read p h ≡ some t
      → Runs h (calls.time_deep_copy p h) (λ q k. read q k ≡ some t)

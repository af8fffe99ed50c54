-- ===== src/Api/DeepCopy/Domain/Whole.antt =====
-- The copies of a domain and of a list of domains stand for the same values, by new cells alone.
use mailgun_operator.Base.{List}
use mailgun_operator.Api.DomainTypes.{Domain}
use mailgun_operator.Api.DeepCopy.Memory.{Heap}
use mailgun_operator.Api.DeepCopy.Runs.{Grows, Runs}
use mailgun_operator.Api.DeepCopy.Copies.Elements.{IsDeepCopy}
use mailgun_operator.Api.DeepCopy.Copies.Deep.{ShowsSlice-stays}
use mailgun_operator.Api.DeepCopy.Copies.Steps.{
  ◌>>=◌, run, finish, struct_copied, deep_slice_copied,
}
use mailgun_operator.Api.DeepCopy.Structs.{Library, DomainStruct, DomainListStruct}
use mailgun_operator.Api.DeepCopy.Storage.{Cell, Calls, domain_storable, domains_storable}
use mailgun_operator.Api.DeepCopy.Views.{Views, AreDeep}
use mailgun_operator.Api.DeepCopy.Domain.{domain_deep_copy_into, domain_list_deep_copy_into}
use mailgun_operator.Api.DeepCopy.Domain.Shows.{ShowsDomain, ShowsDomainList}
use mailgun_operator.Api.DeepCopy.Domain.Spec.{ShowsSpec-IsDeepCopy}
use mailgun_operator.Api.DeepCopy.Domain.Status.{ShowsStatus-IsDeepCopy}

module _ {L : Library} (calls : Calls L) (views : Views L) (deep : AreDeep calls views) where
  ShowsDomain-stays :
      (x : DomainStruct L) (v : L.TypeMeta × Domain) {h k : Heap (Cell L)}
      → ShowsDomain views x v h
      → Grows h k
      → ShowsDomain views x v k
  ShowsDomain-stays x v s g = record {
    type_meta = s.type_meta;
    object_meta = deep.object_meta.stays x.object_meta v.1.meta s.object_meta g;
    spec = (ShowsSpec-IsDeepCopy calls views deep.endpoint).stays x.spec v.1.spec s.spec g;
    status = (ShowsStatus-IsDeepCopy calls views deep).stays x.status v.1.status s.status g;
  }

  domain_copied :
      (x : DomainStruct L) (v : L.TypeMeta × Domain) (h : Heap (Cell L))
      → ShowsDomain views x v h
      → Runs h (domain_deep_copy_into calls x h) (λ y k. ShowsDomain views y v k)
  unfolding domain_deep_copy_into
  domain_copied x v h s = run (do
    _ ← struct_copied deep.object_meta x.object_meta s.object_meta
    _ ← struct_copied (ShowsSpec-IsDeepCopy calls views deep.endpoint) x.spec s.spec
    _ ← struct_copied (ShowsStatus-IsDeepCopy calls views deep) x.status s.status
    finish (λ k shows_status shows_spec shows_meta. record {
      type_meta = s.type_meta;
      object_meta = shows_meta;
      spec = shows_spec;
      status = shows_status;
    }))

  pub ShowsDomain-IsDeepCopy : IsDeepCopy (ShowsDomain views) (domain_deep_copy_into calls)
  ShowsDomain-IsDeepCopy = record { copies = domain_copied; stays = ShowsDomain-stays }

  ShowsDomainList-stays :
      (x : DomainListStruct L) (v : L.TypeMeta × views.ListValue × List (L.TypeMeta × Domain))
      → {h k : Heap (Cell L)} → ShowsDomainList views x v h
      → Grows h k
      → ShowsDomainList views x v k
  ShowsDomainList-stays x v s g = record {
    type_meta = s.type_meta;
    list_meta = deep.list_meta.stays x.list_meta v.1 s.list_meta g;
    items = ShowsSlice-stays ShowsDomain-IsDeepCopy x.items v.2 s.items g;
  }

  domain_list_copied :
      (x : DomainListStruct L) (v : L.TypeMeta × views.ListValue × List (L.TypeMeta × Domain))
      → (h : Heap (Cell L)) → ShowsDomainList views x v h
      → Runs h (domain_list_deep_copy_into calls x h) (λ y k. ShowsDomainList views y v k)
  unfolding domain_list_deep_copy_into
  domain_list_copied x v h s = run (do
    _ ← struct_copied deep.list_meta x.list_meta s.list_meta
    _ ← deep_slice_copied ShowsDomain-IsDeepCopy x.items v.2 s.items
    finish (λ k shows_items shows_meta. record {
      type_meta = s.type_meta;
      list_meta = shows_meta;
      items = shows_items;
    }))

  pub ShowsDomainList-IsDeepCopy :
      IsDeepCopy (ShowsDomainList views) (domain_list_deep_copy_into calls)
  ShowsDomainList-IsDeepCopy = record { copies = domain_list_copied; stays = ShowsDomainList-stays }

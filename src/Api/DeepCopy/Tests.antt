-- ===== src/Api/DeepCopy/Tests.antt =====
-- The copy of a list with one domain, in a small memory, and writes to the cells on either side.
use mailgun_operator.Base.{
  ℕ, String, ◌≡◌, refl, true, false, Option, none, some, List, [], ◌∷◌, arith,
}
use mailgun_operator.Base.Lists.{all}
use mailgun_operator.Api.Meta.{ObjectMeta}
use mailgun_operator.Api.DomainTypes.{Domain, zero_spec, zero_status}
use mailgun_operator.Api.DeepCopy.Memory.{Heap, Ptr, pure, read, allocate, write}
use mailgun_operator.Api.DeepCopy.Runs.{Runs, Runs-pure, read-Keeps}
use mailgun_operator.Api.DeepCopy.Copies.Pointers.{
  shown, allocated, read-allocated, Grows-allocated, load-bind,
}
use mailgun_operator.Api.DeepCopy.Copies.Slices.{listed, listed-stays}
use mailgun_operator.Api.DeepCopy.Copies.Elements.{IsDeepCopy, ShowsAll}
use mailgun_operator.Api.DeepCopy.Copies.Deep.{ShowsSlice, ShowsPtr}
use mailgun_operator.Api.DeepCopy.Copies.Steps.{◌>>=◌, run, finish, slice_copied}
use mailgun_operator.Api.DeepCopy.Simulation.{Metadata, library, calls}
use mailgun_operator.Api.DeepCopy.Structs.{
  DomainStruct, DomainListStruct, DomainSpecStruct, DomainStatusStruct,
}
use mailgun_operator.Api.DeepCopy.Storage.{
  Cell, bool_cell, time_cell, texts_cell, domains_cell, domain_list_cell, text_storable,
  texts_storable, time_storable, bool_storable, int_storable, dns_records_storable,
  domains_storable, domain_list_storable, endpoints_storable,
}
use mailgun_operator.Api.DeepCopy.Views.{Views, AreDeep}
use mailgun_operator.Api.DeepCopy.Object.{Object, domain_list_object, deep_copy_object}
use mailgun_operator.Api.DeepCopy.Object.Shows.{
  Value, domain_list_value, ShowsObject, ShowsCopy, shows_domain_list,
}
use mailgun_operator.Api.DeepCopy.Object.Independence.{
  write_all, are_below, are_from, deep_copy_object-independent,
}

record ShowsMetadata (m : Metadata) (v : ObjectMeta) (k : Heap (Cell library)) : Type 0 where
  name : m.name ≡ v.name
  namespace : v.namespace ≡ ""
  deletion_timestamp : v.deletion_timestamp ≡ none
  finalizers : listed m.finalizers k ≡ some v.finalizers

abbrev views : Views library
views = record {
  ListValue = String;
  ShowsObjectMeta = ShowsMetadata;
  ShowsListMeta = λ x v _. x ≡ v;
  ShowsEndpoint = λ x v _. x ≡ v;
  seconds = λ t. t;
}

plain-IsDeepCopy : {A : Type 0} → IsDeepCopy {Cell = Cell library} {A = A} (λ x v _. x ≡ v) pure
plain-IsDeepCopy = record { copies = λ x v h s. Runs-pure (λ _. s); stays = λ x v s _. s }

metadata-IsDeepCopy : IsDeepCopy ShowsMetadata calls.object_meta_deep_copy_into
metadata-IsDeepCopy = record {
  copies = λ m v h s. run (do
    _ ← slice_copied m.finalizers s.finalizers
    finish (λ k shows_finalizers. record {
      name = s.name;
      namespace = s.namespace;
      deletion_timestamp = s.deletion_timestamp;
      finalizers = shows_finalizers;
    }));
  stays = λ m v s g. record {
    name = s.name;
    namespace = s.namespace;
    deletion_timestamp = s.deletion_timestamp;
    finalizers = listed-stays m.finalizers v.finalizers s.finalizers g;
  };
}

time_copied :
    (p : Ptr ℕ) (t : ℕ) (h : Heap (Cell library))
    → read p h ≡ some t
    → Runs h (calls.time_deep_copy p h) (λ q k. read q k ≡ some t)
unfolding allocate allocated
time_copied p t h e = record {
  value = record { address = h.next };
  after = allocated t h;
  returns = load-bind p (allocate) t h e;
  grows = Grows-allocated t h;
  holds = λ k kept.
      read-Keeps (record { address = h.next }) t kept (omega arith) (omega arith)
        (read-allocated t h);
}

are_deep : AreDeep calls views
are_deep = record {
  object_meta = metadata-IsDeepCopy;
  list_meta = plain-IsDeepCopy;
  endpoint = plain-IsDeepCopy;
  time = time_copied;
}

abbrev example_spec : DomainSpecStruct library
example_spec = record {
  domain = "example.com";
  external_dns = some (record { address = 0 });
  external_dns_records = none;
  web_scheme = none;
  dkim_key_size = none;
  force_dkim_authority = none;
  wildcard = none;
  ips = none;
  spam_action = none;
  export_credentials = none;
  export_secret_name = none;
  export_secret_login_key = none;
  export_secret_password_key = none;
  force_mx_check = none;
}

abbrev example_status : DomainStatusStruct library
example_status = record {
  state = "";
  not_managed = false;
  sending_dns_records = none;
  receiving_dns_records = none;
  domain_state = "";
  mailgun_error = none;
  last_domain_validation_time = some (record { address = 4 });
  domain_validation_count = none;
  dns_entrypoint_created = false;
}

abbrev example_domain : DomainStruct library
example_domain = record {
  type_meta = "Domain";
  object_meta = record { name = "example"; finalizers = some (record { address = 1 }) };
  spec = example_spec;
  status = example_status;
}

abbrev example_list : DomainListStruct library
example_list = record {
  type_meta = "DomainList";
  list_meta = "17";
  items = some (record { address = 2 });
}

abbrev example_cell : ℕ → Option (Cell library)
example_cell = write 0 (bool_cell true) (
    write 1 (texts_cell ("domain.mailgun.com/finalizer" ∷ [])) (
      write 2 (domains_cell (example_domain ∷ []))
        (write 3 (domain_list_cell example_list) (write 4 (time_cell 60) (λ _. none)))))

abbrev example_heap : Heap (Cell library)
example_heap = record { next = 5; cell = example_cell }

abbrev example_object : Object library
example_object = domain_list_object (some (record { address = 3 }))

abbrev domain_shown : Domain
domain_shown = record {
  meta = record {
    name = "example";
    namespace = "";
    deletion_timestamp = none;
    finalizers = "domain.mailgun.com/finalizer" ∷ [];
  };
  spec = record zero_spec { domain = "example.com"; external_dns = some true };
  status = record zero_status { last_domain_validation_time = some 60 };
}

abbrev value_shown : Value views
value_shown = domain_list_value (some ("DomainList", "17", ("Domain", domain_shown) ∷ []))

object_shown : ShowsObject views example_object value_shown example_heap
unfolding ShowsPtr ShowsSlice ShowsAll shown listed read
object_shown = shows_domain_list (
  example_list,
  refl,
  record {
    type_meta = refl;
    list_meta = refl;
    items = (
      example_domain ∷ [],
      refl,
      (
        record {
          type_meta = refl;
          object_meta = record {
            name = refl;
            namespace = refl;
            deletion_timestamp = refl;
            finalizers = refl;
          };
          spec = record {
            domain = refl;
            external_dns = refl;
            external_dns_records = refl;
            web_scheme = refl;
            dkim_key_size = refl;
            force_dkim_authority = refl;
            wildcard = refl;
            ips = refl;
            spam_action = refl;
            export_credentials = refl;
            export_secret_name = refl;
            export_secret_login_key = refl;
            export_secret_password_key = refl;
            force_mx_check = refl;
          };
          status = record {
            state = refl;
            not_managed = refl;
            sending_dns_records = refl;
            receiving_dns_records = refl;
            domain_state = refl;
            mailgun_error = refl;
            last_domain_validation_time = (60, refl, refl);
            domain_validation_count = refl;
            dns_entrypoint_created = refl;
          };
        },
        tt,
      ),
    );
  },
)

abbrev old_writes : List (ℕ × Cell library)
old_writes = (0, bool_cell false) ∷ (2, domains_cell []) ∷ []

abbrev new_writes : List (ℕ × Cell library)
new_writes = (5, bool_cell false) ∷ (6, texts_cell []) ∷ (9, domains_cell []) ∷ []

deep_copy_object-independent_example :
    (c : Option (Object library)) × (k : Heap (Cell library)) × (deep_copy_object calls
        example_object example_heap
      ≡ some (c, k))
    × ShowsCopy views c value_shown (write_all old_writes k)
    × ShowsObject views example_object value_shown (write_all new_writes k)
unfolding are_below are_from all
deep_copy_object-independent_example =
    deep_copy_object-independent calls views are_deep example_object value_shown example_heap
      old_writes new_writes object_shown refl refl

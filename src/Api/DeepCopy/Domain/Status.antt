-- ===== src/Api/DeepCopy/Domain/Status.antt =====
-- The copy of a domain's status stands for the same value, by new cells alone.
use mailgun_operator.Base.{ℕ, Option, none, some}
use mailgun_operator.Api.DomainTypes.{DomainStatus}
use mailgun_operator.Api.DeepCopy.Memory.{Heap, Ptr, pure}
use mailgun_operator.Api.DeepCopy.Runs.{Grows, Runs, Runs-pure, Runs-bind, read-Grows}
use mailgun_operator.Api.DeepCopy.Copies.Pointers.{shown-stays}
use mailgun_operator.Api.DeepCopy.Copies.Slices.{listed-stays}
use mailgun_operator.Api.DeepCopy.Copies.Elements.{IsDeepCopy}
use mailgun_operator.Api.DeepCopy.Copies.Deep.{ShowsPtr}
use mailgun_operator.Api.DeepCopy.Copies.Steps.{
  Step, ◌>>=◌, run, finish, pointer_copied, slice_copied,
}
use mailgun_operator.Api.DeepCopy.Structs.{Library, DomainStatusStruct}
use mailgun_operator.Api.DeepCopy.Storage.{
  Cell, Calls, bool_storable, int_storable, text_storable, time_storable, texts_storable,
  dns_record_storable, dns_records_storable, endpoint_storable, endpoints_storable,
}
use mailgun_operator.Api.DeepCopy.Domain.{domain_status_deep_copy_into, copy_time}
use mailgun_operator.Api.DeepCopy.Domain.Shows.{ShowsStatus}
use mailgun_operator.Api.DeepCopy.Views.{Views, ShowsTime, AreDeep}

module _ {L : Library} (calls : Calls L) (views : Views L) (deep : AreDeep calls views) where
  ShowsTime-stays :
      (p : Option (Ptr L.Time)) (v : Option ℕ) {h k : Heap (Cell L)}
      → ShowsPtr (ShowsTime views) p v h
      → Grows h k
      → ShowsPtr (ShowsTime views) p v k
  unfolding ShowsPtr
  ShowsTime-stays none none shows g = tt
  ShowsTime-stays (some p) (some v) shows g =
      let (t, reads, is) = shows in (t, read-Grows p t g reads, is)
  ShowsTime-stays none (some _) shows g = elim shows [ ]
  ShowsTime-stays (some _) none shows g = elim shows [ ]

  Runs-copy_time :
      (p : Option (Ptr L.Time)) (v : Option ℕ) (h : Heap (Cell L))
      → ShowsPtr (ShowsTime views) p v h
      → Runs h (copy_time calls p h) (λ q k. ShowsPtr (ShowsTime views) q v k)
  unfolding copy_time ShowsPtr
  Runs-copy_time none none h shows = Runs-pure (λ _. tt)
  Runs-copy_time (some p) (some v) h shows =
      let (t, reads, is) = shows in
      Runs-bind (calls.time_deep_copy p) (λ q. pure (some q)) (deep.time p t h reads)
        (λ q k g. Runs-pure (λ l reads'. (t, reads', is)))
  Runs-copy_time none (some _) h shows = elim shows [ ]
  Runs-copy_time (some _) none h shows = elim shows [ ]

  time_copied :
      (p : Option (Ptr L.Time)) (v : Option ℕ) {base : Heap (Cell L)}
      → ShowsPtr (ShowsTime views) p v base
      → Step base (copy_time calls p) (λ q k. ShowsPtr (ShowsTime views) q v k)
  time_copied p v s = record { at = λ k g. Runs-copy_time p v k (ShowsTime-stays p v s g) }

  ShowsStatus-stays :
      (x : DomainStatusStruct L) (v : DomainStatus) {h k : Heap (Cell L)}
      → ShowsStatus views x v h
      → Grows h k
      → ShowsStatus views x v k
  ShowsStatus-stays x v s g = record {
    state = s.state;
    not_managed = s.not_managed;
    domain_state = s.domain_state;
    dns_entrypoint_created = s.dns_entrypoint_created;
    sending_dns_records =
        listed-stays x.sending_dns_records v.sending_dns_records s.sending_dns_records g;
    receiving_dns_records =
        listed-stays x.receiving_dns_records v.receiving_dns_records s.receiving_dns_records g;
    mailgun_error = shown-stays x.mailgun_error v.mailgun_error s.mailgun_error g;
    last_domain_validation_time =
        ShowsTime-stays x.last_domain_validation_time v.last_domain_validation_time
          s.last_domain_validation_time g;
    domain_validation_count =
        shown-stays x.domain_validation_count v.domain_validation_count s.domain_validation_count g;
  }

  status_copied :
      (x : DomainStatusStruct L) (v : DomainStatus) (h : Heap (Cell L))
      → ShowsStatus views x v h
      → Runs h (domain_status_deep_copy_into calls x h) (λ y k. ShowsStatus views y v k)
  unfolding domain_status_deep_copy_into
  status_copied x v h s = run (do
    _ ← slice_copied x.sending_dns_records s.sending_dns_records
    _ ← slice_copied x.receiving_dns_records s.receiving_dns_records
    _ ← pointer_copied x.mailgun_error s.mailgun_error
    _ ←
        time_copied x.last_domain_validation_time v.last_domain_validation_time
          s.last_domain_validation_time
    _ ← pointer_copied x.domain_validation_count s.domain_validation_count
    finish
        (λ k is_domain_validation_count is_last_domain_validation_time is_mailgun_error
            is_receiving_dns_records is_sending_dns_records.
          record {
            state = s.state;
            not_managed = s.not_managed;
            domain_state = s.domain_state;
            dns_entrypoint_created = s.dns_entrypoint_created;
            sending_dns_records = is_sending_dns_records;
            receiving_dns_records = is_receiving_dns_records;
            mailgun_error = is_mailgun_error;
            last_domain_validation_time = is_last_domain_validation_time;
            domain_validation_count = is_domain_validation_count;
          }))

  pub ShowsStatus-IsDeepCopy : IsDeepCopy (ShowsStatus views) (domain_status_deep_copy_into calls)
  ShowsStatus-IsDeepCopy = record { copies = status_copied; stays = ShowsStatus-stays }

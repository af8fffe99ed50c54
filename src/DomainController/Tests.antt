-- ===== src/DomainController/Tests.antt =====
-- Runs of the domains' reconciler in a small world.
use mailgun_operator.Base.{
  ◌≡◌, refl, arith, String, true, false, none, some, List, [], ◌∷◌, ◌≤◌, ◌≢◌, ◌↔◌, is_some,
}
use mailgun_operator.Base.Int.{pos}
use mailgun_operator.Base.Lists.{contains}
use mailgun_operator.Base.Exec.{next, done}
use mailgun_operator.Api.Meta.{Error, Key}
use mailgun_operator.Api.DomainTypes.{
  Domain, DnsRecord, state_activated, state_created, zero_status,
}
use mailgun_operator.External.{MailgunClient, Secret}
use mailgun_operator.Controller.{reply_of}
use mailgun_operator.DomainController.Run.{
  Run, Call, fetched, domain_read, domain_verified, random_read, status_updated, event_recorded,
}
use mailgun_operator.DomainController.Records.{endpoints_for}
use mailgun_operator.DomainController.Records.Laws.{endpoints_for_lem}
use mailgun_operator.DomainController.Create.Hex.{hex_encode}
use mailgun_operator.DomainController.Create.{random_hex, create_options, create_domain}
use mailgun_operator.DomainController.Create.Laws.{is_panic, create_domain-panic}
use mailgun_operator.DomainController.Create.Password.{random_hex_lem}
use mailgun_operator.DomainController.Create.Hex.Decode.{hex_decode, text_length}
use mailgun_operator.DomainController.Verify.{mx_valid, next_count, verify, store_status}
use mailgun_operator.DomainController.Verify.Requeue.{store_status-seconds}
use mailgun_operator.DomainController.Activation.{AllValid, verify-status, mx_valid_iff}
use mailgun_operator.DomainController.Reconcile.{is_settled, needs_external_dns, reconcile}
use mailgun_operator.DomainController.Protocol.{phase}
use mailgun_operator.DomainController.Protocol.Order.{
  reconcile_keeps_order, reconcile_creates_after_lookup, creations, reconcile_creates_once,
}
use mailgun_operator.DomainController.Settled.{refused, reconcile-settled, reconcile-existing}
use mailgun_operator.DomainController.Deletion.{ForgetsFinalizer, is_released, reconcile-deletion}
use mailgun_operator.DomainController.Persistence.{sends_no_state, reconcile_forgets_creation}
use mailgun_operator.DomainController.Convergence.{
  key_of, KeepsStatus, rounds, verified_domain, rounds-verified,
}
use mailgun_operator.DomainController.Simulation.{
  client, without, finalizers, Endpoint, World, response, active, unreachable, key, spec, fresh,
  registered, activated, deleted, holding, calls_of, first, after_first,
}

-- A new domain is created, verified and activated in one run; a second run leaves it.
fresh-activated : (reconcile active key (holding fresh [])).1.object.status.state ≡ state_activated
unfolding reconcile contains is_settled needs_external_dns
fresh-activated = refl

fresh-domains : (reconcile active key (holding fresh [])).1.world.domains ≡ "example.com" ∷ []
unfolding reconcile contains is_settled needs_external_dns
fresh-domains = refl

reconcile_keeps_order_example : is_some (phase (calls_of active (holding fresh []))) ≡ true
reconcile_keeps_order_example = reconcile_keeps_order active key (holding fresh [])

contains-without : (l : List String) (f : String) → contains (without l f) f ≡ false
unfolding contains
contains-without [] f = refl
contains-without (x ∷ xs) f = ground (arith, contains-without xs f)

finalizers-ForgetsFinalizer : ForgetsFinalizer finalizers
finalizers-ForgetsFinalizer = record { gone = contains-without }

reconcile-deletion_example :
    is_released active "example.com" (calls_of active (holding deleted ("example.com" ∷ []))) ≡ true
unfolding reconcile contains is_settled needs_external_dns
reconcile-deletion_example =
    reconcile-deletion active finalizers-ForgetsFinalizer key (holding deleted ("example.com" ∷ []))
      (holding deleted ("example.com" ∷ [])) deleted 5 (reply_of (pos 0) none) refl refl refl refl
      refl

abbrev old_calls : List (Call Endpoint)
old_calls = after_first 6 (calls_of active (holding registered []))

reconcile_creates_after_lookup_example :
    (n : String) × (e : Error) × (old : List (Call Endpoint)) × (old_calls
      ≡ random_read none ∷ domain_read n (some e) ∷ old)
unfolding reconcile contains is_settled needs_external_dns create_options hex_encode
reconcile_creates_after_lookup_example =
    reconcile_creates_after_lookup active key (holding registered [])
      (first 5 (calls_of active (holding registered []))) old_calls "example.com"
      (create_options spec "01ab") none refl

reconcile_creates_once_example : creations (calls_of active (holding fresh [])) ≤ 1
reconcile_creates_once_example = reconcile_creates_once active key (holding fresh [])

abbrev mg : MailgunClient
mg = record { domain = "example.com"; api_key = "token"; api_base = "https://eu" }

abbrev loaded_run : Domain → Run World Endpoint
loaded_run d = record { world = holding d ("example.com" ∷ []); object = d; calls = [] }

-- Its MX record is valid, so that it becomes activated although `force_mx_check` is set.
verify-status_example :
    ((verify active mg "example.com" (loaded_run registered)).1.object.status.state
      ≡ state_activated)
    × ((verify active mg "example.com" (loaded_run registered)
          ).1.object.status.domain_validation_count
        ≡ some (pos 1))
    × ((verify active mg "example.com" (loaded_run registered)).1.object.status.domain_state
        ≡ "active")
unfolding verify mx_valid next_count contains
verify-status_example = verify-status active mg "example.com" (loaded_run registered) tt

mx_valid_iff_example :
    (mx_valid response.receiving_dns_records ≡ true)
    ↔ ((response.receiving_dns_records ≢ []) × AllValid response.receiving_dns_records)
mx_valid_iff_example = mx_valid_iff response.receiving_dns_records

reconcile_forgets_creation_example : sends_no_state (calls_of unreachable (holding fresh [])) ≡ true
unfolding reconcile contains is_settled needs_external_dns
reconcile_forgets_creation_example =
    reconcile_forgets_creation unreachable key (holding fresh []) refl refl

-- The run after that takes the operator's own domain for someone else's.
forgotten_domain :
    (reconcile active key
      (reconcile unreachable key (holding fresh [])).1.world).1.object.status.not_managed
    ≡ true
unfolding reconcile contains is_settled needs_external_dns
forgotten_domain = refl

reconcile-existing_example : reconcile active key (holding registered ("example.com" ∷ [])) ≡ (
  done (reply_of (pos 0) none),
  record {
    world = holding (refused active registered) ("example.com" ∷ []);
    object = refused active registered;
    calls =
        status_updated (refused active registered) none
        ∷ event_recorded "Warning" "DomainExisted"
        ∷ domain_read "example.com" none
        ∷ fetched key none
        ∷ [];
  },
)
unfolding contains
reconcile-existing_example =
    reconcile-existing active key (holding registered ("example.com" ∷ []))
      (holding registered ("example.com" ∷ [])) (holding registered ("example.com" ∷ []))
      (holding (refused active registered) ("example.com" ∷ [])) registered
      (refused active registered) response refl refl refl refl refl refl

reconcile-settled_example : reconcile active key (holding activated []) ≡ (
  done (reply_of (pos 0) none),
  record { world = holding activated []; object = activated; calls = fetched key none ∷ [] },
)
unfolding contains is_settled
reconcile-settled_example =
    reconcile-settled active key (holding activated []) (holding activated []) activated refl refl
      refl refl

abbrev exporting : Domain
exporting = record fresh { spec = record spec { export_credentials = some true } }

create_domain-panic_example :
    is_panic
      (create_domain active mg
        (record { world = holding exporting []; object = exporting; calls = [] })).0
    ≡ true
unfolding contains
create_domain-panic_example =
    create_domain-panic active mg
      (record { world = holding exporting []; object = exporting; calls = [] }) (1 ∷ 171 ∷ [])
      response refl refl

abbrev record_of : String → String → String → DnsRecord
record_of name kind value = record {
  name = name;
  priority = "10";
  record_type = kind;
  valid = "valid";
  value = value;
}

endpoints_for_lem_example :
    endpoints_for active.cluster.new_endpoint "example.com"
      (record_of "" "MX" "mxa.org"
        ∷ record_of "k1.example.com" "TXT" "key"
        ∷ record_of "" "MX" "mxb.org"
        ∷ [])
      (record { dns_name = "www.example.com"; record_type = "A"; targets = "192.0.2.1" ∷ [] } ∷ [])
    ≡ ("k1.example.com", ("TXT", "key" ∷ []))
      ∷ ("example.com", ("MX", "10 mxa.org" ∷ "10 mxb.org" ∷ []))
      ∷ ("www.example.com", ("A", "192.0.2.1" ∷ []))
      ∷ []
endpoints_for_lem_example =
    endpoints_for_lem active.cluster.new_endpoint "example.com"
      (record_of "" "MX" "mxa.org"
        ∷ record_of "k1.example.com" "TXT" "key"
        ∷ record_of "" "MX" "mxb.org"
        ∷ [])
      (record { dns_name = "www.example.com"; record_type = "A"; targets = "192.0.2.1" ∷ [] } ∷ [])

abbrev old_secret : Secret
old_secret = record { key = key; contents = some (("kept", "value") ∷ []) }

random_hex_lem_example :
    (password : String) × ((random_hex active 2 (loaded_run fresh)).0 ≡ next password)
    × (hex_decode password ≡ 1 ∷ 171 ∷ [])
    × (text_length password ≡ 4)
random_hex_lem_example =
    random_hex_lem active 2 (loaded_run fresh) (1 ∷ 171 ∷ []) (holding fresh ("example.com" ∷ []))
      refl (omega arith, (omega arith, tt))

store_status-seconds_example :
    (store_status active (loaded_run registered)).0 ≡ done (reply_of (pos 300000000000) none)
store_status-seconds_example =
    store_status-seconds active (pos 300) (loaded_run registered) registered
      (holding registered ("example.com" ∷ [])) refl (omega arith) refl

client-KeepsStatus : KeepsStatus client (λ _ w. w.stored)
client-KeepsStatus = record {
  get-stored = λ k w d h. rw h;
  stored-status_update = λ d d' s w w' k h. (cc h, cc h);
}

abbrev unverified : Domain
unverified = record registered {
  spec = record spec { force_mx_check = none };
  status = record zero_status { state = state_created };
}

abbrev key_of_unverified : Key
key_of_unverified = key_of unverified

rounds-verified_example :
    rounds active key_of_unverified 3 (holding unverified ("example.com" ∷ []))
    ≡ (status_updated (verified_domain active response 7 unverified) none
        ∷ domain_verified "example.com" none
        ∷ domain_read "example.com" none
        ∷ fetched key_of_unverified none
        ∷ [])
      ∷ (fetched key_of_unverified none ∷ [])
      ∷ (fetched key_of_unverified none ∷ [])
      ∷ []
unfolding contains needs_external_dns is_settled
rounds-verified_example =
    let w = holding unverified ("example.com" ∷ []) in
    let sent = verified_domain active response 7 unverified in
    rounds-verified active (λ _ w. w.stored) client-KeepsStatus 2 w w w w
      (holding sent ("example.com" ∷ [])) unverified sent response 7 refl refl refl refl refl refl
      refl refl refl refl refl refl

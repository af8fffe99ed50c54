-- ===== src/DomainController/Activation.antt =====
-- When a domain is activated, and what a verification writes to the status.

use mailgun_operator.Base.{
  zero, suc, ◌+◌, nat_eq, none, ◌≡◌, refl, ◌≢◌, ◌↔◌, ◌==◌, eq_iff, String, Bool, true, false, not,
  ◌&&◌, ◌||◌, Option, some, List, [], ◌∷◌, arith, is_set, if◌then◌else◌,
}
use mailgun_operator.Base.Int.{ℤ, pos, negsuc, FitsInt64, increment, wrap64}
use mailgun_operator.Base.Lists.{all}
use mailgun_operator.Api.Meta.{Res, ok, err}
use mailgun_operator.External.{MailgunClient, MailgunDnsRecord, DomainResponse}
use mailgun_operator.DomainController.Run.{DomainReconciler, Run}
use mailgun_operator.DomainController.Verify.{mx_valid, next_count, verify}

abbrev pub AllValid : List MailgunDnsRecord → Type 0
AllValid [] = Unit
AllValid (x ∷ records) = (x.valid ≡ "valid") × AllValid records

all-AllValid :
    (records : List MailgunDnsRecord)
    → (all (λ (x : MailgunDnsRecord). x.valid == "valid") records ≡ true) ↔ AllValid records
unfolding all
all-AllValid [] = (λ h. tt, λ h. refl)
all-AllValid (x ∷ records) = ground (arith, eq_iff x.valid "valid", all-AllValid records)

-- The check of the MX records passes exactly if there are records and all of them are valid.
pub mx_valid_iff :
    (records : List MailgunDnsRecord)
    → (mx_valid records ≡ true) ↔ ((records ≢ []) × AllValid records)
unfolding mx_valid
mx_valid_iff [] = (λ h. cc, λ h. absurd (h.0 refl))
mx_valid_iff (x ∷ records) =
    (λ h. (λ e. cc, (all-AllValid (x ∷ records)).0 h), λ h. (all-AllValid (x ∷ records)).1 h.1)

-- There is a first record, it is "valid", and so is each one behind it.
abbrev confirmed : List MailgunDnsRecord → Bool
confirmed [] = false
confirmed (x ∷ []) = x.valid == "valid"
confirmed (x ∷ y ∷ records) = x.valid == "valid" && confirmed (y ∷ records)

mx_valid-confirmed : (records : List MailgunDnsRecord) → mx_valid records ≡ confirmed records
unfolding mx_valid
mx_valid-confirmed [] = refl
mx_valid-confirmed (x ∷ []) = ground arith
mx_valid-confirmed (x ∷ y ∷ records) = ground (arith, mx_valid-confirmed (y ∷ records))

abbrev pub mx_confirmed : Res DomainResponse → Bool
mx_confirmed (err _) = false
mx_confirmed (ok resp) = confirmed resp.receiving_dns_records

-- What the operator makes of it.
abbrev mx_passes : Res DomainResponse → Bool
mx_passes (err _) = false
mx_passes (ok resp) = mx_valid resp.receiving_dns_records

mx_passes-mx_confirmed : (found : Res DomainResponse) → mx_passes found ≡ mx_confirmed found
mx_passes-mx_confirmed (err _) = refl
mx_passes-mx_confirmed (ok resp) = mx_valid-confirmed resp.receiving_dns_records

-- The state that a verification leads to, from its answer, the flag `force_mx_check`, whether the
-- MX records are confirmed, and the state before.
abbrev pub verified_state : Res String → Bool → Bool → String → String
verified_state (err _) force mx old = old
verified_state (ok answer) force mx old =
    if answer == "active" && (not force || mx) then "activated" else old

-- One more in 64 bits, where 1 comes behind no count and the greatest number is followed by the
-- least.
abbrev counted_up : Option ℤ → ℤ
counted_up none = pos 1
counted_up (some (pos n)) =
    if nat_eq n 9223372036854775807 then negsuc 9223372036854775807 else pos (n + 1)
counted_up (some (negsuc zero)) = pos 0
counted_up (some (negsuc (suc n))) = negsuc n

-- The count is an `int`.
abbrev pub CountFits : Option ℤ → Type 0
CountFits none = Unit
CountFits (some z) = FitsInt64 z

next_count-counted_up : (c : Option ℤ) → CountFits c → next_count c ≡ counted_up c
unfolding next_count increment wrap64
next_count-counted_up none h = refl
next_count-counted_up (some (pos n)) h = ground arith
next_count-counted_up (some (negsuc zero)) h = refl
next_count-counted_up (some (negsuc (suc n))) h = ground arith

abbrev pub verified_count : Res String → Option ℤ → Option ℤ
verified_count (err _) count = count
verified_count (ok _) count = some (counted_up count)

abbrev pub verified_domain_state : Res String → String → String
verified_domain_state (err _) old = old
verified_domain_state (ok answer) old = answer

module _ {W Endpoint : Type 0} (r : DomainReconciler W Endpoint) where
  module _ (mg : MailgunClient) (name : String) (s : Run W Endpoint) where
    -- The answer to the verification, and the one about the MX records, which is asked for after
    -- the clock was read.
    abbrev pub answer : Res String
    answer = (r.mailgun.verify_domain mg name s.world).0

    abbrev pub mx_answer : Res DomainResponse
    mx_answer =
        (r.mailgun.get_domain mg s.object.spec.domain
          (r.cluster.now (r.mailgun.verify_domain mg name s.world).1).1).0

    verify-state :
        (verify r mg name s).1.object.status.state
        ≡ verified_state answer
            (is_set s.object.spec.force_mx_check)
            (mx_passes mx_answer)
            s.object.status.state
    unfolding verify
    verify-state = ground arith

    -- A verification makes the domain activated if Mailgun answers "active" and, where
    -- `force_mx_check` is set, there are MX records and all of them are valid; if it was answered,
    -- it counts up from the count before, which is an `int` and is followed by the least one at
    -- the greatest, or counts 1 where there was none; and it keeps the answer. Otherwise it leaves
    -- these three fields of the status as they were.
    pub verify-status :
        CountFits s.object.status.domain_validation_count
        → ((verify r mg name s).1.object.status.state
            ≡ verified_state answer
                (is_set s.object.spec.force_mx_check)
                (mx_confirmed mx_answer)
                s.object.status.state)
          × ((verify r mg name s).1.object.status.domain_validation_count
              ≡ verified_count answer s.object.status.domain_validation_count)
          × ((verify r mg name s).1.object.status.domain_state
              ≡ verified_domain_state answer s.object.status.domain_state)
    unfolding verify
    verify-status fits = (
      rw (mx_passes-mx_confirmed mx_answer) at verify-state,
      ground (arith, next_count-counted_up s.object.status.domain_validation_count fits),
      ground arith,
    )

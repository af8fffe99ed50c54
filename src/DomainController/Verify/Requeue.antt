-- ===== src/DomainController/Verify/Requeue.antt =====
-- When a domain is looked at again.
use mailgun_operator.Base.{ℕ, zero, suc, ◌+◌, ◌-◌, ◌*◌, ◌^◌, ◌≤◌, ◌<◌, ◌≡◌, refl, ap, none, arith}
use mailgun_operator.Base.Int.{ℤ, pos, negsuc, neg, scale, wrap64-eq_of_fits}
use mailgun_operator.Base.Exec.{done}
use mailgun_operator.Api.Meta.{ok}
use mailgun_operator.Api.DomainTypes.{Domain}
use mailgun_operator.Controller.{reply_of}
use mailgun_operator.DomainController.Run.{DomainReconciler, Run}
use mailgun_operator.DomainController.Verify.{seconds, store_status}

-- A number of seconds that a duration can hold.
abbrev pub SecondsFit : ℤ → Type 0
SecondsFit (pos n) = n ≤ 9223372036
SecondsFit (negsuc n) = n + 1 ≤ 9223372036

-- That many seconds, in nanoseconds.
abbrev pub nanoseconds : ℤ → ℤ
nanoseconds (pos n) = pos (n * 1000000000)
nanoseconds (negsuc n) = neg ((n + 1) * 1000000000)

fits : (n : ℕ) → n ≤ 9223372036 → n * 10 ^ 9 < 2 ^ 63
fits n h = omega arith

negative_fits : (n : ℕ) → n + 1 ≤ 9223372036 → suc n * 10 ^ 9 - 1 < 2 ^ 63
negative_fits n h = omega arith

neg-eq_of_positive : (n : ℕ) → 1 ≤ n → neg n ≡ negsuc (n - 1)
neg-eq_of_positive zero h = absurd (omega arith)
neg-eq_of_positive (suc n) h = ap negsuc (omega arith)

-- It is not wrapped.
seconds-nanoseconds : (z : ℤ) → SecondsFit z → seconds z ≡ nanoseconds z
unfolding seconds scale
seconds-nanoseconds (pos n) h = wrap64-eq_of_fits (pos (n * 10 ^ 9)) (fits n h)
seconds-nanoseconds (negsuc n) h =
    rw
      (
        wrap64-eq_of_fits (negsuc (suc n * 10 ^ 9 - 1)) (negative_fits n h),
        neg-eq_of_positive ((n + 1) * 1000000000) (omega arith),
      )
      (ap negsuc (omega arith))

module _ {W Endpoint : Type 0} (r : DomainReconciler W Endpoint) where
  -- When the status is stored and the configured interval is of at most 9223372036 seconds,
  -- whether it is positive or negative, the next run is asked for after that many seconds, in
  -- nanoseconds.
  pub store_status-seconds :
      (z : ℤ) (s : Run W Endpoint) (d : Domain) (w : W)
      → r.config.domain_verify_duration ≡ z
      → SecondsFit z
      → r.client.status_update s.object s.world ≡ (ok d, w)
      → (store_status r s).0 ≡ done (reply_of (nanoseconds z) none)
  unfolding store_status
  store_status-seconds z s d w k h g = rw (g, k, seconds-nanoseconds z h) refl

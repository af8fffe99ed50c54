-- ===== src/DomainController/Protocol/Order.antt =====
-- What the order of the calls means for a run of `Reconcile`: when a domain is created, and how
-- often.
use mailgun_operator.Base.{
  ℕ, suc, ◌≤◌, ◌≡◌, refl, ap, ◌∙◌, String, true, Option, none, some, List, [], ◌∷◌, ◌++◌, arith,
  is_some,
}
use mailgun_operator.Base.Exec.Triple.{Triple-bind, ends_all}
use mailgun_operator.Api.Meta.{Key, Error}
use mailgun_operator.Api.DomainTypes.{zero_domain}
use mailgun_operator.External.{CreateDomainOptions}
use mailgun_operator.Configuration.{mailgun_client}
use mailgun_operator.DomainController.Run.{
  DomainReconciler, Run, Call, random_read, domain_read, domain_created,
}
use mailgun_operator.DomainController.Protocol.{Phase, phase, follow, and_then}
use mailgun_operator.DomainController.Protocol.Stages.{
  Follows, is_start, is_loaded, fetch-Follows, examine_deletion-Follows, advance-Follows,
}
use mailgun_operator.DomainController.Reconcile.{
  fetch, examine_deletion, advance, process, reconcile_body, reconcile,
}

-- How many calls of `CreateDomain` can stand before a phase.
abbrev allowed : Option Phase → ℕ
allowed none = 0
allowed (some Phase.start) = 0
allowed (some Phase.loaded) = 0
allowed (some Phase.registered) = 0
allowed (some Phase.unclaimed) = 0
allowed (some Phase.secured) = 0
allowed (some Phase.removing) = 0
allowed (some _) = 1

allowed-le : (p : Option Phase) → allowed p ≤ 1
allowed-le p = ground arith

module _ {Endpoint : Type 0} where
  -- What stands before a call has kept to the order.
  phase_before :
      (before : List (Call Endpoint)) (rest : List (Call Endpoint))
      → is_some (phase (before ++ rest)) ≡ true
      → is_some (phase rest) ≡ true
  phase_before [] rest h = h
  phase_before (c ∷ before) rest h =
      phase_before before rest (is_some-and_then (phase (before ++ rest)) c h)
    where
      is_some-and_then :
          (p : Option Phase) (c : Call Endpoint) → is_some (and_then p c) ≡ true → is_some p ≡ true
      is_some-and_then none c h = h
      is_some-and_then (some p) c h = refl

  -- The phases that a call can come from.
  from_secured :
      (rest : List (Call Endpoint)) (n : String) (o : CreateDomainOptions) (e : Option Error)
      → is_some (phase (domain_created n o e ∷ rest)) ≡ true
      → phase rest ≡ some Phase.secured
  unfolding follow
  from_secured rest n o e h = ground arith

  from_unclaimed :
      (p : Option Phase) (c : Call Endpoint)
      → and_then p c ≡ some Phase.secured
      → (p ≡ some Phase.unclaimed) × (c ≡ random_read none)
  unfolding follow
  from_unclaimed p c h = ground arith

  secured-cons :
      (rest : List (Call Endpoint))
      → phase rest ≡ some Phase.secured
      → (old : List (Call Endpoint)) × (rest ≡ random_read none ∷ old)
        × (phase old ≡ some Phase.unclaimed)
  secured-cons [] h = cc
  secured-cons (c ∷ old) h =
      let (p, q) = from_unclaimed (phase old) c h in (old, ap (λ c'. c' ∷ old) q, p)

  from_lookup :
      (p : Option Phase) (c : Call Endpoint)
      → and_then p c ≡ some Phase.unclaimed
      → (n : String) × (e : Error) × (c ≡ domain_read n (some e))
  unfolding follow
  from_lookup p c h = ground arith

  unclaimed-cons :
      (rest : List (Call Endpoint))
      → phase rest ≡ some Phase.unclaimed
      → (n : String) × (e : Error) × (old : List (Call Endpoint)) × (rest
          ≡ domain_read n (some e) ∷ old)
  unclaimed-cons [] h = cc
  unclaimed-cons (c ∷ old) h =
      let (n, e, q) = from_lookup (phase old) c h in (n, e, old, ap (λ c'. c' ∷ old) q)

  created_after_lookup :
      (rest : List (Call Endpoint)) (n : String) (o : CreateDomainOptions) (e : Option Error)
      → is_some (phase (domain_created n o e ∷ rest)) ≡ true
      → (n' : String) × (e' : Error) × (old : List (Call Endpoint)) × (rest
          ≡ random_read none ∷ domain_read n' (some e') ∷ old)
  created_after_lookup rest n o e h =
      let (old, p, q) = secured-cons rest (from_secured rest n o e h) in
      let (n', e', old', q') = unclaimed-cons old q in
      (n', e', old', p ∙ ap (λ l. random_read none ∷ l) q')

  -- How many calls of `CreateDomain` there are.
  abbrev pub creations : List (Call Endpoint) → ℕ
  creations [] = 0
  creations (domain_created _ _ _ ∷ calls) = suc (creations calls)
  creations (_ ∷ calls) = creations calls

  creations_step :
      (p : Option Phase) (c : Call Endpoint) (calls : List (Call Endpoint))
      → creations calls ≤ allowed p
      → is_some (and_then p c) ≡ true
      → creations (c ∷ calls) ≤ allowed (and_then p c)
  unfolding follow
  creations_step p c calls k h = ground arith

  creations-le-allowed :
      (calls : List (Call Endpoint))
      → is_some (phase calls) ≡ true
      → creations calls ≤ allowed (phase calls)
  creations-le-allowed [] h = omega arith
  creations-le-allowed (c ∷ calls) h =
      creations_step (phase calls) c calls
        (creations-le-allowed calls (phase_before (c ∷ []) calls h)) h

module _ {W Endpoint : Type 0} (r : DomainReconciler W Endpoint) where
  process-Follows : Follows is_loaded (process r) is_some
  unfolding process
  process-Follows = record {
    at = λ s h.
        let name = s.object.spec.domain in
        let mg = mailgun_client r.bases r.config name in
        (Triple-bind (examine_deletion r mg) (λ _. advance r mg name) _
            (examine_deletion-Follows r mg) (λ _. advance-Follows r mg name)).at
          s h;
  }

  reconcile_body-Follows : (key : Key) → Follows is_start (reconcile_body r key) is_some
  unfolding reconcile_body
  reconcile_body-Follows key =
      Triple-bind (fetch r key) (λ _. process r) _ (fetch-Follows r key) (λ _. process-Follows)

  -- Whatever the cluster and Mailgun answer, each call of a run of `Reconcile` is one that the
  -- state machine `follow` allows after the calls before it and their answers.
  pub reconcile_keeps_order :
      (key : Key) (w : W) → is_some (phase (reconcile r key w).1.calls) ≡ true
  unfolding reconcile
  reconcile_keeps_order key w =
      let s : Run W Endpoint = record { world = w; object = zero_domain; calls = [] } in
      ends_all (λ t. is_some (phase t.calls)) (reconcile_body r key s)
        ((reconcile_body-Follows key).at s refl)

  -- A call of `CreateDomain` stands directly behind the successful reading of random bytes, and
  -- that directly behind a call of `GetDomain` that failed.
  pub reconcile_creates_after_lookup :
      (key : Key) (w : W) (after before : List (Call Endpoint)) (n : String)
      (o : CreateDomainOptions) (e : Option Error)
      → (reconcile r key w).1.calls ≡ after ++ (domain_created n o e ∷ before)
      → (n' : String) × (e' : Error) × (old : List (Call Endpoint)) × (before
          ≡ random_read none ∷ domain_read n' (some e') ∷ old)
  reconcile_creates_after_lookup key w after before n o e h =
      created_after_lookup before n o e
        (phase_before after (domain_created n o e ∷ before) (rw h at (reconcile_keeps_order key w)))

  -- One call of `Reconcile` calls `CreateDomain` at most once.
  pub reconcile_creates_once : (key : Key) (w : W) → creations (reconcile r key w).1.calls ≤ 1
  reconcile_creates_once key w = omega (
    arith,
    creations-le-allowed (reconcile r key w).1.calls (reconcile_keeps_order key w),
    allowed-le (phase (reconcile r key w).1.calls),
  )

-- ===== src/DomainController/Deletion.antt =====
-- When a domain's finalizer is removed.
use mailgun_operator.Base.{
  ℕ, ◌≡◌, refl, String, ◌<>◌, Bool, true, false, not, ◌&&◌, ◌||◌, Option, none, some, List, ◌∷◌,
  arith, is_some, ◌==◌, eq_iff,
}
use mathlib.Core.Path.{subst}
use mailgun_operator.Base.Exec.{M, done, ◌>>◌, invoke}
use mailgun_operator.Base.Exec.Triple.{Triple, Triple-bind, Triple-invoke, ends, ends_done}
use mailgun_operator.Api.Meta.{Key, Error, ok}
use mailgun_operator.Api.DomainTypes.{Domain}
use mailgun_operator.External.{MailgunClient, FinalizerUtil}
use mailgun_operator.Configuration.{mailgun_client}
use mailgun_operator.Controller.{Reply}
use mailgun_operator.DomainController.Run.{
  DomainReconciler, Run, Call, updated, domain_read, domain_deleted,
}
use mailgun_operator.DomainController.Delete.{
  domain_finalizer, eventf, delete_domain, delete_endpoint, delete_from_mailgun, release,
}
use mailgun_operator.DomainController.Reconcile.{
  has_finalizer, report, delete_and_report, examine_deletion, advance, process, reconcile, loaded,
  reconcile-fetched,
}

both-left : (a b : Bool) → (a && b) ≡ true → a ≡ true
both-left a b h = ground arith

both-right : (a b : Bool) → (a && b) ≡ true → b ≡ true
both-right a b h = ground arith

no_error : (e : Option Error) (b : Bool) → e ≡ none → (is_some e || b) ≡ true → b ≡ true
no_error e b n h = ground arith

module _ {Endpoint : Type 0} where
  -- Mailgun has deleted the domain of that name in the last call, or had no answer for it.
  abbrev pub is_gone : String → List (Call Endpoint) → Bool
  is_gone name (domain_deleted n none ∷ _) = n == name
  is_gone name (domain_read n (some _) ∷ _) = n == name
  is_gone name _ = false

abbrev always : {A : Type 0} → A → Bool
always _ = true

-- What the operator relies on in `controllerutil.RemoveFinalizer`: the finalizer is gone then.
pub record ForgetsFinalizer (u : FinalizerUtil) : Type 0 where
  pub gone : (l : List String) (f : String) → u.has (u.remove l f).0 f ≡ false

module _ {W Endpoint : Type 0} (r : DomainReconciler W Endpoint) where
  -- The object was stored without the finalizer in the last call, and the domain of that name was
  -- gone before.
  abbrev pub is_released : String → List (Call Endpoint) → Bool
  is_released name (updated d none ∷ calls) = not (has_finalizer r d) && is_gone name calls
  is_released name _ = false

  -- An error is returned, or the object is released.
  abbrev releases : String → Option Error → Run W Endpoint → Bool
  releases name e s = is_some e || is_released name s.calls

  abbrev names : String → Run W Endpoint → Bool
  names name s = s.object.spec.domain == name

module _ {W Endpoint : Type 0} (r : DomainReconciler W Endpoint)
    (u : ForgetsFinalizer r.finalizers) where
  delete_from_mailgun-gone :
      (mg : MailgunClient) (name : String)
      → Triple always
          (delete_from_mailgun r mg name)
          (λ _ s. is_gone name s.calls)
          (releases r name)
          always
  unfolding delete_from_mailgun
  delete_from_mailgun-gone mg name = record { at = λ s h. ground (arith, eq_iff name name) }

  delete_endpoint-releases :
      (name : String) → Triple always (delete_endpoint r) (λ _. always) (releases r name) always
  unfolding delete_endpoint
  delete_endpoint-releases name = record { at = λ s h. ground arith }

  release-releases :
      (name : String)
      → Triple (λ s. is_gone name s.calls) (release r) (releases r name) (releases r name) always
  unfolding release
  release-releases name = record {
    at = λ s h. ground (arith, u.gone s.object.meta.finalizers domain_finalizer);
  }

  deleting-releases :
      (name message : String)
      → Triple always
          (eventf r "Normal" "DeletingDomain" message)
          (λ _. always)
          (releases r name)
          always
  deleting-releases name message = record { at = λ s h. refl }

  -- `deleteDomain` returns no error only if it has stored the object without the finalizer, and
  -- directly before that Mailgun deleted the object's domain or had no answer for it.
  delete_domain-releases :
      (mg : MailgunClient) (name : String)
      → Triple (names r name) (delete_domain r mg) (releases r name) (releases r name) always
  unfolding delete_domain
  delete_domain-releases mg name = record {
    at = λ s h.
        subst (λ n. ends (releases r n) (releases r n) always (delete_domain r mg s) ≡ true)
          ((eq_iff s.object.spec.domain name).0 h) (of_object s);
  }
    where
      of_object :
          (s : Run W Endpoint)
          → ends
              (releases r s.object.spec.domain)
              (releases r s.object.spec.domain)
              always
              (delete_domain r mg s)
            ≡ true
      of_object s =
          let n = s.object.spec.domain in
          (Triple-bind
              (eventf r "Normal" "DeletingDomain" (("Deleting domain " <> n) <> " from mailgun"))
              (λ _. delete_endpoint r >> (delete_from_mailgun r mg n >> release r)) (λ _. always)
              (deleting-releases n _)
              λ _.
                Triple-bind (delete_endpoint r) (λ _. delete_from_mailgun r mg n >> release r)
                  (λ _. always) (delete_endpoint-releases n)
                  λ _.
                    Triple-bind (delete_from_mailgun r mg n) (λ _. release r)
                      (λ _ s'. is_gone n s'.calls) (delete_from_mailgun-gone mg n)
                      (λ _. release-releases n)).at
            s refl

  abbrev reports : String → Reply → Run W Endpoint → Bool
  reports name reply s = (releases r name) reply.error s

  abbrev never : {A : Type 0} → A → Run W Endpoint → Bool
  never _ _ = false

  report-reports :
      (name : String) (e : Option Error)
      → Triple (releases r name e) (report r e) never (reports name) always
  report-reports name none = record { at = λ s h. h }
  report-reports name (some e) = record { at = λ s h. refl }

  delete_and_report-reports :
      (mg : MailgunClient) (name : String)
      → Triple (names r name) (delete_and_report r mg) never (reports name) always
  unfolding delete_and_report
  delete_and_report-reports mg name =
      Triple-bind (invoke (delete_domain r mg)) (report r) (releases r name)
        (Triple-invoke (delete_domain r mg) (delete_domain-releases mg name)) (report-reports name)

  abbrev is_deleting : Domain → Bool
  is_deleting d = is_some d.meta.deletion_timestamp && has_finalizer r d

  examine_deletion-reports :
      (mg : MailgunClient) (name : String)
      → Triple
          (λ s. is_deleting s.object && names r name s)
          (examine_deletion r mg)
          never
          (reports name)
          always
  unfolding examine_deletion
  examine_deletion-reports mg name = record {
    at = λ s h.
        let deleting = both-left (is_deleting s.object) _ h in
        rw
          (
            both-left (is_some s.object.meta.deletion_timestamp) _ deleting,
            both-right _ (has_finalizer r s.object) deleting,
          )
          ((delete_and_report-reports mg name).at s (both-right (is_deleting s.object) _ h));
  }

  never-any :
      {A : Type 0} (name : String) (m : M (Run W Endpoint) Reply A) (q : A → Run W Endpoint → Bool)
      → Triple (λ _. false) m q (reports name) always
  never-any name m q = record { at = λ s h. cc }

  process-reports :
      (name : String)
      → Triple
          (λ s. is_deleting s.object && names r name s)
          (process r)
          (reports name)
          (reports name)
          always
  unfolding process
  process-reports name = record {
    at = λ s h.
        let domain = s.object.spec.domain in
        let mg = mailgun_client r.bases r.config domain in
        (Triple-bind (examine_deletion r mg) (λ _. advance r mg domain) never
            (examine_deletion-reports mg name)
            (λ _. never-any name (advance r mg domain) (reports name))).at
          s h;
  }

  -- When the object that was fetched is under deletion and has the operator's finalizer, a run
  -- that returns and reports no error has stored the object without the finalizer last, and
  -- directly before that Mailgun either deleted the domain that the object names or answered
  -- `GetDomain` for it with an error. (`RemoveFinalizer` takes the finalizer out of a list.)
  pub reconcile-deletion :
      (key : Key) (w w' : W) (d : Domain) (t : ℕ) (reply : Reply)
      → r.client.get key w ≡ (ok d, w')
      → d.meta.deletion_timestamp ≡ some t
      → has_finalizer r d ≡ true
      → (reconcile r key w).0 ≡ done reply
      → reply.error ≡ none
      → is_released r d.spec.domain (reconcile r key w).1.calls ≡ true
  reconcile-deletion key w w' d t reply g dt f e n =
      let name = d.spec.domain in
      rw (reconcile-fetched r key w w' d g) (
        no_error reply.error (is_released r name (process r (loaded r key d w')).1.calls) n (
          ends_done (reports name) (reports name) always (process r (loaded r key d w')) reply
            ((process-reports name).at (loaded r key d w') (rw (dt, f) ((eq_iff name name).1 refl)))
            (rw (reconcile-fetched r key w w' d g) at e)))

-- ===== src/Start/Order.antt =====
-- The order of the calls of the start, and what the exit code says of them.
use mailgun_operator.Base.{
  ℕ, zero, suc, ◌≡◌, refl, Bool, true, false, Option, none, some, List, [], ◌∷◌, arith,
}
use mailgun_operator.Base.Exec.{Exit, next, done, panic, M, ◌>>=◌, ◌>>◌}
use mailgun_operator.Base.Exec.Triple.{Triple, Triple-bind, ends}
use mailgun_operator.Api.Meta.{Error}
use mailgun_operator.External.{ApiBases}
use mailgun_operator.Configuration.{new_configuration}
use mailgun_operator.Configuration.Load.{ConfigClient}
use mailgun_operator.Start.Options.{Flags}
use mailgun_operator.Start.Run.{
  Kind, domains, routes, Runtime, Call, manager_created, client_created, configuration_loaded,
  registered, health_check_added, ready_check_added, started, StartRun,
}
use mailgun_operator.Start.Main.{
  load, create_manager, set_namespace, create_client, setup_with_manager, add_checks, start,
  run_with, configure, main_body, main,
}

-- How far the start is. `failed`: a call has failed, and no other may follow.
pub data Stage : Type 0 where
  nothing managed connected configured half_set_up set_up checked ready running failed : Stage

abbrev by_error : Option Error → Stage → Option Stage
by_error none p = some p
by_error (some _) p = some Stage.failed

abbrev by_kind : Stage → Kind → Option Error → Option Stage
by_kind configured domains e = by_error e half_set_up
by_kind half_set_up routes e = by_error e set_up
by_kind _ _ e = none

-- The stage that a call leads to; `none` if it must not be made.
unfoldable pub follow : Stage → Call → Option Stage
follow nothing (manager_created _ e) = by_error e managed
follow managed (client_created e) = by_error e connected
follow connected (configuration_loaded e) = by_error e configured
follow p (registered r e) = by_kind p r.kind e
follow set_up (health_check_added e) = by_error e checked
follow checked (ready_check_added e) = by_error e ready
follow ready (started e) = by_error e running
follow _ _ = none

abbrev pub and_then : Option Stage → Call → Option Stage
and_then none c = none
and_then (some p) c = follow p c

abbrev pub stage : List Call → Option Stage
stage [] = some nothing
stage (c ∷ calls) = and_then (stage calls) c

-- The code is 0 if the manager has run to its end, and 1 if a call has failed or, with a manager
-- and nothing else, the namespace is not set.
abbrev pub explains : ℕ → Option Stage → Bool
explains zero (some running) = true
explains (suc zero) (some failed) = true
explains (suc zero) (some managed) = true
explains _ _ = false

abbrev is_nothing : Option Stage → Bool
is_nothing (some nothing) = true
is_nothing _ = false

abbrev is_managed : Option Stage → Bool
is_managed (some managed) = true
is_managed _ = false

abbrev is_connected : Option Stage → Bool
is_connected (some connected) = true
is_connected _ = false

abbrev is_configured : Option Stage → Bool
is_configured (some configured) = true
is_configured _ = false

abbrev is_half_set_up : Option Stage → Bool
is_half_set_up (some half_set_up) = true
is_half_set_up _ = false

abbrev is_set_up : Option Stage → Bool
is_set_up (some set_up) = true
is_set_up _ = false

abbrev is_ready : Option Stage → Bool
is_ready (some ready) = true
is_ready _ = false

module _ {W : Type 0} where
  abbrev ends_well : ℕ → StartRun W → Bool
  ends_well code s = explains code (stage s.calls)

  -- Only the loading of the configuration panics.
  abbrev panics_well : StartRun W → Bool
  panics_well s = is_connected (stage s.calls)

  -- From one stage to another.
  abbrev Leads :
      {A : Type 0} → (Option Stage → Bool) → M (StartRun W) ℕ A → (Option Stage → Bool) → Type 0
  Leads p m q = Triple (λ s. p (stage s.calls)) m (λ _ s. q (stage s.calls)) ends_well panics_well

  load-Leads : (c : ConfigClient W) (f : Flags) → Leads is_connected (load c f) is_configured
  unfolding load follow
  load-Leads c f = record { at = λ s h. ground arith }

module _ {W Mgr : Type 0} (rt : Runtime W Mgr) where
  create_manager-Leads : (f : Flags) → Leads is_nothing (create_manager rt f) is_managed
  unfolding create_manager follow
  create_manager-Leads f = record { at = λ s h. ground arith }

  set_namespace-Leads : Leads is_managed (set_namespace rt) is_managed
  unfolding set_namespace follow
  set_namespace-Leads = record { at = λ s h. ground arith }

  create_client-Leads : (mgr : Mgr) → Leads is_managed (create_client rt mgr) is_connected
  unfolding create_client follow
  create_client-Leads mgr = record { at = λ s h. ground arith }

  setup_domains-Leads :
      (mgr : Mgr) → Leads is_configured (setup_with_manager rt mgr domains) is_half_set_up
  unfolding setup_with_manager follow
  setup_domains-Leads mgr = record { at = λ s h. ground arith }

  setup_routes-Leads :
      (mgr : Mgr) → Leads is_half_set_up (setup_with_manager rt mgr routes) is_set_up
  unfolding setup_with_manager follow
  setup_routes-Leads mgr = record { at = λ s h. ground arith }

  add_checks-Leads : (mgr : Mgr) → Leads is_set_up (add_checks rt mgr) is_ready
  unfolding add_checks follow
  add_checks-Leads mgr = record { at = λ s h. ground arith }

  -- It never goes on: it ends with the code 0 or 1.
  start-Leads : (mgr : Mgr) → Leads is_ready (start rt mgr) (λ _. false)
  unfolding start follow
  start-Leads mgr = record { at = λ s h. ground arith }

  run_with-Leads :
      (mgr : Mgr) (f : Flags) (c : ConfigClient W)
      → Leads is_connected (run_with rt mgr f c) (λ _. false)
  unfolding run_with
  run_with-Leads mgr f c =
      Triple-bind (load c f)
        (λ _.
          setup_with_manager rt mgr domains
          >> (setup_with_manager rt mgr routes >> (add_checks rt mgr >> start rt mgr)))
        _ (load-Leads c f)
        λ _.
          Triple-bind (setup_with_manager rt mgr domains)
            (λ _. setup_with_manager rt mgr routes >> (add_checks rt mgr >> start rt mgr)) _
            (setup_domains-Leads mgr)
            λ _.
              Triple-bind (setup_with_manager rt mgr routes)
                (λ _. add_checks rt mgr >> start rt mgr) _ (setup_routes-Leads mgr)
                λ _.
                  Triple-bind (add_checks rt mgr) (λ _. start rt mgr) _ (add_checks-Leads mgr)
                    (λ _. start-Leads mgr)

  configure-Leads : (f : Flags) (mgr : Mgr) → Leads is_managed (configure rt f mgr) (λ _. false)
  unfolding configure
  configure-Leads f mgr =
      Triple-bind (set_namespace rt) (λ _. create_client rt mgr >>= run_with rt mgr f) _
        set_namespace-Leads
        λ _.
          Triple-bind (create_client rt mgr) (run_with rt mgr f) _ (create_client-Leads mgr)
            (run_with-Leads mgr f)

  main_body-Leads : (f : Flags) → Leads is_nothing (main_body rt f) (λ _. false)
  unfolding main_body
  main_body-Leads f =
      Triple-bind (create_manager rt f) (configure rt f) _ (create_manager-Leads f)
        (configure-Leads f)

-- What the end of the process says: the code explains the calls, and a panic comes from the
-- loading of the configuration.
abbrev pub Explained : {W : Type 0} → Exit ℕ ℕ × StartRun W → Type 0
Explained (next _, s) = ⊥
Explained (done code, s) = explains code (stage s.calls) ≡ true
Explained (panic, s) = stage s.calls ≡ some connected

-- The calls of the start come in their order, none of them behind one that has failed. The process
-- ends with the code 0 if the manager was started and has run to its end. It ends with the code 1
-- if a call has failed, or behind the creation of the manager if the namespace is not set. It
-- panics only behind the creation of the client, when the configuration is loaded.
pub main-Explained :
    {W Mgr : Type 0} (rt : Runtime W Mgr) (bases : ApiBases) (f : Flags) (w : W)
    → Explained (main rt bases f w)
unfolding main
main-Explained {W} rt bases f w = explained _ (
    (main_body-Leads rt f).at (record { world = w; config = new_configuration bases; calls = [] })
      refl)
  where
    explained :
        (y : Exit ℕ ℕ × StartRun W)
        → ends (λ _ s. false) ends_well panics_well y ≡ true
        → Explained y
    explained (next _, s) h = absurd (cc)
    explained (done code, s) h = h
    explained (panic, s) h = ground arith

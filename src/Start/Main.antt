-- ===== src/Start/Main.antt =====
-- `main`, behind the parsing of the flags, and `SetupWithManager` of the two reconcilers. The
-- model returns the exit code of the process.
use mailgun_operator.Base.{ℕ, true, Option, [], ◌∷◌}
use mailgun_operator.Base.Exec.{
  Exit, next, done, panic, M, ◌>>=◌, ◌>>◌, pure, return, gets, modify, if_some,
}
use mailgun_operator.Api.Meta.{Error, Res, if_failed}
use mailgun_operator.External.{ApiBases}
use mailgun_operator.Configuration.{new_configuration}
use mailgun_operator.Configuration.Load.{ConfigClient, LoadRun, load_configuration}
use mailgun_operator.Start.Options.{Flags, manager_options}
use mailgun_operator.Start.Run.{
  Kind, Registration, Runtime, manager_created, client_created, configuration_loaded, registered,
  health_check_added, ready_check_added, started, StartRun, request,
}

module _ {W : Type 0} where
  -- `if err != nil { …; os.Exit(1) }`
  abbrev pub or_exit : {A : Type 0} → Res A → M (StartRun W) ℕ A
  or_exit x = if_failed x (λ _. return 1) pure

  abbrev pub check : Option Error → M (StartRun W) ℕ (Unit {0})
  check e = if_some e (λ _. return 1) (pure tt)

  -- What `LoadConfiguration` leaves.
  abbrev pub loaded : LoadRun W → Option Error → StartRun W → StartRun W
  loaded l e s = record {
    world = l.world;
    config = l.config;
    calls = configuration_loaded e ∷ s.calls;
  }

  abbrev pub settle :
      Exit (Option Error) (Option Error) → LoadRun W → M (StartRun W) ℕ (Option Error)
  settle (next e) l s = (next e, loaded l e s)
  settle (done e) l s = (next e, loaded l e s)
  settle panic l s = (panic, record s { world = l.world })

  unfoldable pub load : ConfigClient W → Flags → M (StartRun W) ℕ (Unit {0})
  load c f = do
    e ← λ s.
        let (e, l) =
          load_configuration c f.config_map_name f.secret_name
            (record { world = s.world; config = s.config }) in
        settle e l s
    check e

module _ {W Mgr : Type 0} (rt : Runtime W Mgr) where
  unfoldable pub create_manager : Flags → M (StartRun W) ℕ Mgr
  create_manager f = do
    mgr ← request (manager_created (manager_options f)) (rt.new_manager (manager_options f))
    or_exit mgr

  -- `os.LookupEnv`
  unfoldable pub set_namespace : M (StartRun W) ℕ (Unit {0})
  set_namespace s =
      if_some (rt.lookup_env "OPERATOR_NAMESPACE" s.world)
        (λ namespace.
          modify (λ s'. record s' { config = record s'.config { operator_namespace = namespace } }))
        (return 1) s

  unfoldable pub create_client : Mgr → M (StartRun W) ℕ (ConfigClient W)
  create_client mgr = do c ← request client_created (rt.new_client mgr); or_exit c

  -- `SetupWithManager`: a controller for one kind of object, which is called where the generation
  -- of the object changes.
  unfoldable pub setup_with_manager : Mgr → Kind → M (StartRun W) ℕ (Unit {0})
  setup_with_manager mgr kind = do
    config ← gets (λ s. s.config)
    let r : Registration = record {
      kind = kind;
      generation_changed = true;
      recorder_name = "mailgun-controller";
      config = config;
    }
    x ← request (registered r) (rt.complete mgr r)
    or_exit x

  unfoldable pub add_checks : Mgr → M (StartRun W) ℕ (Unit {0})
  add_checks mgr = do
    x ← request health_check_added (rt.add_healthz_check mgr "healthz")
    or_exit x
    y ← request ready_check_added (rt.add_readyz_check mgr "readyz")
    or_exit y

  -- The end of `main` is the end of the process, with the code 0.
  unfoldable pub start : Mgr → M (StartRun W) ℕ ℕ
  start mgr = do x ← request started (rt.start mgr); or_exit x; return 0

  -- The part behind the client.
  unfoldable pub run_with : Mgr → Flags → ConfigClient W → M (StartRun W) ℕ ℕ
  unfolding load setup_with_manager add_checks start
  run_with mgr f c = do
    load c f
    setup_with_manager mgr Kind.domains
    setup_with_manager mgr Kind.routes
    add_checks mgr
    start mgr

  -- The part behind the manager.
  unfoldable pub configure : Flags → Mgr → M (StartRun W) ℕ ℕ
  unfolding set_namespace create_client run_with
  configure f mgr = do set_namespace; c ← create_client mgr; run_with mgr f c

  unfoldable pub main_body : Flags → M (StartRun W) ℕ ℕ
  unfolding create_manager configure
  main_body f = do mgr ← create_manager f; configure f mgr

  unfoldable pub main : ApiBases → Flags → W → Exit ℕ ℕ × StartRun W
  unfolding main_body new_configuration
  main bases f w = main_body f (record { world = w; config = new_configuration bases; calls = [] })

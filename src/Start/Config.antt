-- ===== src/Start/Config.antt =====
-- The configuration that the reconcilers get.
use mailgun_operator.Base.{◌≡◌, String, true, none, some, [], ◌∷◌}
use mailgun_operator.Base.Exec.{done}
use mailgun_operator.Api.Meta.{ok}
use mailgun_operator.External.{ApiBases}
use mailgun_operator.Configuration.{Data, new_configuration}
use mailgun_operator.Configuration.Load.{ConfigClient, load_configuration}
use mailgun_operator.Start.Options.{Flags, manager_options}
use mailgun_operator.Start.Run.{
  Kind, domains, routes, Registration, Runtime, manager_created, client_created,
  configuration_loaded, registered, health_check_added, ready_check_added, started,
}
use mailgun_operator.Start.Main.{main}

-- The default configuration in the operator's namespace.
abbrev pub in_namespace : ApiBases → String → Data
in_namespace bases namespace = record (new_configuration bases) { operator_namespace = namespace }

abbrev pub registration : Kind → Data → Registration
registration kind d = record {
  kind = kind;
  generation_changed = true;
  recorder_name = "mailgun-controller";
  config = d;
}

-- If every call succeeds, both reconcilers are registered with the configuration that
-- `LoadConfiguration` makes, with the client and the two names of the flags, of the default one in
-- the namespace of the environment. Then the checks are added and the manager is started, and the
-- process ends with the code 0.
pub main-registration :
    {W Mgr : Type 0} (rt : Runtime W Mgr) (bases : ApiBases) (f : Flags) (mgr : Mgr)
    (c : ConfigClient W) (namespace : String) (d : Data) (w w1 w2 w3 w4 w5 w6 w7 w8 : W)
    → rt.new_manager (manager_options f) w ≡ (ok mgr, w1)
    → rt.lookup_env "OPERATOR_NAMESPACE" w1 ≡ some namespace
    → rt.new_client mgr w1 ≡ (ok c, w2)
    → load_configuration c f.config_map_name f.secret_name
        (record { world = w2; config = in_namespace bases namespace })
      ≡ (done none, record { world = w3; config = d })
    → rt.complete mgr (registration domains d) w3 ≡ (ok tt, w4)
    → rt.complete mgr (registration routes d) w4 ≡ (ok tt, w5)
    → rt.add_healthz_check mgr "healthz" w5 ≡ (ok tt, w6)
    → rt.add_readyz_check mgr "readyz" w6 ≡ (ok tt, w7)
    → rt.start mgr w7 ≡ (ok tt, w8)
    → main rt bases f w ≡ (
      done 0,
      record {
        world = w8;
        config = d;
        calls =
            started none
            ∷ ready_check_added none
            ∷ health_check_added none
            ∷ registered (registration routes d) none
            ∷ registered (registration domains d) none
            ∷ configuration_loaded none
            ∷ client_created none
            ∷ manager_created (manager_options f) none
            ∷ [];
      },
    )
unfolding main
main-registration rt bases f mgr c namespace d w w1 w2 w3 w4 w5 w6 w7 w8 m n k l a b h g e =
    rw (m, n, k, l, a, b, h, g, e)

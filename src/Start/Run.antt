-- ===== src/Start/Run.antt =====
-- What the start uses of controller-runtime and of the environment, and the calls that it makes.
use mailgun_operator.Base.{String, Bool, Option, List, ◌∷◌}
use mailgun_operator.Base.Exec.{M, next}
use mailgun_operator.Api.Meta.{Error, Res, error_of}
use mailgun_operator.Configuration.{Data}
use mailgun_operator.Configuration.Load.{ConfigClient}
use mailgun_operator.Start.Options.{ManagerOptions}

-- What a controller is built for: `For(&domainv1.Domain{})` or `For(&domainv1.Route{})`.
pub data Kind : Type 0 where
  domains routes : Kind

-- A builder that `Complete` is called on, with the reconciler's fields.
pub record Registration : Type 0 where
  pub kind : Kind
  pub generation_changed : Bool
  pub recorder_name : String
  pub config : Data

-- `Mgr` is a manager. `new_manager` stands for `ctrl.NewManager` with `GetConfigOrDie`.
pub record Runtime (W Mgr : Type 0) : Type 0 where
  pub new_manager : ManagerOptions → W → Res Mgr × W
  pub lookup_env : String → W → Option String
  pub new_client : Mgr → W → Res (ConfigClient W) × W
  pub complete : Mgr → Registration → W → Res (Unit {0}) × W
  pub add_healthz_check : Mgr → String → W → Res (Unit {0}) × W
  pub add_readyz_check : Mgr → String → W → Res (Unit {0}) × W
  pub start : Mgr → W → Res (Unit {0}) × W

-- A call and the error that it returned.
pub data Call : Type 0 where
  manager_created : ManagerOptions → Option Error → Call
  client_created : Option Error → Call
  configuration_loaded : Option Error → Call
  registered : Registration → Option Error → Call
  health_check_added ready_check_added : Option Error → Call
  started : Option Error → Call

-- The variable `config`, and the calls so far, newest first.
pub record StartRun (W : Type 0) : Type 0 where
  pub world : W
  pub config : Data
  pub calls : List Call

module _ {W R : Type 0} where
  abbrev pub request :
      {A : Type 0} → (Option Error → Call) → (W → Res A × W) → M (StartRun W) R (Res A)
  request c f s =
      let (x, w) = f s.world in (next x, record s { world = w; calls = c (error_of x) ∷ s.calls })

-- ===== src/System/Simulation.antt =====
-- A world that holds a mock server, one stored object and nothing else.
use mailgun_operator.Base.{
  arith, is_empty, ◌≡◌, refl, sym, ap, String, Bool, true, false, Option, none, some, [], ◌∷◌,
  if◌then◌else◌,
}
use mailgun_operator.Api.Meta.{Res, ok, err}
use mailgun_operator.Api.DomainTypes.{Domain}
use mailgun_operator.External.{ObjectClient, DomainApi, Cluster}
use mailgun_operator.DomainController.Run.{DomainReconciler}
use mailgun_operator.DomainController.Simulation.{missing, response, finalizers, config, Endpoint}
use mailgun_operator.MockServer.{MockServer, Surroundings}
use mailgun_operator.MockServer.Http.{Request}
use mailgun_operator.MockServer.Serve.{serve}
use mailgun_operator.System.Unique.Histories.{ReadsNamed}
use mailgun_operator.System.{
  domain_request, verification_request, creation_request, succeeds, is_accepted, ServedBy, IsApart,
  KeepsName,
}

pub record World : Type 0 where
  pub stored : Option Domain
  pub mock : MockServer

abbrev pub around : World → Surroundings
around _ = record { now = 7; random = "abcdefghij"; spam_action_disabled = "disabled" }

abbrev pub client : ObjectClient World Domain
client = record {
  get = λ _ w. (elim w.stored [ none ↦ err missing | some d ↦ ok d ], w);
  update = λ d w. (ok d, record w { stored = some d });
  status_update = λ d w. (ok d, record w { stored = some d });
}

abbrev pub cluster : Cluster World Endpoint
cluster = record {
  get_secret = λ _ w. (err missing, w);
  create_or_update_secret = λ _ _ w. (ok tt, w);
  get_endpoint = λ _ w. (err missing, w);
  create_endpoint = λ _ w. (ok tt, w);
  delete_endpoint = λ _ w. (ok tt, w);
  new_endpoint = λ n t l. (n, (t, l));
  key_text = λ k. k.name;
  record_event = λ _ _ _ w. w;
  rand_read = λ _ w. (ok (1 ∷ 171 ∷ []), w);
  now = λ w. (7, w);
}

-- The answer of a call, by whether the library takes the server's for a success.
abbrev pub answered : {A : Type 0} → A → Bool → Res A
answered a b = if b then ok a else err missing

pub succeeds-answered : {A : Type 0} (a : A) (b : Bool) → succeeds (answered a b) ≡ b
succeeds-answered a true = refl
succeeds-answered a false = refl

-- A call that sends a request.
abbrev pub send : {A : Type 0} → A → Request → World → Res A × World
send a r w =
    let (answer, m) = serve r (around w) w.mock in
    (answered a (is_accepted answer), record w { mock = m })

abbrev pub mailgun : DomainApi World
mailgun = record {
  get_domain = λ mg n w. send response (domain_request "GET" mg n) w;
  create_domain = λ mg n _ w. send response (creation_request mg n) w;
  verify_domain = λ mg n w. send "active" (verification_request mg n) w;
  delete_domain = λ mg n w. send tt (domain_request "DELETE" mg n) w;
}

abbrev pub reconciler : DomainReconciler World Endpoint
reconciler = record {
  client = client;
  finalizers = finalizers;
  cluster = cluster;
  mailgun = mailgun;
  bases = record { eu = "https://eu"; us = "https://us" };
  config = config;
}

pub mailgun-ServedBy : ServedBy mailgun "https://eu" (λ w. w.mock) around
mailgun-ServedBy = record {
  get_domain-sent = λ mg n w h. refl;
  get_domain-succeeds = λ mg n w h. succeeds-answered response _;
  create_domain-sent = λ mg n o w h. refl;
  verify_domain-sent = λ mg n w h. refl;
  delete_domain-sent = λ mg n w h. refl;
  delete_domain-succeeds = λ mg n w h. succeeds-answered tt _;
}

pub reconciler-IsApart : IsApart reconciler (λ w. w.mock)
reconciler-IsApart = record {
  update-apart = λ d w. refl;
  status_update-apart = λ d w. refl;
  get_endpoint-apart = λ key w. refl;
  create_endpoint-apart = λ e w. refl;
  get_secret-apart = λ key w. refl;
  create_or_update_secret-apart = λ secret f w. refl;
  rand_read-apart = λ n w. refl;
  now-apart = λ w. refl;
  delete_endpoint-apart = λ e w. refl;
  record_event-apart = λ kind reason message w. refl;
}

-- The name that an answer has.
abbrev name_of : Res Domain → String
name_of (ok d) = d.spec.domain
name_of (err _) = ""

pub client-KeepsName : KeepsName client
client-KeepsName = record {
  update-name = λ d d' w h. sym (ap name_of h);
  status_update-name = λ d d' w h. sym (ap name_of h);
}

-- An API server that has no object without a name.
abbrev pub read : Option Domain → Res Domain
read none = err missing
read (some d) = if is_empty d.spec.domain then err missing else ok d

abbrev pub naming : DomainReconciler World Endpoint
naming = record reconciler { client = record client { get = λ _ w. (read w.stored, w) } }

read-named : (o : Option Domain) (d : Domain) → read o ≡ ok d → is_empty d.spec.domain ≡ false
read-named none d h = absurd (cc)
read-named (some x) d h = ground arith

pub naming-ReadsNamed : ReadsNamed naming (λ w. w.mock)
naming-ReadsNamed = record {
  get-apart = λ key w. refl;
  get-named = λ key w d h. read-named w.stored d h;
}

pub naming-IsApart : IsApart naming (λ w. w.mock)
naming-IsApart = record {
  update-apart = λ d w. refl;
  status_update-apart = λ d w. refl;
  get_endpoint-apart = λ key w. refl;
  create_endpoint-apart = λ e w. refl;
  get_secret-apart = λ key w. refl;
  create_or_update_secret-apart = λ secret f w. refl;
  rand_read-apart = λ n w. refl;
  now-apart = λ w. refl;
  delete_endpoint-apart = λ e w. refl;
  record_event-apart = λ kind reason message w. refl;
}

pub naming-KeepsName : KeepsName naming.client
naming-KeepsName = record {
  update-name = λ d d' w h. sym (ap name_of h);
  status_update-name = λ d d' w h. sym (ap name_of h);
}

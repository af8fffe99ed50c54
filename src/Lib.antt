-- ===== src/Lib.antt =====
-- The Mailgun operator for Kubernetes: its reconcilers of domains and routes, and its settings.
--
-- The program. A controller of controller-runtime calls `Reconcile` with the key of a custom
-- resource. The reconciler fetches the object, examines its deletion timestamp and finalizer, and
-- brings Mailgun in line with it by calls of mailgun-go, and the object's status in line with the
-- answers by calls of the API server. The domains' reconciler also writes the SMTP credentials to
-- a secret and DNS records to a DNSEndpoint of external-dns. Both get their Mailgun client from
-- the configuration, which is read from a config map and a secret.
--
-- The files:
-- Base: tests on numbers and texts, integers with 64 bits (Base.Int), Go maps (Base.Dict), and
--   the control flow of a Go method (Base.Exec): it goes on, returns early or panics, and keeps
--   what it has changed. Base.Exec.Triple is a logic for it, with a test for each way
--   out; Base.Exec.Outcome and Base.Exec.Leads have types for these, Leads for `search`.
-- Api: api/domain/v1/domain_types.go and route_types.go. A pointer is an Option.
-- Api.DeepCopy: api/domain/v1/zz_generated.deepcopy.go, over a memory with typed pointers. Structs
--   has the types with their pointers, Copies the statements that all the copies are made of,
--   Domain, Route and Object the methods, and a Shows below each says which value of Api a struct
--   stands for. Runs has the rules for commands that only add to the memory. The copies of
--   apimachinery and external-dns are arguments; that they are deep is the hypothesis AreDeep.
-- External: what the program uses of other repositories, as records of operations on a state W
--   of the world. The definitions take them as arguments, and the theorems hold for all of them
--   unless a hypothesis on one is named.
-- Configuration: internal/configuration/configuration.go; Configuration.Load is
--   `LoadConfiguration`, `readConfigMap`, `readSecret` and `hashToConfig`, whose loop by reflection
--   is a loop over the fields' names; Configuration.Parse is what these use of strconv and strings.
-- Controller: what one call of `Reconcile` works on: the world, the object in memory, and the
--   calls made so far, newest first, with their errors.
-- DomainController: internal/controller/domain/domain_controller.go. Create is `createDomain`
--   with `RandomHex` of internal/utils/random.go, Export is `exportCredentialsToSecret`, Records and
--   ExternalDns are `createExternalDNSEntity` and `mgDNSRecordsToDnsRecords`, Delete is
--   `deleteDomain`, Verify is the verification with `checkMXRecordsAndSetState`, and Reconcile is
--   `Reconcile`. A definition is one method, or one stretch of it between two returns.
-- RouteController: internal/controller/domain/route_controller.go, in the same way: Delete is
--   the branch of the deletion, Sync what follows it.
-- MockServer: internal/utils/mailgun_mock_server.go, the Mailgun in memory that the tests run
--   against. Http is what it uses of net/http, Domains and Routes are its handlers, and Serve the
--   authorization and the patterns. Routes.Entries is an account of the routes as a table, written
--   without the handlers. Events are requests and preparations, one after another.
-- Start: cmd/main.go behind the parsing of the flags, with both `SetupWithManager`. Options are
--   those of the manager, Run the calls that it makes, and Main is `main`.
-- DomainController.Convergence: runs of `Reconcile` one after another, on an API server that keeps
--   what it is sent.
-- System: the reconcilers and the mock server composed, by a Mailgun client that sends its requests
--   to the server. What the client and the cluster do is a hypothesis, in the records ServedBy,
--   IsApart and KeepsName; Simulation has a world that fulfils them. Deletion follows the steps of
--   `deleteDomain`, Unique every step of `Reconcile`, and Unique.Histories is about runs in
--   sequence. Routes does the same with the routes' reconciler, by ServesRoutes, RoutesApart and
--   KeepsId. Activation follows the first run on a domain's object, with AnswersTo besides.
--   ServedBy excludes that an answer to `GetDomain` or `DeleteDomain` is lost: to the operator that
--   is no different from a domain that is not on Mailgun, and it would create a second one.
-- Protocol below each of the two reconcilers is the abstract specification: which call may follow
--   which. For a route it depends on what the object asks for, with the name of the domain to look
--   up or the id of the route to remove. Stages shows it for single stages.
-- Simulation and Tests: runs in a small world, and each theorem at one such run.
--
-- No fuel is used: the program's loops run over lists, and `Reconcile` has none around them; to be
-- called again is its caller's part, and is a value of its reply.
--
-- Not modelled: logging, but for the pointer that the message behind a new route's creation
-- reads; the libraries (they are arguments); contexts and cancelled calls, which
-- are errors of the calls here; the socket and the mutex of the mock server; the
-- parsing of flags, the schemes and the signal handler of cmd/main.go; internal/versions and
-- internal/utils/prettyprint.go, which have no logic; the group names in api, and the deployment
-- under config and releases. A failed call leaves the caller's object as
-- it was. A string is a sequence of characters, where Go has bytes; a secret's values are strings.
pub mod Base
pub mod Api
pub mod External
pub mod Configuration
pub mod Controller
pub mod DomainController
pub mod RouteController
pub mod MockServer
pub mod Start
pub mod System

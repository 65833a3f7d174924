-- ===== src/Lib.antt =====
-- Verification of the aerial RAN platform: Go services that share a library, a PostgreSQL server
-- and, for the 5G core, a MongoDB collection. A browser talks to the services over HTTP; each
-- request passes the middleware of lib-aerial-go, reaches a handler, which calls its service,
-- which runs statements on its tables. The services do not call one another: they share the
-- claims of the access tokens that svc-aerial-iam issues.
--
-- The parts and their files:
-- - Base and its children: tests on numbers and texts, lists as tables, decimal printing,
--   integers.
-- - Go: error values (Go/Errors: sentinels, errors.Join, the driver's error, errors.Is and
--   errors.As), operations on a world that may fail and keep what they wrote (Go/Exec, with
--   rules for what an operation keeps and where it leads), and calls that leave the process
--   (Go/Postgres).
-- - Respond: lib-aerial-go/respond/respond.go. Jwt: lib-aerial-go/jwt/jwt.go.
-- - Subscriber: svc-aerial-subscriber/internal, that is Model (model/sim.go and the table
--   subscriber.sims), Core (open5gs/mongo.go), Repository (repository/postgres.go), Service
--   (service/sim.go), Handler (handler/handler.go).
-- - Iam: svc-aerial-iam/internal, that is Model (model/user.go and the tables), Repository and
--   Repository/Sessions (repository/postgres.go), Slug and Service (service/iam.go), Handler
--   (handler/handler.go).
-- - Provision: svc-aerial-provision/internal/provision/provision.go, that is Model, Service,
--   Handler.
-- - Billing: svc-aerial-billing/internal/billing/billing.go, that is Model, Service (a transaction
--   keeps what its statements wrote only if all of them and the commit succeed), Handler.
-- - RanControl: svc-aerial-ran-control/internal, that is Gnb (gnb/gnb.go), Handler (the GNodeB
--   endpoints of ranctl/ranctl.go) and Radio (the status of the network functions, the list of
--   subscribers and the parser of the list of functions, in ranctl/ranctl.go).
-- - Esim: svc-aerial-esim/internal, that is Model (model/esim.go and the tables esim.packages and
--   esim.esims), Provider (provider/provider.go), Provider/Mock (provider/mock.go),
--   Provider/Airalo and Provider/Allowance (provider/airalo.go), Repository
--   (repository/postgres.go), Service (service/esim.go), Handler (handler/handler.go). A provider
--   is a record of operations on a state of its own, which stands beside the tables; the service
--   is written for any provider.
-- - Messaging: svc-aerial-messaging/internal/messaging/messaging.go, that is Model, Service (Send
--   and Inbox), Stream (the loop of the WebSocket), Handler.
-- - Runner: lib-aerial-go, that is Writer (the calls of a handler on its ResponseWriter, and the
--   statusRecorders of metrics/metrics.go and httplog/httplog.go), Middleware (recover/recover.go,
--   metrics, httplog, CORS and body limit of runner/runner.go, and Jwt as a middleware), Stack
--   (chain, the stack of Run, EnvOr), Health (health/health.go).
-- - Entry: Iam, Subscriber and Esim, the internal/config/config.go and the middlewares of
--   cmd/server/main.go of the three services that do not start through the runner; Entry itself has
--   what the three copies share.
-- - Disclosure: the error tables of respond.go and of the handlers together.
--
-- How the code is read. A method becomes a function of the same name in snake_case, written in
-- the monad of Go/Exec: from a world to a result or an error and the world that is left; `err !=
-- nil` after a call is the monad's bind, and where the code inspects an error the call is under
-- `attempt`. A SQL statement is a function on lists of rows with the checks of the migrations:
-- keys, foreign keys, casts of texts to UUIDs. A world is a counter of the calls made so far and
-- the data. For each call the counter decides, by a parameter, whether the server fails it and
-- how, and the identifiers, times and random values it gives; so a theorem for all parameters is
-- one for any faults, in any place. A statement that fails has no effect. Requests are taken one
-- after the other; the interleaving of two requests is not modelled, except that a theorem on a
-- sequence of requests is for any sequence.
--
-- Parameters, since their code is not in the repository: the PostgreSQL server (casts, printing of
-- UUIDs, faults, fresh identifiers, the clock), the MongoDB driver's faults, the Kubernetes API
-- server, bcrypt, SHA-256, the random reader, mail.ParseAddress, strings.ToLower, the calendar and
-- the clock, the signing and checking of a JWT, the network behind the Airalo adapter with the
-- decoding of its JSON, the QR encoder, JetStream (a publication is appended to a log or fails; a
-- consumer delivers what was published under its subject since it was made), the upgrade to a
-- WebSocket, url.Parse, time.ParseDuration, and the network functions' metrics endpoints, with
-- which of their URLs net/http takes. The hypotheses on them are that a UUID which the PostgreSQL
-- server prints is read back (ReadsBack), that the zero UUID reads as zero, and that the API
-- server keeps every text, number and flag of an object that it accepts, whatever it adds.
--
-- Loops of the modelled code are over a list or a text and are structural recursion. Fuel stands in
-- three places. The digits of a number are printed with fuel one more than the number, of which
-- each digit uses one. The two searches for the exponent of a float64 have 1074 and 971 turns,
-- which are all the exponents that there are: below the first the number is subnormal, beyond the
-- second it is out of range. Times are numbers, in nanoseconds where the code adds durations.
--
-- A float64 is written out where the code parses one (Esim/Provider/Allowance): the nearest number
-- with 53 bits, ties to even; a conversion of 2 ^ 63 or more to int gives the least int, as on
-- amd64. The floats that the Airalo API sends are converted by its decoder, a parameter. The
-- lifetime of a token is added without the overflow of time.Duration at 292 years.
--
-- Not modelled: the routing of net/http, JSON coding, the opening of connections, the rest of the
-- entry points (cmd/server/main.go of each service), which start and stop the server, tracing and
-- the gauges of the database pool, which call libraries; of MongoDB's cursor that it can fail half
-- way; the web page, the scripts and the deployment files.
pub mod Base
pub mod Go
pub mod Respond
pub mod Jwt
pub mod Subscriber
pub mod Iam
pub mod Provision
pub mod Billing
pub mod RanControl
pub mod Esim
pub mod Messaging
pub mod Runner
pub mod Entry
pub mod Disclosure

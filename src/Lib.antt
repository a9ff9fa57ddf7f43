-- ===== src/Lib.antt =====
-- The registry of OCPP message schemas. It stores JSON schemas in PostgreSQL, by OCPP version,
-- action, message type, vendor and model, with a changelog of their contents; it serves the ones
-- that an admin has verified, through a Redis cache; and it validates OCPP messages against them.
-- It is reached by gRPC, by an admin gRPC server of its own, and by MCP.
--
-- The parts, and the files that model them:
-- * Schema models internal/schema: the domain types (Model), the interfaces Repository and Cache
--   (Ports), cacheKey (CacheKey) and the methods of Service (Service). Schema.Steps has the
--   calls of the service as steps from state to state, and Schema.Overlap has those of other
--   clients between the steps of one call, and Schema.Recording a list of the calls that write.
-- * Postgres models internal/storage/postgres: the rows (Model), what is called of gorm (Gorm), the
--   SQL conditions as tests of a row (Query), and the methods of SchemaRepository (Repository).
--   Tables has the two tables of deployments/migrations, and IsPostgres says what is relied on.
--   Spec has the registry that the tables stand for, a map from slots to schemas, Represents says
--   when rows stand for it, Outcomes what each method may do to it, and Refinement has the theorems.
-- * Redis models internal/storage/redis/cache.go (Store), over a client.
-- * Pagination models internal/pagination/token.go (Token).
-- * Grpc models internal/grpc: the messages of gen/proto (Messages), mapping.go (Mapping), the
--   argument checks (Checks) and the handlers (Handler, AdminHandler, ValidationHandler).
-- * Validation models internal/validation: the Service and the registryAdapter (Adapter), over the
--   chargeflow library (Chargeflow).
-- * Mcp models internal/mcp: the tools as they are announced (Specs), their handlers (Tools), their
--   registration (Registration), and the resources (Resources).
-- * App models how cmd/app/main.go puts these together, PostgreSQL and Redis with separate states;
--   App.Config has the structures of cmd/app/config.go, and App.Startup the order in which the
--   command starts and stops, with internal/grpc/adminserver and the server of internal/mcp.
--   App.Unwinding has what is shut down. A server that fails ends the process from its goroutine.
--   App.Public has the writing calls of clients other than the admin, in any sequence.
-- * Errors has the error values, Prelude what all share, and Tests concrete worlds and inputs.
--
-- A method over a state W takes the state and returns its result or its error, with the state
-- that it leaves: Exec of Prelude.Calls. What it did before it failed stays done. Functions and
-- methods keep their Go names, in snake case. Numbers are natural numbers; the conversions of
-- internal/pagination keep their wrap-around at 32 and 64 bits. No loop needs fuel: they go over
-- lists. A client that follows page tokens is given more requests than there are rows.
--
-- What is not under src/ is a parameter: gorm and PostgreSQL, Redis, JSON, base64, UUIDs, URLs, the
-- chargeflow library. The laws that a theorem needs of them are records of named hypotheses
-- (IsPostgres, IsListing, IsRedis, IsCodec), and Tests has small databases, a key store and a codec
-- that meet them. One call of the repository or of the cache is one step; between two steps of a
-- call of the service other clients' calls may come. Not modelled are the interleaving of single SQL statements,
-- the tracing spans, interceptors, the defaults and sources of the configuration, logging, the
-- migration command, and what a listener does: they are input and output, or work of the libraries.
pub mod App
pub mod Errors
pub mod Grpc
pub mod Mcp
pub mod Pagination
pub mod Postgres
pub mod Prelude
pub mod Redis
pub mod Schema
pub mod Tests
pub mod Validation

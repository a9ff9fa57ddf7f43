-- ===== src/App/Startup.antt =====
-- cmd/app/main.go, internal/grpc/adminserver/server.go and internal/mcp/server.go: how the command
-- starts and stops, as the calls of the libraries that it makes, in their order. Their outcomes are
-- a parameter.
use chargeflow_registry.Prelude.{
  ℕ, zero, suc, Option, none, some, String, ℤ, List, [], ◌∷◌, ◌++◌, Bool, true, false,
  if◌then◌else◌,
}
use chargeflow_registry.App.Config.{Configuration}

pub data Service : Type 0 where
  health schema_registry schema_validation admin : Service

-- A call of a library, or the wait for a signal.
pub data Event : Type 0 where
  new_observability shut_down_observability : Event
  open_database : String → Event
  use_database_tracing : Event
  init_redis_observability shut_down_redis_observability : Event
  new_redis_client : String → String → ℤ → Event
  register : Service → Event
  listen : String → Event
  serve_grpc stop_grpc : Event
  serve_admin stop_admin : Event
  serve_mcp : String → Event
  shut_down_mcp : Event
  wait_for_signal : Event
  -- logger.Fatal, which ends the process at once and runs nothing that is deferred
  fatal : String → Event
  -- logger.Panic in a goroutine, which ends the process and runs nothing that `Run` has deferred
  panic : String → Event

pub data End : Type 0 where
  returned exited panicked : End

-- The goroutines in which the servers run.
pub data Goroutine : Type 0 where
  grpc_goroutine admin_goroutine mcp_goroutine : Goroutine

-- A server that returns an error, and the number of calls that `Run` makes in between.
pub record Failure : Type 0 where
  pub goroutine : Goroutine
  pub after : ℕ

-- Whether each call that can fail does, and the first server that fails while the process lasts.
pub record Failures : Type 0 where
  pub observability : Bool
  pub database : Bool
  pub database_tracing : Bool
  pub redis_observability : Bool
  pub grpc_listen : Bool
  pub admin_listen : Bool
  pub serving : Option Failure

abbrev pub Run : Type 0
Run = List Event × End

abbrev pub calling : Event → Run → Run
calling e rest = (e ∷ rest.0, rest.1)

-- `if err := call; err != nil { logger.Fatal(message) }`
abbrev pub or_fatal : Event → Bool → String → Run → Run
or_fatal e fails message rest =
    if fails then (e ∷ fatal message ∷ [], exited) else (e ∷ rest.0, rest.1)

-- `defer e`
abbrev pub deferred : Event → Run → Run
deferred e (events, returned) = (events ++ (e ∷ []), returned)
deferred e (events, exited) = (events, exited)
deferred e (events, panicked) = (events, panicked)

abbrev pub starts : Goroutine → Event → Bool
starts grpc_goroutine serve_grpc = true
starts admin_goroutine serve_admin = true
starts mcp_goroutine (serve_mcp _) = true
starts _ _ = false

-- `if err := server.Serve(lis); err != nil { … }` of each goroutine. The MCP server panics.
unfoldable pub gives_up : Goroutine → Event × End
gives_up grpc_goroutine = (fatal "failed to serve gRPC", exited)
gives_up admin_goroutine = (fatal "failed to serve admin gRPC", exited)
gives_up mcp_goroutine = (panic "MCP server error", panicked)

-- So many calls later the process ends, if it has not ended by itself.
abbrev pub ended_after : ℕ → Event × End → List Event → End → Run
ended_after zero (last, end) (x ∷ xs) e = (last ∷ [], end)
ended_after zero (last, end) [] returned = (last ∷ [], end)
ended_after zero death [] exited = ([], exited)
ended_after zero death [] panicked = ([], panicked)
ended_after (suc n) death (x ∷ xs) e = calling x (ended_after n death xs e)
ended_after (suc n) death [] e = ([], e)

abbrev pub ended_by : Failure → List Event → End → Run
ended_by f [] e = ([], e)
ended_by f (x ∷ xs) e =
    if starts f.goroutine x
    then calling x (ended_after f.after (gives_up f.goroutine) xs e)
    else calling x (ended_by f xs e)

-- What `Run` does until a goroutine ends the process.
abbrev pub interrupted : Option Failure → Run → Run
interrupted none r = r
interrupted (some f) (events, e) = ended_by f events e

module _ (fails : Failures) where
  -- Start of the admin server: `Listen`, and `Serve` in a goroutine; NewServer has registered its
  -- services.
  unfoldable pub admin_server : String → Run → Run
  admin_server address rest = calling (register health) (
      calling (register admin) (
        or_fatal (listen address) fails.admin_listen "failed to start admin gRPC server"
          (calling serve_admin rest)))

  -- `Start` of the MCP server, in a goroutine, with `gives_up` where the server returns an error.
  unfoldable pub mcp_server : String → Run → Run
  mcp_server address rest = calling (serve_mcp address) rest

  -- `Run` of the root command, by itself.
  unfoldable pub main_run : {Observability : Type 0} → Configuration Observability → Run
  unfolding admin_server mcp_server
  main_run cfg = or_fatal new_observability fails.observability "failed to setup observability" (
      deferred shut_down_observability (
        or_fatal (open_database cfg.database.dsn) fails.database "failed to connect to database" (
          or_fatal use_database_tracing fails.database_tracing "failed to setup postgres tracing" (
            or_fatal init_redis_observability fails.redis_observability
              "failed to setup redis observability"
              (deferred shut_down_redis_observability (
                calling (new_redis_client cfg.redis.address cfg.redis.password cfg.redis.db) (
                  calling (register health) (
                    calling (register schema_registry) (
                      calling (register schema_validation) (
                        or_fatal (listen cfg.grpc.address) fails.grpc_listen "failed to listen" (
                          calling serve_grpc (
                            deferred stop_grpc (
                              admin_server cfg.admin_grpc.address (
                                deferred stop_admin (
                                  mcp_server cfg.mcp.address (
                                    deferred shut_down_mcp
                                      (calling wait_for_signal ([], returned))))))))))))))))))

  -- The command, with its goroutines.
  unfoldable pub run : {Observability : Type 0} → Configuration Observability → Run
  unfolding main_run gives_up
  run cfg = interrupted fails.serving (main_run cfg)

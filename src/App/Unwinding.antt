-- ===== src/App/Unwinding.antt =====
-- What the command of cmd/app/main.go has shut down when it ends.
use chargeflow_registry.Prelude.{List, [], ◌∷◌, ◌++◌, Bool, true, false, ◌||◌, select, ◌≡◌}
use chargeflow_registry.App.Config.{Configuration}
use chargeflow_registry.App.Startup.{
  Event, End, returned, exited, panicked, Failure, Failures, Run, gives_up, main_run, run,
  init_redis_observability, new_observability, serve_admin, serve_grpc, serve_mcp, shut_down_mcp,
  shut_down_observability, shut_down_redis_observability, stop_admin, stop_grpc,
}

-- What undoes a call, where something does.
abbrev pub undoing : Event → List Event
undoing new_observability = shut_down_observability ∷ []
undoing init_redis_observability = shut_down_redis_observability ∷ []
undoing serve_grpc = stop_grpc ∷ []
undoing serve_admin = stop_admin ∷ []
undoing (serve_mcp _) = shut_down_mcp ∷ []
undoing _ = []

abbrev pub undoes : Event → Bool
undoes shut_down_observability = true
undoes shut_down_redis_observability = true
undoes stop_grpc = true
undoes stop_admin = true
undoes shut_down_mcp = true
undoes _ = false

-- What has been started, undone from the last one to the first.
abbrev pub unwound : List Event → List Event
unwound [] = []
unwound (e ∷ es) = unwound es ++ undoing e

abbrev pub stops : End → List Event → List Event
stops returned es = unwound es
stops exited es = []
stops panicked es = []

abbrev pub end_of : Bool → End
end_of true = exited
end_of false = returned

abbrev pub any_fails : Failures → Bool
any_fails f =
    f.observability || f.database || f.database_tracing || f.redis_observability || f.grpc_listen
    || f.admin_listen

-- Nothing has ended the process before its end; or it made the first calls, in order, and a goroutine
-- has ended it then.
pub data Cut (r : Run) (whole : Run) (death : Event × End) : Type 0 where
  uncut : r ≡ whole → Cut r whole death
  cut :
      (kept lost : List Event)
      → r ≡ (kept ++ (death.0 ∷ []), death.1)
      → whole.0 ≡ kept ++ lost
      → Cut r whole death

module _ {Observability : Type 0} (cfg : Configuration Observability) where
  abbrev Unwinds : Failures → Type 0
  Unwinds fails =
      ((main_run fails cfg).1 ≡ end_of (any_fails fails))
      × (select undoes (main_run fails cfg).0 ≡ stops (main_run fails cfg).1 (main_run fails cfg).0)

  -- A goroutine has ended the process after a first part of the calls of `Run`.
  pub record Killed (fails : Failures) (f : Failure) : Type 0 where
    pub kept : List Event
    pub lost : List Event
    pub calls : (main_run fails cfg).0 ≡ kept ++ lost
    pub made : (run fails cfg).0 ≡ kept ++ ((gives_up f.goroutine).0 ∷ [])
    pub end : (run fails cfg).1 ≡ (gives_up f.goroutine).1
    pub shut_down :
        select undoes (run fails cfg).0 ++ select undoes lost
        ≡ stops (main_run fails cfg).1 (main_run fails cfg).0

-- ===== src/Tests/Startup.antt =====
-- The theorem on starting and stopping at a concrete configuration.
use chargeflow_registry.Prelude.{some, pos, false}
use chargeflow_registry.App.Config.{Configuration}
use chargeflow_registry.App.Startup.{Failures, mcp_goroutine}

abbrev local_config : Configuration (Unit {0})
local_config = record {
  database = record { dsn = "postgres://registry" };
  redis = record { address = "localhost:6379"; password = ""; db = pos 0; cache_ttl = 3600 };
  observability = tt;
  grpc = record { address = "0.0.0.0:50051" };
  admin_grpc = record { address = "0.0.0.0:50052" };
  mcp = record { address = "0.0.0.0:8080" };
}

-- Every start succeeds; the MCP server returns an error when it has been shut down.
abbrev closing : Failures
closing = record {
  observability = false;
  database = false;
  database_tracing = false;
  redis_observability = false;
  grpc_listen = false;
  admin_listen = false;
  serving = some (record { goroutine = mcp_goroutine; after = 2 });
}

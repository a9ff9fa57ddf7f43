-- ===== src/App/Config.antt =====
-- cmd/app/config.go: what the command is configured with. The library's observability section is a
-- parameter.
use chargeflow_registry.Prelude.{String, ℤ}
use chargeflow_registry.Schema.Model.{Time}

pub record DatabaseConfiguration : Type 0 where
  pub dsn : String

pub record RedisConfiguration : Type 0 where
  pub address : String
  pub password : String
  pub db : ℤ
  pub cache_ttl : Time

pub record GrpcConfiguration : Type 0 where
  pub address : String

pub record AdminGrpcConfiguration : Type 0 where
  pub address : String

pub record McpConfiguration : Type 0 where
  pub address : String

pub record Configuration (Observability : Type 0) : Type 0 where
  pub database : DatabaseConfiguration
  pub redis : RedisConfiguration
  pub observability : Observability
  pub grpc : GrpcConfiguration
  pub admin_grpc : AdminGrpcConfiguration
  pub mcp : McpConfiguration

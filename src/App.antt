-- ===== src/App.antt =====
-- cmd/app/main.go: how the parts are put together. PostgreSQL and Redis have separate states.
pub mod Serving
pub mod Archive
pub mod Searching
pub mod Querying
pub mod Versions
pub mod Deletions
pub mod Pairs
pub mod Registry
pub mod Concurrent
pub mod Paging
pub mod Changelogs
pub mod Config
pub mod Unverified
pub mod Public
pub mod Startup
pub mod Unwinding
use chargeflow_registry.Prelude.{Exec}
use chargeflow_registry.Schema.Model.{Time}
use chargeflow_registry.Schema.Ports
use chargeflow_registry.Schema.Service
use chargeflow_registry.Postgres.Gorm.{Gorm, Json}
use chargeflow_registry.Postgres.Repository.{repository}
use chargeflow_registry.Redis.Store.{Client, SchemaJson, cache}
use chargeflow_registry.Validation.Chargeflow.{Chargeflow}
use chargeflow_registry.Validation.Service as Validation
use chargeflow_registry.Grpc.Ports.{SchemaService, AdminService, ValidationService}
use chargeflow_registry.Mcp.Server.{SchemaRegistry}

module _ {W : Type 0} (repo : Ports.Repository W) (store : Ports.Cache W) where
  unfoldable pub schema_service : SchemaService W
  schema_service = record {
    add_pair = Service.add_pair repo store;
    upsert = Service.upsert repo store;
    delete = Service.delete repo store;
    list_vendor_models = Service.list_vendor_models repo store;
    list = Service.list repo store;
    list_versions = Service.list_versions repo store;
  }

  unfoldable pub admin_service : AdminService W
  admin_service = record {
    list = Service.list repo store;
    change_status = Service.change_status repo store;
  }

  module _ {C P : Type 0} (lib : Chargeflow W C P) where
    unfoldable pub validation_service : ValidationService W
    validation_service = record {
      validate_message = Validation.validate_message (Service.get repo store) lib;
      validate_messages = Validation.validate_messages (Service.get repo store) lib;
    }

    unfoldable pub schema_registry : SchemaRegistry W
    schema_registry = record {
      get = Service.get repo store;
      get_version = Service.get_version repo store;
      add_pair = Service.add_pair repo store;
      delete = Service.delete repo store;
      list = Service.list repo store;
      list_versions = Service.list_versions repo store;
      validate_message = Validation.validate_message (Service.get repo store) lib;
    }

module _ {D R E A : Type 0} where
  abbrev pub on_database : Exec D E A → Exec (D × R) E A
  on_database m w = let done = m w.0 in (done.0, (done.1, w.1))

  abbrev pub on_redis : Exec R E A → Exec (D × R) E A
  on_redis m w = let done = m w.1 in (done.0, (w.0, done.1))

module _ {D R : Type 0} where
  abbrev pub database_repository : Ports.Repository D → Ports.Repository (D × R)
  database_repository r = record {
    get = λ v a t vendor model. on_database (r.get v a t vendor model);
    list =
        λ v vendor model a t s limit offset. on_database (r.list v vendor model a t s limit offset);
    add = λ s. on_database (r.add s);
    upsert = λ s. on_database (r.upsert s);
    delete = λ v a t vendor model. on_database (r.delete v a t vendor model);
    update_status = λ id s. on_database (r.update_status id s);
    list_vendor_models =
        λ vendor models limit offset. on_database (r.list_vendor_models vendor models limit offset);
    list_versions = λ id limit offset. on_database (r.list_versions id limit offset);
    get_version = λ id v. on_database (r.get_version id v);
  }

  abbrev pub redis_cache : Ports.Cache R → Ports.Cache (D × R)
  redis_cache c = record {
    get = λ key. on_redis (c.get key);
    set = λ key s. on_redis (c.set key s);
    delete = λ key. on_redis (c.delete key);
  }

-- `repo` and `cache` of the command, from the connections and the configured time to live.
module _ {D R V : Type 0} (db : Gorm D) (json : Json V) (client : Client R) (coding : SchemaJson)
    (ttl : Time) where
  unfoldable pub repo : Ports.Repository (D × R)
  repo = database_repository (repository db json)

  unfoldable pub store : Ports.Cache (D × R)
  store = redis_cache (cache client coding ttl)

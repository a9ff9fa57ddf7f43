-- ===== src/App/Serving.antt =====
-- The service of cmd/app/main.go on PostgreSQL and Redis: it serves verified schemas only.
use chargeflow_registry.Prelude.{String, Option, none, ◌≡◌, ◌∙◌, ap, ok}
use chargeflow_registry.Schema.Model.{
  OcppVersion, MessageType, Bytes, Time, Schema, status_verified,
}
use chargeflow_registry.Schema.Service
use chargeflow_registry.Schema.Serving.{IsCache, IsRepository, get-verified}
use chargeflow_registry.Schema.Steps.{Reachable}
use chargeflow_registry.Postgres.Model.{to_domain}
use chargeflow_registry.Postgres.Gorm.{Gorm, Json}
use chargeflow_registry.Postgres.Tables.{Tables, IsPostgres}
use chargeflow_registry.Postgres.Lookup.{get-Serves}
use chargeflow_registry.Postgres.Repository.{repository}
use chargeflow_registry.Redis.Store.{Client, SchemaJson}
use chargeflow_registry.Redis.Contents.{IsRedis, KeepsStatus, Cached, cache-IsCache}
use chargeflow_registry.App.{repo, store}

module _ {D R V : Type 0} (db : Gorm D) (json : Json V) (client : Client R) (coding : SchemaJson)
    (ttl : Time) (contents : R → String → Option Bytes) where
  -- A read of `key` from Redis can give `s`.
  abbrev pub Holds : D × R → String → Schema → Type 0
  Holds w = Cached client coding ttl contents w.1

  pub store-IsCache :
      IsRedis client contents → KeepsStatus coding → IsCache (store db json client coding ttl) Holds
  unfolding store
  store-IsCache redis keeps =
      let laws = cache-IsCache client coding ttl contents redis keeps in
      record {
        get-hit = λ key w. laws.get-hit key w.1;
        get-keeps = λ key w. laws.get-keeps key w.1;
        set-keeps = λ key x w. laws.set-keeps key x w.1;
        delete-keeps = λ key w. laws.delete-keeps key w.1;
      }

  pub repo-IsRepository :
      (jsonb : Bytes → Bytes) (view : D → Tables)
      → IsPostgres db jsonb view
      → IsRepository Holds (repo db json client coding ttl)
  unfolding repo repository
  repo-IsRepository jsonb view laws = record {
    get-verified = λ version action msg_type vendor model w s p.
        let served = get-Serves version action msg_type db jsonb view laws vendor model w.0 s p in
        ap (λ (x : Schema). x.status) served.same ∙ (unfold to_domain in served.verified);
    get-IsQuiet = λ version action msg_type vendor model w key s held. held;
    add-IsQuiet = λ x w key s held. held;
    upsert-IsQuiet = λ x w key s held. held;
    delete-IsQuiet = λ version action msg_type vendor model w key s held. held;
    list-IsQuiet = λ version vendor model action msg_type status limit offset w key s held. held;
    list_vendor_models-IsQuiet = λ vendor models limit offset w key s held. held;
    list_versions-IsQuiet = λ id limit offset w key s held. held;
    get_version-IsQuiet = λ id version w key s held. held;
    update_status-IsQuiet = λ id status w key s held. held;
  }

  -- From an empty cache, after any sequence of the service's calls, whatever failed on the way: a
  -- schema that Get returns, from Redis or from the database, is verified, given that the JSON form
  -- of a schema keeps its status.
  pub served-verified :
      (jsonb : Bytes → Bytes) (view : D → Tables)
      → IsPostgres db jsonb view
      → IsRedis client contents
      → KeepsStatus coding
      → (start w : D × R) (version : OcppVersion) (action : String) (msg_type : MessageType)
        (vendor model : Option String) (s : Schema)
      → ((key : String) → contents start.1 key ≡ none)
      → Reachable (repo db json client coding ttl) (store db json client coding ttl) start w
      → (Service.get
          (repo db json client coding ttl)
          (store db json client coding ttl)
          version
          action
          msg_type
          vendor
          model
          w).0
        ≡ ok s
      → s.status ≡ status_verified
  served-verified jsonb view laws redis keeps start w version action msg_type vendor model s empty
        path p =
      get-verified Holds (repo db json client coding ttl) (store db json client coding ttl)
        (repo-IsRepository jsonb view laws) (store-IsCache redis keeps) start w version action
        msg_type vendor model s path (λ key x held. absurd (cc (held.1, empty key))) p

-- ===== src/App/Querying.antt =====
-- `querySchemas` of internal/mcp/tools.go over the service and the database.
use chargeflow_registry.Prelude.{String, some, List, All, ◌≡◌, ◌∙◌, inl, inr, ok, Result-cases}
use chargeflow_registry.Schema.Model.{Bytes, Time, Schema, status_verified}
use chargeflow_registry.Schema.Ports.{max_page_size}
use chargeflow_registry.Schema.Service
use chargeflow_registry.Postgres.Gorm.{Gorm, Json}
use chargeflow_registry.Postgres.Tables.{Tables, IsPostgres}
use chargeflow_registry.Redis.Store.{Client, SchemaJson}
use chargeflow_registry.Validation.Chargeflow.{Chargeflow}
use chargeflow_registry.Mcp.Server.{Encoding}
use chargeflow_registry.Mcp.Tools.{CallToolRequest, result_text, parse_tool_filter, query_schemas}
use chargeflow_registry.App.{repo, store, schema_registry}
use chargeflow_registry.App.Searching.{list-verified}

module _ {D R V C P : Type 0} (db : Gorm D) (json : Json V) (client : Client R)
    (coding : SchemaJson) (ttl : Time) (jsonb : Bytes → Bytes) (view : D → Tables)
    (laws : IsPostgres db jsonb view) (lib : Chargeflow (D × R) C P) (enc : Encoding) where
  -- When the query_schemas tool answers with a text, over the service and the database, that text
  -- is the JSON form of a list of schemas that are all verified.
  pub query_schemas-verified :
      (req : CallToolRequest) (w : D × R) (out : String)
      → (query_schemas
          (schema_registry (repo db json client coding ttl) (store db json client coding ttl) lib)
          enc
          req
          w).0
        ≡ ok (result_text out)
      → (found : List Schema) × All (λ s. s.status ≡ status_verified) found
        × (enc.marshal_schemas found ≡ ok out)
  unfolding query_schemas schema_registry
  query_schemas-verified req w out p =
      let filter = parse_tool_filter req.argument in
      let listed =
        Service.list (repo db json client coding ttl) (store db json client coding ttl)
          (req.get_string "ocpp_version" "") filter.vendor filter.model filter.action
          filter.message_type (some status_verified) max_page_size 0 w in
      elim (Result-cases listed.0) [
        | inr (e, failed) ↦ absurd (cc (rw failed at p))
        | inl (found, done) ↦ elim (Result-cases (enc.marshal_schemas found.0)) [
          | inr (e, bad) ↦ absurd (cc (rw (done, bad) at p))
          | inl (text, good) ↦ (
            found.0,
            list-verified db json client coding ttl jsonb view laws
                (req.get_string "ocpp_version" "") filter.vendor filter.model filter.action
                filter.message_type max_page_size 0 w found done,
            good ∙ cc (rw (done, good) at p),
          )
        ]
      ]

-- ===== src/Postgres/Model.antt =====
-- internal/storage/postgres/model.go: the rows of the tables `schemas` and `schema_versions`.
use chargeflow_registry.Prelude.{ℕ, String, Option, List, map}
use chargeflow_registry.Schema.Model.{Uuid, Time, Bytes, Schema, SchemaVersion}

pub record SchemaEntity : Type 0 where
  pub id : Uuid
  pub ocpp_version : String
  pub action : String
  pub message_type : String
  pub vendor : Option String
  pub model : Option String
  pub schema : Bytes
  pub status : String
  pub version : ℕ
  pub created_at : Time
  pub updated_at : Time

pub record SchemaVersionEntity : Type 0 where
  pub id : Uuid
  pub schema_id : Uuid
  pub version : ℕ
  pub schema : Bytes
  pub created_at : Time

unfoldable pub to_entity : Schema → SchemaEntity
to_entity s = record {
  id = s.id;
  ocpp_version = s.ocpp_version;
  action = s.action;
  message_type = s.message_type;
  vendor = s.vendor;
  model = s.model;
  schema = s.schema;
  status = s.status;
  version = s.version;
  created_at = s.created_at;
  updated_at = s.updated_at;
}

unfoldable pub to_domain : SchemaEntity → Schema
to_domain e = record {
  id = e.id;
  ocpp_version = e.ocpp_version;
  action = e.action;
  message_type = e.message_type;
  vendor = e.vendor;
  model = e.model;
  schema = e.schema;
  status = e.status;
  version = e.version;
  created_at = e.created_at;
  updated_at = e.updated_at;
}

unfoldable pub to_domain_slice : List SchemaEntity → List Schema
unfolding to_domain
to_domain_slice = map to_domain

unfoldable pub to_version_domain : SchemaVersionEntity → SchemaVersion
to_version_domain e = record {
  id = e.id;
  schema_id = e.schema_id;
  version = e.version;
  schema = e.schema;
  created_at = e.created_at;
}

unfoldable pub to_version_domain_slice : List SchemaVersionEntity → List SchemaVersion
unfolding to_version_domain
to_version_domain_slice = map to_version_domain

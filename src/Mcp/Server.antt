-- ===== src/Mcp/Server.antt =====
-- internal/mcp/server.go: what the handlers share. The libraries that they call are parameters.
use chargeflow_registry.Prelude.{ℕ, String, Option, none, List, ℤ, Exec, Result}
use chargeflow_registry.Errors.{Error}
use chargeflow_registry.Schema.Model.{
  OcppVersion, MessageType, Status, Uuid, Bytes, Schema, SchemaVersion,
}
use chargeflow_registry.Validation.Service.{Request, ValidityReport}

-- SchemaRegistry, and MessageValidator
pub record SchemaRegistry (W : Type 0) : Type 0 where
  pub get : OcppVersion → String → MessageType → Option String → Option String → Exec W Error Schema
  pub get_version :
      OcppVersion → String → MessageType → Option String → Option String → ℤ → Exec W Error Schema
  pub add_pair : Schema → Schema → Exec W Error (Unit {0})
  pub delete : OcppVersion → String → Option String → Option String → Exec W Error (Unit {0})
  pub list :
      OcppVersion
      → (vendor model action : Option String) → Option MessageType
      → Option Status
      → (limit offset : ℕ) → Exec W Error (List Schema × ℤ)
  pub list_versions : Uuid → (limit offset : ℕ) → Exec W Error (List SchemaVersion × ℤ)
  pub validate_message : Request → Exec W Error ValidityReport

-- schemaFilter
pub record SchemaFilter : Type 0 where
  pub vendor : Option String
  pub model : Option String
  pub action : Option String
  pub message_type : Option MessageType

abbrev pub no_filter : SchemaFilter
no_filter = record { vendor = none; model = none; action = none; message_type = none }

-- encoding/json, net/url and the conversion `[]byte(s)`.
pub record Url : Type 0 where
  pub scheme : String
  pub host : String
  pub path : String
  pub raw_query : String

pub record Encoding : Type 0 where
  pub marshal_schema : Schema → Result Error String
  pub marshal_schemas : List Schema → Result Error String
  pub marshal_versions : List SchemaVersion → Result Error String
  pub marshal_report : ValidityReport → Result Error String
  -- strconv.Quote, for `%q`
  pub quote : String → String
  pub bytes_of : String → Bytes
  pub parse_url : String → Option Url
  -- url.ParseQuery, then `Get`, which is "" for a key that is missing
  pub parse_query : String → Option (String → String)

-- ===== src/Schema/Model.antt =====
-- internal/schema/model.go. `uuid.UUID` is its 128-bit number, `time.Time` a count of nanoseconds,
-- and `json.RawMessage` its bytes. A stored version is at least 1, so it is a natural number.
use chargeflow_registry.Prelude.{ℕ, String, Option, List}

abbrev pub OcppVersion : Type 0
OcppVersion = String

abbrev pub ocpp_version_16 : OcppVersion
ocpp_version_16 = "1.6"

abbrev pub ocpp_version_201 : OcppVersion
ocpp_version_201 = "2.0.1"

abbrev pub ocpp_version_21 : OcppVersion
ocpp_version_21 = "2.1"

abbrev pub MessageType : Type 0
MessageType = String

abbrev pub message_type_request : MessageType
message_type_request = "request"

abbrev pub message_type_response : MessageType
message_type_response = "response"

abbrev pub Status : Type 0
Status = String

abbrev pub status_submitted : Status
status_submitted = "submitted"

abbrev pub status_verified : Status
status_verified = "verified"

abbrev pub status_rejected : Status
status_rejected = "rejected"

abbrev pub Uuid : Type 0
Uuid = ℕ

abbrev pub Time : Type 0
Time = ℕ

abbrev pub Bytes : Type 0
Bytes = List ℕ

pub record Schema : Type 0 where
  pub id : Uuid
  pub ocpp_version : OcppVersion
  pub action : String
  pub message_type : MessageType
  pub vendor : Option String
  pub model : Option String
  pub schema : Bytes
  pub status : Status
  pub version : ℕ
  pub created_at : Time
  pub updated_at : Time

pub record SchemaVersion : Type 0 where
  pub id : Uuid
  pub schema_id : Uuid
  pub version : ℕ
  pub schema : Bytes
  pub created_at : Time

pub record VendorModel : Type 0 where
  pub ocpp_version : OcppVersion
  pub vendor : String
  pub model : String

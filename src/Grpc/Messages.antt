-- ===== src/Grpc/Messages.antt =====
-- The enums and messages of gen/proto that the handlers read and build. A protobuf enum is open:
-- any int32 may arrive, so it is an integer with named values. `T` is the wire's timestamp.
use chargeflow_registry.Prelude.{String, Option, List, Bool, ℤ, pos, int_eq, ◌||◌}
use chargeflow_registry.Schema.Model.{Bytes}

abbrev pub OcppVersion : Type 0
OcppVersion = ℤ

abbrev pub ocpp_version_unspecified : OcppVersion
ocpp_version_unspecified = pos 0

abbrev pub ocpp_version_16 : OcppVersion
ocpp_version_16 = pos 1

abbrev pub ocpp_version_201 : OcppVersion
ocpp_version_201 = pos 2

abbrev pub ocpp_version_21 : OcppVersion
ocpp_version_21 = pos 3

-- `_, ok := OcppVersion_name[v]`
abbrev pub names_ocpp_version : ℤ → Bool
names_ocpp_version v = int_eq v (pos 0) || int_eq v (pos 1) || int_eq v (pos 2) || int_eq v (pos 3)

abbrev pub MessageType : Type 0
MessageType = ℤ

abbrev pub message_type_unspecified : MessageType
message_type_unspecified = pos 0

abbrev pub message_type_request : MessageType
message_type_request = pos 1

abbrev pub message_type_response : MessageType
message_type_response = pos 2

abbrev pub names_message_type : ℤ → Bool
names_message_type t = int_eq t (pos 0) || int_eq t (pos 1) || int_eq t (pos 2)

abbrev pub SchemaStatus : Type 0
SchemaStatus = ℤ

abbrev pub schema_status_unspecified : SchemaStatus
schema_status_unspecified = pos 0

abbrev pub schema_status_submitted : SchemaStatus
schema_status_submitted = pos 1

abbrev pub schema_status_verified : SchemaStatus
schema_status_verified = pos 2

abbrev pub schema_status_rejected : SchemaStatus
schema_status_rejected = pos 3

abbrev pub names_schema_status : ℤ → Bool
names_schema_status s = int_eq s (pos 0) || int_eq s (pos 1) || int_eq s (pos 2) || int_eq s (pos 3)

pub record SchemaMessage (T : Type 0) : Type 0 where
  pub id : String
  pub ocpp_version : OcppVersion
  pub action : String
  pub message_type : MessageType
  pub vendor : Option String
  pub model : Option String
  pub schema : Bytes
  pub created_at : T
  pub updated_at : T
  pub status : SchemaStatus
  pub version : ℤ

pub record SchemaVersionMessage (T : Type 0) : Type 0 where
  pub version : ℤ
  pub schema : Bytes
  pub created_at : T

pub record VendorModelMessage : Type 0 where
  pub ocpp_version : OcppVersion
  pub vendor : String
  pub model : String

pub record AddSchemaRequest : Type 0 where
  pub ocpp_version : OcppVersion
  pub action : String
  pub vendor : Option String
  pub model : Option String
  pub request_schema : Bytes
  pub response_schema : Bytes

pub record UpsertSchemaRequest : Type 0 where
  pub ocpp_version : OcppVersion
  pub action : String
  pub message_type : MessageType
  pub vendor : Option String
  pub model : Option String
  pub schema : Bytes

pub record DeleteSchemaRequest : Type 0 where
  pub ocpp_version : OcppVersion
  pub action : String
  pub vendor : Option String
  pub model : Option String

pub record ListVendorModelsRequest : Type 0 where
  pub vendor : String
  pub models : List String
  pub page_size : ℤ
  pub page_token : String

pub record SearchSchemasRequest : Type 0 where
  pub ocpp_version : Option OcppVersion
  pub vendor : Option String
  pub model : Option String
  pub action : Option String
  pub message_type : MessageType
  pub page_size : ℤ
  pub page_token : String

pub record ListSchemaVersionsRequest : Type 0 where
  pub schema_id : String
  pub page_size : ℤ
  pub page_token : String

-- ListVendorModelsResponse, SearchSchemasResponse, ListSchemaVersionsResponse and
-- ListSchemasResponse: the items under their own field name, the total, and the token.
pub record Page (A : Type 0) : Type 0 where
  pub items : List A
  pub total_size : ℤ
  pub next_page_token : String

pub record ListSchemasRequest : Type 0 where
  pub status : SchemaStatus
  pub page_size : ℤ
  pub page_token : String

pub record ChangeStatusRequest : Type 0 where
  pub schema_id : String
  pub status : SchemaStatus

pub record ValidationViolation : Type 0 where
  pub field : String
  pub message : String

pub record ValidateMessageRequest : Type 0 where
  pub ocpp_version : OcppVersion
  pub action : String
  pub message_type : MessageType
  pub vendor : Option String
  pub model : Option String
  pub message : Bytes

pub record ValidateMessageResponse : Type 0 where
  pub valid : Bool
  pub violations : List ValidationViolation

pub record BulkValidateMessagesRequest : Type 0 where
  pub ocpp_version : OcppVersion
  pub vendor : Option String
  pub model : Option String
  pub messages : List String

pub record ValidationReportEntry : Type 0 where
  pub index : ℤ
  pub valid : Bool
  pub violations : List ValidationViolation

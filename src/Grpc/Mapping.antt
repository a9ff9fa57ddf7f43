-- ===== src/Grpc/Mapping.antt =====
-- internal/grpc/mapping.go.
use chargeflow_registry.Prelude.{
  String, Option, List, map, pos, int_eq, to_int32, ◌==◌, if◌then◌else◌,
}
use chargeflow_registry.Schema.Model.{Uuid, Time, Schema, SchemaVersion, VendorModel}
use chargeflow_registry.Schema.Model
use chargeflow_registry.Grpc.Messages
use chargeflow_registry.Grpc.Messages.{SchemaMessage, SchemaVersionMessage, VendorModelMessage}

-- github.com/google/uuid and timestamppb.New.
pub record Wire (T : Type 0) : Type 0 where
  pub parse_uuid : String → Option Uuid
  pub uuid_string : Uuid → String
  pub timestamp : Time → T

unfoldable pub ocpp_version_to_domain : Messages.OcppVersion → Model.OcppVersion
ocpp_version_to_domain v =
    if int_eq v Messages.ocpp_version_16
    then Model.ocpp_version_16
    else if int_eq v Messages.ocpp_version_201
    then Model.ocpp_version_201
    else if int_eq v Messages.ocpp_version_21
    then Model.ocpp_version_21
    else ""

unfoldable pub ocpp_version_to_proto : Model.OcppVersion → Messages.OcppVersion
ocpp_version_to_proto v =
    if v == Model.ocpp_version_16
    then Messages.ocpp_version_16
    else if v == Model.ocpp_version_201
    then Messages.ocpp_version_201
    else if v == Model.ocpp_version_21
    then Messages.ocpp_version_21
    else Messages.ocpp_version_unspecified

unfoldable pub message_type_to_domain : Messages.MessageType → Model.MessageType
message_type_to_domain t =
    if int_eq t Messages.message_type_request
    then Model.message_type_request
    else if int_eq t Messages.message_type_response
    then Model.message_type_response
    else ""

unfoldable pub message_type_to_proto : Model.MessageType → Messages.MessageType
message_type_to_proto t =
    if t == Model.message_type_request
    then Messages.message_type_request
    else if t == Model.message_type_response
    then Messages.message_type_response
    else Messages.message_type_unspecified

unfoldable pub schema_status_to_domain : Messages.SchemaStatus → Model.Status
schema_status_to_domain s =
    if int_eq s Messages.schema_status_submitted
    then Model.status_submitted
    else if int_eq s Messages.schema_status_verified
    then Model.status_verified
    else if int_eq s Messages.schema_status_rejected
    then Model.status_rejected
    else ""

unfoldable pub schema_status_to_proto : Model.Status → Messages.SchemaStatus
schema_status_to_proto s =
    if s == Model.status_submitted
    then Messages.schema_status_submitted
    else if s == Model.status_verified
    then Messages.schema_status_verified
    else if s == Model.status_rejected
    then Messages.schema_status_rejected
    else Messages.schema_status_unspecified

module _ {T : Type 0} (wire : Wire T) where
  unfoldable pub schema_to_proto : Schema → SchemaMessage T
  unfolding ocpp_version_to_proto message_type_to_proto schema_status_to_proto
  schema_to_proto s = record {
    id = wire.uuid_string s.id;
    ocpp_version = ocpp_version_to_proto s.ocpp_version;
    action = s.action;
    message_type = message_type_to_proto s.message_type;
    vendor = s.vendor;
    model = s.model;
    schema = s.schema;
    created_at = wire.timestamp s.created_at;
    updated_at = wire.timestamp s.updated_at;
    status = schema_status_to_proto s.status;
    version = to_int32 (pos s.version);
  }

  unfoldable pub schemas_to_proto : List Schema → List (SchemaMessage T)
  schemas_to_proto = map schema_to_proto

  unfoldable pub schema_version_to_proto : SchemaVersion → SchemaVersionMessage T
  schema_version_to_proto v = record {
    version = to_int32 (pos v.version);
    schema = v.schema;
    created_at = wire.timestamp v.created_at;
  }

  unfoldable pub schema_versions_to_proto : List SchemaVersion → List (SchemaVersionMessage T)
  schema_versions_to_proto = map schema_version_to_proto

unfoldable pub vendor_model_to_proto : VendorModel → VendorModelMessage
unfolding ocpp_version_to_proto
vendor_model_to_proto vm = record {
  ocpp_version = ocpp_version_to_proto vm.ocpp_version;
  vendor = vm.vendor;
  model = vm.model;
}

unfoldable pub vendor_models_to_proto : List VendorModel → List VendorModelMessage
vendor_models_to_proto = map vendor_model_to_proto

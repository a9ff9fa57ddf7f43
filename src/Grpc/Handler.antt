-- ===== src/Grpc/Handler.antt =====
-- internal/grpc/handler.go: SchemaRegistryService.
use chargeflow_registry.Prelude.{
  ℕ, String, Option, none, some, List, ◌==◌, ℤ, pos, int_eq, not, Exec, Result, ok, err, pure,
  raise, on_result, or_raise, length, if◌then◌else◌,
}
use chargeflow_registry.Errors.{
  Error, is, error_text, err_not_found, err_already_exists, RpcStatus, status_error,
  invalid_argument, not_found, already_exists, internal,
}
use chargeflow_registry.Schema.Model.{
  Bytes, Schema, status_submitted, status_verified, message_type_request, message_type_response,
}
use chargeflow_registry.Schema.Model
use chargeflow_registry.Schema.Ports.{default_page_size, max_page_size}
use chargeflow_registry.Pagination.Token.{Codec, decode_offset, next_token, clamp_page_size}
use chargeflow_registry.Grpc.Messages.{
  ocpp_version_unspecified, message_type_unspecified, names_ocpp_version, SchemaMessage,
  SchemaVersionMessage, VendorModelMessage, AddSchemaRequest, UpsertSchemaRequest,
  DeleteSchemaRequest, ListVendorModelsRequest, SearchSchemasRequest, ListSchemaVersionsRequest,
  Page,
}
use chargeflow_registry.Grpc.Mapping.{
  Wire, ocpp_version_to_domain, message_type_to_domain, schemas_to_proto, schema_versions_to_proto,
  vendor_models_to_proto,
}
use chargeflow_registry.Grpc.Ports.{SchemaService}
use chargeflow_registry.Grpc.Checks.{
  refuse, refuse_if, ◌then_check◌, checked, is_empty, validate_vendor_model, validate_action_key,
  validate_schema_key,
}

abbrev pub internal_error : Error → RpcStatus
internal_error e = status_error internal (error_text e)

-- `if errors.Is(err, schema.ErrNotFound)` with `message`, and Internal otherwise
abbrev pub not_found_or_internal : String → Error → RpcStatus
not_found_or_internal message e =
    if is e err_not_found then status_error not_found message else internal_error e

-- The schema that a request describes, before the database fills in the rest.
abbrev pub new_schema :
    Model.OcppVersion
    → String
    → Model.MessageType
    → Option String
    → Option String
    → Bytes
    → Model.Status
    → Schema
new_schema version action msg_type vendor model content status = record {
  id = 0;
  ocpp_version = version;
  action = action;
  message_type = msg_type;
  vendor = vendor;
  model = model;
  schema = content;
  status = status;
  version = 0;
  created_at = 0;
  updated_at = 0;
}

-- The offset of a page token, in front of the rest of a handler.
abbrev pub with_offset :
    {W A : Type 0} → Codec → String → (ℕ → Exec W RpcStatus A) → Exec W RpcStatus A
with_offset codec page_token rest = elim (decode_offset codec page_token) [
  | ok offset ↦ rest offset
  | err _ ↦ raise (status_error invalid_argument "invalid page_token")
]

abbrev pub page_of : {A B : Type 0} → Codec → ℕ → (List A → List B) → List A × ℤ → Page B
page_of codec offset to_proto (found, total) = record {
  items = to_proto found;
  total_size = total;
  next_page_token = next_token codec offset (pos (length found)) total;
}

abbrev pub limit_of : ℤ → ℕ
limit_of page_size = clamp_page_size page_size default_page_size max_page_size

module _ {W : Type 0} (service : SchemaService W) where
  unfoldable pub add_schema : AddSchemaRequest → Exec W RpcStatus (Unit {0})
  unfolding validate_action_key validate_vendor_model ocpp_version_to_domain
  add_schema req =
      checked
        (validate_action_key req.ocpp_version req.action
          then_check validate_vendor_model req.vendor req.model
          then_check refuse_if (is_empty req.request_schema) "request_schema is required"
          then_check refuse_if (is_empty req.response_schema) "response_schema is required")
        (let version = ocpp_version_to_domain req.ocpp_version in
          on_result
            (service.add_pair
              (new_schema version req.action message_type_request req.vendor req.model
                req.request_schema status_submitted)
              (new_schema version req.action message_type_response req.vendor req.model
                req.response_schema status_submitted))
            (or_raise
              (λ e.
                if is e err_already_exists
                then status_error already_exists (error_text e)
                else internal_error e)
              pure))

  unfoldable pub upsert_schema : UpsertSchemaRequest → Exec W RpcStatus (Unit {0})
  unfolding validate_schema_key validate_vendor_model ocpp_version_to_domain message_type_to_domain
  upsert_schema req =
      checked
        (validate_schema_key req.ocpp_version req.action req.message_type
          then_check validate_vendor_model req.vendor req.model
          then_check refuse_if (is_empty req.schema) "schema is required")
        (on_result
          (service.upsert (
            new_schema (ocpp_version_to_domain req.ocpp_version) req.action
              (message_type_to_domain req.message_type) req.vendor req.model req.schema
              status_submitted))
          (or_raise internal_error (λ _. pure tt)))

  unfoldable pub delete_schema : DeleteSchemaRequest → Exec W RpcStatus (Unit {0})
  unfolding validate_action_key validate_vendor_model ocpp_version_to_domain
  delete_schema req =
      checked
        (validate_action_key req.ocpp_version req.action
          then_check validate_vendor_model req.vendor req.model)
        (on_result
          (service.delete (ocpp_version_to_domain req.ocpp_version) req.action req.vendor req.model)
          (or_raise (λ e. not_found_or_internal (error_text e) e) pure))

  unfoldable pub list_vendor_models :
      Codec → ListVendorModelsRequest → Exec W RpcStatus (Page VendorModelMessage)
  unfolding clamp_page_size vendor_models_to_proto
  list_vendor_models codec req = checked (refuse_if (req.vendor == "") "vendor is required") (
      with_offset codec req.page_token λ offset.
        on_result (service.list_vendor_models req.vendor req.models (limit_of req.page_size) offset)
          (or_raise (not_found_or_internal "no models found for vendor")
            (λ found. pure (page_of codec offset vendor_models_to_proto found))))

  -- The OCPP version that a search is restricted to: "" is any.
  abbrev pub search_version : Option ℤ → Result RpcStatus Model.OcppVersion
  search_version none = ok ""
  search_version (some v) =
      if not (names_ocpp_version v)
      then refuse "unknown ocpp_version"
      else if int_eq v ocpp_version_unspecified
      then refuse "ocpp_version, if set, must not be unspecified"
      else ok (ocpp_version_to_domain v)

  -- An unspecified type is any; a type without a name is looked for as "".
  abbrev pub search_message_type : ℤ → Option Model.MessageType
  search_message_type t =
      if int_eq t message_type_unspecified then none else some (message_type_to_domain t)

  unfoldable pub search_schemas :
      {T : Type 0}
      → Wire T
      → Codec
      → SearchSchemasRequest
      → Exec W RpcStatus (Page (SchemaMessage T))
  unfolding ocpp_version_to_domain message_type_to_domain validate_vendor_model clamp_page_size
      schemas_to_proto
  search_schemas wire codec req = elim (search_version req.ocpp_version) [
    | err e ↦ raise e
    | ok version ↦ checked (validate_vendor_model req.vendor req.model) (
        with_offset codec req.page_token λ offset.
          on_result
            (service.list version req.vendor req.model req.action
              (search_message_type req.message_type) (some status_verified) (limit_of req.page_size)
              offset)
            (or_raise internal_error
              (λ found. pure (page_of codec offset (schemas_to_proto wire) found))))
  ]

  unfoldable pub list_schema_versions :
      {T : Type 0}
      → Wire T
      → Codec
      → ListSchemaVersionsRequest
      → Exec W RpcStatus (Page (SchemaVersionMessage T))
  unfolding clamp_page_size schema_versions_to_proto
  list_schema_versions wire codec req = elim (wire.parse_uuid req.schema_id) [
    | none ↦ raise (status_error invalid_argument "invalid schema_id")
    | some id ↦ with_offset codec req.page_token λ offset.
        on_result (service.list_versions id (limit_of req.page_size) offset) (
          or_raise internal_error
            (λ found. pure (page_of codec offset (schema_versions_to_proto wire) found)))
  ]

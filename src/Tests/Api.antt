-- ===== src/Tests/Api.antt =====
-- The theorems on the gRPC handlers at concrete requests.
use chargeflow_registry.Prelude.{
  ◌≢◌, ℕ, none, some, [], ◌∷◌, All, true, false, ◌==◌, if◌then◌else◌, pos, ◌≡◌, ◌≢◌, ◌↔◌, ◌⊎◌, refl,
  err,
}
use chargeflow_registry.Errors.{
  RpcStatus, status_error, invalid_argument, not_found, internal, sentinel, err_not_found,
}
use chargeflow_registry.Schema.Model.{
  Uuid, Status, ocpp_version_16, message_type_request, message_type_response,
}
use chargeflow_registry.Schema.Ports.{Repository, Cache}
use chargeflow_registry.Schema.Service
use chargeflow_registry.Schema.Service.{failed_with_not_found, delete_one}
use chargeflow_registry.Schema.Deletion.{delete-eq-err_iff}
use chargeflow_registry.Postgres.Model.{to_entity, to_domain_slice, to_domain}
use chargeflow_registry.Postgres.Query.{matches_filters}
use chargeflow_registry.Postgres.Repository as Rows
use chargeflow_registry.Pagination.Token.{decode_offset, next_token, clamp_page_size}
use chargeflow_registry.Grpc.Messages.{
  schema_status_verified, schema_status_rejected, AddSchemaRequest, UpsertSchemaRequest,
  DeleteSchemaRequest, SearchSchemasRequest, ChangeStatusRequest, SchemaMessage, Page,
  schema_status_verified,
}
use chargeflow_registry.Grpc.Mapping.{
  Wire, ocpp_version_to_domain, schemas_to_proto, schema_to_proto,
}
use chargeflow_registry.Grpc.Checks.{is_empty, validate_vendor_model, validate_action_key}
use chargeflow_registry.Grpc.Handler.{upsert_schema, add_schema, delete_schema, search_schemas}
use chargeflow_registry.Grpc.AdminHandler.{change_status}
use chargeflow_registry.Grpc.Requests.{
  NamesAction, add_schema-refuses_iff, delete_schema-refuses_iff,
}
use chargeflow_registry.Grpc.Upserts.{IsWhole, upsert_schema-refuses_iff}
use chargeflow_registry.Grpc.Judgement.{IsJudgement, change_status-judges}
use chargeflow_registry.App.{repo, store, schema_service, admin_service}
use chargeflow_registry.App.Searching.{search_schemas-verified}
use chargeflow_registry.App.Deletions.{delete_schema-ne-internal}
use chargeflow_registry.Tests.Cell.{Cell, cell, jsonb, view}
use chargeflow_registry.Tests.CellLaws.{cell-IsPostgres}
use chargeflow_registry.Tests.Tokens.{letters}
use chargeflow_registry.Tests.Worlds.{boot_verified, plain_json, Keys, redis, coding, world}

abbrev wire : Wire ℕ
wire = record {
  parse_uuid = λ s. if s == "seven" then some 7 else none;
  uuid_string = λ id. "seven";
  timestamp = λ t. t;
}

abbrev stock : Repository (Cell × Keys)
stock = repo cell plain_json redis coding 60

abbrev shelf : Cache (Cell × Keys)
shelf = store cell plain_json redis coding 60

abbrev verified_world : Cell × Keys
verified_world = ((some (to_entity boot_verified), λ id n. none), λ k. none)

abbrev any_schema : SearchSchemasRequest
any_schema = record {
  ocpp_version = none;
  vendor = none;
  model = none;
  action = none;
  message_type = pos 0;
  page_size = pos 10;
  page_token = "";
}

abbrev one_page : Page (SchemaMessage ℕ)
one_page = record {
  items = schema_to_proto wire boot_verified ∷ [];
  total_size = pos 1;
  next_page_token = "";
}

search_schemas-verified_example : All (λ m. m.status ≡ schema_status_verified) one_page.items
search_schemas-verified_example =
    search_schemas-verified wire cell plain_json redis coding 60 jsonb view cell-IsPostgres letters
      any_schema verified_world one_page
      (unfold search_schemas schema_service validate_vendor_model decode_offset next_token
          clamp_page_size schemas_to_proto repo Rows.repository Rows.list Service.list
          Service.clamp_page_size matches_filters to_entity to_domain_slice to_domain in
        refl)

abbrev boot_deletion : DeleteSchemaRequest
boot_deletion = record {
  ocpp_version = pos 1;
  action = "BootNotification";
  vendor = none;
  model = none;
}

delete_schema-ne-internal_example : not_found ≢ internal
delete_schema-ne-internal_example =
    delete_schema-ne-internal stock shelf boot_deletion world
      (status_error not_found "schema not found")
      (unfold delete_schema schema_service validate_action_key validate_vendor_model
          ocpp_version_to_domain Service.delete Service.delete_one repo Rows.repository
          Rows.delete in
        refl)

delete-eq-err_iff_example :
    ((Service.delete stock shelf ocpp_version_16 "BootNotification" none none world).0
      ≡ err (sentinel err_not_found))
    ↔ ((sentinel err_not_found ≡ sentinel err_not_found)
        × (failed_with_not_found
              (delete_one stock shelf ocpp_version_16 "BootNotification" message_type_request none
                none world).0
            ≡ true)
        × (failed_with_not_found
              (delete_one stock shelf ocpp_version_16 "BootNotification" message_type_response none
                none
                (delete_one stock shelf ocpp_version_16 "BootNotification" message_type_request none
                  none world).1).0
            ≡ true))
delete-eq-err_iff_example =
    delete-eq-err_iff stock shelf ocpp_version_16 "BootNotification" none none world
      (sentinel err_not_found)

abbrev boot_request : AddSchemaRequest
boot_request = record {
  ocpp_version = pos 1;
  action = "BootNotification";
  vendor = none;
  model = some "M";
  request_schema = 1 ∷ [];
  response_schema = [];
}

add_schema-refuses_iff_example :
    ((m : RpcStatus) × (add_schema (schema_service stock shelf) boot_request world ≡ (err m, world))
      × (m.code ≡ invalid_argument))
    ↔ (¬ (
        NamesAction (pos 1) "BootNotification" none (some "M")
        × (is_empty {A = ℕ} (1 ∷ []) ≡ false)
        × (is_empty {A = ℕ} [] ≡ false)))
add_schema-refuses_iff_example =
    add_schema-refuses_iff (schema_service stock shelf) boot_request world

delete_schema-refuses_iff_example :
    ((m : RpcStatus) × (delete_schema (schema_service stock shelf) boot_deletion world
        ≡ (err m, world))
      × (m.code ≡ invalid_argument))
    ↔ (¬ NamesAction (pos 1) "BootNotification" none none)
delete_schema-refuses_iff_example =
    delete_schema-refuses_iff (schema_service stock shelf) boot_deletion world

abbrev verify_seven : ChangeStatusRequest
verify_seven = record { schema_id = "seven"; status = pos 2 }

change_status-judges_example :
    ((id : Uuid) × (status : Status) × (wire.parse_uuid "seven" ≡ some id)
      × IsJudgement (pos 2) status
      × ((change_status (admin_service stock shelf) wire verify_seven verified_world).1
          ≡ ((admin_service stock shelf).change_status id status verified_world).1))
    ⊎ ((m : RpcStatus) × (m.code ≡ invalid_argument)
        × (change_status (admin_service stock shelf) wire verify_seven verified_world
            ≡ (err m, verified_world))
        × ((wire.parse_uuid "seven" ≡ none)
            ⊎ ((pos 2 ≢ schema_status_verified) × (pos 2 ≢ schema_status_rejected))))
change_status-judges_example =
    change_status-judges (admin_service stock shelf) wire verify_seven verified_world

abbrev boot_upsert : UpsertSchemaRequest
boot_upsert = record {
  ocpp_version = pos 3;
  action = "BootNotification";
  message_type = pos 2;
  vendor = some "V";
  model = none;
  schema = 1 ∷ [];
}

upsert_schema-refuses_iff_example :
    ((m : RpcStatus) × (upsert_schema (schema_service stock shelf) boot_upsert world
        ≡ (err m, world))
      × (m.code ≡ invalid_argument))
    ↔ (¬ IsWhole boot_upsert)
upsert_schema-refuses_iff_example =
    upsert_schema-refuses_iff (schema_service stock shelf) boot_upsert world

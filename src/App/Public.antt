-- ===== src/App/Public.antt =====
-- The calls that write without being the admin's: AddSchema, UpsertSchema and DeleteSchema of
-- internal/grpc/handler.go and register_schema and remove_schema of internal/mcp/tools.go, over
-- internal/schema/service.go and the database.
use chargeflow_registry.Prelude.{
  if◌then◌else◌, on_result, pure, some, List, [], ◌∷◌, inl, inr, ◌≡◌, Bool-cases, Result-cases, ok,
  err, Exec, or_raise,
}
use chargeflow_registry.Errors.{
  is, err_already_exists, err_not_found, status_error, already_exists, error_text, RpcStatus,
}
use chargeflow_registry.Schema.Model.{
  Bytes, Time, Uuid, status_verified, status_submitted, message_type_request, message_type_response,
}
use chargeflow_registry.Postgres.Model.{SchemaEntity}
use chargeflow_registry.Postgres.Gorm.{Gorm, Json}
use chargeflow_registry.Postgres.Tables.{Tables, IsPostgres}
use chargeflow_registry.Postgres.Verifying.{VerifiesNone-refl}
use chargeflow_registry.Redis.Store.{Client, SchemaJson}
use chargeflow_registry.Validation.Chargeflow.{Chargeflow}
use chargeflow_registry.Grpc.Messages.{AddSchemaRequest, UpsertSchemaRequest, DeleteSchemaRequest}
use chargeflow_registry.Grpc.Ports.{SchemaService}
use chargeflow_registry.Grpc.Checks.{
  ◌then_check◌, refuse_if, is_empty, validate_action_key, validate_vendor_model,
  validate_schema_key, Check, checked,
}
use chargeflow_registry.Grpc.Mapping.{message_type_to_domain, ocpp_version_to_domain}
use chargeflow_registry.Grpc.Handler.{
  internal_error, not_found_or_internal, new_schema, add_schema, upsert_schema, delete_schema,
}
use chargeflow_registry.Mcp.Server.{Encoding, SchemaRegistry}
use chargeflow_registry.Mcp.Tools.{
  CallToolRequest, register_schema, remove_schema, parse_tool_filter,
}
use chargeflow_registry.App.Unverified.{
  Unraised, add_pair-Unraised, upsert-Unraised, delete-Unraised,
}
use chargeflow_registry.App.{repo, store, schema_service, schema_registry}

-- A call of a client that is not the admin.
pub data PublicWrite : Type 0 where
  by_add : AddSchemaRequest → PublicWrite
  by_upsert : UpsertSchemaRequest → PublicWrite
  by_delete : DeleteSchemaRequest → PublicWrite
  by_register_tool : CallToolRequest → PublicWrite
  by_remove_tool : CallToolRequest → PublicWrite

-- A request is refused and changes nothing, or it changes what the call of the service changes.
refused_or_answered :
    {W E A B : Type 0} (P : W → Type 0) (c : Check) (call : Exec W E A) (g : E → RpcStatus)
    (f : A → B) (w : W)
    → P w
    → P (call w).1
    → P (checked c (on_result call (or_raise g (λ a. pure (f a)))) w).1
refused_or_answered P (err e) call g f w before after = before
refused_or_answered P (ok _) call g f w before after = elim (Result-cases (call w).0) [
  | inl (a, done) ↦ rw done after
  | inr (e, failed) ↦ rw failed after
]

module _ {D R V C Q : Type 0} (db : Gorm D) (json : Json V) (client : Client R)
    (coding : SchemaJson) (ttl : Time) (lib : Chargeflow (D × R) C Q) (enc : Encoding) where
  abbrev grpc_service : SchemaService (D × R)
  grpc_service = schema_service (repo db json client coding ttl) (store db json client coding ttl)

  abbrev mcp_service : SchemaRegistry (D × R)
  mcp_service =
      schema_registry (repo db json client coding ttl) (store db json client coding ttl) lib

  -- The state after a call, whatever it answers.
  unfoldable pub write : PublicWrite → D × R → D × R
  write (by_add req) w = (add_schema grpc_service req w).1
  write (by_upsert req) w = (upsert_schema grpc_service req w).1
  write (by_delete req) w = (delete_schema grpc_service req w).1
  write (by_register_tool req) w = (register_schema mcp_service enc req w).1
  write (by_remove_tool req) w = (remove_schema mcp_service enc req w).1

  unfoldable pub write_all : List PublicWrite → D × R → D × R
  write_all [] w = w
  write_all (call ∷ calls) w = write_all calls (write call w)

  module _ (jsonb : Bytes → Bytes) (view : D → Tables) (laws : IsPostgres db jsonb view)
      (t : Tables) where
    -- No row is verified that was not verified in `t`.
    abbrev Kept : D × R → Type 0
    Kept w = Unraised db json client coding ttl jsonb view laws t w

    add_schema-Unraised :
        (req : AddSchemaRequest) (w : D × R) → Kept w → Kept (add_schema grpc_service req w).1
    unfolding add_schema schema_service
    add_schema-Unraised req w h =
        let version = ocpp_version_to_domain req.ocpp_version in
        let request =
          new_schema version req.action message_type_request req.vendor req.model req.request_schema
            status_submitted in
        let response =
          new_schema version req.action message_type_response req.vendor req.model
            req.response_schema status_submitted in
        refused_or_answered Kept
          (validate_action_key req.ocpp_version req.action
            then_check validate_vendor_model req.vendor req.model
            then_check refuse_if (is_empty req.request_schema) "request_schema is required"
            then_check refuse_if (is_empty req.response_schema) "response_schema is required")
          (grpc_service.add_pair request response)
          (λ e.
            if is e err_already_exists
            then status_error already_exists (error_text e)
            else internal_error e)
          (λ a. a) w h
          (add_pair-Unraised db json client coding ttl jsonb view laws t request response w
            (λ p. cc p) (λ p. cc p) h)

    upsert_schema-Unraised :
        (req : UpsertSchemaRequest) (w : D × R) → Kept w → Kept (upsert_schema grpc_service req w).1
    unfolding upsert_schema schema_service
    upsert_schema-Unraised req w h =
        let s =
          new_schema (ocpp_version_to_domain req.ocpp_version) req.action
            (message_type_to_domain req.message_type) req.vendor req.model req.schema
            status_submitted in
        refused_or_answered Kept
          (validate_schema_key req.ocpp_version req.action req.message_type
            then_check validate_vendor_model req.vendor req.model
            then_check refuse_if (is_empty req.schema) "schema is required")
          (grpc_service.upsert s) internal_error (λ _. tt) w h
          (upsert-Unraised db json client coding ttl jsonb view laws t s w (λ p. cc p) h)

    delete_schema-Unraised :
        (req : DeleteSchemaRequest) (w : D × R) → Kept w → Kept (delete_schema grpc_service req w).1
    unfolding delete_schema schema_service
    delete_schema-Unraised req w h =
        let version = ocpp_version_to_domain req.ocpp_version in
        refused_or_answered Kept
          (validate_action_key req.ocpp_version req.action
            then_check validate_vendor_model req.vendor req.model)
          (grpc_service.delete version req.action req.vendor req.model)
          (λ e. not_found_or_internal (error_text e) e) (λ a. a) w h
          (delete-Unraised db json client coding ttl jsonb view laws t version req.action req.vendor
            req.model w h)

    register_schema-Unraised :
        (req : CallToolRequest) (w : D × R)
        → Kept w
        → Kept (register_schema mcp_service enc req w).1
    unfolding register_schema schema_registry
    register_schema-Unraised req w h =
        let version = req.get_string "ocpp_version" "" in
        let action = req.get_string "action" "" in
        let filter = parse_tool_filter req.argument in
        let request =
          new_schema version action message_type_request filter.vendor filter.model
            (enc.bytes_of (req.get_string "request_schema" "")) "" in
        let response =
          new_schema version action message_type_response filter.vendor filter.model
            (enc.bytes_of (req.get_string "response_schema" "")) "" in
        let stored =
          add_pair-Unraised db json client coding ttl jsonb view laws t request response w
            (λ p. cc p) (λ p. cc p) h in
        elim (Result-cases (mcp_service.add_pair request response w).0) [
          | inl (_, done) ↦ rw done stored
          | inr (e, failed) ↦ elim (Bool-cases (is e err_already_exists)) [
            | inl there ↦ rw (failed, there) stored
            | inr other ↦ rw (failed, other) stored
          ]
        ]

    remove_schema-Unraised :
        (req : CallToolRequest) (w : D × R) → Kept w → Kept (remove_schema mcp_service enc req w).1
    unfolding remove_schema schema_registry
    remove_schema-Unraised req w h =
        let version = req.get_string "ocpp_version" "" in
        let action = req.get_string "action" "" in
        let filter = parse_tool_filter req.argument in
        let gone =
          delete-Unraised db json client coding ttl jsonb view laws t version action filter.vendor
            filter.model w h in
        elim (Result-cases (mcp_service.delete version action filter.vendor filter.model w).0) [
          | inl (_, done) ↦ rw done gone
          | inr (e, failed) ↦ elim (Bool-cases (is e err_not_found)) [
            | inl missing ↦ rw (failed, missing) gone
            | inr other ↦ rw (failed, other) gone
          ]
        ]

    write-Unraised : (call : PublicWrite) (w : D × R) → Kept w → Kept (write call w)
    unfolding write
    write-Unraised (by_add req) w h = add_schema-Unraised req w h
    write-Unraised (by_upsert req) w h = upsert_schema-Unraised req w h
    write-Unraised (by_delete req) w h = delete_schema-Unraised req w h
    write-Unraised (by_register_tool req) w h = register_schema-Unraised req w h
    write-Unraised (by_remove_tool req) w h = remove_schema-Unraised req w h

    write_all-Unraised : (calls : List PublicWrite) (w : D × R) → Kept w → Kept (write_all calls w)
    unfolding write_all
    write_all-Unraised [] w h = h
    write_all-Unraised (call ∷ calls) w h =
        write_all-Unraised calls (write call w) (write-Unraised call w h)

  -- After any sequence of calls of AddSchema, UpsertSchema, DeleteSchema, register_schema and
  -- remove_schema over the service and the database, whatever they ask for and whatever fails, a
  -- row that is verified was verified before the first of them.
  pub write_all-verified :
      (jsonb : Bytes → Bytes) (view : D → Tables)
      → IsPostgres db jsonb view
      → (calls : List PublicWrite) (w : D × R) (id : Uuid) (e : SchemaEntity)
      → (view (write_all calls w).0).rows id ≡ some e
      → e.status ≡ status_verified
      → (x : SchemaEntity) × ((view w.0).rows id ≡ some x) × (x.status ≡ status_verified)
  write_all-verified jsonb view laws calls w =
      (write_all-Unraised jsonb view laws (view w.0) calls w (VerifiesNone-refl (view w.0))).before

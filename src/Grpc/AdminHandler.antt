-- ===== src/Grpc/AdminHandler.antt =====
-- internal/grpc/admin_handler.go: AdminService, which alone can see and judge what is not verified.
use chargeflow_registry.Prelude.{
  Option, none, some, ℤ, int_eq, not, ◌||◌, Exec, pure, raise, on_result, or_raise, if◌then◌else◌,
}
use chargeflow_registry.Errors.{RpcStatus, status_error, invalid_argument, error_text}
use chargeflow_registry.Schema.Model
use chargeflow_registry.Pagination.Token.{Codec, clamp_page_size}
use chargeflow_registry.Grpc.Messages.{
  schema_status_unspecified, schema_status_verified, schema_status_rejected, names_schema_status,
  SchemaMessage, ListSchemasRequest, ChangeStatusRequest, Page,
}
use chargeflow_registry.Grpc.Mapping.{
  Wire, schema_status_to_domain, schema_to_proto, schemas_to_proto,
}
use chargeflow_registry.Grpc.Ports.{AdminService}
use chargeflow_registry.Grpc.Checks.{refuse_if, checked}
use chargeflow_registry.Grpc.Handler.{
  internal_error, not_found_or_internal, with_offset, page_of, limit_of,
}

-- An unspecified status is any.
abbrev pub status_filter : ℤ → Option Model.Status
status_filter s =
    if int_eq s schema_status_unspecified then none else some (schema_status_to_domain s)

module _ {W T : Type 0} (service : AdminService W) (wire : Wire T) where
  unfoldable pub list_schemas :
      Codec → ListSchemasRequest → Exec W RpcStatus (Page (SchemaMessage T))
  unfolding schema_status_to_domain clamp_page_size schemas_to_proto
  list_schemas codec req =
      checked (refuse_if (not (names_schema_status req.status)) "unknown status") (
        with_offset codec req.page_token λ offset.
          on_result
            (service.list "" none none none none (status_filter req.status) (limit_of req.page_size)
              offset)
            (or_raise internal_error
              (λ found. pure (page_of codec offset (schemas_to_proto wire) found))))

  unfoldable pub change_status : ChangeStatusRequest → Exec W RpcStatus (SchemaMessage T)
  unfolding schema_status_to_domain schema_to_proto
  change_status req = elim (wire.parse_uuid req.schema_id) [
    | none ↦ raise (status_error invalid_argument "invalid schema_id")
    | some id ↦
        if int_eq req.status schema_status_verified || int_eq req.status schema_status_rejected
        then on_result (service.change_status id (schema_status_to_domain req.status)) (
            or_raise (λ e. not_found_or_internal (error_text e) e)
              (λ sc. pure (schema_to_proto wire sc)))
        else raise (status_error invalid_argument "status must be verified or rejected")
  ]

-- ===== src/Grpc/ValidationHandler.antt =====
-- internal/grpc/validation_handler.go: SchemaValidationService.
use chargeflow_registry.Prelude.{
  List, map, pos, to_int32, length, ltb, Exec, pure, on_result, or_raise,
}
use chargeflow_registry.Errors.{RpcStatus}
use chargeflow_registry.Validation.Service.{Violation, ReportEntry, max_bulk_messages}
use chargeflow_registry.Grpc.Messages.{
  ValidationViolation, ValidateMessageRequest, ValidateMessageResponse, BulkValidateMessagesRequest,
  ValidationReportEntry,
}
use chargeflow_registry.Grpc.Mapping.{ocpp_version_to_domain, message_type_to_domain}
use chargeflow_registry.Grpc.Ports.{ValidationService}
use chargeflow_registry.Grpc.Checks.{
  refuse_if, ◌then_check◌, checked, is_empty, validate_vendor_model, validate_ocpp_version,
  validate_schema_key,
}
use chargeflow_registry.Grpc.Handler.{not_found_or_internal}

unfoldable pub violations_to_proto : List Violation → List ValidationViolation
violations_to_proto = map (λ v. record { field = v.field; message = v.message })

unfoldable pub entry_to_proto : ReportEntry → ValidationReportEntry
unfolding violations_to_proto
entry_to_proto e = record {
  index = to_int32 (pos e.index);
  valid = e.valid;
  violations = violations_to_proto e.violations;
}

module _ {W : Type 0} (service : ValidationService W) where
  unfoldable pub validate_message :
      ValidateMessageRequest → Exec W RpcStatus ValidateMessageResponse
  unfolding validate_schema_key validate_vendor_model ocpp_version_to_domain message_type_to_domain
      violations_to_proto
  validate_message req =
      checked
        (validate_schema_key req.ocpp_version req.action req.message_type
          then_check validate_vendor_model req.vendor req.model
          then_check refuse_if (is_empty req.message) "message is required")
        (on_result
          (service.validate_message (record {
            version = ocpp_version_to_domain req.ocpp_version;
            action = req.action;
            message_type = message_type_to_domain req.message_type;
            vendor = req.vendor;
            model = req.model;
            message = req.message;
          }))
          (or_raise (not_found_or_internal "no schema found for the given parameters") (λ result.
            pure (record {
              valid = result.valid;
              violations = violations_to_proto result.violations;
            }))))

  unfoldable pub bulk_validate_messages :
      BulkValidateMessagesRequest → Exec W RpcStatus (List ValidationReportEntry)
  unfolding validate_ocpp_version validate_vendor_model ocpp_version_to_domain entry_to_proto
  bulk_validate_messages req =
      checked
        (validate_ocpp_version req.ocpp_version
          then_check validate_vendor_model req.vendor req.model
          then_check refuse_if (is_empty req.messages) "at least one message is required"
          then_check refuse_if (ltb max_bulk_messages (length req.messages))
              "too many messages: max 200 per request")
        (on_result
          (service.validate_messages (record {
            version = ocpp_version_to_domain req.ocpp_version;
            vendor = req.vendor;
            model = req.model;
            messages = req.messages;
          }))
          (or_raise (not_found_or_internal "no schema found for the given parameters")
            (λ entries. pure (map entry_to_proto entries))))

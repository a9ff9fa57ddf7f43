-- ===== src/Validation/Adapter.antt =====
-- internal/validation/registry_adapter.go. Its RegisterSchema and DeleteSchema do nothing.
use chargeflow_registry.Prelude.{
  String, Option, none, Exec, Result, ok, err, if◌then◌else◌, has_suffix, trim_suffix,
}
use chargeflow_registry.Errors.{Error}
use chargeflow_registry.Schema.Model.{
  OcppVersion, MessageType, Schema, message_type_request, message_type_response,
}
use chargeflow_registry.Validation.Chargeflow.{Chargeflow, GetSchemaRequest}

-- SchemaGetter
abbrev pub SchemaGetter : Type 0 → Type 0
SchemaGetter W =
    OcppVersion → String → MessageType → Option String → Option String → Exec W Error Schema

module _ {W C P : Type 0} (getter : SchemaGetter W) (lib : Chargeflow W C P) where
  abbrev compiled : Result Error Schema → Option C
  compiled (ok s) = lib.compile s.schema
  compiled (err _) = none

  -- The call of the getter and what is made of its answer.
  unfoldable pub fetch : MessageType → String → GetSchemaRequest → W → Option C × W
  fetch msg_type base_action req w =
      let found =
        getter req.ocpp_context.version base_action msg_type
          (lib.emptyable_to_ptr req.ocpp_context.vendor)
          (lib.emptyable_to_ptr req.ocpp_context.model) w in
      (compiled found.0, found.1)

  unfoldable pub get_schema : GetSchemaRequest → W → Option C × W
  unfolding fetch
  get_schema req w =
      if has_suffix req.action "Request"
      then fetch message_type_request (trim_suffix req.action "Request") req w
      else if has_suffix req.action "Response"
      then fetch message_type_response (trim_suffix req.action "Response") req w
      else (none, w)

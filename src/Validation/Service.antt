-- ===== src/Validation/Service.antt =====
-- internal/validation/validation.go. The tracing spans are left out.
use chargeflow_registry.Prelude.{
  ℕ, suc, String, Option, none, some, List, [], ◌∷◌, map, Bool, false, ℤ, int_eq, ◌==◌, ◌<>◌,
  decimal, if◌then◌else◌, Exec, Result, ok, err, pure, lift, trying, ◌>>=◌,
}
use chargeflow_registry.Errors.{Error, wrapped, other}
use chargeflow_registry.Schema.Model.{
  OcppVersion, MessageType, Bytes, message_type_request, message_type_response,
}
use chargeflow_registry.Validation.Chargeflow.{
  Chargeflow, OcppContext, OcppMessage, call, call_result, BulkEnvelope, ValidationResult,
}
use chargeflow_registry.Validation.Adapter.{SchemaGetter, get_schema}

pub record Violation : Type 0 where
  pub field : String
  pub message : String

pub record ValidityReport : Type 0 where
  pub valid : Bool
  pub violations : List Violation

pub record Request : Type 0 where
  pub version : OcppVersion
  pub action : String
  pub message_type : MessageType
  pub vendor : Option String
  pub model : Option String
  pub message : Bytes

abbrev pub max_bulk_messages : ℕ
max_bulk_messages = 200

pub record BulkRequest : Type 0 where
  pub version : OcppVersion
  pub vendor : Option String
  pub model : Option String
  pub messages : List String

pub record ReportEntry : Type 0 where
  pub index : ℕ
  pub valid : Bool
  pub violations : List Violation

abbrev pub deref_string : Option String → String
deref_string none = ""
deref_string (some s) = s

unfoldable pub build_ocpp_message :
    {P : Type 0} → String → MessageType → P → Result Error (OcppMessage P)
build_ocpp_message action msg_type payload =
    if msg_type == message_type_request
    then ok (call "validation" action payload)
    else if msg_type == message_type_response
    then ok (call_result "validation" action payload)
    else err (other ("unsupported message type: " <> msg_type))

-- A violation of a message that could not be checked any further.
abbrev pub invalid : String → String → List Violation
invalid field message = record { field = field; message = message } ∷ []

abbrev pub context_of : Request → OcppContext
context_of req = record {
  version = req.version;
  vendor = deref_string req.vendor;
  model = deref_string req.model;
}

abbrev pub report_of : ValidationResult → ValidityReport
report_of result = record {
  valid = result.is_valid;
  violations = map (λ e. record { field = ""; message = e }) result.errors;
}

module _ {W C P : Type 0} (getter : SchemaGetter W) (lib : Chargeflow W C P) where
  unfoldable pub message_type_from_ocpp : ℤ → Option MessageType
  message_type_from_ocpp id =
      if int_eq id lib.call_id
      then some message_type_request
      else if int_eq id lib.call_result_id
      then some message_type_response
      else none

  unfoldable pub validate_message : Request → Exec W Error ValidityReport
  unfolding build_ocpp_message get_schema
  validate_message req = elim (lib.unmarshal req.message) [
    | err text ↦
        pure (record { valid = false; violations = invalid "/" ("invalid JSON: " <> text) })
    | ok payload ↦
        trying (lift (build_ocpp_message req.action req.message_type payload)) (λ e. e)
          λ msg.
            trying (lib.validate_message (get_schema getter lib) (context_of req) msg)
              (wrapped "validate message") λ result. pure (report_of result)
  ]

  -- The request for one message, with the action and the type that it carries itself.
  abbrev pub request_of : BulkRequest → BulkEnvelope → MessageType → Request
  request_of req env msg_type = record {
    version = req.version;
    action = env.action;
    message_type = msg_type;
    vendor = req.vendor;
    model = req.model;
    message = env.payload;
  }

  -- One round of the loop of `ValidateMessages`.
  unfoldable pub validate_entry : BulkRequest → ℕ → String → Exec W Error ReportEntry
  unfolding message_type_from_ocpp validate_message
  validate_entry req i msg = elim (lib.unmarshal_envelope msg) [
    | err text ↦
        pure
          (record { index = i; valid = false; violations = invalid "/" ("invalid JSON: " <> text) })
    | ok env ↦ elim (message_type_from_ocpp env.message_type_id) [
      | none ↦ pure (record {
        index = i;
        valid = false;
        violations =
            invalid "/messageTypeId" ("unsupported message type: " <> decimal env.message_type_id);
      })
      | some msg_type ↦
          if env.action == ""
          then pure (record {
            index = i;
            valid = false;
            violations = invalid "/action" "action is required";
          })
          else trying (validate_message (request_of req env msg_type))
              (wrapped ("validate message " <> decimal (ℤ.pos i)))
              λ result.
                pure (record { index = i; valid = result.valid; violations = result.violations })
    ]
  ]

  unfoldable pub validate_from : BulkRequest → ℕ → List String → Exec W Error (List ReportEntry)
  unfolding validate_entry
  validate_from req i [] = pure []
  validate_from req i (msg ∷ msgs) = do
    entry ← validate_entry req i msg
    entries ← validate_from req (suc i) msgs
    pure (entry ∷ entries)

  unfoldable pub validate_messages : BulkRequest → Exec W Error (List ReportEntry)
  unfolding validate_from
  validate_messages req = validate_from req 0 req.messages

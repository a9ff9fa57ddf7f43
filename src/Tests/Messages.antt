-- ===== src/Tests/Messages.antt =====
-- The theorems on validation at concrete messages.
use chargeflow_registry.Prelude.{
  get_elem?, String, ℕ, Option, none, some, List, [], ◌∷◌, map, Bool, true, false, ◌==◌,
  if◌then◌else◌, pos, ◌≡◌, ok, err, ◌⊎◌,
}
use chargeflow_registry.Errors.{Error, sentinel, err_not_found}
use chargeflow_registry.Schema.Model.{Bytes, message_type_request, message_type_response}
use chargeflow_registry.Validation.Chargeflow.{Chargeflow, OcppContext}
use chargeflow_registry.Validation.Adapter.{SchemaGetter, fetch, get_schema}
use chargeflow_registry.Validation.Service.{BulkRequest, ReportEntry, validate_messages}
use chargeflow_registry.Validation.Failure.{ValidatorFails, validate_messages-ends}
use chargeflow_registry.Validation.Routing.{get_schema-append}
use chargeflow_registry.Tests.Worlds.{boot}

-- Messages are valid where there is a schema.
abbrev is_some : Option Bytes → Bool
is_some none = false
is_some (some _) = true

abbrev pub lib : {W : Type 0} → Chargeflow W Bytes Bytes
lib = record {
  validate_message = λ find context message w.
      let found = find (record { ocpp_context = context; action = "BootNotificationRequest" }) w in
      (ok (record { is_valid = is_some found.0; errors = [] }), found.1);
  compile = some;
  emptyable_to_ptr = λ s. if s == "" then none else some s;
  call_id = pos 2;
  call_result_id = pos 3;
  unmarshal = ok;
  unmarshal_envelope = λ text.
      if text == "call"
      then ok (record { message_type_id = pos 2; action = "BootNotification"; payload = [] })
      else err "not an object";
}

abbrev getter : SchemaGetter ℕ
getter version action msg_type vendor model w =
    if action == "BootNotification" then (ok boot, w) else (err (sentinel err_not_found), w)

abbrev three : BulkRequest
three = record {
  version = "1.6";
  vendor = none;
  model = none;
  messages = "call" ∷ "junk" ∷ "call" ∷ [];
}

validate_messages-ends_example :
    ((es : List ReportEntry) × ((validate_messages getter lib three 0).0 ≡ ok es)
      × (map (λ x. x.index) es ≡ 0 ∷ 1 ∷ 2 ∷ []))
    ⊎ ((x : Error) × (i : ℕ) × (msg : String) × ((validate_messages getter lib three 0).0 ≡ err x)
        × (get_elem? three.messages i ≡ some msg)
        × ValidatorFails getter lib three i msg x)
validate_messages-ends_example = validate_messages-ends getter lib three 0

abbrev context : OcppContext
context = record { version = "1.6"; vendor = ""; model = "" }

get_schema-append_example :
    (get_schema getter lib (record { ocpp_context = context; action = "BootNotificationRequest" }) 0
      ≡ fetch getter lib message_type_request "BootNotification"
          (record { ocpp_context = context; action = "BootNotificationRequest" })
          0)
    × (get_schema getter lib
          (record { ocpp_context = context; action = "BootNotificationResponse" })
          0
        ≡ fetch getter lib message_type_response "BootNotification"
            (record { ocpp_context = context; action = "BootNotificationResponse" })
            0)
get_schema-append_example = get_schema-append getter lib context "BootNotification" 0

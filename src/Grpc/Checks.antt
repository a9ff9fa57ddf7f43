-- ===== src/Grpc/Checks.antt =====
-- The argument checks of internal/grpc/handler.go, which the handlers run before the service.
use chargeflow_registry.Prelude.{
  String, Option, none, some, List, [], ◌∷◌, Bool, true, false, not, ◌&&◌, ◌==◌, int_eq, Exec,
  Result, ok, err, if◌then◌else◌,
}
use chargeflow_registry.Errors.{RpcStatus, status_error, invalid_argument}
use chargeflow_registry.Grpc.Messages.{
  OcppVersion, MessageType, ocpp_version_unspecified, message_type_unspecified, names_ocpp_version,
  names_message_type,
}

abbrev pub Check : Type 0
Check = Result RpcStatus (Unit {0})

abbrev pub refuse {ℓ} : {A : Type ℓ} → String → Result RpcStatus A
refuse message = err (status_error invalid_argument message)

-- `if err := first; err != nil { return err }`
infixr 5 ◌then_check◌
abbrev pub ◌then_check◌ : Check → Check → Check
(ok _) then_check next = next
(err e) then_check next = err e

abbrev pub refuse_if : Bool → String → Check
refuse_if b message = if b then refuse message else ok tt

-- A check in front of the rest of a handler.
abbrev pub checked : {W A : Type 0} → Check → Exec W RpcStatus A → Exec W RpcStatus A
checked (ok _) m w = m w
checked (err e) m w = (err e, w)

-- `len(s) == 0`
abbrev pub is_empty {ℓ} : {A : Type ℓ} → List A → Bool
is_empty [] = true
is_empty (_ ∷ _) = false

abbrev pub is_set {ℓ} : {A : Type ℓ} → Option A → Bool
is_set none = false
is_set (some _) = true

unfoldable pub validate_vendor_model : Option String → Option String → Check
validate_vendor_model vendor model =
    refuse_if (is_set model && not (is_set vendor)) "vendor is required when model is specified"

unfoldable pub validate_ocpp_version : OcppVersion → Check
validate_ocpp_version version =
    refuse_if (int_eq version ocpp_version_unspecified) "ocpp_version is required"
    then_check refuse_if (not (names_ocpp_version version)) "unknown ocpp_version"

unfoldable pub validate_action_key : OcppVersion → String → Check
unfolding validate_ocpp_version
validate_action_key version action =
    validate_ocpp_version version then_check refuse_if (action == "") "action is required"

unfoldable pub validate_schema_key : OcppVersion → String → MessageType → Check
unfolding validate_action_key
validate_schema_key version action msg_type =
    validate_action_key version action
    then_check refuse_if (int_eq msg_type message_type_unspecified) "message_type is required"
    then_check refuse_if (not (names_message_type msg_type)) "unknown message_type"

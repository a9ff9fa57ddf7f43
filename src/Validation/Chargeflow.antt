-- ===== src/Validation/Chargeflow.antt =====
-- What internal/validation uses of github.com/ChargePi/chargeflow, kaptinlin/jsonschema,
-- samber/lo and encoding/json, as parameters. `W` is the program's state, `C` a compiled schema,
-- and `P` a decoded JSON value.
use chargeflow_registry.Prelude.{String, Option, List, Bool, ℤ, Exec, Result}
use chargeflow_registry.Errors.{Error}
use chargeflow_registry.Schema.Model.{Bytes}

-- ocpp.OcppContext
pub record OcppContext : Type 0 where
  pub version : String
  pub vendor : String
  pub model : String

-- ocpp.Call and ocpp.CallResult, which carry their MessageTypeId
pub data OcppMessage (P : Type 0) : Type 0 where
  call : (unique_id action : String) → P → OcppMessage P
  call_result : (unique_id action : String) → P → OcppMessage P

-- schema_registry.GetSchemaRequest
pub record GetSchemaRequest : Type 0 where
  pub ocpp_context : OcppContext
  pub action : String

pub record ValidationResult : Type 0 where
  pub is_valid : Bool
  pub errors : List String

-- One message of a bulk request, as decoded from its JSON object.
pub record BulkEnvelope : Type 0 where
  pub message_type_id : ℤ
  pub action : String
  pub payload : Bytes

pub record Chargeflow (W C P : Type 0) : Type 0 where
  -- Validator.ValidateMessage, given the `GetSchema` of the registry that it was built with.
  pub validate_message :
      (GetSchemaRequest → W → Option C × W)
      → OcppContext
      → OcppMessage P
      → Exec W Error ValidationResult
  -- jsonschema.Compiler.Compile
  pub compile : Bytes → Option C
  -- lo.EmptyableToPtr
  pub emptyable_to_ptr : String → Option String
  -- ocpp.CALL and ocpp.CALL_RESULT
  pub call_id : ℤ
  pub call_result_id : ℤ
  -- json.Unmarshal into an `any` and into a bulkEnvelope, with the text of the error
  pub unmarshal : Bytes → Result String P
  pub unmarshal_envelope : String → Result String BulkEnvelope

-- ===== src/Errors.antt =====
-- Go error values: the sentinels of internal/schema/repository.go and of the storage libraries,
-- `fmt.Errorf("…: %w", err)`, `errors.Is`, and the gRPC status that a handler returns.
use chargeflow_registry.Prelude.{String, Bool, true, false, ◌<>◌}

pub data Sentinel : Type 0 where
  -- schema.ErrNotFound, schema.ErrAlreadyExists
  err_not_found err_already_exists : Sentinel
  -- gorm.ErrRecordNotFound, gorm.ErrDuplicatedKey
  err_record_not_found err_duplicated_key : Sentinel
  -- redis.Nil
  redis_nil : Sentinel
  -- pagination.ErrInvalidToken
  err_invalid_token : Sentinel

pub data Error : Type 0 where
  sentinel : Sentinel → Error
  wrapped : String → Error → Error
  other : String → Error

abbrev pub sentinel_eq : Sentinel → Sentinel → Bool
sentinel_eq err_not_found err_not_found = true
sentinel_eq err_already_exists err_already_exists = true
sentinel_eq err_record_not_found err_record_not_found = true
sentinel_eq err_duplicated_key err_duplicated_key = true
sentinel_eq redis_nil redis_nil = true
sentinel_eq err_invalid_token err_invalid_token = true
sentinel_eq _ _ = false

-- errors.Is(err, target)
abbrev pub is : Error → Sentinel → Bool
is (sentinel s) target = sentinel_eq s target
is (wrapped _ e) target = is e target
is (other _) _ = false

abbrev pub sentinel_text : Sentinel → String
sentinel_text err_not_found = "schema not found"
sentinel_text err_already_exists = "schema already exists"
sentinel_text err_record_not_found = "record not found"
sentinel_text err_duplicated_key = "duplicated key not allowed"
sentinel_text redis_nil = "redis: nil"
sentinel_text err_invalid_token = "invalid page token"

-- err.Error()
abbrev pub error_text : Error → String
error_text (sentinel s) = sentinel_text s
error_text (wrapped context e) = context <> ": " <> error_text e
error_text (other text) = text

-- google.golang.org/grpc/codes, those that the handlers return
pub data Code : Type 0 where
  invalid_argument not_found already_exists internal : Code

pub record RpcStatus : Type 0 where
  pub code : Code
  pub message : String

-- status.Error(code, message)
abbrev pub status_error : Code → String → RpcStatus
status_error code message = record { code = code; message = message }

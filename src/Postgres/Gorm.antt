-- ===== src/Postgres/Gorm.antt =====
-- What internal/storage/postgres/repository.go calls of gorm and of encoding/json, as parameters.
-- A condition (`Where`) is a Boolean test of a row, and `D` is the state of the database.
use chargeflow_registry.Prelude.{ℕ, String, Option, List, Bool, ℤ, Exec}
use chargeflow_registry.Errors.{Error}
use chargeflow_registry.Schema.Model.{Uuid, Bytes, Status}
use chargeflow_registry.Postgres.Model.{SchemaEntity, SchemaVersionEntity}

-- One column of an `Update` or `Updates`.
pub data Assignment : Type 0 where
  set_status : Status → Assignment
  set_schema : Bytes → Assignment
  set_version : ℕ → Assignment

pub record Gorm (D : Type 0) : Type 0 where
  pub first_schema : (SchemaEntity → Bool) → Exec D Error SchemaEntity
  -- `Create` fills in the columns that the database generates.
  pub create_schema : SchemaEntity → Exec D Error SchemaEntity
  -- Both return `RowsAffected`.
  pub update_schemas : (SchemaEntity → Bool) → List Assignment → Exec D Error ℕ
  pub delete_schemas : (SchemaEntity → Bool) → Exec D Error ℕ
  pub count_schemas : (SchemaEntity → Bool) → Exec D Error ℤ
  -- The condition, the `Order`, the limit and the offset.
  pub find_schemas : (SchemaEntity → Bool) → String → ℕ → ℕ → Exec D Error (List SchemaEntity)
  -- The same under `Distinct("ocpp_version", "vendor", "model")`.
  pub count_vendor_models : (SchemaEntity → Bool) → Exec D Error ℤ
  pub find_vendor_models : (SchemaEntity → Bool) → String → ℕ → ℕ → Exec D Error (List SchemaEntity)
  pub first_version : (SchemaVersionEntity → Bool) → Exec D Error SchemaVersionEntity
  pub create_version : SchemaVersionEntity → Exec D Error SchemaVersionEntity
  pub count_versions : (SchemaVersionEntity → Bool) → Exec D Error ℤ
  pub find_versions :
      (SchemaVersionEntity → Bool) → String → ℕ → ℕ → Exec D Error (List SchemaVersionEntity)
  -- `Transaction(fn)`: the bodies hand back the id and the version that they settle on.
  pub transaction : Exec D Error (Uuid × ℕ) → Exec D Error (Uuid × ℕ)

-- `json.Unmarshal` into an `any`, and `reflect.DeepEqual` of two such values.
pub record Json (V : Type 0) : Type 0 where
  pub unmarshal : Bytes → Option V
  pub deep_equal : V → V → Bool

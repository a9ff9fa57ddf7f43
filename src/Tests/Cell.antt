-- ===== src/Tests/Cell.antt =====
-- A database with room for one schema, and its changelog.
use chargeflow_registry.Prelude.{
  ℕ, Option, none, some, List, [], ◌∷◌, Bool, ◌&&◌, pos, nat_eq, if◌then◌else◌, Result, ok, err,
}
use chargeflow_registry.Errors.{Error, sentinel, err_record_not_found, err_duplicated_key}
use chargeflow_registry.Schema.Model.{Uuid, Bytes}
use chargeflow_registry.Postgres.Model.{SchemaEntity, SchemaVersionEntity}
use chargeflow_registry.Postgres.Gorm.{Gorm, Assignment}
use chargeflow_registry.Postgres.Tables.{Tables, assign, or_default}

abbrev pub Log : Type 0
Log = Uuid → ℕ → Option SchemaVersionEntity

abbrev pub Cell : Type 0
Cell = Option SchemaEntity × Log

-- PostgreSQL's own form of a JSON text, here the text itself.
abbrev pub jsonb : Bytes → Bytes
jsonb b = b

abbrev pub at : Uuid → Option SchemaEntity → Option SchemaEntity
at id none = none
at id (some e) = if nat_eq e.id id then some e else none

abbrev pub view : Cell → Tables
view w = record { rows = λ id. at id w.0; changelog = w.1 }

abbrev pub first_of : (SchemaEntity → Bool) → Option SchemaEntity → Result Error SchemaEntity
first_of p none = err (sentinel err_record_not_found)
first_of p (some e) = if p e then ok e else err (sentinel err_record_not_found)

abbrev pub generated : SchemaEntity → SchemaEntity
generated e = record e { id = 7; status = or_default e.status; created_at = 5; updated_at = 5 }

abbrev pub create_in : SchemaEntity → Option SchemaEntity → Log → Result Error SchemaEntity × Cell
create_in e none log = (ok (generated e), (some (generated e), log))
create_in e (some x) log = (err (sentinel err_duplicated_key), (some x, log))

abbrev pub update_in :
    (SchemaEntity → Bool) → List Assignment → Option SchemaEntity → Log → Result Error ℕ × Cell
update_in p columns none log = (ok 0, (none, log))
update_in p columns (some e) log =
    if p e
    then (ok 1, (some (record (assign jsonb columns e) { updated_at = 6 }), log))
    else (ok 0, (some e, log))

abbrev pub delete_in : (SchemaEntity → Bool) → Option SchemaEntity → Log → Result Error ℕ × Cell
delete_in p none log = (ok 0, (none, log))
delete_in p (some e) log =
    if p e
    then (ok 1, (none, λ id n. if nat_eq e.id id then none else log id n))
    else (ok 0, (some e, log))

abbrev pub matching : (SchemaEntity → Bool) → Option SchemaEntity → List SchemaEntity
matching p none = []
matching p (some e) = if p e then e ∷ [] else []

abbrev pub stamped : SchemaVersionEntity → SchemaVersionEntity
stamped v = record v { id = 9; created_at = 5 }

-- The first entry of the one schema, if it stands under its own key.
abbrev pub first_entry :
    (SchemaVersionEntity → Bool) → Option SchemaVersionEntity → Result Error SchemaVersionEntity
first_entry p none = err (sentinel err_record_not_found)
first_entry p (some v) =
    if nat_eq v.schema_id 7 && nat_eq v.version 1 && p v
    then ok v
    else err (sentinel err_record_not_found)

abbrev pub commit : Result Error (Uuid × ℕ) → Cell → Cell → Result Error (Uuid × ℕ) × Cell
commit (ok a) before after = (ok a, after)
commit (err e) before after = (err e, before)

abbrev pub cell : Gorm Cell
cell = record {
  first_schema = λ p w. (first_of p w.0, w);
  create_schema = λ e w. create_in e w.0 w.1;
  update_schemas = λ p columns w. update_in p columns w.0 w.1;
  delete_schemas = λ p w. delete_in p w.0 w.1;
  count_schemas = λ p w. (ok (pos 1), w);
  find_schemas = λ p order limit offset w. (ok (matching p w.0), w);
  count_vendor_models = λ p w. (ok (pos 1), w);
  find_vendor_models = λ p order limit offset w. (ok (matching p w.0), w);
  first_version = λ p w. (first_entry p (w.1 7 1), w);
  create_version = λ v w. (
    ok (stamped v),
    (
      w.0,
      λ id n. if nat_eq v.schema_id id && nat_eq v.version n then some (stamped v) else w.1 id n,
    ),
  );
  count_versions = λ p w. (ok (pos 0), w);
  find_versions = λ p order limit offset w. (ok [], w);
  transaction = λ body w. let done = body w in commit done.0 w done.1;
}

-- ===== src/Postgres/Tables.antt =====
-- The tables `schemas` and `schema_versions` of deployments/migrations, by their keys, and what
-- internal/storage/postgres relies on of gorm and PostgreSQL.
use chargeflow_registry.Prelude.{
  ℕ, ◌<◌, String, ◌≡◌, Option, none, some, List, All, [], ◌∷◌, Bool, true, false, ◌&&◌, ◌==◌,
  nat_eq, if◌then◌else◌, ok, err, Result,
}
use chargeflow_registry.Errors.{Error, is, err_not_found, err_record_not_found}
use chargeflow_registry.Schema.Model.{Uuid, Time, Bytes, Status, status_submitted}
use chargeflow_registry.Postgres.Model.{SchemaEntity, SchemaVersionEntity}
use chargeflow_registry.Postgres.Gorm.{Gorm, Assignment, set_status, set_schema, set_version}
use chargeflow_registry.Postgres.Query.{in_slot}

-- The rows by their primary key, and the changelog by `schema_versions_unique`.
pub record Tables : Type 0 where
  pub rows : Uuid → Option SchemaEntity
  pub changelog : Uuid → ℕ → Option SchemaVersionEntity

abbrev pub put_row : SchemaEntity → Tables → Tables
put_row e t = record t { rows = λ id. if nat_eq e.id id then some e else t.rows id }

abbrev pub put_entry : SchemaVersionEntity → Tables → Tables
put_entry v t = record t {
  changelog =
      λ id n. if nat_eq v.schema_id id && nat_eq v.version n then some v else t.changelog id n;
}

-- A jsonb column holds what PostgreSQL makes of the text: `jsonb`.
module _ (jsonb : Bytes → Bytes) where
  abbrev pub stored : SchemaEntity → SchemaEntity
  stored e = record e { schema = jsonb e.schema }

  abbrev pub stored_entry : SchemaVersionEntity → SchemaVersionEntity
  stored_entry v = record v { schema = jsonb v.schema }

  abbrev pub assign : List Assignment → SchemaEntity → SchemaEntity
  assign [] e = e
  assign (set_status s ∷ more) e = assign more (record e { status = s })
  assign (set_schema s ∷ more) e = assign more (record e { schema = jsonb s })
  assign (set_version n ∷ more) e = assign more (record e { version = n })

  -- An UPDATE also writes the time `now` into `updated_at`.
  abbrev pub updated :
      Time → (SchemaEntity → Bool) → List Assignment → Option SchemaEntity → Option SchemaEntity
  updated now p columns none = none
  updated now p columns (some e) =
      if p e then some (record (assign columns e) { updated_at = now }) else some e

  abbrev pub update_rows : Time → (SchemaEntity → Bool) → List Assignment → Tables → Tables
  update_rows now p columns t = record t { rows = λ id. updated now p columns (t.rows id) }

abbrev pub meets : (SchemaEntity → Bool) → Option SchemaEntity → Bool
meets p none = false
meets p (some e) = p e

-- A DELETE takes the changelog of its rows with it (ON DELETE CASCADE).
abbrev pub delete_rows : (SchemaEntity → Bool) → Tables → Tables
delete_rows p t = record {
  rows = λ id. if meets p (t.rows id) then none else t.rows id;
  changelog = λ id n. if meets p (t.rows id) then none else t.changelog id n;
}

-- `status` has a default, which stands in for an empty string.
abbrev pub or_default : Status → Status
or_default s = if s == "" then status_submitted else s

-- What a successful INSERT of `e` says of the row `e'` that it returns and of the table before.
pub record IsInsertion (t : Tables) (e e' : SchemaEntity) : Type 0 where
  pub same : e' ≡ record e {
    id = e'.id;
    status = or_default e.status;
    created_at = e'.created_at;
    updated_at = e'.updated_at;
  }
  pub fresh : t.rows e'.id ≡ none
  -- schemas_lookup_unique
  pub unique :
      (id : Uuid) (x : SchemaEntity)
      → t.rows id ≡ some x
      → in_slot e.ocpp_version e.action e.message_type e.vendor e.model x ≡ false

-- The documented behaviour of gorm on PostgreSQL, `view` being the tables of a state. A call that
-- fails changes nothing, and so does a query.
pub record IsPostgres {D : Type 0} (db : Gorm D) (jsonb : Bytes → Bytes) (view : D → Tables)
    : Type 0 where
  pub first_schema-view : (p : SchemaEntity → Bool) (w : D) → view (db.first_schema p w).1 ≡ view w
  pub first_schema-found :
      (p : SchemaEntity → Bool) (w : D) (e : SchemaEntity)
      → (db.first_schema p w).0 ≡ ok e
      → ((view w).rows e.id ≡ some e) × (p e ≡ true)
  pub first_schema-missing :
      (p : SchemaEntity → Bool) (w : D) (x : Error)
      → (db.first_schema p w).0 ≡ err x
      → is x err_record_not_found ≡ true
      → (id : Uuid) (e : SchemaEntity) → (view w).rows id ≡ some e
      → p e ≡ false
  -- The library does not know schema.ErrNotFound.
  pub first_schema-foreign :
      (p : SchemaEntity → Bool) (w : D) (x : Error)
      → (db.first_schema p w).0 ≡ err x
      → is x err_not_found ≡ false
  pub create_schema-ok :
      (e : SchemaEntity) (w : D) (e' : SchemaEntity)
      → 0 < e.version
      → (db.create_schema e w).0 ≡ ok e'
      → IsInsertion (view w) e e'
        × (view (db.create_schema e w).1 ≡ put_row (stored jsonb e') (view w))
  pub create_schema-err :
      (e : SchemaEntity) (w : D) (x : Error)
      → (db.create_schema e w).0 ≡ err x
      → view (db.create_schema e w).1 ≡ view w
  pub create_version-ok :
      (v : SchemaVersionEntity) (w : D) (v' : SchemaVersionEntity)
      → (db.create_version v w).0 ≡ ok v'
      → (v' ≡ record v { id = v'.id; created_at = v'.created_at })
        × (view (db.create_version v w).1 ≡ put_entry (stored_entry jsonb v') (view w))
  pub create_version-err :
      (v : SchemaVersionEntity) (w : D) (x : Error)
      → (db.create_version v w).0 ≡ err x
      → view (db.create_version v w).1 ≡ view w
  -- With the number of rows that met the condition.
  pub update_schemas-ok :
      (p : SchemaEntity → Bool) (columns : List Assignment) (w : D) (n : ℕ)
      → (db.update_schemas p columns w).0 ≡ ok n
      → (now : Time) × (view (db.update_schemas p columns w).1
          ≡ update_rows jsonb now p columns (view w))
  pub update_schemas-none :
      (p : SchemaEntity → Bool) (columns : List Assignment) (w : D)
      → (db.update_schemas p columns w).0 ≡ ok 0
      → (id : Uuid) → meets p ((view w).rows id) ≡ false
  pub update_schemas-some :
      (p : SchemaEntity → Bool) (columns : List Assignment) (w : D) (n : ℕ)
      → (db.update_schemas p columns w).0 ≡ ok n
      → nat_eq n 0 ≡ false
      → (id : Uuid) × (e : SchemaEntity) × ((view w).rows id ≡ some e) × (p e ≡ true)
  pub update_schemas-err :
      (p : SchemaEntity → Bool) (columns : List Assignment) (w : D) (x : Error)
      → (db.update_schemas p columns w).0 ≡ err x
      → view (db.update_schemas p columns w).1 ≡ view w
  pub first_version-view :
      (p : SchemaVersionEntity → Bool) (w : D) → view (db.first_version p w).1 ≡ view w
  pub first_version-found :
      (p : SchemaVersionEntity → Bool) (w : D) (v : SchemaVersionEntity)
      → (db.first_version p w).0 ≡ ok v
      → ((view w).changelog v.schema_id v.version ≡ some v) × (p v ≡ true)
  pub count_schemas-view :
      (p : SchemaEntity → Bool) (w : D) → view (db.count_schemas p w).1 ≡ view w
  pub count_vendor_models-view :
      (p : SchemaEntity → Bool) (w : D) → view (db.count_vendor_models p w).1 ≡ view w
  pub count_versions-view :
      (p : SchemaVersionEntity → Bool) (w : D) → view (db.count_versions p w).1 ≡ view w
  -- With the order, the limit and the offset of the query.
  pub find_schemas-view :
      (p : SchemaEntity → Bool) (order : String) (limit offset : ℕ) (w : D)
      → view (db.find_schemas p order limit offset w).1 ≡ view w
  pub find_vendor_models-view :
      (p : SchemaEntity → Bool) (order : String) (limit offset : ℕ) (w : D)
      → view (db.find_vendor_models p order limit offset w).1 ≡ view w
  pub find_versions-view :
      (p : SchemaVersionEntity → Bool) (order : String) (limit offset : ℕ) (w : D)
      → view (db.find_versions p order limit offset w).1 ≡ view w
  pub find_schemas-met :
      (p : SchemaEntity → Bool) (order : String) (limit offset : ℕ) (w : D) (es : List SchemaEntity)
      → (db.find_schemas p order limit offset w).0 ≡ ok es
      → All (λ e. p e ≡ true) es
  pub delete_schemas-ok :
      (p : SchemaEntity → Bool) (w : D) (n : ℕ)
      → (db.delete_schemas p w).0 ≡ ok n
      → view (db.delete_schemas p w).1 ≡ delete_rows p (view w)
  pub delete_schemas-none :
      (p : SchemaEntity → Bool) (w : D)
      → (db.delete_schemas p w).0 ≡ ok 0
      → (id : Uuid) → meets p ((view w).rows id) ≡ false
  pub delete_schemas-some :
      (p : SchemaEntity → Bool) (w : D) (n : ℕ)
      → (db.delete_schemas p w).0 ≡ ok n
      → nat_eq n 0 ≡ false
      → (id : Uuid) × (e : SchemaEntity) × ((view w).rows id ≡ some e) × (p e ≡ true)
  pub delete_schemas-err :
      (p : SchemaEntity → Bool) (w : D) (x : Error)
      → (db.delete_schemas p w).0 ≡ err x
      → view (db.delete_schemas p w).1 ≡ view w
  -- A transaction commits what its body did, or does nothing.
  pub transaction-ok :
      (body : D → Result Error (Uuid × ℕ) × D) (w : D) (a : Uuid × ℕ)
      → (db.transaction body w).0 ≡ ok a
      → ((body w).0 ≡ ok a) × (view (db.transaction body w).1 ≡ view (body w).1)
  pub transaction-err :
      (body : D → Result Error (Uuid × ℕ) × D) (w : D) (x : Error)
      → (db.transaction body w).0 ≡ err x
      → view (db.transaction body w).1 ≡ view w

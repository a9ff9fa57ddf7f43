-- ===== src/Postgres/Repository.antt =====
-- internal/storage/postgres/repository.go.
use chargeflow_registry.Prelude.{
  either, ℕ, ◌+◌, String, Option, none, some, List, [], ◌∷◌, map, Bool, false, ◌||◌, not, ℤ, pos,
  int_eq, nat_eq, if◌then◌else◌, Exec, pure, raise, on_result, trying, ◌>>=◌, ◌>>◌,
}
use chargeflow_registry.Errors.{
  Error, sentinel, wrapped, is, err_not_found, err_already_exists, err_record_not_found,
  err_duplicated_key,
}
use chargeflow_registry.Schema.Model.{
  OcppVersion, MessageType, Status, Uuid, Bytes, Schema, SchemaVersion, VendorModel,
}
use chargeflow_registry.Schema.Ports
use chargeflow_registry.Postgres.Model.{
  SchemaEntity, SchemaVersionEntity, to_entity, to_domain, to_domain_slice, to_version_domain,
  to_version_domain_slice,
}
use chargeflow_registry.Postgres.Gorm.{Gorm, Json, set_status, set_schema, set_version}
use chargeflow_registry.Postgres.Query.{
  is_null, in_slot, is_verified_in_slot, is_verified_generic, has_id, matches_filters,
  is_vendor_model, of_schema, of_version,
}

-- A changelog row before the database fills in its id and time.
abbrev pub version_row : Uuid → ℕ → Bytes → SchemaVersionEntity
version_row schema_id version content = record {
  id = 0;
  schema_id = schema_id;
  version = version;
  schema = content;
  created_at = 0;
}

-- `*p`, which panics at nil: the query has excluded that.
abbrev pub deref : Option String → String
deref none = ""
deref (some s) = s

unfoldable pub to_vendor_model : SchemaEntity → VendorModel
to_vendor_model e = record {
  ocpp_version = e.ocpp_version;
  vendor = deref e.vendor;
  model = deref e.model;
}

unfoldable pub json_content_equal : {V : Type 0} → Json V → Bytes → Bytes → Bool
json_content_equal json a b = elim (json.unmarshal a) [
  | none ↦ false
  | some av ↦ elim (json.unmarshal b) [ none ↦ false | some bv ↦ json.deep_equal av bv ]
]

-- `s.ID` and `s.Version` are written once the row is settled.
abbrev pub with_identity : Schema → Uuid × ℕ → Schema
with_identity s (id, version) = record s { id = id; version = version }

module _ {D : Type 0} (db : Gorm D) where
  unfoldable pub get_generic : OcppVersion → String → MessageType → Exec D Error Schema
  unfolding to_domain
  get_generic version action msg_type =
      on_result (db.first_schema (is_verified_generic version action msg_type)) (
        either (λ entity. pure (to_domain entity))
          (λ e.
            if is e err_record_not_found
            then raise (sentinel err_not_found)
            else raise (wrapped "get schema" e)))

  -- The lookup with a vendor or a model, and its fallback.
  unfoldable pub get_specific :
      OcppVersion → String → MessageType → Option String → Option String → Exec D Error Schema
  unfolding to_domain
  get_specific version action msg_type vendor model =
      on_result (db.first_schema (is_verified_in_slot version action msg_type vendor model)) (
        either (λ entity. pure (to_domain entity))
          (λ e.
            if is e err_record_not_found
            then get_generic version action msg_type
            else raise (wrapped "get schema" e)))

  unfoldable pub get :
      OcppVersion → String → MessageType → Option String → Option String → Exec D Error Schema
  get version action msg_type vendor model =
      if not (is_null vendor) || not (is_null model)
      then get_specific version action msg_type vendor model
      else get_generic version action msg_type

  -- A new row at version 1, and the first entry of its changelog.
  unfoldable pub insert_with_changelog : SchemaEntity → Exec D Error (Uuid × ℕ)
  insert_with_changelog fresh = do
    entity ← db.create_schema (record fresh { version = 1 })
    db.create_version (version_row entity.id entity.version entity.schema)
    pure (entity.id, entity.version)

  unfoldable pub add : Schema → Exec D Error Schema
  add s = on_result (db.transaction (insert_with_changelog (to_entity s))) (
      either (λ identity. pure (with_identity s identity))
        (λ e.
          if is e err_duplicated_key
          then raise (sentinel err_already_exists)
          else raise (wrapped "add schema" e)))

  unfoldable pub list :
      OcppVersion
      → (vendor model action : Option String) → Option MessageType
      → Option Status
      → (limit offset : ℕ) → Exec D Error (List Schema × ℤ)
  unfolding to_domain_slice
  list version vendor model action msg_type status limit offset =
      let query = matches_filters version vendor model action msg_type status in
      trying (db.count_schemas query) (wrapped "count schemas") λ total.
        trying
          (db.find_schemas query "ocpp_version ASC, vendor ASC, model ASC, action ASC" limit offset)
          (wrapped "list schemas") λ entities. pure (to_domain_slice entities, total)

  -- The updated row, for the answer.
  unfoldable pub reread : Uuid → Exec D Error Schema
  unfolding to_domain
  reread id =
      trying (db.first_schema (has_id id)) (wrapped "get updated schema")
        λ entity. pure (to_domain entity)

  unfoldable pub update_status : Uuid → Status → Exec D Error Schema
  update_status id status =
      trying (db.update_schemas (has_id id) (set_status status ∷ []))
        (wrapped "update schema status")
        λ rows_affected.
          if nat_eq rows_affected 0 then raise (sentinel err_not_found) else reread id

  unfoldable pub list_versions : Uuid → (limit offset : ℕ) → Exec D Error (List SchemaVersion × ℤ)
  unfolding to_version_domain_slice
  list_versions schema_id limit offset =
      trying (db.count_versions (of_schema schema_id)) (wrapped "count schema versions") λ total.
        trying (db.find_versions (of_schema schema_id) "version DESC" limit offset)
          (wrapped "list schema versions")
          λ entities. pure (to_version_domain_slice entities, total)

  unfoldable pub get_version : Uuid → ℤ → Exec D Error SchemaVersion
  unfolding to_version_domain
  get_version schema_id version = on_result (db.first_version (of_version schema_id version)) (
      either (λ entity. pure (to_version_domain entity))
        (λ e.
          if is e err_record_not_found
          then raise (sentinel err_not_found)
          else raise (wrapped "get schema version" e)))

  unfoldable pub list_vendor_models :
      String → List String → (limit offset : ℕ) → Exec D Error (List VendorModel × ℤ)
  unfolding to_vendor_model
  list_vendor_models vendor models limit offset =
      let query = is_vendor_model vendor models in
      trying (db.count_vendor_models query) (wrapped "count vendor models") λ total.
        if int_eq total (pos 0)
        then raise (sentinel err_not_found)
        else trying (db.find_vendor_models query "ocpp_version, model" limit offset)
            (wrapped "list vendor models") λ entities. pure (map to_vendor_model entities, total)

  unfoldable pub delete :
      OcppVersion → String → MessageType → Option String → Option String → Exec D Error (Unit {0})
  delete version action msg_type vendor model =
      trying (db.delete_schemas (in_slot version action msg_type vendor model))
        (wrapped "delete schema")
        λ rows_affected. if nat_eq rows_affected 0 then raise (sentinel err_not_found) else pure tt

module _ {D V : Type 0} (db : Gorm D) (json : Json V) where
  -- New content of an existing row: the next version, and its entry in the changelog.
  unfoldable pub update_content : SchemaEntity → Bytes → Exec D Error (Uuid × ℕ)
  update_content existing content =
      if json_content_equal json existing.schema content
      then pure (existing.id, existing.version)
      else (do
        let new_version = existing.version + 1
        db.update_schemas (has_id existing.id) (set_schema content ∷ set_version new_version ∷ [])
        db.create_version (version_row existing.id new_version content)
        pure (existing.id, new_version))

  -- The body of the transaction of `Upsert`.
  unfoldable pub upsert_in : Schema → Exec D Error (Uuid × ℕ)
  upsert_in s =
      on_result (db.first_schema (in_slot s.ocpp_version s.action s.message_type s.vendor s.model))
        (either (λ existing. update_content existing s.schema)
          (λ e.
            if is e err_record_not_found then insert_with_changelog db (to_entity s) else raise e))

  unfoldable pub upsert : Schema → Exec D Error Schema
  upsert s =
      trying (db.transaction (upsert_in s)) (wrapped "upsert schema")
        λ identity. pure (with_identity s identity)

  -- NewRepository
  unfoldable pub repository : Ports.Repository D
  unfolding get add upsert list update_status list_versions get_version list_vendor_models delete
  repository = record {
    get = get db;
    list = list db;
    add = add db;
    upsert = upsert;
    delete = delete db;
    update_status = update_status db;
    list_vendor_models = list_vendor_models db;
    list_versions = list_versions db;
    get_version = get_version db;
  }

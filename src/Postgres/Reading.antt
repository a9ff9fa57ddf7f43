-- ===== src/Postgres/Reading.antt =====
-- The queries of internal/storage/postgres/repository.go that only read.
use chargeflow_registry.Prelude.{
  ℕ, ℤ, pos, int_eq, String, Option, List, ◌≡◌, ◌∙◌, sym, ap, subst, some, Bool-cases, Result-cases,
  inl, inr, ok, ok-injective, arith,
}
use chargeflow_registry.Errors.{is, err_record_not_found}
use chargeflow_registry.Schema.Model.{OcppVersion, MessageType, Status, Uuid, Bytes, SchemaVersion}
use chargeflow_registry.Postgres.Model.{SchemaVersionEntity, to_version_domain}
use chargeflow_registry.Postgres.Gorm.{Gorm}
use chargeflow_registry.Postgres.Query.{matches_filters, is_vendor_model, of_schema, of_version}
use chargeflow_registry.Postgres.Tables.{Tables, IsPostgres}
use chargeflow_registry.Postgres.Repository.{list, list_versions, get_version, list_vendor_models}

module _ {D : Type 0} (db : Gorm D) (jsonb : Bytes → Bytes) (view : D → Tables)
    (laws : IsPostgres db jsonb view) where
  pub list-view :
      (version : OcppVersion) (vendor model action : Option String) (msg_type : Option MessageType)
      (status : Option Status) (limit offset : ℕ) (w : D)
      → view (list db version vendor model action msg_type status limit offset w).1 ≡ view w
  unfolding list
  list-view version vendor model action msg_type status limit offset w =
      let query = matches_filters version vendor model action msg_type status in
      let order : String = "ocpp_version ASC, vendor ASC, model ASC, action ASC" in
      let counted = (db.count_schemas query w).1 in
      let seen = laws.count_schemas-view query w in
      let read = laws.find_schemas-view query order limit offset counted ∙ seen in
      elim (Result-cases (db.count_schemas query w).0) [
        | inr (e, failed) ↦ rw failed seen
        | inl (total, done) ↦
            elim (Result-cases (db.find_schemas query order limit offset counted).0) [
              | inr (e, failed) ↦ rw (done, failed) read
              | inl (es, found) ↦ rw (done, found) read
            ]
      ]

  pub list_versions-view :
      (id : Uuid) (limit offset : ℕ) (w : D) → view (list_versions db id limit offset w).1 ≡ view w
  unfolding list_versions
  list_versions-view id limit offset w =
      let query = of_schema id in
      let order : String = "version DESC" in
      let counted = (db.count_versions query w).1 in
      let seen = laws.count_versions-view query w in
      let read = laws.find_versions-view query order limit offset counted ∙ seen in
      elim (Result-cases (db.count_versions query w).0) [
        | inr (e, failed) ↦ rw failed seen
        | inl (total, done) ↦
            elim (Result-cases (db.find_versions query order limit offset counted).0) [
              | inr (e, failed) ↦ rw (done, failed) read
              | inl (es, found) ↦ rw (done, found) read
            ]
      ]

  pub list_vendor_models-view :
      (vendor : String) (models : List String) (limit offset : ℕ) (w : D)
      → view (list_vendor_models db vendor models limit offset w).1 ≡ view w
  unfolding list_vendor_models
  list_vendor_models-view vendor models limit offset w =
      let query = is_vendor_model vendor models in
      let order : String = "ocpp_version, model" in
      let counted = (db.count_vendor_models query w).1 in
      let seen = laws.count_vendor_models-view query w in
      let read = laws.find_vendor_models-view query order limit offset counted ∙ seen in
      elim (Result-cases (db.count_vendor_models query w).0) [
        | inr (e, failed) ↦ rw failed seen
        | inl (total, done) ↦ elim (Bool-cases (int_eq total (pos 0))) [
          | inl nothing ↦ rw (done, nothing) seen
          | inr some_rows ↦
              elim (Result-cases (db.find_vendor_models query order limit offset counted).0) [
                | inr (e, failed) ↦ rw (done, some_rows, failed) read
                | inl (es, found) ↦ rw (done, some_rows, found) read
              ]
        ]
      ]

  pub get_version-view :
      (id : Uuid) (version : ℤ) (w : D) → view (get_version db id version w).1 ≡ view w
  unfolding get_version
  get_version-view id version w =
      let query = of_version id version in
      let seen = laws.first_version-view query w in
      elim (Result-cases (db.first_version query w).0) [
        | inl (v, found) ↦ rw found seen
        | inr (e, failed) ↦ elim (Bool-cases (is e err_record_not_found)) [
          | inl missing ↦ rw (failed, missing) seen
          | inr broken ↦ rw (failed, broken) seen
        ]
      ]

  -- What `GetVersion` of the repository returns is the changelog entry of the schema and version.
  pub get_version-archived :
      (id : Uuid) (version : ℤ) (w : D) (v : SchemaVersion)
      → (get_version db id version w).0 ≡ ok v
      → (entry : SchemaVersionEntity) × ((view w).changelog id v.version ≡ some entry)
        × (v ≡ to_version_domain entry)
        × (pos v.version ≡ version)
  unfolding get_version to_version_domain
  get_version-archived id version w v p =
      let query = of_version id version in
      elim (Result-cases (db.first_version query w).0) [
        | inl (entry, found) ↦
            let (there, met) = laws.first_version-found query w entry found in
            let keyed : entry.schema_id ≡ id = ground arith in
            let numbered : pos entry.version ≡ version = ground arith in
            let same : to_version_domain entry ≡ v = ok-injective (rw found at p) in
            (
              entry,
              subst (λ (x : SchemaVersion). (view w).changelog id x.version ≡ some entry) same
                  (subst (λ k. (view w).changelog k entry.version ≡ some entry) keyed there),
              sym same,
              ap (λ (x : SchemaVersion). pos x.version) (sym same) ∙ numbered,
            )
        | inr (e, failed) ↦ elim (Bool-cases (is e err_record_not_found)) [
          | inl missing ↦ absurd (cc (rw (failed, missing) at p))
          | inr broken ↦ absurd (cc (rw (failed, broken) at p))
        ]
      ]

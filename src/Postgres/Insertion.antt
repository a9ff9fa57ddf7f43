-- ===== src/Postgres/Insertion.antt =====
-- What `Add` of internal/storage/postgres/repository.go writes.
use chargeflow_registry.Prelude.{
  ℕ, ◌≡◌, refl, sym, ap, ◌∙◌, subst, none, some, false, inl, inr, Bool-cases, arith, ok, err,
  Result-cases, ok-injective,
}
use chargeflow_registry.Errors.{Error, is, err_duplicated_key}
use chargeflow_registry.Schema.Model.{Uuid, Bytes, Schema}
use chargeflow_registry.Postgres.Model.{SchemaEntity, SchemaVersionEntity, to_entity}
use chargeflow_registry.Postgres.Gorm.{Gorm}
use chargeflow_registry.Postgres.Query.{in_slot}
use chargeflow_registry.Postgres.Tables.{
  Tables, IsPostgres, put_row, put_entry, stored, stored_entry, or_default,
}
use chargeflow_registry.Postgres.Repository.{version_row, with_identity, insert_with_changelog, add}

-- One row at version 1, made of `fresh`, and one entry with its content are new in the tables;
-- no row was in its slot.
pub record Inserted (jsonb : Bytes → Bytes) (t t' : Tables) (fresh : SchemaEntity)
    (identity : Uuid × ℕ) : Type 0 where
  pub row : SchemaEntity
  pub entry : SchemaVersionEntity
  pub after : t' ≡ put_entry entry (put_row row t)
  pub id : row.id ≡ identity.0
  pub version : identity.1 ≡ 1
  pub first : row.version ≡ 1
  pub made_of : row ≡ record fresh {
    id = row.id;
    status = or_default fresh.status;
    schema = jsonb fresh.schema;
    version = 1;
    created_at = row.created_at;
    updated_at = row.updated_at;
  }
  pub free : t.rows row.id ≡ none
  pub unique :
      (i : Uuid) (x : SchemaEntity)
      → t.rows i ≡ some x
      → in_slot fresh.ocpp_version fresh.action fresh.message_type fresh.vendor fresh.model x
        ≡ false
  pub entry_id : entry.schema_id ≡ row.id
  pub entry_version : entry.version ≡ 1
  pub entry_content : entry.schema ≡ row.schema

module _ {D : Type 0} (db : Gorm D) (jsonb : Bytes → Bytes) (view : D → Tables)
    (laws : IsPostgres db jsonb view) where
  pub insert_with_changelog-Inserted :
      (fresh : SchemaEntity) (w : D) (a : Uuid × ℕ)
      → (insert_with_changelog db fresh w).0 ≡ ok a
      → Inserted jsonb (view w) (view (insert_with_changelog db fresh w).1) fresh a
  unfolding insert_with_changelog
  insert_with_changelog-Inserted fresh w a p =
      let fresh_row = record fresh { version = 1 } in
      elim (Result-cases (db.create_schema fresh_row w).0) [
        | inr (x, failed) ↦ absurd (cc (rw failed at p))
        | inl (e, created) ↦
            let middle = (db.create_schema fresh_row w).1 in
            let next = db.create_version (version_row e.id e.version e.schema) middle in
            elim (Result-cases next.0) [
              | inr (x, failed) ↦ absurd (cc (rw (created, failed) at p))
              | inl (v, logged) ↦
                  let (made, row_view) =
                    laws.create_schema-ok fresh_row w e (omega arith) created in
                  let (same, log_view) =
                    laws.create_version-ok (version_row e.id e.version e.schema) middle v logged in
                  let one : e.version ≡ 1 = ap (λ x. x.version) made.same in
                  let answer : ok (e.id, e.version) ≡ ok a = rw (created, logged) at p in
                  record {
                    row = stored jsonb e;
                    entry = stored_entry jsonb v;
                    after =
                        rw (created, logged)
                          (log_view ∙ ap (put_entry (stored_entry jsonb v)) row_view);
                    id = ap (λ (i : Uuid × ℕ). i.0) (ok-injective answer);
                    version = sym (ap (λ (i : Uuid × ℕ). i.1) (ok-injective answer)) ∙ one;
                    first = one;
                    made_of = ap (stored jsonb) made.same;
                    free = made.fresh;
                    unique = made.unique;
                    entry_id = ap (λ x. x.schema_id) same;
                    entry_version = ap (λ x. x.version) same ∙ one;
                    entry_content = ap (λ x. jsonb x.schema) same;
                  }
            ]
      ]

  -- When the repository's Add succeeds, it returns the schema with a new id and version 1, no row
  -- was in its slot, and the tables have gained exactly its row and the first entry of its
  -- changelog.
  pub add-Inserted :
      (s : Schema) (w : D) (s' : Schema)
      → (add db s w).0 ≡ ok s'
      → (s' ≡ with_identity s (s'.id, s'.version))
        × Inserted jsonb (view w) (view (add db s w).1) (to_entity s) (s'.id, s'.version)
  unfolding add
  add-Inserted s w s' p =
      let body = insert_with_changelog db (to_entity s) in
      elim (Result-cases (db.transaction body w).0) [
        | inl (a, done) ↦
            let (same, seen) = laws.transaction-ok body w a done in
            let inserted = insert_with_changelog-Inserted (to_entity s) w a same in
            let left : with_identity s a ≡ s' = ok-injective (rw done at p) in
            rw done (
              subst
                (λ x.
                  (x ≡ with_identity s (x.id, x.version))
                  × Inserted jsonb (view w) (view (db.transaction body w).1) (to_entity s)
                      (x.id, x.version))
                left
                (refl, subst (λ t. Inserted jsonb (view w) t (to_entity s) a) (sym seen) inserted))
        | inr (x, failed) ↦ absurd (ground arith)
      ]

  -- When the repository's Add fails, the tables are as they were.
  pub add-err :
      (s : Schema) (w : D) (x : Error) → (add db s w).0 ≡ err x → view (add db s w).1 ≡ view w
  unfolding add
  add-err s w x p =
      let body = insert_with_changelog db (to_entity s) in
      elim (Result-cases (db.transaction body w).0) [
        | inl (a, done) ↦ absurd (cc (rw done at p))
        | inr (y, failed) ↦ elim (Bool-cases (is y err_duplicated_key)) [
          | inl dup ↦ rw (failed, dup) (laws.transaction-err body w y failed)
          | inr not_dup ↦ rw (failed, not_dup) (laws.transaction-err body w y failed)
        ]
      ]

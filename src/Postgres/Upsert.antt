-- ===== src/Postgres/Upsert.antt =====
-- What `Upsert` of internal/storage/postgres/repository.go does to the tables.
use chargeflow_registry.Prelude.{
  ℕ, ◌+◌, ◌≡◌, refl, sym, ap, ◌∙◌, subst, some, true, false, Bool-cases, inl, inr, [], ◌∷◌, ok, err,
  Result-cases, ok-injective,
}
use chargeflow_registry.Errors.{Error, is, err_record_not_found}
use chargeflow_registry.Schema.Model.{Uuid, Time, Bytes, Schema}
use chargeflow_registry.Postgres.Model.{SchemaEntity, SchemaVersionEntity, to_entity}
use chargeflow_registry.Postgres.Gorm.{Gorm, Json, set_schema, set_version}
use chargeflow_registry.Postgres.Query.{in_slot, has_id}
use chargeflow_registry.Postgres.Tables.{Tables, IsPostgres, put_entry, update_rows, stored_entry}
use chargeflow_registry.Postgres.Insertion.{Inserted, insert_with_changelog-Inserted}
use chargeflow_registry.Postgres.Repository.{
  version_row, with_identity, insert_with_changelog, json_content_equal, update_content, upsert_in,
  upsert,
}

-- The three outcomes that the comment of `Upsert` names, with the id and the version that it
-- hands back: a new row at version 1; a row with the same content, and nothing done; a row whose
-- content changed, at its next version and with a new entry in its changelog.
pub data UpsertOutcome {V : Type 0} (jsonb : Bytes → Bytes) (json : Json V) (t t' : Tables)
    (s : Schema) (identity : Uuid × ℕ) : Type 0 where
  inserted :
      ((id : Uuid) (e : SchemaEntity)
        → t.rows id ≡ some e
        → in_slot s.ocpp_version s.action s.message_type s.vendor s.model e ≡ false)
      → Inserted jsonb t t' (to_entity s) identity
      → UpsertOutcome jsonb json t t' s identity
  unchanged :
      (e : SchemaEntity)
      → t.rows e.id ≡ some e
      → in_slot s.ocpp_version s.action s.message_type s.vendor s.model e ≡ true
      → json_content_equal json e.schema s.schema ≡ true
      → t' ≡ t
      → identity ≡ (e.id, e.version)
      → UpsertOutcome jsonb json t t' s identity
  appended :
      (e : SchemaEntity) (v : SchemaVersionEntity) (now : Time)
      → t.rows e.id ≡ some e
      → in_slot s.ocpp_version s.action s.message_type s.vendor s.model e ≡ true
      → json_content_equal json e.schema s.schema ≡ false
      → t'
        ≡ put_entry v (
            update_rows jsonb now
              (has_id e.id)
              (set_schema s.schema ∷ set_version (e.version + 1) ∷ [])
              t)
      → v.schema_id ≡ e.id
      → v.version ≡ e.version + 1
      → v.schema ≡ jsonb s.schema
      → identity ≡ (e.id, e.version + 1)
      → UpsertOutcome jsonb json t t' s identity

module _ {D : Type 0} (db : Gorm D) (jsonb : Bytes → Bytes) (view : D → Tables)
    (laws : IsPostgres db jsonb view) {V : Type 0} (json : Json V) where
  update_content-outcome :
      (s : Schema) (e : SchemaEntity) (w : D) (a : Uuid × ℕ)
      → (view w).rows e.id ≡ some e
      → in_slot s.ocpp_version s.action s.message_type s.vendor s.model e ≡ true
      → (update_content db json e s.schema w).0 ≡ ok a
      → UpsertOutcome jsonb json (view w) (view (update_content db json e s.schema w).1) s a
  unfolding update_content
  update_content-outcome s e w a present met p =
      elim (Bool-cases (json_content_equal json e.schema s.schema)) [
        | inl same ↦ unchanged e present met same (rw same) (sym (ok-injective (rw same at p)))
        | inr new ↦
            let columns = set_schema s.schema ∷ set_version (e.version + 1) ∷ [] in
            let update = db.update_schemas (has_id e.id) columns w in
            elim (Result-cases update.0) [
              | inr (x, failed) ↦ absurd (cc (rw (new, failed) at p))
              | inl (n, done) ↦
                  let entry = version_row e.id (e.version + 1) s.schema in
                  let next = db.create_version entry update.1 in
                  elim (Result-cases next.0) [
                    | inr (x, failed) ↦ absurd (cc (rw (new, done, failed) at p))
                    | inl (v, logged) ↦
                        let (now, row_view) =
                          laws.update_schemas-ok (has_id e.id) columns w n done in
                        let (same, log_view) = laws.create_version-ok entry update.1 v logged in
                        appended e (stored_entry jsonb v) now present met new
                          (rw (new, done, logged)
                            (log_view ∙ ap (put_entry (stored_entry jsonb v)) row_view))
                          (ap (λ x. x.schema_id) same) (ap (λ x. x.version) same)
                          (ap (λ x. jsonb x.schema) same)
                          (sym (ok-injective (rw (new, done, logged) at p)))
                  ]
            ]
      ]

  pub upsert_in-outcome :
      (s : Schema) (w : D) (a : Uuid × ℕ)
      → (upsert_in db json s w).0 ≡ ok a
      → UpsertOutcome jsonb json (view w) (view (upsert_in db json s w).1) s a
  unfolding upsert_in
  upsert_in-outcome s w a p =
      let slot = in_slot s.ocpp_version s.action s.message_type s.vendor s.model in
      let after = (db.first_schema slot w).1 in
      let seen = laws.first_schema-view slot w in
      elim (Result-cases (db.first_schema slot w).0) [
        | inl (e, found) ↦
            let (present, met) = laws.first_schema-found slot w e found in
            rw found (
              subst
                (λ t.
                  UpsertOutcome jsonb json t (view (update_content db json e s.schema after).1) s a)
                seen
                (update_content-outcome s e after a (ap (λ t. t.rows e.id) seen ∙ present) met
                  (rw found at p)))
        | inr (x, failed) ↦ elim (Bool-cases (is x err_record_not_found)) [
          | inl missing ↦
              let fresh = to_entity s in
              rw (failed, missing)
                (subst
                  (λ t.
                    UpsertOutcome jsonb json t (view (insert_with_changelog db fresh after).1) s a)
                  seen
                  (inserted
                    (subst
                      (λ t. (id : Uuid) (e : SchemaEntity) → t.rows id ≡ some e → slot e ≡ false)
                      (sym seen) (laws.first_schema-missing slot w x failed missing))
                    (insert_with_changelog-Inserted db jsonb view laws fresh after a
                      (rw (failed, missing) at p))))
          | inr broken ↦ absurd (cc (rw (failed, broken) at p))
        ]
      ]

  -- When Upsert succeeds it returns the schema with an id and a version, and one of three things
  -- has happened: no row was in the schema's slot and one is inserted at version 1 with its
  -- changelog entry; the row in the slot has equal JSON content and nothing changed; the content
  -- differs and the row has the new content at the next version, with a new changelog entry of that
  -- content.
  pub upsert-outcome :
      (s : Schema) (w : D) (s' : Schema)
      → (upsert db json s w).0 ≡ ok s'
      → (s' ≡ with_identity s (s'.id, s'.version))
        × UpsertOutcome jsonb json (view w) (view (upsert db json s w).1) s (s'.id, s'.version)
  unfolding upsert
  upsert-outcome s w s' p = elim (Result-cases (db.transaction (upsert_in db json s) w).0) [
    | inl (a, done) ↦
        let (same, seen) = laws.transaction-ok (upsert_in db json s) w a done in
        let outcome = upsert_in-outcome s w a same in
        let left : with_identity s a ≡ s' = ok-injective (rw done at p) in
        rw done (
          subst
            (λ x.
              (x ≡ with_identity s (x.id, x.version))
              × UpsertOutcome jsonb json (view w) (view (db.transaction (upsert_in db json s) w).1)
                  s (x.id, x.version))
            left (refl, subst (λ t. UpsertOutcome jsonb json (view w) t s a) (sym seen) outcome))
    | inr (x, failed) ↦ absurd (cc (rw failed at p))
  ]

  -- When the repository's Upsert fails, the tables are as they were.
  pub upsert-err :
      (s : Schema) (w : D) (x : Error)
      → (upsert db json s w).0 ≡ err x
      → view (upsert db json s w).1 ≡ view w
  unfolding upsert
  upsert-err s w x p = elim (Result-cases (db.transaction (upsert_in db json s) w).0) [
    | inl (a, done) ↦ absurd (cc (rw done at p))
    | inr (y, failed) ↦ rw failed (laws.transaction-err (upsert_in db json s) w y failed)
  ]

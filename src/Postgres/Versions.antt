-- ===== src/Postgres/Versions.antt =====
-- Every method of internal/storage/postgres/repository.go that writes keeps the changelog right,
-- whether it succeeds or fails.
use chargeflow_registry.Prelude.{
  ℕ, ◌≡◌, sym, subst, inl, inr, ◌∷◌, [], Bool-cases, Option, String, nat_eq, Result, ok,
  Result-cases,
}
use chargeflow_registry.Errors.{Error, is, err_duplicated_key}
use chargeflow_registry.Schema.Model.{OcppVersion, MessageType, Status, Uuid, Bytes, Schema}
use chargeflow_registry.Postgres.Model.{SchemaEntity, to_entity}
use chargeflow_registry.Postgres.Gorm.{Gorm, Json, set_status}
use chargeflow_registry.Postgres.Query.{has_id, in_slot}
use chargeflow_registry.Postgres.Tables.{Tables, IsPostgres}
use chargeflow_registry.Postgres.Changelog
use chargeflow_registry.Postgres.Changelog.{
  IsVersioned, insert-IsVersioned, append-IsVersioned, set_status-IsVersioned,
}
use chargeflow_registry.Postgres.Upsert.{
  UpsertOutcome, inserted, unchanged, appended, upsert_in-outcome,
}
use chargeflow_registry.Postgres.Insertion.{insert_with_changelog-Inserted}
use chargeflow_registry.Postgres.Repository.{
  insert_with_changelog, add, upsert_in, upsert, update_status, reread, delete,
}

module _ {D : Type 0} (db : Gorm D) (jsonb : Bytes → Bytes) (view : D → Tables)
    (laws : IsPostgres db jsonb view) where
  insert_with_changelog-IsVersioned :
      (fresh : SchemaEntity) (w : D) (a : Uuid × ℕ)
      → IsVersioned (view w)
      → (insert_with_changelog db fresh w).0 ≡ ok a
      → IsVersioned (view (insert_with_changelog db fresh w).1)
  insert_with_changelog-IsVersioned fresh w a h p =
      let done = insert_with_changelog-Inserted db jsonb view laws fresh w a p in
      subst IsVersioned (sym done.after) (
        insert-IsVersioned (view w) h done.row done.entry done.free done.first done.entry_id
          done.entry_version done.entry_content)

  -- What a transaction leaves is what its body left, or what there was.
  transaction-IsVersioned :
      (body : D → Result Error (Uuid × ℕ) × D) (w : D)
      → ((a : Uuid × ℕ) → (body w).0 ≡ ok a → IsVersioned (view (body w).1))
      → IsVersioned (view w)
      → IsVersioned (view (db.transaction body w).1)
  transaction-IsVersioned body w after before = elim (Result-cases (db.transaction body w).0) [
    | inl (a, done) ↦
        let (same, seen) = laws.transaction-ok body w a done in
        subst IsVersioned (sym seen) (after a same)
    | inr (x, failed) ↦ subst IsVersioned (sym (laws.transaction-err body w x failed)) before
  ]

  -- `Add` keeps the changelog right, whatever it returns.
  pub add-IsVersioned :
      (s : Schema) (w : D) → IsVersioned (view w) → IsVersioned (view (add db s w).1)
  unfolding add
  add-IsVersioned s w h =
      let body = insert_with_changelog db (to_entity s) in
      let kept =
        transaction-IsVersioned body w
          (λ a p. insert_with_changelog-IsVersioned (to_entity s) w a h p) h in
      elim (Result-cases (db.transaction body w).0) [
        | inl (a, done) ↦ rw done kept
        | inr (x, failed) ↦ elim (Bool-cases (is x err_duplicated_key)) [
          | inl dup ↦ rw (failed, dup) kept
          | inr not_dup ↦ rw (failed, not_dup) kept
        ]
      ]

  outcome-IsVersioned :
      {V : Type 0} (json : Json V) (t t' : Tables) (s : Schema) (a : Uuid × ℕ)
      → UpsertOutcome jsonb json t t' s a
      → IsVersioned t
      → IsVersioned t'
  outcome-IsVersioned json t t' s a (inserted _ done) h = subst IsVersioned (sym done.after) (
      insert-IsVersioned t h done.row done.entry done.free done.first done.entry_id
        done.entry_version done.entry_content)
  outcome-IsVersioned json t t' s a (unchanged e present met same after identity) h =
      subst IsVersioned (sym after) h
  outcome-IsVersioned json t t' s a
        (appended e v now present met new after id version content identity) h =
      subst IsVersioned (sym after)
        (append-IsVersioned t h jsonb now e v s.schema present id version content)

  module _ {V : Type 0} (json : Json V) where
    -- `Upsert` keeps the changelog right, whatever it returns.
    pub upsert-IsVersioned :
        (s : Schema) (w : D) → IsVersioned (view w) → IsVersioned (view (upsert db json s w).1)
    unfolding upsert
    upsert-IsVersioned s w h =
        let kept =
          transaction-IsVersioned (upsert_in db json s) w
            (λ a p.
              outcome-IsVersioned json (view w) (view (upsert_in db json s w).1) s a
                (upsert_in-outcome db jsonb view laws json s w a p) h)
            h in
        elim (Result-cases (db.transaction (upsert_in db json s) w).0) [
          | inl (a, done) ↦ rw done kept
          | inr (x, failed) ↦ rw failed kept
        ]

  -- So does `Delete`, with the entries of the rows that it removes.
  pub delete-IsVersioned :
      (version : OcppVersion) (action : String) (msg_type : MessageType)
      (vendor model : Option String) (w : D)
      → IsVersioned (view w)
      → IsVersioned (view (delete db version action msg_type vendor model w).1)
  unfolding delete
  delete-IsVersioned version action msg_type vendor model w h =
      let slot = in_slot version action msg_type vendor model in
      elim (Result-cases (db.delete_schemas slot w).0) [
        | inr (x, failed) ↦
            rw failed (subst IsVersioned (sym (laws.delete_schemas-err slot w x failed)) h)
        | inl (n, done) ↦
            let kept : IsVersioned (view (db.delete_schemas slot w).1) =
              subst IsVersioned (sym (laws.delete_schemas-ok slot w n done))
                (Changelog.delete-IsVersioned (view w) h slot) in
            elim (Bool-cases (nat_eq n 0)) [
              | inl nothing ↦ rw (done, nothing) kept
              | inr some_rows ↦ rw (done, some_rows) kept
            ]
      ]

  -- And `UpdateStatus`, which leaves content and version alone.
  pub update_status-IsVersioned :
      (id : Uuid) (status : Status) (w : D)
      → IsVersioned (view w)
      → IsVersioned (view (update_status db id status w).1)
  unfolding update_status reread
  update_status-IsVersioned id status w h =
      let columns = set_status status ∷ [] in
      let after = (db.update_schemas (has_id id) columns w).1 in
      elim (Result-cases (db.update_schemas (has_id id) columns w).0) [
        | inr (x, failed) ↦
            rw failed
              (subst IsVersioned (sym (laws.update_schemas-err (has_id id) columns w x failed)) h)
        | inl (n, done) ↦
            let (now, seen) = laws.update_schemas-ok (has_id id) columns w n done in
            let kept : IsVersioned (view after) =
              subst IsVersioned (sym seen)
                (set_status-IsVersioned (view w) h jsonb now (has_id id) status) in
            let read : IsVersioned (view (db.first_schema (has_id id) after).1) =
              subst IsVersioned (sym (laws.first_schema-view (has_id id) after)) kept in
            elim (Bool-cases (nat_eq n 0)) [
              | inl nothing ↦ rw (done, nothing) kept
              | inr some_rows ↦ elim (Result-cases (db.first_schema (has_id id) after).0) [
                | inl (e, found) ↦ rw (done, some_rows, found) read
                | inr (x, failed) ↦ rw (done, some_rows, failed) read
              ]
            ]
      ]

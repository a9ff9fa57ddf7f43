-- ===== src/Postgres/Refinement.antt =====
-- internal/storage/postgres/repository.go against the registry that its rows represent.
pub mod Upsert
pub mod Get
use chargeflow_registry.Prelude.{
  ℕ, ◌+◌, String, Option, none, some, Bool, true, false, nat_eq, if◌then◌else◌, ◌≡◌, ◌≢◌, refl, sym,
  ap, ◌∙◌, subst, inl, inr, Bool-cases, Option-cases, Result-cases, List, [], ◌∷◌, ok, err, arith,
  ok-injective,
}
use mathlib.Core.Path.{fun_ext}
use chargeflow_registry.Errors.{Error, is, err_not_found, sentinel, wrapped}
use chargeflow_registry.Schema.Model.{OcppVersion, MessageType, Uuid, Time, Bytes, Status, Schema}
use chargeflow_registry.Postgres.Model.{SchemaEntity, to_entity, to_domain}
use chargeflow_registry.Postgres.Gorm.{Gorm, Json, Assignment, set_status, set_schema, set_version}
use chargeflow_registry.Postgres.Query.{in_slot, has_id}
use chargeflow_registry.Postgres.Tables.{
  Tables, IsPostgres, updated, assign, or_default, put_row, put_entry, update_rows, meets,
}
use chargeflow_registry.Postgres.Spec.{
  Slot, Item, Registry, slot_eq, put, change, modify, slot_of_schema, item_of_schema, renewed,
  slot_eq_iff, slot_eq_refl, with_status,
}
use chargeflow_registry.Postgres.Represents.{
  Represents, Rows, slot_of, item_of, insert_row, change_row, put-none, modify-none,
  update_rows-change_row,
}
use chargeflow_registry.Postgres.Represents.Changes.{
  slot_free, insert-Represents, remove-Represents, modify-Represents,
}
use chargeflow_registry.Postgres.Outcomes.{
  new_item, Addition, added, Deletion, deleted, Restatus, changed, unread,
}
use chargeflow_registry.Postgres.Repository.{add, delete, update_status, reread, with_identity}
use chargeflow_registry.Postgres.Insertion.{Inserted, add-Inserted, add-err}

pub Inserted-Represents :
    (jsonb : Bytes → Bytes) (t t' : Tables) (s : Schema) (a : Uuid × ℕ) (r : Registry)
    → Inserted jsonb t t' (to_entity s) a
    → Represents t.rows r
    → (r (slot_of_schema s) ≡ none)
      × Represents t'.rows (put (slot_of_schema s) (some (new_item jsonb s a.0)) r)
unfolding to_entity in_slot
Inserted-Represents jsonb t t' s a r done h =
    let here : slot_of done.row ≡ slot_of_schema s = ap slot_of done.made_of in
    let item : item_of done.row ≡ new_item jsonb s a.0 =
      ap item_of done.made_of ∙ ap (new_item jsonb s) done.id in
    let alone = λ (id : Uuid) (x : SchemaEntity) (there : t.rows id ≡ some x).
      ap (slot_eq (slot_of x)) here ∙ done.unique id x there in
    (
      slot_free t.rows r h (slot_of_schema s) done.unique,
      subst (λ u. Represents u.rows (put (slot_of_schema s) (some (new_item jsonb s a.0)) r))
          (sym done.after)
          (subst
            (λ σ. Represents (insert_row done.row t.rows) (put σ (some (new_item jsonb s a.0)) r))
            here
            (subst
              (λ i. Represents (insert_row done.row t.rows) (put (slot_of done.row) (some i) r))
              item (insert-Represents t.rows r h done.row done.free alone))),
    )

module _ {D : Type 0} (db : Gorm D) (jsonb : Bytes → Bytes) (view : D → Tables)
    (laws : IsPostgres db jsonb view) where
  -- Add on tables that represent a registry puts the schema into its slot, free so far, at version
  -- 1 with the status submitted if it has none, and returns it with its new id; or it fails, and
  -- the registry is as it was. The tables represent the outcome.
  pub add-Addition :
      (s : Schema) (w : D) (r : Registry)
      → Represents (view w).rows r
      → Addition r (view (add db s w).1).rows jsonb s (add db s w).0
  add-Addition s w r h = elim (Result-cases (add db s w).0) [
    | inl (s', done) ↦
        let (same, made) = add-Inserted db jsonb view laws s w s' done in
        let (free, after) =
          Inserted-Represents jsonb (view w) (view (add db s w).1) s (s'.id, s'.version) r made h in
        let first : with_identity s (s'.id, s'.version) ≡ with_identity s (s'.id, 1) =
          ap (λ n. with_identity s (s'.id, n)) made.version in
        Addition.added s'.id (done ∙ ap ok (same ∙ first)) free after
    | inr (e, bad) ↦
        Addition.failed e bad
          (subst (λ t. Represents t.rows r) (sym (add-err db jsonb view laws s w e bad)) h)
  ]

  -- Delete on tables that represent a registry empties the slot, which held a schema; or it fails
  -- with ErrNotFound, and the slot was empty already; or it fails with another error. After a
  -- failure the registry is as it was.
  pub delete-Deletion :
      (slot : Slot) (w : D) (r : Registry)
      → Represents (view w).rows r
      → Deletion r
          (view
            (delete db slot.ocpp_version slot.action slot.message_type slot.vendor slot.model
              w).1).rows
          slot
          (delete db slot.ocpp_version slot.action slot.message_type slot.vendor slot.model w).0
  unfolding delete in_slot
  delete-Deletion slot w r h =
      let p = in_slot slot.ocpp_version slot.action slot.message_type slot.vendor slot.model in
      elim (Result-cases (db.delete_schemas p w).0) [
        | inr (e, bad) ↦ rw bad (
            Deletion.failed e refl
              (subst (λ t. Represents t.rows r) (sym (laws.delete_schemas-err p w e bad)) h))
        | inl (n, done) ↦
            let after : Represents (view (db.delete_schemas p w).1).rows (put slot none r) =
              subst (λ t. Represents t.rows (put slot none r))
                (sym (laws.delete_schemas-ok p w n done))
                (remove-Represents (view w).rows r h p slot (λ e. refl)) in
            elim (Bool-cases (nat_eq n 0)) [
              | inr some_rows ↦
                  let (id, e, there, met) = laws.delete_schemas-some p w n done some_rows in
                  let here : slot_of e ≡ slot = (slot_eq_iff (slot_of e) slot).0 met in
                  rw (done, some_rows)
                    (deleted (item_of e) refl (ap r (sym here) ∙ h.sound id e there) after)
              | inl no_rows ↦
                  let zero_rows : n ≡ 0 = ground arith in
                  let none_met = laws.delete_schemas-none p w (done ∙ ap ok zero_rows) in
                  let empty =
                    slot_free (view w).rows r h slot
                      (λ id e there. ap (meets p) (sym there) ∙ none_met id) in
                  rw (done, no_rows)
                    (Deletion.missing refl empty (
                      subst (Represents (view (db.delete_schemas p w).1).rows)
                        (put-none slot r empty) after))
            ]
      ]

  set_status-Represents :
      (id : Uuid) (status : Status) (now : Time) (w : D) (r : Registry)
      → Represents (view w).rows r
      → Represents
          (update_rows jsonb now (has_id id) (set_status status ∷ []) (view w)).rows
          (modify id (with_status status) r)
  set_status-Represents id status now w r h =
      subst (λ rows. Represents rows (modify id (with_status status) r))
        (sym (update_rows-change_row jsonb now id (set_status status ∷ []) (view w)))
        (modify-Represents (view w).rows r h id
          (λ e. record e { status = status; updated_at = now }) (with_status status) (λ e. refl)
          (λ e. refl) (λ e. refl))

  -- Every item is a row, and no row has the id.
  no_item :
      (id : Uuid) (w : D) (r : Registry)
      → Represents (view w).rows r
      → ((j : Uuid) → meets (has_id id) ((view w).rows j) ≡ false)
      → (slot : Slot) (i : Item) → r slot ≡ some i
      → nat_eq i.id id ≡ false
  no_item id w r h unmet slot i full =
      let (e, present, _, same) = h.complete slot i full in
      subst (λ (k : Item). nat_eq k.id id ≡ false) same
        (ap (meets (has_id id)) (sym present) ∙ unmet i.id)

  status_set :
      (id : Uuid) (status : Status) (now : Time) (o : Option SchemaEntity) (e : SchemaEntity)
      → updated jsonb now (has_id id) (set_status status ∷ []) o ≡ some e
      → nat_eq e.id id ≡ true
      → e.status ≡ status
  status_set id status now none e h here = absurd (cc h)
  status_set id status now (some x) e h here = elim (Bool-cases (nat_eq x.id id)) [
    | inl met ↦ cc (rw met at h)
    | inr other ↦
        let same : x ≡ e = cc (rw other at h) in
        absurd (cc (here, subst (λ (y : SchemaEntity). nat_eq y.id id ≡ false) same other))
  ]

  -- The read after an update, at the state `v` that the update left.
  reread-Restatus :
      (id : Uuid) (status : Status) (now : Time) (t : Tables) (v : D) (r : Registry) (slot : Slot)
      (i : Item)
      → r slot ≡ some i
      → i.id ≡ id
      → view v ≡ update_rows jsonb now (has_id id) (set_status status ∷ []) t
      → Represents (view v).rows (modify id (with_status status) r)
      → Restatus r (view (reread db id v).1).rows id status (reread db id v).0
  unfolding reread to_domain
  reread-Restatus id status now t v r slot i full same seen h =
      let read = db.first_schema (has_id id) v in
      let after =
        subst (λ t. Represents t.rows (modify id (with_status status) r))
          (sym (laws.first_schema-view (has_id id) v)) h in
      elim (Result-cases read.0) [
        | inr (e, bad) ↦ rw bad (unread e slot i refl full same after)
        | inl (e, found) ↦
            let (present, met) = laws.first_schema-found (has_id id) v e found in
            let row : (view v).rows e.id ≡ some e = present in
            let there = ap (λ t. t.rows e.id) (sym seen) ∙ present in
            rw found (
              changed (to_domain e) refl (ground arith)
                (status_set id status now (t.rows e.id) e there met) (h.sound e.id e present) after)
      ]

  -- UpdateStatus on tables that represent a registry gives the schema of the id, which there is,
  -- the status, changes nothing else, and returns that schema as it stands in its slot now; or it
  -- fails with ErrNotFound, and no schema has the id; or the update fails, and the registry is as
  -- it was; or the read that follows it fails, and there is a schema of the id and its status is
  -- changed all the same.
  pub update_status-Restatus :
      (id : Uuid) (status : Status) (w : D) (r : Registry)
      → Represents (view w).rows r
      → Restatus r
          (view (update_status db id status w).1).rows
          id
          status
          (update_status db id status w).0
  unfolding update_status
  update_status-Restatus id status w r h =
      let update = db.update_schemas (has_id id) (set_status status ∷ []) w in
      elim (Result-cases update.0) [
        | inr (e, bad) ↦
            let same = laws.update_schemas-err (has_id id) (set_status status ∷ []) w e bad in
            rw bad (Restatus.failed e refl (subst (λ t. Represents t.rows r) (sym same) h))
        | inl (n, done) ↦
            let (now, seen) =
              laws.update_schemas-ok (has_id id) (set_status status ∷ []) w n done in
            let after : Represents (view update.1).rows (modify id (with_status status) r) =
              subst (λ t. Represents t.rows (modify id (with_status status) r)) (sym seen)
                (set_status-Represents id status now w r h) in
            elim (Bool-cases (nat_eq n 0)) [
              | inl no_rows ↦
                  let zero_rows : n ≡ 0 = ground arith in
                  let unmet =
                    laws.update_schemas-none (has_id id) (set_status status ∷ []) w
                      (done ∙ ap ok zero_rows) in
                  let absent = no_item id w r h unmet in
                  rw (done, no_rows)
                    (Restatus.missing refl absent (
                      subst (Represents (view update.1).rows)
                        (modify-none id (with_status status) r absent) after))
              | inr some_rows ↦
                  let (j, e, there, met) =
                    laws.update_schemas-some (has_id id) (set_status status ∷ []) w n done
                      some_rows in
                  let key : e.id ≡ id = ground arith in
                  rw (done, some_rows)
                    (reread-Restatus id status now (view w) update.1 r (slot_of e) (item_of e)
                      (h.sound j e there) key seen after)
            ]
      ]

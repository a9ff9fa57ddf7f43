-- ===== src/Postgres/Refinement/Upsert.antt =====
-- `Upsert` of internal/storage/postgres/repository.go against the registry.
use chargeflow_registry.Prelude.{
  ◌+◌, some, true, nat_eq, ◌≡◌, refl, sym, ap, ◌∙◌, subst, inl, inr, Bool-cases, Option-cases,
  Result-cases, [], ◌∷◌, ok, arith, Result,
}
use mathlib.Core.Path.{fun_ext}
use chargeflow_registry.Errors.{Error}
use chargeflow_registry.Schema.Model.{Time, Bytes, Schema}
use chargeflow_registry.Postgres.Model.{SchemaEntity}
use chargeflow_registry.Postgres.Gorm.{Gorm, Json, set_schema, set_version}
use chargeflow_registry.Postgres.Query.{in_slot, has_id}
use chargeflow_registry.Postgres.Tables.{Tables, IsPostgres, update_rows}
use chargeflow_registry.Postgres.Spec.{
  Item, Registry, slot_eq, put, modify, slot_of_schema, renewed, slot_eq_iff,
}
use chargeflow_registry.Postgres.Represents.{
  Represents, Rows, slot_of, item_of, change_row, update_rows-change_row,
}
use chargeflow_registry.Postgres.Represents.Changes.{modify-Represents}
use chargeflow_registry.Postgres.Outcomes.{Upsertion, replaced}
use chargeflow_registry.Postgres.Repository.{upsert, with_identity}
use chargeflow_registry.Postgres.Upsert.{
  UpsertOutcome, inserted, unchanged, appended, upsert-outcome, upsert-err,
}
use chargeflow_registry.Postgres.Refinement.{Inserted-Represents}

-- A change of the item of a row's id is a change of the row's slot.
modify-put :
    (rows : Rows) (r : Registry) (f : Item → Item) (e : SchemaEntity)
    → Represents rows r
    → rows e.id ≡ some e
    → modify e.id f r ≡ put (slot_of e) (some (f (item_of e))) r
modify-put rows r f e h present = fun_ext λ s. elim (Bool-cases (slot_eq s (slot_of e))) [
  | inl here ↦
      let same = ap r ((slot_eq_iff s (slot_of e)).0 here) ∙ h.sound e.id e present in
      let key : nat_eq e.id e.id ≡ true = ground arith in rw (here, same, key) refl
  | inr away ↦ elim (Option-cases (r s)) [
    | inl empty ↦ rw (away, empty) refl
    | inr (k, full) ↦
        let (x, there, slot, same) = h.complete s k full in
        elim (Bool-cases (nat_eq k.id e.id)) [
          | inr apart ↦ rw (away, full, apart) refl
          | inl met ↦
              let key : k.id ≡ e.id = ground arith in
              let row : some x ≡ some e = sym there ∙ ap rows key ∙ present in
              let own : x ≡ e = cc in
              absurd (cc ((slot_eq_iff s (slot_of e)).1 (sym slot ∙ ap slot_of own), away))
        ]
  ]
]

replaced-Represents :
    (jsonb : Bytes → Bytes) (t : Tables) (r : Registry) (e : SchemaEntity) (content : Bytes)
    (now : Time)
    → Represents t.rows r
    → t.rows e.id ≡ some e
    → Represents
        (update_rows jsonb now
          (has_id e.id)
          (set_schema content ∷ set_version (e.version + 1) ∷ [])
          t).rows
        (put (slot_of e) (some (renewed (jsonb content) (item_of e))) r)
replaced-Represents jsonb t r e content now h present =
    let f = λ (i : Item). record i { content = jsonb content; version = e.version + 1 } in
    let columns = set_schema content ∷ set_version (e.version + 1) ∷ [] in
    subst (λ rows. Represents rows (put (slot_of e) (some (f (item_of e))) r))
      (sym (update_rows-change_row jsonb now e.id columns t))
      (subst
        (Represents (λ j.
          change_row e.id
            (λ x. record x { schema = jsonb content; version = e.version + 1; updated_at = now })
            (t.rows j)))
        (modify-put t.rows r f e h present)
        (modify-Represents t.rows r h e.id
          (λ x. record x { schema = jsonb content; version = e.version + 1; updated_at = now }) f
          (λ x. refl) (λ x. refl) (λ x. refl)))

in_slot-slot_of :
    (s : Schema) (e : SchemaEntity)
    → in_slot s.ocpp_version s.action s.message_type s.vendor s.model e ≡ true
    → slot_of e ≡ slot_of_schema s
unfolding in_slot
in_slot-slot_of s e met = (slot_eq_iff (slot_of e) (slot_of_schema s)).0 met

module _ {D : Type 0} (db : Gorm D) (jsonb : Bytes → Bytes) (view : D → Tables)
    (laws : IsPostgres db jsonb view) {V : Type 0} (json : Json V) where
  outcome-Upsertion :
      (s s' : Schema) (t t' : Tables) (r : Registry) (result : Result Error Schema)
      → result ≡ ok s'
      → s' ≡ with_identity s (s'.id, s'.version)
      → UpsertOutcome jsonb json t t' s (s'.id, s'.version)
      → Represents t.rows r
      → Upsertion r t'.rows jsonb json s result
  outcome-Upsertion s s' t t' r result done same (inserted free made) h =
      let (empty, after) = Inserted-Represents jsonb t t' s (s'.id, s'.version) r made h in
      let first : with_identity s (s'.id, s'.version) ≡ with_identity s (s'.id, 1) =
        ap (λ n. with_identity s (s'.id, n)) made.version in
      Upsertion.added s'.id (done ∙ ap ok (same ∙ first)) empty after
  outcome-Upsertion s s' t t' r result done same (unchanged e present met equal left identity) h =
      let here = in_slot-slot_of s e met in
      Upsertion.unchanged (item_of e) (done ∙ ap ok (same ∙ ap (with_identity s) identity))
        (ap r (sym here) ∙ h.sound e.id e present) equal
        (subst (λ u. Represents u.rows r) (sym left) h)
  outcome-Upsertion s s' t t' r result done same
        (appended e v now present met differ left _ _ _ identity) h =
      let here = in_slot-slot_of s e met in
      replaced (item_of e) (done ∙ ap ok (same ∙ ap (with_identity s) identity))
        (ap r (sym here) ∙ h.sound e.id e present) differ
        (subst
          (λ u.
            Represents u.rows
              (put (slot_of_schema s) (some (renewed (jsonb s.schema) (item_of e))) r))
          (sym left)
          (subst
            (λ slot.
              Represents
                (update_rows jsonb now (has_id e.id)
                  (set_schema s.schema ∷ set_version (e.version + 1) ∷ []) t).rows
                (put slot (some (renewed (jsonb s.schema) (item_of e))) r))
            here (replaced-Represents jsonb t r e s.schema now h present)))

  -- Upsert on tables that represent a registry does one of four things. It adds the schema to its
  -- slot, free so far, at version 1; it finds equal JSON content in the slot, returns that schema's
  -- id and version and changes nothing; it gives the schema of the slot the new content at the next
  -- version, its id and status kept, and returns that id and version; or it fails, and the registry
  -- is as it was. The tables represent the outcome.
  pub upsert-Upsertion :
      (s : Schema) (w : D) (r : Registry)
      → Represents (view w).rows r
      → Upsertion r (view (upsert db json s w).1).rows jsonb json s (upsert db json s w).0
  upsert-Upsertion s w r h = elim (Result-cases (upsert db json s w).0) [
    | inl (s', done) ↦
        let (same, outcome) = upsert-outcome db jsonb view laws json s w s' done in
        outcome-Upsertion s s' (view w) (view (upsert db json s w).1) r (upsert db json s w).0 done
          same outcome h
    | inr (e, bad) ↦
        Upsertion.failed e bad
          (subst (λ t. Represents t.rows r) (sym (upsert-err db jsonb view laws json s w e bad)) h)
  ]

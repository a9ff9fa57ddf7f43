-- ===== src/Postgres/Rollback.antt =====
-- Deleting the slot of a schema that `Add` of internal/storage/postgres/repository.go has just
-- inserted.
use chargeflow_registry.Prelude.{
  ℕ, String, ◌≡◌, refl, sym, ap, ◌∙◌, subst, Option, none, some, Bool, true, false, inl, inr,
  Bool-cases, Option-cases, arith, nat_eq, eq_refl,
}
use mathlib.Core.Path.{fun_ext, ap₂}
use chargeflow_registry.Schema.Model.{Uuid, Bytes, Status, Time}
use chargeflow_registry.Postgres.Model.{SchemaEntity, SchemaVersionEntity}
use chargeflow_registry.Postgres.Query.{not_distinct, in_slot}
use chargeflow_registry.Postgres.Tables.{Tables, put_row, put_entry, delete_rows, meets, or_default}
use chargeflow_registry.Postgres.Changelog.{IsVersioned, Agrees}
use chargeflow_registry.Postgres.Insertion.{Inserted}

not_distinct_refl : (o : Option String) → not_distinct o o ≡ true
not_distinct_refl none = refl
not_distinct_refl (some s) = eq_refl s

in_slot_self :
    (e : SchemaEntity) (id : Uuid) (content : Bytes) (status : Status) (version : ℕ)
    (created_at updated_at : Time)
    → in_slot e.ocpp_version e.action e.message_type e.vendor e.model (record e {
      id = id;
      schema = content;
      status = status;
      version = version;
      created_at = created_at;
      updated_at = updated_at;
    })
      ≡ true
unfolding in_slot
in_slot_self e id content status version created_at updated_at =
    rw
      (
        eq_refl e.ocpp_version,
        eq_refl e.action,
        eq_refl e.message_type,
        not_distinct_refl e.vendor,
        not_distinct_refl e.model,
      )
      refl

module _ (t : Tables) (row : SchemaEntity) (entry : SchemaVersionEntity) (p : SchemaEntity → Bool)
    (mine : p row ≡ true) (free : t.rows row.id ≡ none)
    (bare : (n : ℕ) → t.changelog row.id n ≡ none)
    (unique : (i : Uuid) (x : SchemaEntity) → t.rows i ≡ some x → p x ≡ false)
    (keyed : entry.schema_id ≡ row.id) where
  others-stay : (i : Uuid) → meets p (t.rows i) ≡ false
  others-stay i = elim (Option-cases (t.rows i)) [
    | inl absent ↦ rw absent refl
    | inr (x, present) ↦ rw present (unique i x present)
  ]

  abbrev after : Tables
  after = put_entry entry (put_row row t)

  rows-restored : (i : Uuid) → (delete_rows p after).rows i ≡ t.rows i
  rows-restored i = elim (Bool-cases (nat_eq row.id i)) [
    | inr apart ↦ rw (apart, others-stay i) refl
    | inl same ↦
        let e : row.id ≡ i = ground arith in
        rw (same, mine) (sym (subst (λ j. t.rows j ≡ none) e free))
  ]

  changelog-restored : (i : Uuid) (n : ℕ) → (delete_rows p after).changelog i n ≡ t.changelog i n
  changelog-restored i n = elim (Bool-cases (nat_eq row.id i)) [
    | inr apart ↦
        let apart' : nat_eq entry.schema_id i ≡ false = rw keyed apart in
        rw (apart, others-stay i, apart') refl
    | inl same ↦
        let e : row.id ≡ i = ground arith in
        rw (same, mine) (sym (subst (λ j. t.changelog j n ≡ none) e (bare n)))
  ]

  restored : delete_rows p after ≡ t
  restored =
      ap₂ (λ r c. record { rows = r; changelog = c }) (fun_ext rows-restored)
        (fun_ext λ i. fun_ext (changelog-restored i))

-- The tables are what they were before the insertion, whatever rows there are.
pub delete-restores :
    (jsonb : Bytes → Bytes) (t t' : Tables) (fresh : SchemaEntity) (identity : Uuid × ℕ)
    → IsVersioned t
    → Inserted jsonb t t' fresh identity
    → delete_rows
        (in_slot fresh.ocpp_version fresh.action fresh.message_type fresh.vendor fresh.model)
        t'
      ≡ t
delete-restores jsonb t t' fresh identity h ins =
    let p = in_slot fresh.ocpp_version fresh.action fresh.message_type fresh.vendor fresh.model in
    let mine : p ins.row ≡ true =
      ap p ins.made_of
      ∙ in_slot_self fresh ins.row.id (jsonb fresh.schema) (or_default fresh.status) 1
          ins.row.created_at ins.row.updated_at in
    ap (delete_rows p) ins.after
    ∙ restored t ins.row ins.entry p mine ins.free
        (subst (λ o. Agrees ins.row.id o (t.changelog ins.row.id)) ins.free (h.at_id ins.row.id))
        ins.unique ins.entry_id

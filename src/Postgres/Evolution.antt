-- ===== src/Postgres/Evolution.antt =====
-- How `Upsert` of internal/storage/postgres/repository.go changes a row that is there already.
use chargeflow_registry.Prelude.{
  ℕ, ◌+◌, ◌≡◌, refl, sym, ap, subst, ◌⊎◌, inl, inr, Option, none, some, Bool-cases, arith, [], ◌∷◌,
  nat_eq, Result-cases,
}
use chargeflow_registry.Schema.Model.{Uuid, Time, Bytes, Schema}
use chargeflow_registry.Postgres.Model.{SchemaEntity}
use chargeflow_registry.Postgres.Gorm.{Gorm, Json, set_schema, set_version}
use chargeflow_registry.Postgres.Query.{has_id}
use chargeflow_registry.Postgres.Tables.{Tables, IsPostgres, put_row, updated}
use chargeflow_registry.Postgres.Changelog.{IsVersioned, Agrees}
use chargeflow_registry.Postgres.Upsert.{
  UpsertOutcome, inserted, unchanged, appended, upsert-outcome, upsert-err,
}
use chargeflow_registry.Postgres.Repository.{upsert}

-- A row stays itself, or only its content, its time of change and its version are new, and the
-- version is the next one.
abbrev pub Evolves : SchemaEntity → SchemaEntity → Type 0
Evolves e e' =
    (e' ≡ e)
    ⊎ (e' ≡ record e { schema = e'.schema; version = e.version + 1; updated_at = e'.updated_at })

abbrev pub RowEvolves : Option SchemaEntity → Option SchemaEntity → Type 0
RowEvolves none o = Unit
RowEvolves (some e) none = ⊥
RowEvolves (some e) (some e') = Evolves e e'

RowEvolves-refl : (o : Option SchemaEntity) → RowEvolves o o
RowEvolves-refl none = tt
RowEvolves-refl (some e) = inl refl

put_row-evolves :
    (t : Tables) (e : SchemaEntity) (id : Uuid)
    → t.rows e.id ≡ none
    → RowEvolves (t.rows id) ((put_row e t).rows id)
put_row-evolves t e id free = elim (Bool-cases (nat_eq e.id id)) [
  | inl here ↦
      let key : e.id ≡ id = ground arith in
      subst (λ i. RowEvolves (t.rows i) ((put_row e t).rows i)) key (rw free tt)
  | inr other ↦ rw other (RowEvolves-refl (t.rows id))
]

updated-evolves :
    (jsonb : Bytes → Bytes) (now : Time) (content : Bytes) (e : SchemaEntity) (t : Tables)
    (id : Uuid) (o : Option SchemaEntity)
    → t.rows id ≡ o
    → t.rows e.id ≡ some e
    → Agrees id o (t.changelog id)
    → RowEvolves o
        (updated jsonb now (has_id e.id) (set_schema content ∷ set_version (e.version + 1) ∷ []) o)
updated-evolves jsonb now content e t id none here present a = tt
updated-evolves jsonb now content e t id (some x) here present a =
    elim (Bool-cases (nat_eq x.id e.id)) [
      | inl same ↦
          let keyed : x.id ≡ id = a.keyed in
          let key : e.id ≡ id = ground arith in
          let one : x ≡ e = ground (arith, subst (λ i. t.rows i ≡ some e) key present, here) in
          rw same (
            inr (
              ap
                (λ (y : SchemaEntity). record x {
                  schema = jsonb content;
                  version = y.version + 1;
                  updated_at = now;
                })
                (sym one)))
      | inr other ↦ rw other (inl refl)
    ]

outcome-evolves :
    {V : Type 0} (jsonb : Bytes → Bytes) (json : Json V) (t t' : Tables) (s : Schema) (a : Uuid × ℕ)
    → UpsertOutcome jsonb json t t' s a
    → IsVersioned t
    → (id : Uuid) → RowEvolves (t.rows id) (t'.rows id)
outcome-evolves jsonb json t t' s a (inserted _ done) h id =
    subst (λ u. RowEvolves (t.rows id) (u.rows id)) (sym done.after)
      (put_row-evolves t done.row id done.free)
outcome-evolves jsonb json t t' s a (unchanged e present met same after identity) h id =
    subst (λ u. RowEvolves (t.rows id) (u.rows id)) (sym after) (RowEvolves-refl (t.rows id))
outcome-evolves jsonb json t t' s a
      (appended e v now present met new after key version content identity) h id =
    subst (λ u. RowEvolves (t.rows id) (u.rows id)) (sym after)
      (updated-evolves jsonb now s.schema e t id (t.rows id) refl present (h.at_id id))

module _ {D : Type 0} (db : Gorm D) (jsonb : Bytes → Bytes) (view : D → Tables)
    (laws : IsPostgres db jsonb view) {V : Type 0} (json : Json V) where
  -- On tables with a right changelog, whatever Upsert returns, no row is lost, and each row keeps
  -- everything but its content, its version and its update time; the version stays, and then the
  -- whole row stays, or it goes up by one.
  pub upsert-evolves :
      (s : Schema) (w : D)
      → IsVersioned (view w)
      → (id : Uuid) → RowEvolves ((view w).rows id) ((view (upsert db json s w).1).rows id)
  upsert-evolves s w h id = elim (Result-cases (upsert db json s w).0) [
    | inl (s', p) ↦
        outcome-evolves jsonb json (view w) (view (upsert db json s w).1) s (s'.id, s'.version)
          (upsert-outcome db jsonb view laws json s w s' p).1 h id
    | inr (x, p) ↦
        subst (λ u. RowEvolves ((view w).rows id) (u.rows id))
          (sym (upsert-err db jsonb view laws json s w x p)) (RowEvolves-refl ((view w).rows id))
  ]

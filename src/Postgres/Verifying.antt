-- ===== src/Postgres/Verifying.antt =====
-- Which operations of internal/storage/postgres/repository.go can make a row a verified one.
use chargeflow_registry.Prelude.{
  ℕ, ◌+◌, String, Option, some, Bool, nat_eq, ◌≡◌, ◌≢◌, ◌∙◌, sym, ap, subst, inl, inr, Bool-cases,
  Result-cases, Option-cases, [], ◌∷◌,
}
use chargeflow_registry.Schema.Model.{
  OcppVersion, MessageType, Uuid, Time, Bytes, Schema, status_verified,
}
use chargeflow_registry.Postgres.Model.{SchemaEntity, to_entity}
use chargeflow_registry.Postgres.Gorm.{Gorm, Json, set_schema, set_version}
use chargeflow_registry.Postgres.Query.{in_slot, has_id}
use chargeflow_registry.Postgres.Tables.{
  Tables, IsPostgres, or_default, update_rows, delete_rows, meets,
}
use chargeflow_registry.Postgres.Repository.{add, upsert, delete}
use chargeflow_registry.Postgres.Insertion.{Inserted, add-Inserted, add-err}
use chargeflow_registry.Postgres.Upsert.{
  UpsertOutcome, inserted, unchanged, appended, upsert-outcome, upsert-err,
}

-- A row that is verified now was verified before.
pub record VerifiesNone (t t' : Tables) : Type 0 where
  pub before :
      (id : Uuid) (e : SchemaEntity)
      → t'.rows id ≡ some e
      → e.status ≡ status_verified
      → (x : SchemaEntity) × (t.rows id ≡ some x) × (x.status ≡ status_verified)

pub VerifiesNone-refl : (t : Tables) → VerifiesNone t t
VerifiesNone-refl t = record { before = λ id e there verified. (e, there, verified) }

pub VerifiesNone-trans : {t u v : Tables} → VerifiesNone t u → VerifiesNone u v → VerifiesNone t v
VerifiesNone-trans first second = record {
  before = λ id e there verified.
      let (x, present, was) = second.before id e there verified in first.before id x present was;
}

Inserted-VerifiesNone :
    (jsonb : Bytes → Bytes) (t t' : Tables) (fresh : SchemaEntity) (a : Uuid × ℕ)
    → or_default fresh.status ≢ status_verified
    → Inserted jsonb t t' fresh a
    → VerifiesNone t t'
Inserted-VerifiesNone jsonb t t' fresh a unverified done = record {
  before = λ id e there verified.
      let row_there = ap (λ (u : Tables). u.rows id) (sym done.after) ∙ there in
      elim (Bool-cases (nat_eq done.row.id id)) [
        | inl here ↦
            let same : done.row ≡ e = cc (rw here at row_there) in
            let status : done.row.status ≡ or_default fresh.status =
              ap (λ (x : SchemaEntity). x.status) done.made_of in
            absurd (unverified (sym status ∙ ap (λ (x : SchemaEntity). x.status) same ∙ verified))
        | inr away ↦ (e, rw away at row_there, verified)
      ];
}

content_VerifiesNone :
    (jsonb : Bytes → Bytes) (t : Tables) (now : Time) (id : Uuid) (content : Bytes) (version : ℕ)
    → VerifiesNone t
        (update_rows jsonb now (has_id id) (set_schema content ∷ set_version version ∷ []) t)
content_VerifiesNone jsonb t now id content version = record {
  before = λ j e there verified. elim (Option-cases (t.rows j)) [
    | inl absent ↦ absurd (cc (rw absent at there))
    | inr (x, present) ↦ elim (Bool-cases (nat_eq x.id id)) [
      | inl here ↦
          let status : x.status ≡ e.status = cc (rw (present, here) at there) in
          (x, present, status ∙ verified)
      | inr away ↦
          let same : x ≡ e = cc (rw (present, away) at there) in
          (x, present, ap (λ (y : SchemaEntity). y.status) same ∙ verified)
    ]
  ];
}

delete_VerifiesNone : (p : SchemaEntity → Bool) (t : Tables) → VerifiesNone t (delete_rows p t)
delete_VerifiesNone p t = record {
  before = λ id e there verified. elim (Bool-cases (meets p (t.rows id))) [
    | inl met ↦ absurd (cc (rw met at there))
    | inr kept ↦ (e, rw kept at there, verified)
  ];
}

module _ {D : Type 0} (db : Gorm D) (jsonb : Bytes → Bytes) (view : D → Tables)
    (laws : IsPostgres db jsonb view) where
  pub add-VerifiesNone :
      (s : Schema) (w : D)
      → or_default s.status ≢ status_verified
      → VerifiesNone (view w) (view (add db s w).1)
  unfolding to_entity
  add-VerifiesNone s w unverified = elim (Result-cases (add db s w).0) [
    | inl (s', done) ↦
        let (_, made) = add-Inserted db jsonb view laws s w s' done in
        Inserted-VerifiesNone jsonb (view w) (view (add db s w).1) (to_entity s) (s'.id, s'.version)
          unverified made
    | inr (e, bad) ↦
        subst (VerifiesNone (view w)) (sym (add-err db jsonb view laws s w e bad))
          (VerifiesNone-refl (view w))
  ]

  outcome_VerifiesNone :
      {V : Type 0} (json : Json V) (s : Schema) (t t' : Tables) (a : Uuid × ℕ)
      → or_default s.status ≢ status_verified
      → UpsertOutcome jsonb json t t' s a
      → VerifiesNone t t'
  unfolding to_entity
  outcome_VerifiesNone json s t t' a unverified (inserted free made) =
      Inserted-VerifiesNone jsonb t t' (to_entity s) a unverified made
  outcome_VerifiesNone json s t t' a unverified (unchanged e _ _ _ left _) =
      subst (VerifiesNone t) (sym left) (VerifiesNone-refl t)
  outcome_VerifiesNone json s t t' a unverified (appended e v now _ _ _ left _ _ _ _) =
      let kept = content_VerifiesNone jsonb t now e.id s.schema (e.version + 1) in
      subst (VerifiesNone t) (sym left) (record { before = kept.before })

  pub upsert-VerifiesNone :
      {V : Type 0} (json : Json V) (s : Schema) (w : D)
      → or_default s.status ≢ status_verified
      → VerifiesNone (view w) (view (upsert db json s w).1)
  upsert-VerifiesNone json s w unverified = elim (Result-cases (upsert db json s w).0) [
    | inl (s', done) ↦
        let (_, outcome) = upsert-outcome db jsonb view laws json s w s' done in
        outcome_VerifiesNone json s (view w) (view (upsert db json s w).1) (s'.id, s'.version)
          unverified outcome
    | inr (e, bad) ↦
        subst (VerifiesNone (view w)) (sym (upsert-err db jsonb view laws json s w e bad))
          (VerifiesNone-refl (view w))
  ]

  pub delete-VerifiesNone :
      (version : OcppVersion) (action : String) (msg_type : MessageType)
      (vendor model : Option String) (w : D)
      → VerifiesNone (view w) (view (delete db version action msg_type vendor model w).1)
  unfolding delete
  delete-VerifiesNone version action msg_type vendor model w =
      let p = in_slot version action msg_type vendor model in
      elim (Result-cases (db.delete_schemas p w).0) [
        | inr (e, bad) ↦ rw bad (
            subst (VerifiesNone (view w)) (sym (laws.delete_schemas-err p w e bad))
              (VerifiesNone-refl (view w)))
        | inl (n, done) ↦
            let gone =
              subst (VerifiesNone (view w)) (sym (laws.delete_schemas-ok p w n done))
                (delete_VerifiesNone p (view w)) in
            elim (Bool-cases (nat_eq n 0)) [
              | inl nothing ↦ rw (done, nothing) gone
              | inr some_rows ↦ rw (done, some_rows) gone
            ]
      ]

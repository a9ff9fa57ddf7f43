-- ===== src/App/Archive.antt =====
-- `GetVersion` of internal/schema/service.go over the database.
use chargeflow_registry.Prelude.{
  ℤ, pos, int_eq, String, Option, some, ◌≡◌, ◌∙◌, sym, ap, subst, ◌⊎◌, inl, inr, Bool-cases, Result,
  Result-cases, ok, ok-injective, arith,
}
use chargeflow_registry.Schema.Model.{OcppVersion, MessageType, Bytes, Time, Schema}
use chargeflow_registry.Errors.{Error}
use chargeflow_registry.Schema.Service
use chargeflow_registry.Postgres.Model.{SchemaVersionEntity, to_version_domain}
use chargeflow_registry.Postgres.Gorm.{Gorm, Json}
use chargeflow_registry.Postgres.Tables.{Tables, IsPostgres}
use chargeflow_registry.Postgres.Repository as Rows
use chargeflow_registry.Postgres.Reading.{get_version-archived}
use chargeflow_registry.Redis.Store.{Client, SchemaJson}
use chargeflow_registry.App.{repo, store}

-- `s` is the schema `sc` with the content, the version and the time of an entry of its changelog.
pub record Archived (t : Tables) (sc s : Schema) : Type 0 where
  pub entry : SchemaVersionEntity
  pub present : t.changelog sc.id s.version ≡ some entry
  pub same :
      s
      ≡ record sc { schema = entry.schema; version = entry.version; updated_at = entry.created_at }

module _ {D R V : Type 0} (db : Gorm D) (json : Json V) (client : Client R) (coding : SchemaJson)
    (ttl : Time) (jsonb : Bytes → Bytes) (view : D → Tables) (laws : IsPostgres db jsonb view)
    (version : OcppVersion) (action : String) (msg_type : MessageType)
    (vendor model : Option String) where
  abbrev pub current : D × R → Result Error Schema × (D × R)
  current =
      Service.get (repo db json client coding ttl) (store db json client coding ttl) version action
        msg_type vendor model

  -- When the service's GetVersion succeeds, so does Get for the same schema, and the result has the
  -- version that was asked for: it is what Get returns, or that with the content, version and time
  -- of the entry that the changelog has for the schema and the version.
  pub get_version-Archived :
      (number : ℤ) (w : D × R) (s : Schema)
      → (Service.get_version
          (repo db json client coding ttl)
          (store db json client coding ttl)
          version
          action
          msg_type
          vendor
          model
          number
          w).0
        ≡ ok s
      → (sc : Schema) × ((current w).0 ≡ ok sc)
        × (pos s.version ≡ number)
        × ((s ≡ sc) ⊎ Archived (view (current w).1.0) sc s)
  unfolding Service.get_version repo Rows.repository to_version_domain
  get_version-Archived number w s p = elim (Result-cases (current w).0) [
    | inr (e, failed) ↦ absurd (cc (rw failed at p))
    | inl (sc, done) ↦ elim (Bool-cases (int_eq (pos sc.version) number)) [
      | inl now ↦
          let same : sc ≡ s = ok-injective (rw (done, now) at p) in
          let numbered : pos sc.version ≡ number = ground arith in
          (sc, done, subst (λ (x : Schema). pos x.version ≡ number) same numbered, inl (sym same))
      | inr older ↦
          let then = (current w).1.0 in
          elim (Result-cases (Rows.get_version db sc.id number then).0) [
            | inr (e, failed) ↦ absurd (cc (rw (done, older, failed) at p))
            | inl (v, found) ↦
                let (entry, there, same, numbered) =
                  get_version-archived db jsonb view laws sc.id number then v found in
                let left : s ≡ Service.with_archived sc v =
                  sym (ok-injective (rw (done, older, found) at p)) in
                let versions : s.version ≡ v.version = ap (λ (x : Schema). x.version) left in
                (
                  sc,
                  done,
                  ap pos versions ∙ numbered,
                  inr (record {
                    entry = entry;
                    present =
                        subst (λ n. (view then).changelog sc.id n ≡ some entry) (sym versions)
                          there;
                    same = left ∙ ap (Service.with_archived sc) same;
                  }),
                )
          ]
    ]
  ]

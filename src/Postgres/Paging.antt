-- ===== src/Postgres/Paging.antt =====
-- The pages of a changelog that `ListVersions` of internal/storage/postgres/repository.go returns.
use chargeflow_registry.Prelude.{
  ℕ, zero, suc, ◌<◌, ◌≤◌, String, ℤ, pos, Option, none, some, List, [], ◌∷◌, take, drop, length,
  ◌≡◌, ◌≢◌, ok, inl, inr, Result-cases, Option-cases, ok-injective, subst, sym, arith, ap,
}
use chargeflow_registry.Schema.Model.{Uuid, Bytes, SchemaVersion}
use chargeflow_registry.Postgres.Model.{SchemaEntity, SchemaVersionEntity, to_version_domain_slice}
use chargeflow_registry.Postgres.Gorm.{Gorm}
use chargeflow_registry.Postgres.Query.{of_schema}
use chargeflow_registry.Postgres.Tables.{Tables, IsPostgres}
use chargeflow_registry.Postgres.Changelog.{Log, HasLog}
use chargeflow_registry.Postgres.Repository.{list_versions}

abbrev pub entry_first :
    Option SchemaVersionEntity → List SchemaVersionEntity → List SchemaVersionEntity
entry_first none vs = vs
entry_first (some v) vs = v ∷ vs

-- The entries of the versions from `n` down to 1.
abbrev pub newest_first : Log → ℕ → List SchemaVersionEntity
newest_first log zero = []
newest_first log (suc n) = entry_first (log (suc n)) (newest_first log n)

-- Where every version has its entry, there are as many entries as versions.
length-newest_first :
    (log : Log) (n : ℕ) → ((k : ℕ) → 0 < k → k ≤ n → log k ≢ none) → length (newest_first log n) ≡ n
length-newest_first log zero h = omega arith
length-newest_first log (suc n) h = elim (Option-cases (log (suc n))) [
  | inl missing ↦ absurd (h (suc n) (omega arith) (omega arith) missing)
  | inr (v, there) ↦
      rw there (ap suc (length-newest_first log n (λ k low high. h k low (omega arith))))
]

pub HasLog-length :
    (id : Uuid) (e : SchemaEntity) (log : Log)
    → HasLog id e log
    → length (newest_first log e.version) ≡ e.version
HasLog-length id e log h = length-newest_first log e.version h.complete

-- SQL counts the changelog of a schema, and a page of it is a part of the whole, newest first; `n`
-- is a version that no entry of the schema exceeds.
pub record IsListing {D : Type 0} (db : Gorm D) (view : D → Tables) : Type 0 where
  pub count-ok :
      (id : Uuid) (n : ℕ) (w : D) (total : ℤ)
      → ((k : ℕ) → n < k → (view w).changelog id k ≡ none)
      → (db.count_versions (of_schema id) w).0 ≡ ok total
      → total ≡ pos (length (newest_first ((view w).changelog id) n))
  pub find-ok :
      (id : Uuid) (n : ℕ) (limit offset : ℕ) (w : D) (vs : List SchemaVersionEntity)
      → ((k : ℕ) → n < k → (view w).changelog id k ≡ none)
      → (db.find_versions (of_schema id) "version DESC" limit offset w).0 ≡ ok vs
      → vs ≡ take limit (drop offset (newest_first ((view w).changelog id) n))

module _ {D : Type 0} (db : Gorm D) (jsonb : Bytes → Bytes) (view : D → Tables)
    (laws : IsPostgres db jsonb view) (listing : IsListing db view) where
  pub list_versions-page :
      (id : Uuid) (log : Log) (n : ℕ) (limit offset : ℕ) (w : D) (found : List SchemaVersion × ℤ)
      → (view w).changelog id ≡ log
      → ((k : ℕ) → n < k → log k ≡ none)
      → (list_versions db id limit offset w).0 ≡ ok found
      → found ≡ (
        to_version_domain_slice (take limit (drop offset (newest_first log n))),
        pos (length (newest_first log n)),
      )
  unfolding list_versions
  list_versions-page id log n limit offset w found here bounded p =
      let query = of_schema id in
      let order : String = "version DESC" in
      let counted = (db.count_versions query w).1 in
      let still : (view counted).changelog id ≡ log =
        subst (λ (t : Tables). t.changelog id ≡ log) (sym (laws.count_versions-view query w))
          here in
      elim (Result-cases (db.count_versions query w).0) [
        | inr (e, failed) ↦ absurd (cc (rw failed at p))
        | inl (total, done) ↦
            elim (Result-cases (db.find_versions query order limit offset counted).0) [
              | inr (e, failed) ↦ absurd (cc (rw (done, failed) at p))
              | inl (vs, read) ↦
                  let whole : total ≡ pos (length (newest_first log n)) =
                    subst (λ l. total ≡ pos (length (newest_first l n))) here
                      (listing.count-ok id n w total
                        (subst (λ (l : Log). (k : ℕ) → n < k → l k ≡ none) (sym here) bounded)
                        done) in
                  let part : vs ≡ take limit (drop offset (newest_first log n)) =
                    subst (λ l. vs ≡ take limit (drop offset (newest_first l n))) still
                      (listing.find-ok id n limit offset counted vs
                        (subst (λ (l : Log). (k : ℕ) → n < k → l k ≡ none) (sym still) bounded)
                        read) in
                  let answer : (to_version_domain_slice vs, total) ≡ found =
                    ok-injective (rw (done, read) at p) in
                  cc (answer, whole, part)
            ]
      ]

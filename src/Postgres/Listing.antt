-- ===== src/Postgres/Listing.antt =====
-- What `List` of internal/storage/postgres/repository.go returns under a status filter.
use chargeflow_registry.Prelude.{
  ℕ, String, Option, some, List, [], ◌∷◌, All, ℤ, ◌≡◌, subst, true, Result-cases, inl, inr, ok,
  ok-injective, eq_iff, arith,
}
use chargeflow_registry.Schema.Model.{OcppVersion, MessageType, Status, Bytes, Schema}
use chargeflow_registry.Postgres.Model.{SchemaEntity, to_domain, to_domain_slice}
use chargeflow_registry.Postgres.Gorm.{Gorm}
use chargeflow_registry.Postgres.Query.{matches_filters}
use chargeflow_registry.Postgres.Tables.{Tables, IsPostgres}
use chargeflow_registry.Postgres.Repository.{list}

module _ (version : OcppVersion) (vendor model action : Option String)
    (msg_type : Option MessageType) (status : Status) where
  matches_filters-status :
      (e : SchemaEntity)
      → matches_filters version vendor model action msg_type (some status) e ≡ true
      → e.status ≡ status
  unfolding matches_filters
  matches_filters-status e h = ground (arith, eq_iff e.status status)

  to_domain_slice-status :
      (es : List SchemaEntity)
      → All (λ e. matches_filters version vendor model action msg_type (some status) e ≡ true) es
      → All (λ s. s.status ≡ status) (to_domain_slice es)
  unfolding to_domain_slice to_domain
  to_domain_slice-status [] h = tt
  to_domain_slice-status (e ∷ es) h = (matches_filters-status e h.0, to_domain_slice-status es h.1)

  module _ {D : Type 0} (db : Gorm D) (jsonb : Bytes → Bytes) (view : D → Tables)
      (laws : IsPostgres db jsonb view) where
    -- Every schema of a listing that is restricted to a status has that status.
    pub list-status :
        (limit offset : ℕ) (w : D) (found : List Schema × ℤ)
        → (list db version vendor model action msg_type (some status) limit offset w).0 ≡ ok found
        → All (λ s. s.status ≡ status) found.0
    unfolding list
    list-status limit offset w found p =
        let query = matches_filters version vendor model action msg_type (some status) in
        let order : String = "ocpp_version ASC, vendor ASC, model ASC, action ASC" in
        let counted = (db.count_schemas query w).1 in
        elim (Result-cases (db.count_schemas query w).0) [
          | inr (e, failed) ↦ absurd (cc (rw failed at p))
          | inl (total, done) ↦
              elim (Result-cases (db.find_schemas query order limit offset counted).0) [
                | inr (e, failed) ↦ absurd (cc (rw (done, failed) at p))
                | inl (es, read) ↦
                    subst (λ (x : List Schema × ℤ). All (λ s. s.status ≡ status) x.0)
                      (ok-injective (rw (done, read) at p))
                      (to_domain_slice-status es
                        (laws.find_schemas-met query order limit offset counted es read))
              ]
        ]

-- ===== src/App/Paging.antt =====
-- The pages that `ListSchemaVersions` of internal/grpc/handler.go answers with, over the service and
-- the database.
use chargeflow_registry.Prelude.{
  ℕ, zero, suc, ◌<◌, ℤ, pos, none, some, List, [], ◌∷◌, map, take, drop, length, length-map, ◌≡◌,
  ◌∙◌, refl, sym, ap, subst, ok, inl, inr, Result-cases, ok-injective, IsInt32,
}
use chargeflow_registry.Schema.Model.{Uuid, Bytes, Time, SchemaVersion}
use chargeflow_registry.Schema.Service
use chargeflow_registry.Postgres.Model.{
  SchemaVersionEntity, to_version_domain, to_version_domain_slice,
}
use chargeflow_registry.Postgres.Gorm.{Gorm, Json}
use chargeflow_registry.Postgres.Tables.{Tables, IsPostgres}
use chargeflow_registry.Postgres.Changelog.{Log}
use chargeflow_registry.Postgres.Paging.{newest_first, IsListing, list_versions-page}
use chargeflow_registry.Postgres.Reading.{list_versions-view}
use chargeflow_registry.Postgres.Repository as Rows
use chargeflow_registry.Postgres.Repository.{repository}
use chargeflow_registry.Redis.Store.{Client, SchemaJson}
use chargeflow_registry.Pagination.Token.{Codec, decode_offset}
use chargeflow_registry.Pagination.Bounds.{service_clamp-handler_clamp}
use chargeflow_registry.Pagination.Walk.{page, token_after}
use chargeflow_registry.Grpc.Messages.{SchemaVersionMessage, ListSchemaVersionsRequest, Page}
use chargeflow_registry.Grpc.Mapping.{Wire, schema_version_to_proto, schema_versions_to_proto}
use chargeflow_registry.Grpc.Ports.{SchemaService}
use chargeflow_registry.Grpc.Handler.{list_schema_versions, limit_of, with_offset, page_of}
use chargeflow_registry.App.{repo, store, schema_service}

take-map : {A B : Type 0} (f : A → B) (n : ℕ) (xs : List A) → take n (map f xs) ≡ map f (take n xs)
take-map f zero xs = refl
take-map f (suc n) [] = refl
take-map f (suc n) (x ∷ xs) = ap (λ ys. f x ∷ ys) (take-map f n xs)

drop-map : {A B : Type 0} (f : A → B) (n : ℕ) (xs : List A) → drop n (map f xs) ≡ map f (drop n xs)
drop-map f zero xs = refl
drop-map f (suc n) [] = refl
drop-map f (suc n) (x ∷ xs) = drop-map f n xs

-- SchemaService of the command.
abbrev pub registry :
    {D R V : Type 0} → Gorm D → Json V → Client R → SchemaJson → Time → SchemaService (D × R)
registry db json client coding ttl =
    schema_service (repo db json client coding ttl) (store db json client coding ttl)

module _ {T : Type 0} (wire : Wire T) where
  -- The messages of the entries of a changelog.
  abbrev pub messages : List SchemaVersionEntity → List (SchemaVersionMessage T)
  messages vs = map (λ v. schema_version_to_proto wire (to_version_domain v)) vs

  messages-eq :
      (vs : List SchemaVersionEntity)
      → schema_versions_to_proto wire (to_version_domain_slice vs) ≡ messages vs
  unfolding schema_versions_to_proto to_version_domain_slice
  messages-eq [] = refl
  messages-eq (v ∷ vs) =
      ap (λ ms. schema_version_to_proto wire (to_version_domain v) ∷ ms) (messages-eq vs)

  length-slice : (vs : List SchemaVersionEntity) → length (to_version_domain_slice vs) ≡ length vs
  unfolding to_version_domain_slice
  length-slice vs = length-map to_version_domain vs

  module _ {D R V : Type 0} (db : Gorm D) (json : Json V) (client : Client R) (coding : SchemaJson)
      (ttl : Time) (jsonb : Bytes → Bytes) (view : D → Tables) (laws : IsPostgres db jsonb view)
      (listing : IsListing db view) (codec : Codec) where
    listed-view :
        (id : Uuid) (limit offset : ℕ) (w : D × R)
        → view ((registry db json client coding ttl).list_versions id limit offset w).1.0 ≡ view w.0
    unfolding schema_service Service.list_versions repo repository
    listed-view id limit offset w =
        let size = Service.clamp_page_size limit in
        let seen = list_versions-view db jsonb view laws id size offset w.0 in
        elim (Result-cases (Rows.list_versions db id size offset w.0).0) [
          | inr (e, failed) ↦ rw failed seen
          | inl (found, done) ↦ rw done seen
        ]

    listed-page :
        (id : Uuid) (log : Log) (n : ℕ) (limit offset : ℕ) (w : D × R)
        (found : List SchemaVersion × ℤ)
        → Service.clamp_page_size limit ≡ limit
        → (view w.0).changelog id ≡ log
        → ((k : ℕ) → n < k → log k ≡ none)
        → ((registry db json client coding ttl).list_versions id limit offset w).0 ≡ ok found
        → found ≡ (
          to_version_domain_slice (take limit (drop offset (newest_first log n))),
          pos (length (newest_first log n)),
        )
    unfolding schema_service Service.list_versions repo repository
    listed-page id log n limit offset w found clamped here bounded h =
        elim (Result-cases
          (Rows.list_versions db id (Service.clamp_page_size limit) offset w.0).0) [
            | inr (e, failed) ↦ absurd (cc (rw failed at h))
            | inl (x, done) ↦
                let same : x ≡ found = ok-injective (rw done at h) in
                sym same
                ∙ list_versions-page db jsonb view laws listing id log n limit offset w.0 x here
                    bounded
                    (subst (λ k. (Rows.list_versions db id k offset w.0).0 ≡ ok x) clamped done)
          ]

    -- The page that a handler makes of what the service lists.
    page_of-messages :
        (log : Log) (n limit offset : ℕ)
        → page_of codec offset (schema_versions_to_proto wire) (
          to_version_domain_slice (take limit (drop offset (newest_first log n))),
          pos (length (newest_first log n)),
        )
          ≡ record {
            items = page codec limit (messages (newest_first log n)) offset;
            total_size = pos (length (newest_first log n));
            next_page_token = token_after codec limit (messages (newest_first log n)) offset;
          }
    page_of-messages log n limit offset =
        let vs = newest_first log n in
        let part = take limit (drop offset vs) in
        let f = λ (v : SchemaVersionEntity). schema_version_to_proto wire (to_version_domain v) in
        let cut : take limit (drop offset (messages vs)) ≡ messages part =
          ap (take limit) (drop-map f offset vs) ∙ take-map f limit (drop offset vs) in
        rw (messages-eq part, length-slice part, cut, length-map f part, length-map f vs) refl

    -- What one request for a page answers, and the tables behind it.
    pub answer :
        (req : ListSchemaVersionsRequest) (id : Uuid) (log : Log) (n : ℕ) (w : D × R)
        (p : Page (SchemaVersionMessage T))
        → IsInt32 req.page_size
        → wire.parse_uuid req.schema_id ≡ some id
        → (view w.0).changelog id ≡ log
        → ((k : ℕ) → n < k → log k ≡ none)
        → (list_schema_versions (registry db json client coding ttl) wire codec req w).0 ≡ ok p
        → (offset : ℕ) × (decode_offset codec req.page_token ≡ ok offset)
          × (p ≡ record {
            items = page codec (limit_of req.page_size) (messages (newest_first log n)) offset;
            total_size = pos (length (newest_first log n));
            next_page_token =
                token_after codec (limit_of req.page_size) (messages (newest_first log n)) offset;
          })
          × (view (list_schema_versions (registry db json client coding ttl) wire codec req w).1.0
              ≡ view w.0)
    unfolding list_schema_versions
    answer req id log n w p int known here bounded h =
        let limit = limit_of req.page_size in
        elim (Result-cases (decode_offset codec req.page_token)) [
          | inr (e, bad) ↦ absurd (cc (rw (known, bad, with_offset, list_schema_versions) at h))
          | inl (offset, decoded) ↦
              let listed = (registry db json client coding ttl).list_versions id limit offset w in
              elim (Result-cases listed.0) [
                | inr (e, failed) ↦
                    absurd
                      (cc (rw (known, decoded, failed, with_offset, list_schema_versions) at h))
                | inl (found, done) ↦
                    let same =
                      listed-page id log n limit offset w found
                        (service_clamp-handler_clamp req.page_size int) here bounded done in
                    let made : page_of codec offset (schema_versions_to_proto wire) found ≡ p =
                      ok-injective
                        (rw (known, decoded, done, with_offset, list_schema_versions) at h) in
                    (
                      offset,
                      decoded,
                      sym made
                          ∙ ap (page_of codec offset (schema_versions_to_proto wire)) same
                          ∙ page_of-messages log n limit offset,
                      rw (known, decoded, done, with_offset, list_schema_versions)
                          (listed-view id limit offset w),
                    )
              ]
        ]

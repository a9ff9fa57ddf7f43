-- ===== src/App/Searching.antt =====
-- `SearchSchemas` of internal/grpc/handler.go over the service and the database.
use chargeflow_registry.Prelude.{
  ℕ, String, Option, some, List, [], ◌∷◌, All, ℤ, ◌≡◌, ◌∙◌, refl, subst, inl, inr, ok, ok-injective,
  Result-cases,
}
use chargeflow_registry.Schema.Model.{
  OcppVersion, MessageType, Bytes, Time, Schema, status_verified,
}
use chargeflow_registry.Schema.Service
use chargeflow_registry.Postgres.Gorm.{Gorm, Json}
use chargeflow_registry.Postgres.Tables.{Tables, IsPostgres}
use chargeflow_registry.Postgres.Repository as Repository
use chargeflow_registry.Postgres.Repository.{repository}
use chargeflow_registry.Postgres.Listing.{list-status}
use chargeflow_registry.Redis.Store.{Client, SchemaJson}
use chargeflow_registry.Pagination.Token.{Codec, decode_offset}
use chargeflow_registry.Grpc.Messages.{
  SchemaMessage, SearchSchemasRequest, Page, schema_status_verified,
}
use chargeflow_registry.Grpc.Mapping.{
  Wire, schema_to_proto, schemas_to_proto, schema_status_to_proto,
}
use chargeflow_registry.Grpc.Checks.{validate_vendor_model}
use chargeflow_registry.Grpc.Handler.{
  search_version, search_message_type, limit_of, search_schemas, with_offset,
}
use chargeflow_registry.App.{repo, store, schema_service}

module _ {D R V : Type 0} (db : Gorm D) (json : Json V) (client : Client R) (coding : SchemaJson)
    (ttl : Time) (jsonb : Bytes → Bytes) (view : D → Tables) (laws : IsPostgres db jsonb view) where
  pub list-verified :
      (version : OcppVersion) (vendor model action : Option String) (msg_type : Option MessageType)
      (limit offset : ℕ) (w : D × R) (found : List Schema × ℤ)
      → (Service.list
          (repo db json client coding ttl)
          (store db json client coding ttl)
          version
          vendor
          model
          action
          msg_type
          (some status_verified)
          limit
          offset
          w).0
        ≡ ok found
      → All (λ s. s.status ≡ status_verified) found.0
  unfolding Service.list repo repository
  list-verified version vendor model action msg_type limit offset w found p =
      let size = Service.clamp_page_size limit in
      let listed =
        Repository.list db version vendor model action msg_type (some status_verified) size offset
          w.0 in
      elim (Result-cases listed.0) [
        | inr (e, failed) ↦ absurd (cc (rw failed at p))
        | inl (x, done) ↦
            list-status version vendor model action msg_type status_verified db jsonb view laws size
              offset w.0 found (done ∙ rw done at p)
      ]

module _ {T : Type 0} (wire : Wire T) where
  schemas_to_proto-verified :
      (ss : List Schema)
      → All (λ s. s.status ≡ status_verified) ss
      → All (λ m. m.status ≡ schema_status_verified) (schemas_to_proto wire ss)
  unfolding schemas_to_proto schema_to_proto schema_status_to_proto
  schemas_to_proto-verified [] h = tt
  schemas_to_proto-verified (s ∷ ss) h = (rw h.0 refl, schemas_to_proto-verified ss h.1)

  module _ {D R V : Type 0} (db : Gorm D) (json : Json V) (client : Client R) (coding : SchemaJson)
      (ttl : Time) (jsonb : Bytes → Bytes) (view : D → Tables)
      (laws : IsPostgres db jsonb view) where
    -- Every schema in a page that SearchSchemas answers with, over the service and the database,
    -- has the verified status, whatever the request asks for.
    pub search_schemas-verified :
        (codec : Codec) (req : SearchSchemasRequest) (w : D × R) (page : Page (SchemaMessage T))
        → (search_schemas
            (schema_service (repo db json client coding ttl) (store db json client coding ttl))
            wire
            codec
            req
            w).0
          ≡ ok page
        → All (λ m. m.status ≡ schema_status_verified) page.items
    unfolding search_schemas schema_service
    search_schemas-verified codec req w page p =
        let api =
          schema_service (repo db json client coding ttl) (store db json client coding ttl) in
        elim (Result-cases (search_version api req.ocpp_version)) [
          | inr (e, bad) ↦ absurd (cc (rw (bad, search_schemas) at p))
          | inl (version, good) ↦ elim (Result-cases (validate_vendor_model req.vendor req.model)) [
            | inr (e, bad) ↦ absurd (cc (rw (good, bad, search_schemas) at p))
            | inl (tt, named) ↦ elim (Result-cases (decode_offset codec req.page_token)) [
              | inr (e, bad) ↦ absurd (cc (rw (good, named, bad, with_offset, search_schemas) at p))
              | inl (offset, decoded) ↦
                  let wanted = search_message_type api req.message_type in
                  let size = limit_of req.page_size in
                  elim (Result-cases
                    (api.list version req.vendor req.model req.action wanted (some status_verified)
                      size offset w).0) [
                        | inr (e, failed) ↦ absurd (
                            cc
                              (rw (good, named, decoded, failed, with_offset, search_schemas) at p))
                        | inl (found, done) ↦
                            subst
                              (λ (x : Page (SchemaMessage T)).
                                All (λ m. m.status ≡ schema_status_verified) x.items)
                              (ok-injective
                                (rw (good, named, decoded, done, with_offset, search_schemas) at p))
                              (schemas_to_proto-verified found.0 (
                                list-verified db json client coding ttl jsonb view laws version
                                  req.vendor req.model req.action wanted size offset w found done))
                      ]
            ]
          ]
        ]

-- ===== src/App/Changelogs.antt =====
-- A client that reads a whole changelog through `ListSchemaVersions` of internal/grpc/handler.go.
use chargeflow_registry.Prelude.{
  ℕ, zero, suc, ◌<◌, ◌^◌, String, ℤ, none, some, true, false, List, [], ◌++◌, length, length-map,
  ◌≡◌, ◌∙◌, refl, sym, ap, subst, ok, err, inl, inr, Result-cases, ok-injective, Exec, ◌==◌,
  if◌then◌else◌, IsInt32, arith, Bool-cases,
}
use mathlib.Core.List.{append-nil}
use chargeflow_registry.Errors.{RpcStatus}
use chargeflow_registry.Schema.Model.{Uuid, Bytes, Time}
use chargeflow_registry.Schema.Ports.{default_page_size, max_page_size}
use chargeflow_registry.Postgres.Model.{SchemaEntity, to_version_domain}
use chargeflow_registry.Postgres.Gorm.{Gorm, Json}
use chargeflow_registry.Postgres.Tables.{Tables, IsPostgres}
use chargeflow_registry.Postgres.Changelog.{Log, Agrees, HasLog, IsVersioned}
use chargeflow_registry.Postgres.Paging.{newest_first, IsListing, HasLog-length}
use chargeflow_registry.Redis.Store.{Client, SchemaJson}
use chargeflow_registry.Pagination.Token.{Codec}
use chargeflow_registry.Pagination.RoundTrip.{IsCodec}
use chargeflow_registry.Pagination.Bounds.{clamp_page_size_bounds}
use chargeflow_registry.Pagination.Walk.{walk, walk-zero, walk-suc, walk-eq-all, page, token_after}
use chargeflow_registry.Grpc.Messages.{SchemaVersionMessage, ListSchemaVersionsRequest, Page}
use chargeflow_registry.Grpc.Mapping.{Wire, schema_version_to_proto}
use chargeflow_registry.Grpc.Ports.{SchemaService}
use chargeflow_registry.Grpc.Handler.{list_schema_versions, limit_of}
use chargeflow_registry.App.Paging.{messages, registry, answer}

module _ {W T : Type 0} (service : SchemaService W) (wire : Wire T) (codec : Codec)
    (schema_id : String) (page_size : ℤ) where
  abbrev pub request : String → ListSchemaVersionsRequest
  request token = record { schema_id = schema_id; page_size = page_size; page_token = token }

  -- One request for each page, at most so many, until a page has no token for the next one; an
  -- error ends it.
  unfoldable pub read_changelog : ℕ → String → Exec W RpcStatus (List (SchemaVersionMessage T))
  read_changelog zero token w = (ok [], w)
  read_changelog (suc fuel) token w =
      let call = list_schema_versions service wire codec (request token) w in
      elim call.0 [
        | err e ↦ (err e, call.1)
        | ok page ↦
            let rest = read_changelog fuel page.next_page_token call.1 in
            if page.next_page_token == "" then (ok page.items, call.1) else elim rest.0 [
              | err e ↦ (err e, rest.1)
              | ok items ↦ (ok (page.items ++ items), rest.1)
            ]
      ]

module _ {T D R V : Type 0} (wire : Wire T) (db : Gorm D) (json : Json V) (client : Client R)
    (coding : SchemaJson) (ttl : Time) (jsonb : Bytes → Bytes) (view : D → Tables)
    (laws : IsPostgres db jsonb view) (listing : IsListing db view) (codec : Codec) where
  module _ (schema_id : String) (page_size : ℤ) (id : Uuid) (log : Log) (n : ℕ)
      (int : IsInt32 page_size) (known : wire.parse_uuid schema_id ≡ some id)
      (bounded : (k : ℕ) → n < k → log k ≡ none) where
    abbrev whole : List (SchemaVersionMessage T)
    whole = messages wire (newest_first log n)

    read_changelog-walk :
        (fuel : ℕ) (token : String) (w : D × R) (items : List (SchemaVersionMessage T))
        → (view w.0).changelog id ≡ log
        → (read_changelog
            (registry db json client coding ttl)
            wire
            codec
            schema_id
            page_size
            fuel
            token
            w).0
          ≡ ok items
        → items ≡ walk codec (limit_of page_size) whole fuel token
    unfolding read_changelog
    read_changelog-walk zero token w items here h =
        sym (ok-injective h) ∙ sym (walk-zero codec (limit_of page_size) whole token)
    read_changelog-walk (suc fuel) token w items here h =
        let req =
          request (registry db json client coding ttl) wire codec schema_id page_size token in
        let call = list_schema_versions (registry db json client coding ttl) wire codec req w in
        elim (Result-cases call.0) [
          | inr (e, bad) ↦ absurd (cc (rw (bad, read_changelog) at h))
          | inl (p, done) ↦
              let (offset, decoded, same, kept) =
                answer wire db json client coding ttl jsonb view laws listing codec req id log n w p
                  int known here bounded done in
              let next : p.next_page_token ≡ token_after codec (limit_of page_size) whole offset =
                ap (λ (x : Page (SchemaVersionMessage T)). x.next_page_token) same in
              let here_still = subst (λ (t : Tables). t.changelog id ≡ log) (sym kept) here in
              let part : p.items ≡ page codec (limit_of page_size) whole offset =
                ap (λ (x : Page (SchemaVersionMessage T)). x.items) same in
              let round = walk-suc codec (limit_of page_size) whole fuel token decoded in
              elim (Bool-cases (p.next_page_token == "")) [
                | inl last ↦
                    let made : p.items ≡ items =
                      ok-injective (rw (done, last, read_changelog) at h) in
                    let ended = subst (λ t. (t == "") ≡ true) next last in
                    rw (round, ended) (sym made ∙ part ∙ sym (append-nil _))
                | inr more ↦
                    let rest =
                      read_changelog (registry db json client coding ttl) wire codec schema_id
                        page_size fuel p.next_page_token call.1 in
                    elim (Result-cases rest.0) [
                      | inr (e, bad) ↦ absurd (cc (rw (done, more, bad, read_changelog) at h))
                      | inl (others, good) ↦
                          let made : p.items ++ others ≡ items =
                            ok-injective (rw (done, more, good, read_changelog) at h) in
                          let on = subst (λ t. (t == "") ≡ false) next more in
                          let behind =
                            read_changelog-walk fuel p.next_page_token call.1 others here_still
                              good in
                          rw (round, on)
                            (sym made
                              ∙ ap (λ xs. xs ++ others) part
                              ∙ ap (λ xs. page codec (limit_of page_size) whole offset ++ xs)
                                  (behind ∙ ap (walk codec (limit_of page_size) whole fuel) next))
                    ]
              ]
        ]

  -- A client that asks ListSchemaVersions for page after page of a schema, with any int32 as the
  -- page size, over tables with a right changelog that nobody changes meanwhile, and that may make
  -- more requests than the schema has versions, of which there are fewer than 2^32, gets, if none
  -- of its requests fails, the entry of every version, each exactly once, from the current one down
  -- to the first.
  pub read_changelog-newest_first :
      (schema_id : String) (page_size : ℤ) (id : Uuid) (e : SchemaEntity) (w : D × R) (fuel : ℕ)
      (items : List (SchemaVersionMessage T))
      → IsCodec codec
      → IsInt32 page_size
      → wire.parse_uuid schema_id ≡ some id
      → IsVersioned (view w.0)
      → (view w.0).rows id ≡ some e
      → e.version < 2 ^ 32
      → e.version < fuel
      → (read_changelog
          (registry db json client coding ttl)
          wire
          codec
          schema_id
          page_size
          fuel
          ""
          w).0
        ≡ ok items
      → (items ≡ messages wire (newest_first ((view w.0).changelog id) e.version))
        × (length items ≡ e.version)
  read_changelog-newest_first schema_id page_size id e w fuel items coded int known h present small
        enough done =
      let log = (view w.0).changelog id in
      let own : HasLog id e log = subst (λ o. Agrees id o log) present (h.at_id id) in
      let vs = newest_first log e.version in
      let size : length (messages wire vs) ≡ e.version =
        length-map (λ v. schema_version_to_proto wire (to_version_domain v)) vs
        ∙ HasLog-length id e log own in
      let limit = limit_of page_size in
      let (positive, _) =
        clamp_page_size_bounds page_size default_page_size max_page_size int (omega arith)
          (omega arith) in
      let all : items ≡ messages wire vs =
        read_changelog-walk schema_id page_size id log e.version int known own.bounded fuel "" w
          items refl done
        ∙ walk-eq-all codec limit (messages wire vs) coded (omega (arith, size)) positive fuel
            (omega (arith, size)) in
      (all, ap length all ∙ size)

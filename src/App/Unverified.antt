-- ===== src/App/Unverified.antt =====
-- Which calls of internal/schema/service.go, over the database, leave it without a newly verified
-- schema.
use chargeflow_registry.Prelude.{String, Option, inl, inr, ◌&&◌, ◌≢◌, Bool-cases, Result-cases}
use chargeflow_registry.Schema.Model.{
  OcppVersion, MessageType, Bytes, Time, Schema, status_verified, message_type_request,
  message_type_response,
}
use chargeflow_registry.Schema.Service.{delete_one, add_pair, delete, upsert, failed_with_not_found}
use chargeflow_registry.Postgres.Gorm.{Gorm, Json}
use chargeflow_registry.Postgres.Tables.{Tables, IsPostgres, or_default}
use chargeflow_registry.Postgres.Repository as Rows
use chargeflow_registry.Postgres.Repository.{repository}
use chargeflow_registry.Postgres.Verifying.{
  VerifiesNone, VerifiesNone-trans, add-VerifiesNone, upsert-VerifiesNone, delete-VerifiesNone,
}
use chargeflow_registry.Redis.Store.{Client, SchemaJson}
use chargeflow_registry.App.{repo, store}

module _ {D R V : Type 0} (db : Gorm D) (json : Json V) (client : Client R) (coding : SchemaJson)
    (ttl : Time) (jsonb : Bytes → Bytes) (view : D → Tables) (laws : IsPostgres db jsonb view)
    (t : Tables) where
  -- No row is verified that was not verified in `t`.
  abbrev pub Unraised : D × R → Type 0
  Unraised w = VerifiesNone t (view w.0)

  pub add-Unraised :
      (s : Schema) (w : D × R)
      → or_default s.status ≢ status_verified
      → Unraised w
      → Unraised ((repo db json client coding ttl).add s w).1
  unfolding repo repository
  add-Unraised s w unverified h =
      VerifiesNone-trans h (add-VerifiesNone db jsonb view laws s w.0 unverified)

  delete_one-Unraised :
      (version : OcppVersion) (action : String) (msg_type : MessageType)
      (vendor model : Option String) (w : D × R)
      → Unraised w
      → Unraised
          (delete_one
            (repo db json client coding ttl)
            (store db json client coding ttl)
            version
            action
            msg_type
            vendor
            model
            w).1
  unfolding delete_one repo store repository
  delete_one-Unraised version action msg_type vendor model w h =
      let gone : VerifiesNone t (view (Rows.delete db version action msg_type vendor model w.0).1) =
        VerifiesNone-trans h
          (delete-VerifiesNone db jsonb view laws version action msg_type vendor model w.0) in
      elim (Result-cases (Rows.delete db version action msg_type vendor model w.0).0) [
        | inr (e, failed) ↦ rw failed gone
        | inl (_, done) ↦ rw done gone
      ]

  pub add_pair-Unraised :
      (req resp : Schema) (w : D × R)
      → or_default req.status ≢ status_verified
      → or_default resp.status ≢ status_verified
      → Unraised w
      → Unraised
          (add_pair (repo db json client coding ttl) (store db json client coding ttl) req resp w).1
  unfolding add_pair
  add_pair-Unraised req resp w req_unverified resp_unverified h =
      let add = (repo db json client coding ttl).add in
      let middle = (add req w).1 in
      let first = add-Unraised req w req_unverified h in
      let second = add-Unraised resp middle resp_unverified first in
      elim (Result-cases (add req w).0) [
        | inr (e, failed) ↦ rw failed first
        | inl (s, done) ↦ elim (Result-cases (add resp middle).0) [
          | inl (s', done') ↦ rw (done, done') second
          | inr (e, failed) ↦
              rw (done, failed)
                (delete_one-Unraised req.ocpp_version req.action req.message_type req.vendor
                  req.model (add resp middle).1 second)
        ]
      ]

  pub upsert-Unraised :
      (s : Schema) (w : D × R)
      → or_default s.status ≢ status_verified
      → Unraised w
      → Unraised (upsert (repo db json client coding ttl) (store db json client coding ttl) s w).1
  unfolding upsert repo store repository
  upsert-Unraised s w unverified h =
      let stored : VerifiesNone t (view (Rows.upsert db json s w.0).1) =
        VerifiesNone-trans h (upsert-VerifiesNone db jsonb view laws json s w.0 unverified) in
      elim (Result-cases (Rows.upsert db json s w.0).0) [
        | inr (e, failed) ↦ rw failed stored
        | inl (s', done) ↦ rw done stored
      ]

  pub delete-Unraised :
      (version : OcppVersion) (action : String) (vendor model : Option String) (w : D × R)
      → Unraised w
      → Unraised
          (delete
            (repo db json client coding ttl)
            (store db json client coding ttl)
            version
            action
            vendor
            model
            w).1
  unfolding delete store
  delete-Unraised version action vendor model w h =
      let call = delete_one (repo db json client coding ttl) (store db json client coding ttl) in
      let req = call version action message_type_request vendor model w in
      let resp = call version action message_type_response vendor model req.1 in
      let gone =
        delete_one-Unraised version action message_type_response vendor model req.1
          (delete_one-Unraised version action message_type_request vendor model w h) in
      elim (Bool-cases (failed_with_not_found req.0 && failed_with_not_found resp.0)) [
        | inl missing ↦ rw missing gone
        | inr found ↦ rw found gone
      ]

-- ===== src/App/Pairs.antt =====
-- `AddPair` of internal/schema/service.go over the database.
use chargeflow_registry.Prelude.{
  ℕ, ◌≡◌, ◌≢◌, some, none, ◌∙◌, refl, ap, ◌⊎◌, inl, inr, Bool-cases, Result, Result-cases, ok, err,
  nat_eq,
}
use chargeflow_registry.Errors.{Error}
use chargeflow_registry.Schema.Model.{Uuid, Bytes, Schema, Time}
use chargeflow_registry.Schema.Service.{delete_one, add_pair}
use chargeflow_registry.Postgres.Model.{to_entity}
use chargeflow_registry.Postgres.Gorm.{Gorm, Json}
use chargeflow_registry.Postgres.Query.{in_slot}
use chargeflow_registry.Postgres.Tables.{Tables, IsPostgres, delete_rows}
use chargeflow_registry.Postgres.Changelog.{IsVersioned}
use chargeflow_registry.Postgres.Repository.{repository, add, delete}
use chargeflow_registry.Postgres.Insertion.{Inserted, add-Inserted, add-err}
use chargeflow_registry.Postgres.Rollback.{delete-restores}
use chargeflow_registry.Postgres.Spec.{
  Slot, Item, Registry, slot_eq, put, slot_of_schema, slot_eq_iff,
}
use chargeflow_registry.Postgres.Represents.{Represents}
use chargeflow_registry.Postgres.Outcomes.{new_item}
use chargeflow_registry.Postgres.Refinement.{Inserted-Represents}
use chargeflow_registry.Redis.Store.{Client, SchemaJson}
use chargeflow_registry.App.{repo, store}

-- A slot that is empty after another one is filled.
put-empty :
    (filled slot : Slot) (i : Item) (r : Registry)
    → put filled (some i) r slot ≡ none
    → (r slot ≡ none) × (slot ≢ filled)
put-empty filled slot i r empty = elim (Bool-cases (slot_eq slot filled)) [
  | inl here ↦ absurd (cc (rw here at empty))
  | inr away ↦ (rw away at empty, λ same. cc ((slot_eq_iff slot filled).1 same, away))
]

module _ {D R V : Type 0} (db : Gorm D) (json : Json V) (client : Client R) (coding : SchemaJson)
    (ttl : Time) (jsonb : Bytes → Bytes) (view : D → Tables) (laws : IsPostgres db jsonb view) where
  abbrev pub rows : D × R → Tables
  rows w = view w.0

  abbrev pub delete_slot : Schema → D → Result Error (Unit {0}) × D
  delete_slot s = delete db s.ocpp_version s.action s.message_type s.vendor s.model

  -- The rows that a successful deletion of a slot leaves.
  delete_slot-ok :
      (s : Schema) (d : D)
      → (delete_slot s d).0 ≡ ok tt
      → view (delete_slot s d).1
        ≡ delete_rows (in_slot s.ocpp_version s.action s.message_type s.vendor s.model) (view d)
  unfolding delete
  delete_slot-ok s d p =
      let slot = in_slot s.ocpp_version s.action s.message_type s.vendor s.model in
      elim (Result-cases (db.delete_schemas slot d).0) [
        | inr (e, failed) ↦ absurd (cc (rw failed at p))
        | inl (n, done) ↦ elim (Bool-cases (nat_eq n 0)) [
          | inl none_met ↦ absurd (cc (rw (done, none_met) at p))
          | inr met ↦ rw (done, met) (laws.delete_schemas-ok slot d n done)
        ]
      ]

  -- The rows after the compensating call are those after its deletion.
  delete_one-rows :
      (s : Schema) (w : D × R)
      → rows
          (delete_one
            (repo db json client coding ttl)
            (store db json client coding ttl)
            s.ocpp_version
            s.action
            s.message_type
            s.vendor
            s.model
            w).1
        ≡ view (delete_slot s w.0).1
  unfolding delete_one repo store repository
  delete_one-rows s w =
      elim (Result-cases
        (delete db s.ocpp_version s.action s.message_type s.vendor s.model w.0).0) [
          | inr (e, failed) ↦ rw failed refl
          | inl (_, done) ↦ rw done refl
        ]

  restores :
      (s : Schema) (t t' : Tables) (identity : Uuid × ℕ)
      → IsVersioned t
      → Inserted jsonb t t' (to_entity s) identity
      → delete_rows (in_slot s.ocpp_version s.action s.message_type s.vendor s.model) t' ≡ t
  unfolding to_entity
  restores s t t' identity = delete-restores jsonb t t' (to_entity s) identity

  -- When AddPair fails on tables with a right changelog, the tables are afterwards as they were, or
  -- else the deletion of the first schema, with which AddPair answers a failure of the second one,
  -- failed itself.
  pub add_pair-err :
      (req resp : Schema) (w : D × R) (x : Error)
      → IsVersioned (rows w)
      → (add_pair (repo db json client coding ttl) (store db json client coding ttl) req resp w).0
        ≡ err x
      → (rows
            (add_pair
              (repo db json client coding ttl)
              (store db json client coding ttl)
              req
              resp
              w).1
          ≡ rows w)
        ⊎ ((e : Error) × ((delete_slot req (add db resp (add db req w.0).1).1).0 ≡ err e))
  unfolding add_pair repo repository
  add_pair-err req resp w x h p =
      let middle = (add db req w.0).1 in
      let last = (add db resp middle).1 in
      elim (Result-cases (add db req w.0).0) [
        | inr (e, failed) ↦ inl (rw failed (add-err db jsonb view laws req w.0 e failed))
        | inl (s, done) ↦ elim (Result-cases (add db resp middle).0) [
          | inl (s', done') ↦ absurd (cc (rw (done, done') at p))
          | inr (e, failed) ↦ elim (Result-cases (delete_slot req last).0) [
            | inr (e', stuck) ↦ inr (e', stuck)
            | inl (_, gone) ↦
                let slot =
                  in_slot req.ocpp_version req.action req.message_type req.vendor req.model in
                let unchanged = add-err db jsonb view laws resp middle e failed in
                let (_, inserted) = add-Inserted db jsonb view laws req w.0 s done in
                inl (
                  rw (done, failed)
                    (delete_one-rows req (last, w.1)
                      ∙ delete_slot-ok req last gone
                      ∙ ap (delete_rows slot) unchanged
                      ∙ restores req (view w.0) (view middle) (s.id, s.version) h inserted))
          ]
        ]
      ]

  added-Represents :
      (s s' : Schema) (d : D) (r : Registry)
      → Represents (view d).rows r
      → (add db s d).0 ≡ ok s'
      → (r (slot_of_schema s) ≡ none)
        × Represents
            (view (add db s d).1).rows
            (put (slot_of_schema s) (some (new_item jsonb s s'.id)) r)
  added-Represents s s' d r h done =
      let (_, inserted) = add-Inserted db jsonb view laws s d s' done in
      Inserted-Represents jsonb (view d) (view (add db s d).1) s (s'.id, s'.version) r inserted h

  add_pair-failed :
      (req resp : Schema) (w : D × R) (s : Schema) (e : Error)
      → (add db req w.0).0 ≡ ok s
      → (add db resp (add db req w.0).1).0 ≡ err e
      → (add_pair (repo db json client coding ttl) (store db json client coding ttl) req resp w).0
        ≢ ok tt
  unfolding add_pair repo repository
  add_pair-failed req resp w s e done failed p = cc (rw (done, failed) at p)

  -- When AddPair succeeds on tables that represent a registry, the slots of the request and of the
  -- response were two different free slots, and the tables represent the registry with both schemas
  -- in their slots at version 1.
  pub add_pair-Represents :
      (req resp : Schema) (w : D × R) (r : Registry)
      → Represents (rows w).rows r
      → (add_pair (repo db json client coding ttl) (store db json client coding ttl) req resp w).0
        ≡ ok tt
      → (id id' : Uuid) × (r (slot_of_schema req) ≡ none)
        × (r (slot_of_schema resp) ≡ none)
        × (slot_of_schema resp ≢ slot_of_schema req)
        × Represents
            (rows
              (add_pair
                (repo db json client coding ttl)
                (store db json client coding ttl)
                req
                resp
                w).1).rows
            (put
              (slot_of_schema resp)
              (some (new_item jsonb resp id'))
              (put (slot_of_schema req) (some (new_item jsonb req id)) r))
  unfolding add_pair repo repository
  add_pair-Represents req resp w r h p =
      let middle = (add db req w.0).1 in
      elim (Result-cases (add db req w.0).0) [
        | inr (e, failed) ↦ absurd (cc (rw failed at p))
        | inl (s, done) ↦ elim (Result-cases (add db resp middle).0) [
          | inr (e, failed) ↦ absurd (add_pair-failed req resp w s e done failed p)
          | inl (s', done') ↦
              let (free, between) = added-Represents req s w.0 r h done in
              let r' = put (slot_of_schema req) (some (new_item jsonb req s.id)) r in
              let (free', after) = added-Represents resp s' middle r' between done' in
              let (own, apart) =
                put-empty (slot_of_schema req) (slot_of_schema resp) (new_item jsonb req s.id) r
                  free' in
              rw (done, done') (s.id, s'.id, free, own, apart, after)
        ]
      ]

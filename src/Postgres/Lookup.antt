-- ===== src/Postgres/Lookup.antt =====
-- What `Get` of internal/storage/postgres/repository.go finds.
use chargeflow_registry.Prelude.{
  String, ◌≡◌, refl, sym, ◌∙◌, subst, Option, none, some, true, false, inl, inr, ◌⊎◌, Bool-cases,
  Result-cases, arith, ok, err, eq_iff,
}
use chargeflow_registry.Errors.{Error, is, err_not_found, err_record_not_found}
use chargeflow_registry.Schema.Model.{
  OcppVersion, MessageType, Uuid, Bytes, Schema, status_verified,
}
use chargeflow_registry.Postgres.Model.{SchemaEntity, to_domain}
use chargeflow_registry.Postgres.Gorm.{Gorm}
use chargeflow_registry.Postgres.Query.{is_verified_in_slot, is_verified_generic}
use chargeflow_registry.Postgres.Tables.{Tables, IsPostgres}
use chargeflow_registry.Postgres.Repository.{get, get_generic, get_specific}

module _ (version : OcppVersion) (action : String) (msg_type : MessageType) where
  -- Without vendor and model the two queries are one.
  generic-eq-in_slot :
      (e : SchemaEntity)
      → is_verified_generic version action msg_type e
        ≡ is_verified_in_slot version action msg_type none none e
  unfolding is_verified_generic is_verified_in_slot
  generic-eq-in_slot e = ground arith

  is_verified_in_slot-status :
      (vendor model : Option String) (e : SchemaEntity)
      → is_verified_in_slot version action msg_type vendor model e ≡ true
      → e.status ≡ status_verified
  unfolding is_verified_in_slot
  is_verified_in_slot-status vendor model e h = ground (arith, eq_iff e.status status_verified)

  -- No verified row is in the slot of a vendor and a model.
  abbrev pub NoneVerified : Option String → Option String → Tables → Type 0
  NoneVerified vendor model t =
      (id : Uuid) (e : SchemaEntity)
      → t.rows id ≡ some e
      → is_verified_in_slot version action msg_type vendor model e ≡ false

  -- A verified row of the slot itself, or, where that has none, of the generic slot.
  pub record Serves (t : Tables) (vendor model : Option String) (s : Schema) : Type 0 where
    pub row : SchemaEntity
    pub present : t.rows row.id ≡ some row
    pub same : s ≡ to_domain row
    pub verified : row.status ≡ status_verified
    pub slot :
        (is_verified_in_slot version action msg_type vendor model row ≡ true)
        ⊎ ((is_verified_in_slot version action msg_type none none row ≡ true)
            × NoneVerified vendor model t)

  module _ {D : Type 0} (db : Gorm D) (jsonb : Bytes → Bytes) (view : D → Tables)
      (laws : IsPostgres db jsonb view) where
    get_generic-Serves :
        (vendor model : Option String) (w : D) (s : Schema)
        → (get_generic db version action msg_type w).0 ≡ ok s
        → NoneVerified vendor model (view w) ⊎ ((vendor ≡ none) × (model ≡ none))
        → Serves (view w) vendor model s
    unfolding get_generic
    get_generic-Serves vendor model w s p none_else =
        let query = is_verified_generic version action msg_type in
        elim (Result-cases (db.first_schema query w).0) [
          | inl (e, found) ↦
              let (present, met) = laws.first_schema-found query w e found in
              let met' : is_verified_in_slot version action msg_type none none e ≡ true =
                sym (generic-eq-in_slot e) ∙ met in
              record {
                row = e;
                present = present;
                same = cc (rw found at p);
                verified = is_verified_in_slot-status none none e met';
                slot = elim none_else [
                  | inl missing ↦ inr (met', missing)
                  | inr (no_vendor, no_model) ↦ inl (rw (no_vendor, no_model) met')
                ];
              }
          | inr (x, failed) ↦ absurd (ground arith)
        ]

    get_specific-Serves :
        (vendor model : Option String) (w : D) (s : Schema)
        → (get_specific db version action msg_type vendor model w).0 ≡ ok s
        → Serves (view w) vendor model s
    unfolding get_specific
    get_specific-Serves vendor model w s p =
        let query = is_verified_in_slot version action msg_type vendor model in
        let seen = laws.first_schema-view query w in
        elim (Result-cases (db.first_schema query w).0) [
          | inl (e, found) ↦
              let (present, met) = laws.first_schema-found query w e found in
              record {
                row = e;
                present = present;
                same = cc (rw found at p);
                verified = is_verified_in_slot-status vendor model e met;
                slot = inl met;
              }
          | inr (x, failed) ↦ elim (Bool-cases (is x err_record_not_found)) [
            | inl missing ↦
                subst (λ t. Serves t vendor model s) seen
                  (get_generic-Serves vendor model (db.first_schema query w).1 s
                    (rw (failed, missing) at p)
                    (inl (
                      subst (NoneVerified vendor model) (sym seen)
                        (laws.first_schema-missing query w x failed missing))))
            | inr broken ↦ absurd (cc (rw (failed, broken) at p))
          ]
        ]

    get_generic-not_found :
        (w : D) (x : Error)
        → (get_generic db version action msg_type w).0 ≡ err x
        → is x err_not_found ≡ true
        → NoneVerified none none (view w)
    unfolding get_generic
    get_generic-not_found w x p n id e present =
        let query = is_verified_generic version action msg_type in
        elim (Result-cases (db.first_schema query w).0) [
          | inl (y, found) ↦ absurd (cc (rw found at p))
          | inr (y, failed) ↦ elim (Bool-cases (is y err_record_not_found)) [
            | inl missing ↦
                sym (generic-eq-in_slot e)
                ∙ laws.first_schema-missing query w y failed missing id e present
            | inr broken ↦
                let foreign = laws.first_schema-foreign query w y failed in
                absurd (ground (arith, foreign))
          ]
        ]

    get_specific-not_found :
        (vendor model : Option String) (w : D) (x : Error)
        → (get_specific db version action msg_type vendor model w).0 ≡ err x
        → is x err_not_found ≡ true
        → NoneVerified vendor model (view w) × NoneVerified none none (view w)
    unfolding get_specific
    get_specific-not_found vendor model w x p n =
        let query = is_verified_in_slot version action msg_type vendor model in
        let seen = laws.first_schema-view query w in
        elim (Result-cases (db.first_schema query w).0) [
          | inl (y, found) ↦ absurd (cc (rw found at p))
          | inr (y, failed) ↦ elim (Bool-cases (is y err_record_not_found)) [
            | inl missing ↦ (
              laws.first_schema-missing query w y failed missing,
              subst (NoneVerified none none) seen (
                  get_generic-not_found (db.first_schema query w).1 x (rw (failed, missing) at p)
                    n),
            )
            | inr broken ↦
                let foreign = laws.first_schema-foreign query w y failed in
                absurd (ground (arith, foreign))
          ]
        ]

    get_generic-view : (w : D) → view (get_generic db version action msg_type w).1 ≡ view w
    unfolding get_generic
    get_generic-view w =
        let query = is_verified_generic version action msg_type in
        let seen = laws.first_schema-view query w in
        elim (Result-cases (db.first_schema query w).0) [
          | inl (e, found) ↦ rw found seen
          | inr (x, failed) ↦ elim (Bool-cases (is x err_record_not_found)) [
            | inl missing ↦ rw (failed, missing) seen
            | inr broken ↦ rw (failed, broken) seen
          ]
        ]

    get_specific-view :
        (vendor model : Option String) (w : D)
        → view (get_specific db version action msg_type vendor model w).1 ≡ view w
    unfolding get_specific
    get_specific-view vendor model w =
        let query = is_verified_in_slot version action msg_type vendor model in
        let seen = laws.first_schema-view query w in
        elim (Result-cases (db.first_schema query w).0) [
          | inl (e, found) ↦ rw found seen
          | inr (x, failed) ↦ elim (Bool-cases (is x err_record_not_found)) [
            | inl missing ↦
                rw (failed, missing) (get_generic-view (db.first_schema query w).1 ∙ seen)
            | inr broken ↦ rw (failed, broken) seen
          ]
        ]

    pub get-view :
        (vendor model : Option String) (w : D)
        → view (get db version action msg_type vendor model w).1 ≡ view w
    unfolding get
    get-view none none w = get_generic-view w
    get-view (some v) model w = get_specific-view (some v) model w
    get-view none (some m) w = get_specific-view none (some m) w

    -- A schema that the repository's Get returns is a verified row of the slot that was asked for,
    -- or, where that slot has no verified row, a verified row of the slot of the same message
    -- without vendor and model.
    pub get-Serves :
        (vendor model : Option String) (w : D) (s : Schema)
        → (get db version action msg_type vendor model w).0 ≡ ok s
        → Serves (view w) vendor model s
    unfolding get
    get-Serves none none w s p = get_generic-Serves none none w s p (inr (refl, refl))
    get-Serves (some v) model w s p = get_specific-Serves (some v) model w s p
    get-Serves none (some m) w s p = get_specific-Serves none (some m) w s p

    -- When the repository's Get fails with ErrNotFound, neither the slot that was asked for nor the
    -- slot of the same message without vendor and model has a verified row.
    pub get-not_found :
        (vendor model : Option String) (w : D) (x : Error)
        → (get db version action msg_type vendor model w).0 ≡ err x
        → is x err_not_found ≡ true
        → NoneVerified vendor model (view w) × NoneVerified none none (view w)
    unfolding get
    get-not_found none none w x p n =
        let missing = get_generic-not_found w x p n in (missing, missing)
    get-not_found (some v) model w x p n = get_specific-not_found (some v) model w x p n
    get-not_found none (some m) w x p n = get_specific-not_found none (some m) w x p n

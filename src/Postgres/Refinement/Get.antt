-- ===== src/Postgres/Refinement/Get.antt =====
-- `Get` of internal/storage/postgres/repository.go against the registry.
use chargeflow_registry.Prelude.{
  Option, none, some, Bool, true, false, ◌&&◌, ◌==◌, ◌≡◌, refl, sym, ap, ◌∙◌, subst, inl, inr,
  Bool-cases, Option-cases, Result-cases, arith,
}
use chargeflow_registry.Errors.{is, err_not_found}
use chargeflow_registry.Schema.Model.{Bytes, Schema, status_verified}
use chargeflow_registry.Postgres.Model.{SchemaEntity, to_domain}
use chargeflow_registry.Postgres.Gorm.{Gorm}
use chargeflow_registry.Postgres.Query.{in_slot, is_verified_in_slot}
use chargeflow_registry.Postgres.Tables.{Tables, IsPostgres}
use chargeflow_registry.Postgres.Spec.{
  Slot, Item, Registry, slot_eq, item_of_schema, generic, if_verified, visible, slot_eq_iff,
}
use chargeflow_registry.Postgres.Represents.{Represents, slot_of, item_of}
use chargeflow_registry.Postgres.Outcomes.{Lookup, found, missing}
use chargeflow_registry.Postgres.Repository.{get}
use chargeflow_registry.Postgres.Lookup.{NoneVerified, Serves, get-Serves, get-not_found, get-view}

module _ (r : Registry) (t : Tables) (h : Represents t.rows r) (slot : Slot) where
  abbrev here : SchemaEntity → Bool
  here = is_verified_in_slot slot.ocpp_version slot.action slot.message_type slot.vendor slot.model

  abbrev Unverified : Type 0
  Unverified = NoneVerified slot.ocpp_version slot.action slot.message_type slot.vendor slot.model t

  skip_unverified : (other : Option Item) → Unverified → if_verified (r slot) other ≡ other
  unfolding is_verified_in_slot in_slot
  skip_unverified other unverified = elim (Option-cases (r slot)) [
    | inl empty ↦ rw empty refl
    | inr (i, full) ↦
        let (x, present, there, same) = h.complete slot i full in
        let mine = (slot_eq_iff (slot_of x) slot).1 there in
        let no : (slot_eq (slot_of x) slot && x.status == status_verified) ≡ false =
          unverified i.id x present in
        let status : (x.status == status_verified) ≡ false = rw mine at no in
        let item : (i.status == status_verified) ≡ false =
          subst (λ (k : Item). (k.status == status_verified) ≡ false) same status in
        rw (full, item) refl
  ]

  take_verified :
      (other : Option Item) (e : SchemaEntity)
      → t.rows e.id ≡ some e
      → here e ≡ true
      → e.status ≡ status_verified
      → if_verified (r slot) other ≡ some (item_of e)
  unfolding is_verified_in_slot in_slot
  take_verified other e present met verified =
      let mine : slot_eq (slot_of e) slot ≡ true = ground arith in
      let full : r slot ≡ some (item_of e) =
        ap r (sym ((slot_eq_iff (slot_of e) slot).0 mine)) ∙ h.sound e.id e present in
      let test : (e.status == status_verified) ≡ true = ground arith in rw (full, test) refl

module _ (r : Registry) (t : Tables) (h : Represents t.rows r) (slot : Slot) where
  unverified-visible :
      NoneVerified slot.ocpp_version slot.action slot.message_type slot.vendor slot.model t
      → NoneVerified slot.ocpp_version slot.action slot.message_type none none t
      → visible r slot ≡ none
  unverified-visible own shared =
      skip_unverified r t h slot (if_verified (r (generic slot)) none) own
      ∙ skip_unverified r t h (generic slot) none shared

  Serves-visible :
      (s : Schema)
      → Serves slot.ocpp_version slot.action slot.message_type t slot.vendor slot.model s
      → visible r slot ≡ some (item_of_schema s)
  unfolding to_domain
  Serves-visible s served =
      let item : item_of served.row ≡ item_of_schema s = ap item_of_schema (sym served.same) in
      elim served.slot [
        | inl met ↦
            take_verified r t h slot (if_verified (r (generic slot)) none) served.row served.present
              met served.verified
            ∙ ap some item
        | inr (met, none_own) ↦
            skip_unverified r t h slot (if_verified (r (generic slot)) none) none_own
            ∙ take_verified r t h (generic slot) none served.row served.present met served.verified
            ∙ ap some item
      ]

module _ {D : Type 0} (db : Gorm D) (jsonb : Bytes → Bytes) (view : D → Tables)
    (laws : IsPostgres db jsonb view) where
  -- Get on tables that represent a registry leaves the registry as it is. It returns the verified
  -- schema of the slot, or of the slot of the same message without vendor and model where the slot
  -- itself has no verified one; or it fails with ErrNotFound, and neither has one; or it fails with
  -- another error.
  pub get-Lookup :
      (slot : Slot) (w : D) (r : Registry)
      → Represents (view w).rows r
      → Lookup r
          (view
            (get db slot.ocpp_version slot.action slot.message_type slot.vendor slot.model
              w).1).rows
          slot
          (get db slot.ocpp_version slot.action slot.message_type slot.vendor slot.model w).0
  get-Lookup slot w r h =
      let call = get db slot.ocpp_version slot.action slot.message_type slot.vendor slot.model w in
      let after : Represents (view call.1).rows r =
        subst (λ t. Represents t.rows r)
          (sym (
            get-view slot.ocpp_version slot.action slot.message_type db jsonb view laws slot.vendor
              slot.model w))
          h in
      elim (Result-cases call.0) [
        | inl (s, done) ↦
            found s done
              (Serves-visible r (view w) h slot s (
                get-Serves slot.ocpp_version slot.action slot.message_type db jsonb view laws
                  slot.vendor slot.model w s done))
              after
        | inr (e, bad) ↦ elim (Bool-cases (is e err_not_found)) [
          | inl absent ↦
              let (own, shared) =
                get-not_found slot.ocpp_version slot.action slot.message_type db jsonb view laws
                  slot.vendor slot.model w e bad absent in
              missing e bad absent (unverified-visible r (view w) h slot own shared) after
          | inr broken ↦ Lookup.failed e bad broken after
        ]
      ]

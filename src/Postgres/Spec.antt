-- ===== src/Postgres/Spec.antt =====
-- What internal/storage/postgres/repository.go promises, with no tables: a registry has at most one
-- schema in a slot, and each operation changes one slot.
use chargeflow_registry.Prelude.{
  ℕ, ◌+◌, String, Option, none, some, Bool, true, ◌&&◌, ◌==◌, nat_eq, if◌then◌else◌, ◌≡◌, ◌↔◌,
  arith, eq_iff, refl,
}
use chargeflow_registry.Schema.Model.{
  OcppVersion, MessageType, Status, Uuid, Bytes, Schema, status_verified,
}
use chargeflow_registry.Postgres.Query.{not_distinct}

-- The columns of schemas_lookup_unique.
pub record Slot : Type 0 where
  pub ocpp_version : OcppVersion
  pub action : String
  pub message_type : MessageType
  pub vendor : Option String
  pub model : Option String

pub record Item : Type 0 where
  pub id : Uuid
  pub content : Bytes
  pub status : Status
  pub version : ℕ

abbrev pub Registry : Type 0
Registry = Slot → Option Item

abbrev pub slot_eq : Slot → Slot → Bool
slot_eq a b =
    (a.ocpp_version == b.ocpp_version && a.action == b.action && a.message_type == b.message_type)
    && not_distinct a.vendor b.vendor
    && not_distinct a.model b.model

abbrev pub put : Slot → Option Item → Registry → Registry
put s i r = λ t. if slot_eq t s then i else r t

abbrev pub change : Uuid → (Item → Item) → Option Item → Option Item
change id f none = none
change id f (some i) = if nat_eq i.id id then some (f i) else some i

abbrev pub modify : Uuid → (Item → Item) → Registry → Registry
modify id f r = λ s. change id f (r s)

abbrev pub slot_of_schema : Schema → Slot
slot_of_schema s = record {
  ocpp_version = s.ocpp_version;
  action = s.action;
  message_type = s.message_type;
  vendor = s.vendor;
  model = s.model;
}

abbrev pub item_of_schema : Schema → Item
item_of_schema s = record { id = s.id; content = s.schema; status = s.status; version = s.version }

abbrev pub generic : Slot → Slot
generic s = record s { vendor = none; model = none }

abbrev pub if_verified : Option Item → Option Item → Option Item
if_verified none other = other
if_verified (some i) other = if i.status == status_verified then some i else other

-- What is served for a slot: its own schema, if it is verified, or else the generic one, if that is.
abbrev pub visible : Registry → Slot → Option Item
visible r s = if_verified (r s) (if_verified (r (generic s)) none)

abbrev pub renewed : Bytes → Item → Item
renewed content i = record i { content = content; version = i.version + 1 }

not_distinct_iff : (a b : Option String) → (not_distinct a b ≡ true) ↔ (a ≡ b)
not_distinct_iff none none = (λ h. refl, λ h. refl)
not_distinct_iff none (some b) = (λ h. absurd (cc h), λ h. absurd (cc h))
not_distinct_iff (some a) none = (λ h. absurd (cc h), λ h. absurd (cc h))
not_distinct_iff (some a) (some b) = ground (arith, eq_iff a b)

pub slot_eq_iff : (a b : Slot) → (slot_eq a b ≡ true) ↔ (a ≡ b)
slot_eq_iff a b = ground (
  arith,
  eq_iff a.ocpp_version b.ocpp_version,
  eq_iff a.action b.action,
  eq_iff a.message_type b.message_type,
  not_distinct_iff a.vendor b.vendor,
  not_distinct_iff a.model b.model,
)

pub slot_eq_refl : (a : Slot) → slot_eq a a ≡ true
slot_eq_refl a = (slot_eq_iff a a).1 refl

abbrev pub with_status : Status → Item → Item
with_status status i = record i { status = status }

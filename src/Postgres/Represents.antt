-- ===== src/Postgres/Represents.antt =====
-- The rows of internal/storage/postgres as a registry.
pub mod Changes
use chargeflow_registry.Prelude.{
  Option, none, some, Bool, true, false, nat_eq, if◌then◌else◌, ◌≡◌, refl, sym, ap, ◌∙◌, subst, inl,
  inr, List, Bool-cases, Option-cases, arith,
}
use mathlib.Core.Path.{fun_ext}
use chargeflow_registry.Schema.Model.{Uuid, Time, Bytes}
use chargeflow_registry.Postgres.Model.{SchemaEntity}
use chargeflow_registry.Postgres.Tables.{Tables, meets, updated, update_rows, assign}
use chargeflow_registry.Postgres.Gorm.{Assignment}
use chargeflow_registry.Postgres.Query.{has_id}
use chargeflow_registry.Postgres.Spec.{
  Slot, Item, Registry, slot_eq, put, modify, slot_eq_iff, slot_eq_refl,
}

abbrev pub slot_of : SchemaEntity → Slot
slot_of e = record {
  ocpp_version = e.ocpp_version;
  action = e.action;
  message_type = e.message_type;
  vendor = e.vendor;
  model = e.model;
}

abbrev pub item_of : SchemaEntity → Item
item_of e = record { id = e.id; content = e.schema; status = e.status; version = e.version }

abbrev pub Rows : Type 0
Rows = Uuid → Option SchemaEntity

-- Each row is the item of its slot, and each item is a row.
pub record Represents (rows : Rows) (r : Registry) : Type 0 where
  pub sound : (id : Uuid) (e : SchemaEntity) → rows id ≡ some e → r (slot_of e) ≡ some (item_of e)
  pub keyed : (id : Uuid) (e : SchemaEntity) → rows id ≡ some e → e.id ≡ id
  pub complete :
      (s : Slot) (i : Item)
      → r s ≡ some i
      → (e : SchemaEntity) × (rows i.id ≡ some e) × (slot_of e ≡ s) × (item_of e ≡ i)

abbrev pub insert_row : SchemaEntity → Rows → Rows
insert_row e rows = λ id. if nat_eq e.id id then some e else rows id

abbrev pub remove_rows : (SchemaEntity → Bool) → Rows → Rows
remove_rows p rows = λ id. if meets p (rows id) then none else rows id

abbrev pub change_row :
    Uuid → (SchemaEntity → SchemaEntity) → Option SchemaEntity → Option SchemaEntity
change_row id g none = none
change_row id g (some e) = if nat_eq e.id id then some (g e) else some e

pub put-none : (s : Slot) (r : Registry) → r s ≡ none → put s none r ≡ r
put-none s r empty = fun_ext λ t. elim (Bool-cases (slot_eq t s)) [
  | inl here ↦ rw here (sym (ap r ((slot_eq_iff t s).0 here) ∙ empty))
  | inr away ↦ rw away refl
]

pub modify-none :
    (id : Uuid) (f : Item → Item) (r : Registry)
    → ((s : Slot) (i : Item) → r s ≡ some i → nat_eq i.id id ≡ false)
    → modify id f r ≡ r
modify-none id f r absent = fun_ext λ s. elim (Option-cases (r s)) [
  | inl empty ↦ rw empty refl
  | inr (i, full) ↦ rw (full, absent s i full) refl
]

-- An UPDATE of the row of an id.
updated-change_row :
    (jsonb : Bytes → Bytes) (now : Time) (id : Uuid) (columns : List Assignment)
    (o : Option SchemaEntity)
    → updated jsonb now (has_id id) columns o
      ≡ change_row id (λ e. record (assign jsonb columns e) { updated_at = now }) o
updated-change_row jsonb now id columns none = refl
updated-change_row jsonb now id columns (some e) = refl

pub update_rows-change_row :
    (jsonb : Bytes → Bytes) (now : Time) (id : Uuid) (columns : List Assignment) (t : Tables)
    → (update_rows jsonb now (has_id id) columns t).rows
      ≡ (λ j. change_row id (λ e. record (assign jsonb columns e) { updated_at = now }) (t.rows j))
update_rows-change_row jsonb now id columns t =
    fun_ext λ j. updated-change_row jsonb now id columns (t.rows j)

-- ===== src/Postgres/Query.antt =====
-- The conditions that internal/storage/postgres/repository.go writes in SQL.
use chargeflow_registry.Prelude.{
  String, Option, none, some, List, [], ◌∷◌, Bool, true, false, not, ◌&&◌, ◌||◌, ◌==◌, ℤ, pos,
  nat_eq, int_eq,
}
use chargeflow_registry.Schema.Model.{OcppVersion, MessageType, Status, Uuid, status_verified}
use chargeflow_registry.Postgres.Model.{SchemaEntity, SchemaVersionEntity}

-- `a IS NOT DISTINCT FROM b`
abbrev pub not_distinct : Option String → Option String → Bool
not_distinct none none = true
not_distinct (some a) (some b) = a == b
not_distinct _ _ = false

-- `column = value`, which a NULL column does not meet
abbrev pub column_eq : Option String → String → Bool
column_eq none b = false
column_eq (some a) b = a == b

-- `column IS NULL`
abbrev pub is_null : Option String → Bool
is_null none = true
is_null (some _) = false

-- A filter that applies only if its argument is given.
abbrev pub if_given : Option String → (String → Bool) → Bool
if_given none test = true
if_given (some s) test = test s

module _ (version : OcppVersion) (action : String) (msg_type : MessageType) where
  abbrev pub is_message : SchemaEntity → Bool
  is_message e = e.ocpp_version == version && e.action == action && e.message_type == msg_type

  -- The five columns of the constraint `schemas_lookup_unique`.
  unfoldable pub in_slot : Option String → Option String → SchemaEntity → Bool
  in_slot vendor model e =
      is_message e && not_distinct e.vendor vendor && not_distinct e.model model

  unfoldable pub is_verified_in_slot : Option String → Option String → SchemaEntity → Bool
  unfolding in_slot
  is_verified_in_slot vendor model e = in_slot vendor model e && e.status == status_verified

  unfoldable pub is_verified_generic : SchemaEntity → Bool
  is_verified_generic e =
      is_message e && is_null e.vendor && is_null e.model && e.status == status_verified

abbrev pub has_id : Uuid → SchemaEntity → Bool
has_id id e = nat_eq e.id id

unfoldable pub matches_filters :
    OcppVersion
    → (vendor model action : Option String) → Option MessageType
    → Option Status
    → SchemaEntity
    → Bool
matches_filters version vendor model action msg_type status e =
    (version == "" || e.ocpp_version == version)
    && if_given vendor (column_eq e.vendor)
    && if_given model (column_eq e.model)
    && if_given action (λ a. e.action == a)
    && if_given msg_type (λ t. e.message_type == t)
    && if_given status (λ s. e.status == s)

abbrev pub contains : List String → String → Bool
contains [] s = false
contains (t ∷ ts) s = s == t || contains ts s

abbrev pub is_empty : List String → Bool
is_empty [] = true
is_empty (_ ∷ _) = false

-- `model IN ?`, not met by NULL
abbrev pub model_in : List String → Option String → Bool
model_in models none = false
model_in models (some m) = contains models m

unfoldable pub is_vendor_model : String → List String → SchemaEntity → Bool
is_vendor_model vendor models e =
    column_eq e.vendor vendor
    && not (is_null e.model)
    && e.status == status_verified
    && (is_empty models || model_in models e.model)

abbrev pub of_schema : Uuid → SchemaVersionEntity → Bool
of_schema id v = nat_eq v.schema_id id

abbrev pub of_version : Uuid → ℤ → SchemaVersionEntity → Bool
of_version id version v = nat_eq v.schema_id id && int_eq (pos v.version) version

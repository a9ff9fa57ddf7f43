-- ===== src/Postgres/Outcomes.antt =====
-- What each operation of internal/storage/postgres/repository.go may do to a registry: `r` is the
-- registry before, `rows` are the rows afterwards.
use chargeflow_registry.Prelude.{◌+◌, none, some, true, false, nat_eq, ◌≡◌, ok, err, Result}
use chargeflow_registry.Errors.{Error, sentinel, wrapped, is, err_not_found}
use chargeflow_registry.Schema.Model.{Uuid, Bytes, Status, Schema}
use chargeflow_registry.Postgres.Gorm.{Json}
use chargeflow_registry.Postgres.Tables.{or_default}
use chargeflow_registry.Postgres.Repository.{with_identity, json_content_equal}
use chargeflow_registry.Postgres.Spec.{
  Slot, Item, Registry, put, modify, slot_of_schema, item_of_schema, visible, renewed, with_status,
}
use chargeflow_registry.Postgres.Represents.{Represents, Rows}

abbrev pub new_item : (Bytes → Bytes) → Schema → Uuid → Item
new_item jsonb s id = record {
  id = id;
  content = jsonb s.schema;
  status = or_default s.status;
  version = 1;
}

module _ (r : Registry) (rows : Rows) where
  pub data Addition (jsonb : Bytes → Bytes) (s : Schema) (result : Result Error Schema)
      : Type 0 where
    added :
        (id : Uuid)
        → result ≡ ok (with_identity s (id, 1))
        → r (slot_of_schema s) ≡ none
        → Represents rows (put (slot_of_schema s) (some (new_item jsonb s id)) r)
        → Addition jsonb s result
    failed : (e : Error) → result ≡ err e → Represents rows r → Addition jsonb s result

  pub data Upsertion {V : Type 0} (jsonb : Bytes → Bytes) (json : Json V) (s : Schema)
      (result : Result Error Schema) : Type 0 where
    added :
        (id : Uuid)
        → result ≡ ok (with_identity s (id, 1))
        → r (slot_of_schema s) ≡ none
        → Represents rows (put (slot_of_schema s) (some (new_item jsonb s id)) r)
        → Upsertion jsonb json s result
    unchanged :
        (i : Item)
        → result ≡ ok (with_identity s (i.id, i.version))
        → r (slot_of_schema s) ≡ some i
        → json_content_equal json i.content s.schema ≡ true
        → Represents rows r
        → Upsertion jsonb json s result
    replaced :
        (i : Item)
        → result ≡ ok (with_identity s (i.id, i.version + 1))
        → r (slot_of_schema s) ≡ some i
        → json_content_equal json i.content s.schema ≡ false
        → Represents rows (put (slot_of_schema s) (some (renewed (jsonb s.schema) i)) r)
        → Upsertion jsonb json s result
    failed : (e : Error) → result ≡ err e → Represents rows r → Upsertion jsonb json s result

  pub data Deletion (slot : Slot) (result : Result Error (Unit {0})) : Type 0 where
    deleted :
        (i : Item)
        → result ≡ ok tt
        → r slot ≡ some i
        → Represents rows (put slot none r)
        → Deletion slot result
    missing :
        result ≡ err (sentinel err_not_found)
        → r slot ≡ none
        → Represents rows r
        → Deletion slot result
    failed :
        (e : Error)
        → result ≡ err (wrapped "delete schema" e)
        → Represents rows r
        → Deletion slot result

  -- The read that follows the update can fail, and then the update stays.
  pub data Restatus (id : Uuid) (status : Status) (result : Result Error Schema) : Type 0 where
    changed :
        (s : Schema)
        → result ≡ ok s
        → s.id ≡ id
        → s.status ≡ status
        → modify id (with_status status) r (slot_of_schema s) ≡ some (item_of_schema s)
        → Represents rows (modify id (with_status status) r)
        → Restatus id status result
    missing :
        result ≡ err (sentinel err_not_found)
        → ((slot : Slot) (i : Item) → r slot ≡ some i → nat_eq i.id id ≡ false)
        → Represents rows r
        → Restatus id status result
    failed :
        (e : Error)
        → result ≡ err (wrapped "update schema status" e)
        → Represents rows r
        → Restatus id status result
    unread :
        (e : Error) (slot : Slot) (i : Item)
        → result ≡ err (wrapped "get updated schema" e)
        → r slot ≡ some i
        → i.id ≡ id
        → Represents rows (modify id (with_status status) r)
        → Restatus id status result

  pub data Lookup (slot : Slot) (result : Result Error Schema) : Type 0 where
    found :
        (s : Schema)
        → result ≡ ok s
        → visible r slot ≡ some (item_of_schema s)
        → Represents rows r
        → Lookup slot result
    missing :
        (e : Error)
        → result ≡ err e
        → is e err_not_found ≡ true
        → visible r slot ≡ none
        → Represents rows r
        → Lookup slot result
    failed :
        (e : Error)
        → result ≡ err e
        → is e err_not_found ≡ false
        → Represents rows r
        → Lookup slot result

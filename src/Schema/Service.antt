-- ===== src/Schema/Service.antt =====
-- internal/schema/service.go. The tracing spans are left out: they write nothing that the
-- program reads back.
use chargeflow_registry.Prelude.{
  either, ℕ, String, Option, List, ℤ, pos, int_eq, ltb, nat_eq, if◌then◌else◌, ◌==◌, ◌&&◌, false,
  Bool, Exec, Result, ok, err, pure, raise, on_result, trying, ignoring,
}
use chargeflow_registry.Errors.{Error, sentinel, wrapped, is, err_not_found}
use chargeflow_registry.Schema.Model.{
  OcppVersion, MessageType, Status, Uuid, Schema, SchemaVersion, VendorModel, message_type_request,
  message_type_response, status_rejected,
}
use chargeflow_registry.Schema.Ports.{Repository, Cache, default_page_size, max_page_size}
use chargeflow_registry.Schema.CacheKey.{cache_key}

unfoldable pub clamp_page_size : ℕ → ℕ
clamp_page_size limit =
    if nat_eq limit 0
    then default_page_size
    else if ltb max_page_size limit
    then max_page_size
    else limit

-- `errors.Is(err, target)` of an error that may be nil
abbrev pub failed_with_not_found {ℓ} : {A : Type ℓ} → Result Error A → Bool
failed_with_not_found (ok _) = false
failed_with_not_found (err e) = is e err_not_found

-- The archived content in place of the current one.
abbrev pub with_archived : Schema → SchemaVersion → Schema
with_archived sc archived = record sc {
  schema = archived.schema;
  version = archived.version;
  updated_at = archived.created_at;
}

module _ {W : Type 0} (repo : Repository W) (cache : Cache W) where
  unfoldable pub get :
      OcppVersion → String → MessageType → Option String → Option String → Exec W Error Schema
  get version action msg_type vendor model =
      let key = cache_key version action msg_type vendor model in
      on_result (cache.get key) (
        either (λ cached. pure cached)
          (λ e.
            if is e err_not_found
            then trying (repo.get version action msg_type vendor model) (wrapped "get schema")
                (λ sc. ignoring (cache.set key sc) (pure sc))
            else raise (wrapped "get schema from cache" e)))

  unfoldable pub add : Schema → Exec W Error Schema
  add sc = trying (repo.add sc) (wrapped "add schema") pure

  unfoldable pub delete_one :
      OcppVersion → String → MessageType → Option String → Option String → Exec W Error (Unit {0})
  delete_one version action msg_type vendor model =
      trying (repo.delete version action msg_type vendor model) (wrapped "delete schema")
        λ _. ignoring (cache.delete (cache_key version action msg_type vendor model)) (pure tt)

  -- A failed second insertion removes the first row again; the outcome of that is dropped.
  unfoldable pub add_pair : Schema → Schema → Exec W Error (Unit {0})
  unfolding delete_one
  add_pair req resp = trying (repo.add req) (wrapped "add request schema") λ _.
      on_result (repo.add resp) (
        either (λ _. pure tt)
          (λ e.
            ignoring (delete_one req.ocpp_version req.action req.message_type req.vendor req.model)
              (raise (wrapped "add response schema" e))))

  unfoldable pub delete :
      OcppVersion → String → Option String → Option String → Exec W Error (Unit {0})
  unfolding delete_one
  delete version action vendor model =
      on_result (delete_one version action message_type_request vendor model) λ req_err.
        on_result (delete_one version action message_type_response vendor model) λ resp_err.
          if failed_with_not_found req_err && failed_with_not_found resp_err
          then raise (sentinel err_not_found)
          else ignoring (cache.delete (cache_key version action message_type_request vendor model))
              (ignoring (cache.delete (cache_key version action message_type_response vendor model))
                (pure tt))

  unfoldable pub list :
      OcppVersion
      → (vendor model action : Option String) → Option MessageType
      → Option Status
      → (limit offset : ℕ) → Exec W Error (List Schema × ℤ)
  unfolding clamp_page_size
  list version vendor model action msg_type status limit offset =
      trying (repo.list version vendor model action msg_type status (clamp_page_size limit) offset)
        (wrapped "list schemas") pure

  -- Only a rejection evicts the schema's own entry from the cache.
  unfoldable pub change_status : Uuid → Status → Exec W Error Schema
  change_status id status =
      trying (repo.update_status id status) (wrapped "change schema status") λ sc.
        if status == status_rejected
        then ignoring
            (cache.delete (cache_key sc.ocpp_version sc.action sc.message_type sc.vendor sc.model))
            (pure sc)
        else pure sc

  unfoldable pub list_vendor_models :
      String → List String → (limit offset : ℕ) → Exec W Error (List VendorModel × ℤ)
  unfolding clamp_page_size
  list_vendor_models vendor models limit offset =
      trying (repo.list_vendor_models vendor models (clamp_page_size limit) offset)
        (wrapped "list vendor models") pure

  unfoldable pub list_versions : Uuid → (limit offset : ℕ) → Exec W Error (List SchemaVersion × ℤ)
  unfolding clamp_page_size
  list_versions id limit offset =
      trying (repo.list_versions id (clamp_page_size limit) offset) (wrapped "list schema versions")
        pure

  unfoldable pub get_version :
      OcppVersion → String → MessageType → Option String → Option String → ℤ → Exec W Error Schema
  get_version version action msg_type vendor model schema_version =
      trying (get version action msg_type vendor model) (wrapped "get schema") λ sc.
        if int_eq (pos sc.version) schema_version
        then pure sc
        else trying (repo.get_version sc.id schema_version) (wrapped "get schema version")
            (λ archived. pure (with_archived sc archived))

  unfoldable pub upsert : Schema → Exec W Error Schema
  upsert sc = trying (repo.upsert sc) (wrapped "upsert schema") λ stored.
      ignoring
        (cache.delete (cache_key sc.ocpp_version sc.action sc.message_type sc.vendor sc.model))
        (pure stored)

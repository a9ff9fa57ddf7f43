-- ===== src/Redis/Store.antt =====
-- internal/storage/redis/cache.go. The client and the JSON form of a schema are parameters; the
-- tracing spans are left out.
use chargeflow_registry.Prelude.{
  either, ℕ, String, Exec, Result, pure, raise, lift, on_result, trying, if◌then◌else◌,
}
use chargeflow_registry.Errors.{Error, sentinel, wrapped, is, err_not_found, redis_nil}
use chargeflow_registry.Schema.Model.{Bytes, Time, Schema}
use chargeflow_registry.Schema.Ports

-- go-redis on a state `R`: GET, SET with a time to live, and DEL with the number of keys removed.
pub record Client (R : Type 0) : Type 0 where
  pub get : String → Exec R Error Bytes
  pub set : String → Bytes → Time → Exec R Error (Unit {0})
  pub del : String → Exec R Error ℕ

-- `json.Marshal` and `json.Unmarshal` of a schema.Schema.
pub record SchemaJson : Type 0 where
  pub marshal : Schema → Result Error Bytes
  pub unmarshal : Bytes → Result Error Schema

module _ {R : Type 0} (client : Client R) (json : SchemaJson) (ttl : Time) where
  unfoldable pub get : String → Exec R Error Schema
  get key = on_result (client.get key) (
      either (λ content. trying (lift (json.unmarshal content)) (wrapped "cache unmarshal") pure)
        (λ e.
          if is e redis_nil then raise (sentinel err_not_found) else raise (wrapped "cache get" e)))

  unfoldable pub set : String → Schema → Exec R Error (Unit {0})
  set key s =
      trying (lift (json.marshal s)) (wrapped "cache marshal")
        λ content. trying (client.set key content ttl) (wrapped "cache set") pure

  unfoldable pub delete : String → Exec R Error (Unit {0})
  delete key = trying (client.del key) (wrapped "cache delete") λ _. pure tt

  -- NewCache
  unfoldable pub cache : Ports.Cache R
  unfolding get set delete
  cache = record { get = get; set = set; delete = delete }

-- ===== src/Redis/Contents.antt =====
-- What internal/storage/redis/cache.go relies on of Redis, and what the cache then promises.
use chargeflow_registry.Prelude.{
  String, Option, some, ◌≡◌, ◌∙◌, refl, ap, subst, sym, inl, inr, Bool-cases, Result-cases, ok, ◌⊎◌,
}
use chargeflow_registry.Errors.{is, redis_nil}
use chargeflow_registry.Schema.Model.{Bytes, Time, Schema}
use chargeflow_registry.Schema.Serving.{IsCache}
use chargeflow_registry.Redis.Store.{Client, SchemaJson, get, set, delete, cache}

-- The documented behaviour of Redis, `contents` being its keys and values: a key may expire at any
-- call, and otherwise only SET writes a value.
pub record IsRedis {R : Type 0} (client : Client R) (contents : R → String → Option Bytes)
    : Type 0 where
  pub get-found :
      (key : String) (r : R) (b : Bytes) → (client.get key r).0 ≡ ok b → contents r key ≡ some b
  pub get-keeps :
      (key : String) (r : R) (k : String) (b : Bytes)
      → contents (client.get key r).1 k ≡ some b
      → contents r k ≡ some b
  pub set-keeps :
      (key : String) (x : Bytes) (ttl : Time) (r : R) (k : String) (b : Bytes)
      → contents (client.set key x ttl r).1 k ≡ some b
      → (contents r k ≡ some b) ⊎ (b ≡ x)
  pub del-keeps :
      (key : String) (r : R) (k : String) (b : Bytes)
      → contents (client.del key r).1 k ≡ some b
      → contents r k ≡ some b

-- The JSON form of a schema keeps its status.
abbrev pub KeepsStatus : SchemaJson → Type 0
KeepsStatus coding =
    (s s' : Schema) (b : Bytes)
    → coding.marshal s ≡ ok b
    → coding.unmarshal b ≡ ok s'
    → s'.status ≡ s.status

module _ {R : Type 0} (client : Client R) (coding : SchemaJson) (ttl : Time)
    (contents : R → String → Option Bytes) where
  -- A read of `key` can give `s`.
  abbrev pub Cached : R → String → Schema → Type 0
  Cached r key s = (b : Bytes) × (contents r key ≡ some b) × (coding.unmarshal b ≡ ok s)

  module _ (redis : IsRedis client contents) where
    get-hit :
        (key : String) (r : R) (s : Schema)
        → (get client coding ttl key r).0 ≡ ok s
        → Cached r key s
    unfolding get
    get-hit key r s p = elim (Result-cases (client.get key r).0) [
      | inl (b, found) ↦ elim (Result-cases (coding.unmarshal b)) [
        | inl (x, good) ↦ (b, redis.get-found key r b found, good ∙ rw (found, good) at p)
        | inr (e, bad) ↦ absurd (cc (rw (found, bad) at p))
      ]
      | inr (e, failed) ↦ elim (Bool-cases (is e redis_nil)) [
        | inl missing ↦ absurd (cc (rw (failed, missing) at p))
        | inr broken ↦ absurd (cc (rw (failed, broken) at p))
      ]
    ]

    after_get : (key : String) (r : R) → (get client coding ttl key r).1 ≡ (client.get key r).1
    unfolding get
    after_get key r = elim (Result-cases (client.get key r).0) [
      | inl (b, found) ↦ elim (Result-cases (coding.unmarshal b)) [
        | inl (x, good) ↦ rw (found, good) refl
        | inr (e, bad) ↦ rw (found, bad) refl
      ]
      | inr (e, failed) ↦ elim (Bool-cases (is e redis_nil)) [
        | inl missing ↦ rw (failed, missing) refl
        | inr broken ↦ rw (failed, broken) refl
      ]
    ]

    after_delete :
        (key : String) (r : R) → (delete client coding ttl key r).1 ≡ (client.del key r).1
    unfolding delete
    after_delete key r = elim (Result-cases (client.del key r).0) [
      | inl (n, done) ↦ rw done refl
      | inr (e, failed) ↦ rw failed refl
    ]

    set-keeps-Cached :
        KeepsStatus coding
        → (key : String) (x : Schema) (r : R) (k : String) (s : Schema)
        → Cached (set client coding ttl key x r).1 k s
        → Cached r k s ⊎ (s.status ≡ x.status)
    unfolding set
    set-keeps-Cached keeps key x r k s held = elim (Result-cases (coding.marshal x)) [
      | inr (e, bad) ↦ inl (rw bad at held)
      | inl (c, good) ↦
          let written : Cached (client.set key c ttl r).1 k s =
            elim (Result-cases (client.set key c ttl r).0) [
              | inl (_, done) ↦ rw (good, done) at held
              | inr (e, failed) ↦ rw (good, failed) at held
            ] in
          let (b, there, read) = written in
          elim (redis.set-keeps key c ttl r k b there) [
            | inl before ↦ inl (b, before, read)
            | inr same ↦ inr (keeps x s b (good ∙ ap ok (sym same)) read)
          ]
    ]

    pub cache-IsCache : KeepsStatus coding → IsCache (cache client coding ttl) Cached
    unfolding cache
    cache-IsCache keeps = record {
      get-hit = get-hit;
      get-keeps = λ key r k s held.
          let (b, there, read) = subst (λ x. Cached x k s) (after_get key r) held in
          (b, redis.get-keeps key r k b there, read);
      set-keeps = set-keeps-Cached keeps;
      delete-keeps = λ key r k s held.
          let (b, there, read) = subst (λ x. Cached x k s) (after_delete key r) held in
          (b, redis.del-keeps key r k b there, read);
    }

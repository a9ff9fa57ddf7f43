-- ===== src/Tests/Worlds.antt =====
-- Schemas, a Redis and the codecs for the concrete inputs.
use chargeflow_registry.Prelude.{
  String, Option, none, some, [], ◌∷◌, Bool, true, false, ◌==◌, if◌then◌else◌, nat_eq, Result, ok,
  err, ◌≡◌, Bool-cases, inl, inr, eq_iff, ok-injective, sym, ap, ◌∙◌,
}
use chargeflow_registry.Errors.{Error, sentinel, other, redis_nil}
use chargeflow_registry.Schema.Model.{
  Bytes, Schema, ocpp_version_16, message_type_request, message_type_response, status_submitted,
  status_verified,
}
use chargeflow_registry.Postgres.Gorm.{Json}
use chargeflow_registry.Redis.Store.{Client, SchemaJson}
use chargeflow_registry.Redis.Contents.{IsRedis, KeepsStatus}
use chargeflow_registry.Tests.Cell.{Cell}

abbrev pub boot : Schema
boot = record {
  id = 0;
  ocpp_version = ocpp_version_16;
  action = "BootNotification";
  message_type = message_type_request;
  vendor = none;
  model = none;
  schema = 1 ∷ [];
  status = status_submitted;
  version = 0;
  created_at = 0;
  updated_at = 0;
}

abbrev pub boot_response : Schema
boot_response = record boot { message_type = message_type_response }

-- What the database holds once `boot` is added, and once it is verified.
abbrev pub boot_added : Schema
boot_added = record boot { id = 7; version = 1 }

abbrev pub boot_verified : Schema
boot_verified = record boot_added { status = status_verified; created_at = 5; updated_at = 6 }

abbrev pub empty_cell : Cell
empty_cell = (none, λ id n. none)

abbrev pub same_bytes : Bytes → Bytes → Bool
same_bytes [] [] = true
same_bytes (x ∷ xs) (y ∷ ys) = if nat_eq x y then same_bytes xs ys else false
same_bytes _ _ = false

abbrev pub plain_json : Json Bytes
plain_json = record { unmarshal = some; deep_equal = same_bytes }

abbrev pub Keys : Type 0
Keys = String → Option Bytes

abbrev pub contents : Keys → String → Option Bytes
contents r = r

abbrev found : Option Bytes → Result Error Bytes
found none = err (sentinel redis_nil)
found (some b) = ok b

abbrev pub redis : Client Keys
redis = record {
  get = λ key r. (found (r key), r);
  set = λ key x ttl r. (ok tt, λ k. if k == key then some x else r k);
  del = λ key r. (ok 1, λ k. if k == key then none else r k);
}

found-some : (o : Option Bytes) (b : Bytes) → found o ≡ ok b → o ≡ some b
found-some none b h = absurd (cc h)
found-some (some x) b h = ap some (ok-injective h)

pub redis-IsRedis : IsRedis redis contents
redis-IsRedis = record {
  get-found = λ key r b h. found-some (r key) b h;
  get-keeps = λ key r k b h. h;
  set-keeps = λ key x ttl r k b h. elim (Bool-cases (k == key)) [
    | inl here ↦ inr (sym (cc (rw here at h)))
    | inr away ↦ inl (rw away at h)
  ];
  del-keeps = λ key r k b h. elim (Bool-cases (k == key)) [
    | inl here ↦ absurd (cc (rw here at h))
    | inr away ↦ rw away at h
  ];
}

-- A coding that knows verified schemas only, and one of them.
abbrev pub coding : SchemaJson
coding = record {
  marshal = λ s. if s.status == status_verified then ok (2 ∷ []) else err (other "unknown");
  unmarshal = λ b. ok boot_verified;
}

pub coding-KeepsStatus : KeepsStatus coding
coding-KeepsStatus s s' b h read = elim (Bool-cases (s.status == status_verified)) [
  | inr differ ↦ absurd (cc (rw differ at h))
  | inl same ↦
      ap (λ (x : Schema). x.status) (sym (ok-injective read))
      ∙ sym ((eq_iff s.status status_verified).0 same)
]

abbrev pub world : Cell × Keys
world = (empty_cell, λ k. none)

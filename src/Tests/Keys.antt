-- ===== src/Tests/Keys.antt =====
-- The theorem on the cache's keys at a concrete key.
use chargeflow_registry.Prelude.{String, Option, some, ◌≡◌, ◌≢◌, false, true, ◌==◌, refl, ap}
use chargeflow_registry.Schema.CacheKey.{or_nil}
use chargeflow_registry.Schema.Model.{ocpp_version_16, message_type_request}
use chargeflow_registry.Schema.Keys.{IsPlain, cache_key-injective}

named : false ≢ true
named e = cc

boot-IsPlain :
    IsPlain ocpp_version_16 "BootNotification" message_type_request (some "ABB") (some "Terra:54")
boot-IsPlain = record {
  version_plain = refl;
  action_plain = refl;
  msg_type_plain = refl;
  vendor_plain = refl;
  vendor_named = λ e. named (ap (λ o. or_nil o == "nil") e);
  model_named = λ e. named (ap (λ o. or_nil o == "nil") e);
}

cache_key-injective_example :
    (ocpp_version_16 ≡ ocpp_version_16)
    × (◌≡◌ {A = String} "BootNotification" "BootNotification")
    × (message_type_request ≡ message_type_request)
    × (◌≡◌ {A = Option String} (some "ABB") (some "ABB"))
    × (◌≡◌ {A = Option String} (some "Terra:54") (some "Terra:54"))
cache_key-injective_example =
    cache_key-injective ocpp_version_16 ocpp_version_16 "BootNotification" "BootNotification"
      message_type_request message_type_request (some "ABB") (some "ABB") (some "Terra:54")
      (some "Terra:54") boot-IsPlain boot-IsPlain refl

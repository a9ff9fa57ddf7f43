-- ===== src/Schema/CacheKey.antt =====
-- `cacheKey` of internal/schema/service.go.
use chargeflow_registry.Prelude.{String, Option, none, some, ◌<>◌}
use chargeflow_registry.Schema.Model.{OcppVersion, MessageType}

-- `v := "nil"; if vendor != nil { v = *vendor }`
abbrev pub or_nil : Option String → String
or_nil none = "nil"
or_nil (some s) = s

unfoldable pub cache_key :
    OcppVersion → String → MessageType → Option String → Option String → String
cache_key version action msg_type vendor model =
    "schema:"
    <> version
    <> ":"
    <> action
    <> ":"
    <> msg_type
    <> ":"
    <> or_nil vendor
    <> ":"
    <> or_nil model

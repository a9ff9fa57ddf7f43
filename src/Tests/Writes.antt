-- ===== src/Tests/Writes.antt =====
-- A sequence of public writing calls at a concrete world.
use chargeflow_registry.Prelude.{none, some, [], ◌∷◌, List, pos, ◌≡◌, refl}
use chargeflow_registry.Schema.Model.{status_verified}
use chargeflow_registry.Postgres.Model.{SchemaEntity, to_entity}
use chargeflow_registry.Grpc.Handler
use chargeflow_registry.Mcp.Tools
use chargeflow_registry.Schema.Service
use chargeflow_registry.Postgres.Query.{in_slot}
use chargeflow_registry.Postgres.Repository as Rows
use chargeflow_registry.App.{repo, store, schema_service, schema_registry}
use chargeflow_registry.App.Public.{
  PublicWrite, by_upsert, by_register_tool, write_all, write_all-verified, write,
}
use chargeflow_registry.Tests.Cell.{cell, jsonb, view}
use chargeflow_registry.Tests.CellLaws.{cell-IsPostgres}
use chargeflow_registry.Tests.Messages.{lib}
use chargeflow_registry.Tests.Tools.{encoding, everything, shelf}
use chargeflow_registry.Tests.Worlds.{boot_verified, plain_json, redis, coding}

-- New content for the verified schema, and a pair without an action.
abbrev calls : List PublicWrite
calls =
    by_upsert (record {
      ocpp_version = pos 1;
      action = "BootNotification";
      message_type = pos 1;
      vendor = none;
      model = none;
      schema = 9 ∷ [];
    })
    ∷ by_register_tool everything
    ∷ []

abbrev rewritten : SchemaEntity
rewritten = record (to_entity boot_verified) { schema = 9 ∷ []; version = 2; updated_at = 6 }

rewritten-there :
    (view (write_all cell plain_json redis coding 60 lib encoding calls shelf).0).rows 7
    ≡ some rewritten
unfolding write_all write Tools.register_schema schema_registry Service.add_pair repo store
    Rows.repository Rows.insert_with_changelog Handler.upsert_schema schema_service Service.upsert
    Rows.upsert_in in_slot to_entity Rows.update_content Rows.json_content_equal
rewritten-there = refl

write_all-verified_example :
    (x : SchemaEntity) × ((view shelf.0).rows 7 ≡ some x) × (x.status ≡ status_verified)
unfolding to_entity
write_all-verified_example =
    write_all-verified cell plain_json redis coding 60 lib encoding jsonb view cell-IsPostgres calls
      shelf 7 rewritten rewritten-there refl

-- ===== src/Tests/Service.antt =====
-- The theorems on the service over PostgreSQL and Redis, at the concrete worlds.
use chargeflow_registry.Prelude.{
  ok, some, [], ◌∷◌, pos, nat_eq, ◌&&◌, if◌then◌else◌, Result, none, ◌≡◌, refl, err, ◌⊎◌,
}
use chargeflow_registry.Errors.{Error, sentinel, wrapped, err_already_exists}
use chargeflow_registry.Schema.Model.{
  Schema, ocpp_version_16, message_type_request, status_verified,
}
use chargeflow_registry.Schema.Ports.{Repository, Cache}
use chargeflow_registry.Schema.Service
use chargeflow_registry.Schema.Service.{add_pair}
use chargeflow_registry.Schema.Steps.{Reachable, here, next, by_add, by_change_status}
use chargeflow_registry.Postgres.Model.{
  SchemaVersionEntity, to_entity, to_domain, to_version_domain,
}
use chargeflow_registry.Postgres.Query.{is_verified_generic}
use chargeflow_registry.Postgres.Changelog.{IsVersioned}
use chargeflow_registry.Postgres.Repository.{
  repository, add, insert_with_changelog, get, get_generic, update_status, reread, get_version,
}
use chargeflow_registry.Redis.Store as Store
use chargeflow_registry.App.{repo, store}
use chargeflow_registry.App.Versions.{Reachable-IsVersioned}
use chargeflow_registry.App.Serving.{served-verified}
use chargeflow_registry.App.Archive.{Archived, current, get_version-Archived}
use chargeflow_registry.App.Pairs.{add_pair-err, delete_slot}
use chargeflow_registry.Tests.Cell.{Cell, cell, jsonb, view}
use chargeflow_registry.Tests.CellLaws.{cell-IsPostgres}
use chargeflow_registry.Tests.Worlds.{
  boot, boot_response, boot_verified, empty_cell, plain_json, Keys, contents, redis, redis-IsRedis,
  coding, coding-KeepsStatus, world,
}

abbrev the_repo : Repository (Cell × Keys)
the_repo = repo cell plain_json redis coding 60

abbrev the_store : Cache (Cell × Keys)
the_store = store cell plain_json redis coding 60

-- A schema is added, and then verified.
abbrev later : Cell × Keys
later =
    (Service.change_status the_repo the_store 7 status_verified
      (Service.add the_repo the_store boot world).1).1

path : Reachable the_repo the_store world later
path = next (next here (by_add boot)) (by_change_status 7 status_verified)

empty-IsVersioned : IsVersioned (view world.0)
empty-IsVersioned = record { at_id = λ id n. refl }

Reachable-IsVersioned_example : IsVersioned (view later.0)
Reachable-IsVersioned_example =
    Reachable-IsVersioned cell plain_json redis coding 60 jsonb view cell-IsPostgres world later
      empty-IsVersioned path

served-verified_example : boot_verified.status ≡ status_verified
served-verified_example =
    served-verified cell plain_json redis coding 60 contents jsonb view cell-IsPostgres
      redis-IsRedis coding-KeepsStatus world later ocpp_version_16 "BootNotification"
      message_type_request none none boot_verified (λ key. refl) path
      (unfold Service.get Service.change_status Service.add repo store repository Store.cache
          Store.get Store.set Store.delete add insert_with_changelog to_entity to_domain get
          get_generic is_verified_generic update_status reread in
        refl)

-- There is no room for the response, so the request goes too.
add_pair-err_example :
    (view (add_pair the_repo the_store boot boot_response world).1.0 ≡ view empty_cell)
    ⊎ ((e : Error) × ((delete_slot cell plain_json redis coding 60 jsonb view cell-IsPostgres boot
            (add cell boot_response (add cell boot empty_cell).1).1).0
          ≡ err e))
add_pair-err_example =
    add_pair-err cell plain_json redis coding 60 jsonb view cell-IsPostgres boot boot_response world
      (wrapped "add response schema" (sentinel err_already_exists)) empty-IsVersioned
      (unfold Service.add_pair Service.delete_one repo store repository add insert_with_changelog
          to_entity in
        refl)

-- The second version is the current one, and the first one is asked for.
abbrev first_version : SchemaVersionEntity
first_version = record { id = 9; schema_id = 7; version = 1; schema = 1 ∷ []; created_at = 5 }

abbrev boot_second : Schema
boot_second = record boot_verified { version = 2; schema = 3 ∷ [] }

abbrev boot_first : Schema
boot_first = record boot_verified { updated_at = 5 }

abbrev renewed : Cell × Keys
renewed = (
  (
    some (to_entity boot_second),
    λ id n. if nat_eq 7 id && nat_eq 1 n then some first_version else none,
  ),
  λ k. none,
)

abbrev current_boot : Cell × Keys → Result Error Schema × (Cell × Keys)
current_boot =
    current cell plain_json redis coding 60 jsonb view cell-IsPostgres ocpp_version_16
      "BootNotification" message_type_request none none

get_version-Archived_example :
    (sc : Schema) × ((current_boot renewed).0 ≡ ok sc)
    × (pos 1 ≡ pos 1)
    × ((boot_first ≡ sc) ⊎ Archived (view (current_boot renewed).1.0) sc boot_first)
get_version-Archived_example =
    get_version-Archived cell plain_json redis coding 60 jsonb view cell-IsPostgres ocpp_version_16
      "BootNotification" message_type_request none none (pos 1) renewed boot_first
      (unfold Service.get_version Service.get repo store repository Store.cache Store.get Store.set
          get get_generic get_version is_verified_generic to_entity to_domain to_version_domain in
        refl)

-- ===== src/Tests/Busy.antt =====
-- The theorems on calls that overlap, at the concrete worlds.
use chargeflow_registry.Prelude.{List, none, [], ◌∷◌, ◌≡◌, refl}
use chargeflow_registry.Schema.Model.{
  ocpp_version_16, message_type_request, status_verified, status_rejected,
}
use chargeflow_registry.Schema.Service
use chargeflow_registry.Schema.Overlap.{repo_update_status, repo_get}
use chargeflow_registry.Schema.Steps.{Reachable, here, next, by_add, by_change_status}
use chargeflow_registry.Postgres.Model.{to_entity, to_domain}
use chargeflow_registry.Postgres.Query.{is_verified_generic}
use chargeflow_registry.Postgres.Changelog.{IsVersioned}
use chargeflow_registry.Postgres.Repository.{
  repository, add, insert_with_changelog, get, get_generic, update_status, reread,
}
use chargeflow_registry.Redis.Store as Store
use chargeflow_registry.App.{repo, store}
use chargeflow_registry.App.Registry.{History}
use chargeflow_registry.Schema.Recording.{Write}
use chargeflow_registry.App.Concurrent.{
  Schedules, RecordedSchedules, recorded_repo, recorded_store, busy_repo, busy_store,
  overlapped-IsVersioned, overlapped-History, overlapped-verified,
}
use chargeflow_registry.Tests.Cell.{Cell, cell, jsonb, view}
use chargeflow_registry.Tests.CellLaws.{cell-IsPostgres}
use chargeflow_registry.Tests.Refinements.{nothing, nothing-Represents}
use chargeflow_registry.Tests.Worlds.{
  boot, boot_verified, plain_json, Keys, contents, redis, redis-IsRedis, coding, coding-KeepsStatus,
  world,
}

abbrev Busy : Type 0
Busy = (Cell × Keys) × Schedules cell plain_json redis coding 60

-- Somebody rejects the schema before it is verified, and somebody else looks it up.
abbrev crowded : Busy
crowded = (
  world,
  []
      ∷ (repo_update_status 7 status_rejected ∷ [])
      ∷ (repo_get ocpp_version_16 "BootNotification" message_type_request none none ∷ [])
      ∷ [],
)

abbrev served : Busy
served =
    (Service.change_status (busy_repo cell plain_json redis coding 60)
      (busy_store cell plain_json redis coding 60) 7 status_verified
      (Service.add (busy_repo cell plain_json redis coding 60)
        (busy_store cell plain_json redis coding 60) boot crowded).1).1

path :
    Reachable
      (busy_repo cell plain_json redis coding 60)
      (busy_store cell plain_json redis coding 60)
      crowded
      served
path = next (next here (by_add boot)) (by_change_status 7 status_verified)

overlapped-IsVersioned_example : IsVersioned (view served.0.0)
overlapped-IsVersioned_example =
    overlapped-IsVersioned cell plain_json redis coding 60 jsonb view cell-IsPostgres crowded served
      (record { at_id = λ id n. refl }) path

abbrev Recorded : Type 0
Recorded = ((Cell × Keys) × List Write) × RecordedSchedules cell plain_json redis coding 60

abbrev crowded_record : Recorded
crowded_record = (
  (world, []),
  []
      ∷ (repo_update_status 7 status_rejected ∷ [])
      ∷ (repo_get ocpp_version_16 "BootNotification" message_type_request none none ∷ [])
      ∷ [],
)

abbrev served_record : Recorded
served_record =
    (Service.change_status (recorded_repo cell plain_json redis coding 60)
      (recorded_store cell plain_json redis coding 60) 7 status_verified
      (Service.add (recorded_repo cell plain_json redis coding 60)
        (recorded_store cell plain_json redis coding 60) boot crowded_record).1).1

recorded_path :
    Reachable
      (recorded_repo cell plain_json redis coding 60)
      (recorded_store cell plain_json redis coding 60)
      crowded_record
      served_record
recorded_path = next (next here (by_add boot)) (by_change_status 7 status_verified)

overlapped-History_example :
    History jsonb plain_json nothing served_record.0.1 (view served_record.0.0.0).rows
overlapped-History_example =
    overlapped-History cell plain_json redis coding 60 jsonb view cell-IsPostgres nothing
      crowded_record served_record nothing-Represents refl recorded_path

overlapped-verified_example : boot_verified.status ≡ status_verified
overlapped-verified_example =
    overlapped-verified cell plain_json redis coding 60 jsonb view cell-IsPostgres contents
      redis-IsRedis coding-KeepsStatus crowded served ocpp_version_16 "BootNotification"
      message_type_request none none boot_verified (λ key. refl) path
      (unfold Service.get Service.change_status Service.add repo store repository Store.cache
          Store.get Store.set Store.delete add insert_with_changelog to_entity to_domain get
          get_generic is_verified_generic update_status reread in
        refl)

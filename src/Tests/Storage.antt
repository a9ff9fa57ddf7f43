-- ===== src/Tests/Storage.antt =====
-- The storage theorems at a database of one schema.
use chargeflow_registry.Prelude.{none, some, [], ◌∷◌, ◌≡◌, refl, ok}
use chargeflow_registry.Errors.{Error, sentinel, wrapped, err_not_found, err_already_exists}
use chargeflow_registry.Schema.Model.{Schema, ocpp_version_16, message_type_request}
use chargeflow_registry.Postgres.Model.{to_entity, to_domain}
use chargeflow_registry.Postgres.Query.{in_slot, is_verified_in_slot, is_verified_generic}
use chargeflow_registry.Postgres.Changelog.{IsVersioned}
use chargeflow_registry.Postgres.Repository.{
  add, upsert, upsert_in, get, get_generic, get_specific, insert_with_changelog, update_content,
  json_content_equal, with_identity,
}
use chargeflow_registry.Postgres.Insertion.{Inserted, add-Inserted}
use chargeflow_registry.Postgres.Versions.{add-IsVersioned}
use chargeflow_registry.Postgres.Upsert.{UpsertOutcome, upsert-outcome}
use chargeflow_registry.Postgres.Evolution.{RowEvolves, upsert-evolves}
use chargeflow_registry.Postgres.Lookup.{Serves, NoneVerified, get-Serves, get-not_found}
use chargeflow_registry.Tests.Cell.{Cell, cell, jsonb, view}
use chargeflow_registry.Tests.CellLaws.{cell-IsPostgres}
use chargeflow_registry.Tests.Worlds.{boot, boot_added, boot_verified, empty_cell, plain_json}

boot_is_added : (add cell boot empty_cell).0 ≡ ok boot_added
unfolding add insert_with_changelog to_entity
boot_is_added = refl

add-Inserted_example :
    (boot_added ≡ with_identity boot (7, 1))
    × Inserted jsonb (view empty_cell) (view (add cell boot empty_cell).1) (to_entity boot) (7, 1)
add-Inserted_example =
    add-Inserted cell jsonb view cell-IsPostgres boot empty_cell boot_added boot_is_added

abbrev with_boot : Cell
unfolding add insert_with_changelog to_entity
with_boot = (add cell boot empty_cell).1

-- There is room for one schema only.
abbrev full : Error
full = wrapped "add schema" (sentinel err_already_exists)

-- The same slot with other content.
abbrev boot_again : Schema
boot_again = record boot { schema = 3 ∷ [] }

abbrev boot_renewed : Schema
boot_renewed = record boot_again { id = 7; version = 2 }

upsert-outcome_example :
    (boot_renewed ≡ with_identity boot_again (7, 2))
    × UpsertOutcome jsonb plain_json
        (view with_boot)
        (view (upsert cell plain_json boot_again with_boot).1)
        boot_again
        (7, 2)
upsert-outcome_example =
    upsert-outcome cell jsonb view cell-IsPostgres plain_json boot_again with_boot boot_renewed
      (unfold with_boot upsert upsert_in update_content json_content_equal in_slot in refl)

empty-IsVersioned : IsVersioned (view empty_cell)
empty-IsVersioned = record { at_id = λ id n. refl }

with_boot-IsVersioned : IsVersioned (view with_boot)
unfolding add insert_with_changelog to_entity
with_boot-IsVersioned =
    add-IsVersioned cell jsonb view cell-IsPostgres boot empty_cell empty-IsVersioned

upsert-evolves_example :
    RowEvolves
      ((view with_boot).rows 7)
      ((view (upsert cell plain_json boot_again with_boot).1).rows 7)
upsert-evolves_example =
    upsert-evolves cell jsonb view cell-IsPostgres plain_json boot_again with_boot
      with_boot-IsVersioned 7

-- The row once it is verified.
abbrev with_verified : Cell
with_verified = (some (to_entity boot_verified), λ id n. none)

get-Serves_example :
    Serves ocpp_version_16 "BootNotification" message_type_request
      (view with_verified)
      (some "V")
      none
      boot_verified
get-Serves_example =
    get-Serves ocpp_version_16 "BootNotification" message_type_request cell jsonb view
      cell-IsPostgres (some "V") none with_verified boot_verified
      (unfold get get_specific get_generic is_verified_in_slot is_verified_generic to_entity
          to_domain in
        refl)

get-not_found_example :
    NoneVerified ocpp_version_16 "BootNotification" message_type_request
      (some "V")
      none
      (view with_boot)
    × NoneVerified ocpp_version_16 "BootNotification" message_type_request none none
        (view with_boot)
get-not_found_example =
    get-not_found ocpp_version_16 "BootNotification" message_type_request cell jsonb view
      cell-IsPostgres (some "V") none with_boot (sentinel err_not_found)
      (unfold with_boot get get_specific get_generic is_verified_in_slot is_verified_generic in
        refl)
      refl

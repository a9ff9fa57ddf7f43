-- ===== src/Tests/Refinements.antt =====
-- The refinement theorems at a database of one schema.
use chargeflow_registry.Prelude.{none, some, refl}
use chargeflow_registry.Schema.Model.{status_rejected, ocpp_version_16, message_type_request}
use chargeflow_registry.Postgres.Model.{SchemaEntity, to_entity}
use chargeflow_registry.Postgres.Repository.{add, upsert, delete, update_status, get}
use chargeflow_registry.Postgres.Spec.{Slot, Registry, put}
use chargeflow_registry.Postgres.Represents.{Represents, slot_of, item_of}
use chargeflow_registry.Postgres.Represents.Changes.{insert-Represents}
use chargeflow_registry.Postgres.Outcomes.{Addition, Upsertion, Deletion, Restatus, Lookup}
use chargeflow_registry.Postgres.Refinement.{add-Addition, delete-Deletion, update_status-Restatus}
use chargeflow_registry.Postgres.Refinement.Upsert.{upsert-Upsertion}
use chargeflow_registry.Postgres.Refinement.Get.{get-Lookup}
use chargeflow_registry.Tests.Cell.{Cell, cell, jsonb, view}
use chargeflow_registry.Tests.CellLaws.{cell-IsPostgres}
use chargeflow_registry.Tests.Worlds.{boot, boot, boot_verified, empty_cell, plain_json}

abbrev pub nothing : Registry
nothing = λ slot. none

pub nothing-Represents : Represents (view empty_cell).rows nothing
nothing-Represents = record {
  sound = λ id e there. absurd (cc there);
  keyed = λ id e there. absurd (cc there);
  complete = λ slot i full. absurd (cc full);
}

abbrev row : SchemaEntity
row = to_entity boot_verified

-- The generic slot of BootNotification holds a verified schema.
abbrev stocked : Cell
stocked = (some row, λ id n. none)

abbrev shelf : Registry
shelf = put (slot_of row) (some (item_of row)) nothing

stocked-Represents : Represents (view stocked).rows shelf
stocked-Represents =
    insert-Represents (view empty_cell).rows nothing nothing-Represents row refl
      (λ id x there. absurd (cc there))

add-Addition_example :
    Addition nothing
      (view (add cell boot empty_cell).1).rows
      jsonb
      boot
      (add cell boot empty_cell).0
add-Addition_example =
    add-Addition cell jsonb view cell-IsPostgres boot empty_cell nothing nothing-Represents

upsert-Upsertion_example :
    Upsertion shelf
      (view (upsert cell plain_json boot stocked).1).rows
      jsonb
      plain_json
      boot
      (upsert cell plain_json boot stocked).0
upsert-Upsertion_example =
    upsert-Upsertion cell jsonb view cell-IsPostgres plain_json boot stocked shelf
      stocked-Represents

abbrev boot_slot : Slot
boot_slot = record {
  ocpp_version = ocpp_version_16;
  action = "BootNotification";
  message_type = message_type_request;
  vendor = none;
  model = none;
}

abbrev vendor_slot : Slot
vendor_slot = record boot_slot { vendor = some "V" }

delete-Deletion_example :
    Deletion shelf
      (view
        (delete cell ocpp_version_16 "BootNotification" message_type_request none none
          stocked).1).rows
      boot_slot
      (delete cell ocpp_version_16 "BootNotification" message_type_request none none stocked).0
delete-Deletion_example =
    delete-Deletion cell jsonb view cell-IsPostgres boot_slot stocked shelf stocked-Represents

update_status-Restatus_example :
    Restatus shelf
      (view (update_status cell 7 status_rejected stocked).1).rows
      7
      status_rejected
      (update_status cell 7 status_rejected stocked).0
update_status-Restatus_example =
    update_status-Restatus cell jsonb view cell-IsPostgres 7 status_rejected stocked shelf
      stocked-Represents

get-Lookup_example :
    Lookup shelf
      (view
        (get cell ocpp_version_16 "BootNotification" message_type_request
          (some "V")
          none
          stocked).1).rows
      vendor_slot
      (get cell ocpp_version_16 "BootNotification" message_type_request (some "V") none stocked).0
get-Lookup_example =
    get-Lookup cell jsonb view cell-IsPostgres vendor_slot stocked shelf stocked-Represents

-- ===== src/Schema/Ports.antt =====
-- The interfaces of internal/schema/repository.go. An implementation works on a state `W`. A
-- method that takes `schema *Schema` and writes its `ID` and `Version` returns the schema as
-- the call leaves it.
use chargeflow_registry.Prelude.{ℕ, String, Option, List, ℤ, Exec}
use chargeflow_registry.Errors.{Error}
use chargeflow_registry.Schema.Model.{
  OcppVersion, MessageType, Status, Uuid, Schema, SchemaVersion, VendorModel,
}

abbrev pub default_page_size : ℕ
default_page_size = 50

abbrev pub max_page_size : ℕ
max_page_size = 200

pub record Repository (W : Type 0) : Type 0 where
  pub get : OcppVersion → String → MessageType → Option String → Option String → Exec W Error Schema
  pub list :
      OcppVersion
      → (vendor model action : Option String) → Option MessageType
      → Option Status
      → (limit offset : ℕ) → Exec W Error (List Schema × ℤ)
  pub add : Schema → Exec W Error Schema
  pub upsert : Schema → Exec W Error Schema
  pub delete :
      OcppVersion → String → MessageType → Option String → Option String → Exec W Error (Unit {0})
  pub update_status : Uuid → Status → Exec W Error Schema
  pub list_vendor_models :
      String → List String → (limit offset : ℕ) → Exec W Error (List VendorModel × ℤ)
  pub list_versions : Uuid → (limit offset : ℕ) → Exec W Error (List SchemaVersion × ℤ)
  pub get_version : Uuid → ℤ → Exec W Error SchemaVersion

pub record Cache (W : Type 0) : Type 0 where
  pub get : String → Exec W Error Schema
  pub set : String → Schema → Exec W Error (Unit {0})
  pub delete : String → Exec W Error (Unit {0})

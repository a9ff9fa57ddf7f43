-- ===== src/Grpc/Ports.antt =====
-- The service interfaces that the handlers are written against: SchemaService of
-- internal/grpc/handler.go, AdminService of admin_handler.go and ValidationService of
-- validation_handler.go.
use chargeflow_registry.Prelude.{ℕ, String, Option, List, ℤ, Exec}
use chargeflow_registry.Errors.{Error}
use chargeflow_registry.Schema.Model.{
  OcppVersion, MessageType, Status, Uuid, Schema, SchemaVersion, VendorModel,
}
use chargeflow_registry.Validation.Service.{Request, BulkRequest, ValidityReport, ReportEntry}

pub record SchemaService (W : Type 0) : Type 0 where
  pub add_pair : Schema → Schema → Exec W Error (Unit {0})
  pub upsert : Schema → Exec W Error Schema
  pub delete : OcppVersion → String → Option String → Option String → Exec W Error (Unit {0})
  pub list_vendor_models :
      String → List String → (limit offset : ℕ) → Exec W Error (List VendorModel × ℤ)
  pub list :
      OcppVersion
      → (vendor model action : Option String) → Option MessageType
      → Option Status
      → (limit offset : ℕ) → Exec W Error (List Schema × ℤ)
  pub list_versions : Uuid → (limit offset : ℕ) → Exec W Error (List SchemaVersion × ℤ)

pub record AdminService (W : Type 0) : Type 0 where
  pub list :
      OcppVersion
      → (vendor model action : Option String) → Option MessageType
      → Option Status
      → (limit offset : ℕ) → Exec W Error (List Schema × ℤ)
  pub change_status : Uuid → Status → Exec W Error Schema

pub record ValidationService (W : Type 0) : Type 0 where
  pub validate_message : Request → Exec W Error ValidityReport
  pub validate_messages : BulkRequest → Exec W Error (List ReportEntry)

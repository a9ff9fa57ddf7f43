-- ===== src/Schema/Deletion.antt =====
-- What `Service.Delete` of internal/schema/service.go reports.
use chargeflow_registry.Prelude.{String, ◌≡◌, ◌↔◌, Option, true, arith, err}
use chargeflow_registry.Errors.{Error, sentinel, err_not_found}
use chargeflow_registry.Schema.Model.{OcppVersion, message_type_request, message_type_response}
use chargeflow_registry.Schema.Ports.{Repository, Cache}
use chargeflow_registry.Schema.Service.{failed_with_not_found, delete_one, delete}

module _ {W : Type 0} (repo : Repository W) (cache : Cache W) where
  -- The service's Delete returns an error exactly when the deletions of the request and of the
  -- response both failed with ErrNotFound, and the error is then ErrNotFound itself: any other
  -- failure of either deletion is reported as a success.
  pub delete-eq-err_iff :
      (version : OcppVersion) (action : String) (vendor model : Option String) (w : W) (e : Error)
      → ((delete repo cache version action vendor model w).0 ≡ err e) ↔ (
          (e ≡ sentinel err_not_found)
          × (failed_with_not_found
                (delete_one repo cache version action message_type_request vendor model w).0
              ≡ true)
          × (failed_with_not_found
                (delete_one repo cache version action message_type_response vendor model
                  (delete_one repo cache version action message_type_request vendor model w).1).0
              ≡ true))
  unfolding delete
  delete-eq-err_iff version action vendor model w e = (λ h. ground arith, λ h. ground arith)

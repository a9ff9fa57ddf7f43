-- ===== src/App/Deletions.antt =====
-- `DeleteSchema` of internal/grpc/handler.go over `Service.Delete` of internal/schema/service.go.
use chargeflow_registry.Prelude.{◌≡◌, ◌≢◌, err}
use chargeflow_registry.Errors.{RpcStatus, internal}
use chargeflow_registry.Schema.Ports.{Repository, Cache}
use chargeflow_registry.Schema.Deletion.{delete-eq-err_iff}
use chargeflow_registry.Grpc.Messages.{DeleteSchemaRequest}
use chargeflow_registry.Grpc.Mapping.{ocpp_version_to_domain}
use chargeflow_registry.Grpc.Requests.{delete_schema-internal}
use chargeflow_registry.Grpc.Handler.{delete_schema}
use chargeflow_registry.App.{schema_service}

module _ {W : Type 0} (repo : Repository W) (store : Cache W) where
  -- An error status of DeleteSchema over the service is never Internal, whatever goes wrong in the
  -- repository or in the cache.
  pub delete_schema-ne-internal :
      (req : DeleteSchemaRequest) (w : W) (m : RpcStatus)
      → (delete_schema (schema_service repo store) req w).0 ≡ err m
      → m.code ≢ internal
  unfolding schema_service
  delete_schema-ne-internal req w m p c =
      let (e, failed, other) = delete_schema-internal (schema_service repo store) req w m p c in
      let (missing, _, _) =
        (delete-eq-err_iff repo store (ocpp_version_to_domain req.ocpp_version) req.action
            req.vendor req.model w e).0
          failed in
      cc (rw missing at other)

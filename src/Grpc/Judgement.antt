-- ===== src/Grpc/Judgement.antt =====
-- `ChangeStatus` of internal/grpc/admin_handler.go.
use chargeflow_registry.Prelude.{
  none, ◌≢◌, ℤ, pos, int_eq, ◌≡◌, refl, ◌⊎◌, inl, inr, true, ◌||◌, Bool-cases, Option-cases,
  Result-cases, err, some, arith,
}
use chargeflow_registry.Errors.{RpcStatus, status_error, invalid_argument}
use chargeflow_registry.Schema.Model.{Uuid, Status, status_verified, status_rejected}
use chargeflow_registry.Grpc.Messages.{
  schema_status_verified, schema_status_rejected, ChangeStatusRequest,
}
use chargeflow_registry.Grpc.Mapping.{Wire, schema_status_to_domain}
use chargeflow_registry.Grpc.Ports.{AdminService}
use chargeflow_registry.Grpc.AdminHandler.{change_status}

-- The status that a request names for a judgement.
abbrev pub IsJudgement : ℤ → Status → Type 0
IsJudgement x status =
    ((x ≡ schema_status_verified) × (status ≡ status_verified))
    ⊎ ((x ≡ schema_status_rejected) × (status ≡ status_rejected))

module _ {W T : Type 0} (service : AdminService W) (wire : Wire T) where
  -- Given a schema's id and a judgement, the handler's effect is the service's.
  handler-service :
      (req : ChangeStatusRequest) (w : W) (id : Uuid)
      → wire.parse_uuid req.schema_id ≡ some id
      → (int_eq req.status (pos 2) || int_eq req.status (pos 3)) ≡ true
      → (change_status service wire req w).1
        ≡ (service.change_status id (schema_status_to_domain req.status) w).1
  unfolding change_status
  handler-service req w id named judged =
      elim (Result-cases (service.change_status id (schema_status_to_domain req.status) w).0) [
        | inl (s, done) ↦ rw (named, judged, done, change_status) refl
        | inr (e, failed) ↦ rw (named, judged, failed, change_status) refl
      ]

  judgement :
      (x : ℤ)
      → (int_eq x (pos 2) || int_eq x (pos 3)) ≡ true
      → IsJudgement x (schema_status_to_domain x)
  unfolding schema_status_to_domain
  judgement x h = ground arith

  -- A request of the admin's ChangeStatus with a schema's id and the status verified or rejected
  -- has the effect of the service's ChangeStatus with that id and that status; any other request,
  -- whose id is none or whose status is neither of the two, gets InvalidArgument and leaves the
  -- state alone.
  pub change_status-judges :
      (req : ChangeStatusRequest) (w : W)
      → ((id : Uuid) × (status : Status) × (wire.parse_uuid req.schema_id ≡ some id)
          × IsJudgement req.status status
          × ((change_status service wire req w).1 ≡ (service.change_status id status w).1))
        ⊎ ((m : RpcStatus) × (m.code ≡ invalid_argument)
            × (change_status service wire req w ≡ (err m, w))
            × ((wire.parse_uuid req.schema_id ≡ none)
                ⊎ ((req.status ≢ schema_status_verified) × (req.status ≢ schema_status_rejected))))
  unfolding change_status
  change_status-judges req w = elim (Option-cases (wire.parse_uuid req.schema_id)) [
    | inl bad ↦ inr (
      status_error invalid_argument "invalid schema_id",
      refl,
      rw (bad, change_status) refl,
      inl bad,
    )
    | inr (id, named) ↦ elim (Bool-cases (int_eq req.status (pos 2) || int_eq req.status (pos 3))) [
      | inl judged ↦ inl (
        id,
        schema_status_to_domain req.status,
        named,
        judgement req.status judged,
        handler-service req w id named judged,
      )
      | inr other ↦ inr (
        status_error invalid_argument "status must be verified or rejected",
        refl,
        rw (named, other, change_status) refl,
        inr (λ p. ground arith, λ p. ground arith),
      )
    ]
  ]

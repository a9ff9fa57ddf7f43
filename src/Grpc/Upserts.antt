-- ===== src/Grpc/Upserts.antt =====
-- Which requests `UpsertSchema` of internal/grpc/handler.go refuses.
use chargeflow_registry.Prelude.{
  ◌≡◌, ◌↔◌, ◌⊎◌, inl, inr, refl, pos, int_eq, ◌||◌, true, false, ok, err, arith, ◌==◌, Result-cases,
  Bool-cases,
}
use chargeflow_registry.Errors.{RpcStatus, invalid_argument}
use chargeflow_registry.Grpc.Messages.{UpsertSchemaRequest, MessageType, message_type_unspecified}
use chargeflow_registry.Grpc.Ports.{SchemaService}
use chargeflow_registry.Grpc.Checks.{
  Check, ◌then_check◌, refuse_if, is_empty, validate_ocpp_version, validate_action_key,
  validate_schema_key, validate_vendor_model,
}
use chargeflow_registry.Grpc.Handler.{upsert_schema}
use chargeflow_registry.Grpc.Requests.{NamesAction, ocpp_version_lem, vendor_model_lem}

abbrev upsert_check : UpsertSchemaRequest → Check
upsert_check req =
    validate_schema_key req.ocpp_version req.action req.message_type
    then_check validate_vendor_model req.vendor req.model
    then_check refuse_if (is_empty req.schema) "schema is required"

abbrev pub IsWhole : UpsertSchemaRequest → Type 0
IsWhole req =
    NamesAction req.ocpp_version req.action req.vendor req.model
    × ((req.message_type ≡ pos 1) ⊎ (req.message_type ≡ pos 2))
    × (is_empty req.schema ≡ false)

message_type_lem :
    (t : MessageType) → (int_eq t (pos 1) || int_eq t (pos 2)) ≡ true → (t ≡ pos 1) ⊎ (t ≡ pos 2)
message_type_lem t p = ground arith

upsert_check-ok : (req : UpsertSchemaRequest) → upsert_check req ≡ ok tt → IsWhole req
unfolding validate_schema_key validate_action_key
upsert_check-ok req h = elim (Result-cases (validate_ocpp_version req.ocpp_version)) [
  | inr (e, bad) ↦ absurd (cc (rw bad at h))
  | inl (tt, known) ↦ elim (Bool-cases (req.action == "")) [
    | inl bad ↦ absurd (cc (rw (known, bad) at h))
    | inr given ↦ elim (Bool-cases (int_eq req.message_type message_type_unspecified)) [
      | inl bad ↦ absurd (cc (rw (known, given, bad) at h))
      | inr chosen ↦
          elim (Bool-cases (int_eq req.message_type (pos 1) || int_eq req.message_type (pos 2))) [
            | inr bad ↦ absurd (cc (rw (known, given, chosen, bad) at h))
            | inl named ↦ elim (Result-cases (validate_vendor_model req.vendor req.model)) [
              | inr (e, bad) ↦ absurd (cc (rw (known, given, chosen, named, bad) at h))
              | inl (tt, both) ↦ elim (Bool-cases (is_empty req.schema)) [
                | inl bad ↦ absurd (cc (rw (known, given, chosen, named, both, bad) at h))
                | inr filled ↦ (
                  record {
                    version_known = (ocpp_version_lem req.ocpp_version).0 known;
                    action_given = given;
                    vendor_given = (vendor_model_lem req.vendor req.model).0 both;
                  },
                  message_type_lem req.message_type named,
                  filled,
                )
              ]
            ]
          ]
    ]
  ]
]

upsert_check-whole : (req : UpsertSchemaRequest) → IsWhole req → upsert_check req ≡ ok tt
unfolding validate_schema_key validate_action_key
upsert_check-whole req (n, kind, filled) =
    let known = (ocpp_version_lem req.ocpp_version).1 n.version_known in
    let both = (vendor_model_lem req.vendor req.model).1 n.vendor_given in
    elim kind [
      | inl one ↦ rw (known, n.action_given, one, both, filled) refl
      | inr two ↦ rw (known, n.action_given, two, both, filled) refl
    ]

upsert_check-invalid :
    (req : UpsertSchemaRequest) (m : RpcStatus)
    → upsert_check req ≡ err m
    → m.code ≡ invalid_argument
unfolding validate_schema_key validate_action_key validate_ocpp_version validate_vendor_model
upsert_check-invalid req m h = ground arith

module _ {W : Type 0} (service : SchemaService W) where
  -- UpsertSchema returns InvalidArgument with the state untouched exactly to a request that lacks
  -- one of these: a known OCPP version, an action, a vendor where there is a model, the message
  -- type of a request or of a response, a schema.
  pub upsert_schema-refuses_iff :
      (req : UpsertSchemaRequest) (w : W)
      → ((m : RpcStatus) × (upsert_schema service req w ≡ (err m, w)) × (m.code ≡ invalid_argument))
        ↔ (¬ IsWhole req)
  unfolding upsert_schema
  upsert_schema-refuses_iff req w = elim (Result-cases (upsert_check req)) [
    | inl (tt, good) ↦ (
      λ (m, h, code) n. ground (arith, good, h, code),
      λ n. absurd (n (upsert_check-ok req good)),
    )
    | inr (m, bad) ↦ (
      λ x n. absurd (cc (upsert_check-whole req n, bad)),
      λ n. (m, rw bad refl, upsert_check-invalid req m bad),
    )
  ]

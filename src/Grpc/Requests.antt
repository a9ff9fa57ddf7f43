-- ===== src/Grpc/Requests.antt =====
-- Which requests the handlers of internal/grpc/handler.go refuse.
use chargeflow_registry.Prelude.{
  ap, String, Option, none, some, ◌≡◌, ◌↔◌, ◌⊎◌, inl, inr, refl, pos, false, ok, err, arith, ◌==◌,
  Result-cases, Bool-cases,
}
use chargeflow_registry.Errors.{
  internal, err_not_found, status_error, RpcStatus, invalid_argument, Error, is,
}
use chargeflow_registry.Grpc.Messages.{AddSchemaRequest, DeleteSchemaRequest, OcppVersion}
use chargeflow_registry.Grpc.Mapping.{ocpp_version_to_domain}
use chargeflow_registry.Grpc.Ports.{SchemaService}
use chargeflow_registry.Grpc.Checks.{
  refuse_if, is_empty, Check, ◌then_check◌, validate_ocpp_version, validate_action_key,
  validate_vendor_model,
}
use chargeflow_registry.Grpc.Handler.{add_schema, delete_schema}

-- A known version, an action, and a vendor wherever there is a model.
pub record NamesAction (version : OcppVersion) (action : String) (vendor model : Option String)
    : Type 0 where
  pub version_known : (version ≡ pos 1) ⊎ (version ≡ pos 2) ⊎ (version ≡ pos 3)
  pub action_given : (action == "") ≡ false
  pub vendor_given : (model ≡ none) ⊎ ((v : String) × (vendor ≡ some v))

pub ocpp_version_lem :
    (version : OcppVersion)
    → ((validate_ocpp_version version) ≡ ok tt)
      ↔ ((version ≡ pos 1) ⊎ (version ≡ pos 2) ⊎ (version ≡ pos 3))
unfolding validate_ocpp_version
ocpp_version_lem version = (λ h. ground arith, λ h. ground arith)

pub vendor_model_lem :
    (vendor model : Option String)
    → ((validate_vendor_model vendor model) ≡ ok tt)
      ↔ ((model ≡ none) ⊎ ((v : String) × (vendor ≡ some v)))
unfolding validate_vendor_model
vendor_model_lem vendor none = (λ h. inl refl, λ h. refl)
vendor_model_lem none (some m) = (λ h. absurd (cc h), λ h. ground arith)
vendor_model_lem (some v) (some m) = (λ h. inr (v, refl), λ h. refl)

pub action_check : OcppVersion → String → Option String → Option String → Check
action_check version action vendor model =
    validate_action_key version action then_check validate_vendor_model vendor model

pub action_check_lem :
    (version : OcppVersion) (action : String) (vendor model : Option String)
    → (action_check version action vendor model ≡ ok tt) ↔ NamesAction version action vendor model
unfolding action_check validate_action_key
action_check_lem version action vendor model =
    let v = ocpp_version_lem version in
    let m = vendor_model_lem vendor model in
    (
      λ h. elim (Result-cases (validate_ocpp_version version)) [
        | inr (e, bad) ↦ absurd (cc (rw bad at h))
        | inl (tt, good) ↦ elim (Bool-cases (action == "")) [
          | inl empty ↦ absurd (cc (rw (good, empty) at h))
          | inr given ↦ record {
            version_known = v.0 good;
            action_given = given;
            vendor_given = m.0 (rw (good, given) at h);
          }
        ]
      ],
      λ n. rw (v.1 n.version_known, n.action_given, m.1 n.vendor_given),
    )

action_check-invalid :
    (version : OcppVersion) (action : String) (vendor model : Option String) (m : RpcStatus)
    → action_check version action vendor model ≡ err m
    → m.code ≡ invalid_argument
unfolding action_check validate_action_key validate_ocpp_version validate_vendor_model
action_check-invalid version action vendor model m h = ground arith

-- Two checks whose outcome is known, in front of a third.
then_check-after :
    (a b c r : Check) → a then_check b ≡ r → a then_check b then_check c ≡ r then_check c
then_check-after (ok _) b c r h = ap (λ x. x then_check c) h
then_check-after (err _) b c r h = ap (λ x. x then_check c) h

module _ {W : Type 0} (service : SchemaService W) where
  -- DeleteSchema returns InvalidArgument with the state untouched exactly to a request that lacks
  -- one of these: a known OCPP version, an action, a vendor where there is a model.
  pub delete_schema-refuses_iff :
      (req : DeleteSchemaRequest) (w : W)
      → ((m : RpcStatus) × ((delete_schema service req w) ≡ (err m, w))
          × (m.code ≡ invalid_argument))
        ↔ (¬ NamesAction req.ocpp_version req.action req.vendor req.model)
  unfolding delete_schema action_check
  delete_schema-refuses_iff req w =
      let c = action_check_lem req.ocpp_version req.action req.vendor req.model in
      elim (Result-cases (action_check req.ocpp_version req.action req.vendor req.model)) [
        | inl (tt, good) ↦
            (λ (m, h, code) n. ground (arith, good, h, code), λ n. absurd (n (c.0 good)))
        | inr (m, bad) ↦ (
          λ x n. absurd (cc (c.1 n, bad)),
          λ n. (
            m,
            rw bad refl,
            action_check-invalid req.ocpp_version req.action req.vendor req.model m bad,
          ),
        )
      ]

  -- AddSchema returns InvalidArgument with the state untouched exactly to a request that lacks one
  -- of these: a known OCPP version, an action, a vendor where there is a model, a request schema, a
  -- response schema.
  pub add_schema-refuses_iff :
      (req : AddSchemaRequest) (w : W)
      → ((m : RpcStatus) × (add_schema service req w ≡ (err m, w)) × (m.code ≡ invalid_argument))
        ↔ (¬ (
            NamesAction req.ocpp_version req.action req.vendor req.model
            × (is_empty req.request_schema ≡ false)
            × (is_empty req.response_schema ≡ false)))
  unfolding add_schema action_check
  add_schema-refuses_iff req w =
      let c = action_check_lem req.ocpp_version req.action req.vendor req.model in
      let contents =
        refuse_if (is_empty req.request_schema) "request_schema is required"
        then_check refuse_if (is_empty req.response_schema) "response_schema is required" in
      let after =
        then_check-after (validate_action_key req.ocpp_version req.action)
          (validate_vendor_model req.vendor req.model) contents in
      elim (Result-cases (action_check req.ocpp_version req.action req.vendor req.model)) [
        | inr (m, bad) ↦ (
          λ x n. absurd (cc (c.1 n.0, bad)),
          λ n. (
            m,
            rw (after (err m) bad) refl,
            action_check-invalid req.ocpp_version req.action req.vendor req.model m bad,
          ),
        )
        | inl (tt, good) ↦
            let start = after (ok tt) good in
            elim (Bool-cases (is_empty req.request_schema)) [
              | inl empty ↦ (
                λ x n. absurd (cc (n.1, empty)),
                λ n. (
                  status_error invalid_argument "request_schema is required",
                  rw (start, empty) refl,
                  refl,
                ),
              )
              | inr given ↦ elim (Bool-cases (is_empty req.response_schema)) [
                | inl empty ↦ (
                  λ x n. absurd (cc (n.2, empty)),
                  λ n. (
                    status_error invalid_argument "response_schema is required",
                    rw (start, given, empty) refl,
                    refl,
                  ),
                )
                | inr given' ↦ (
                  λ (m, h, code) n. ground (arith, rw (start, given, given') at h, code),
                  λ n. absurd (n (c.0 good, given, given')),
                )
              ]
            ]
      ]

  -- An Internal answer to `DeleteSchema` is a failure of the service that is not ErrNotFound.
  pub delete_schema-internal :
      (req : DeleteSchemaRequest) (w : W) (m : RpcStatus)
      → (delete_schema service req w).0 ≡ err m
      → m.code ≡ internal
      → (e : Error) × ((service.delete
            (ocpp_version_to_domain req.ocpp_version)
            req.action
            req.vendor
            req.model
            w).0
          ≡ err e)
        × (is e err_not_found ≡ false)
  unfolding delete_schema action_check
  delete_schema-internal req w m p c =
      let version = ocpp_version_to_domain req.ocpp_version in
      elim (Result-cases (action_check req.ocpp_version req.action req.vendor req.model)) [
        | inr (x, bad) ↦
            let invalid =
              action_check-invalid req.ocpp_version req.action req.vendor req.model x bad in
            let same : err x ≡ err m = rw bad at p in absurd (ground (arith, same, invalid, c))
        | inl (tt, good) ↦
            elim (Result-cases (service.delete version req.action req.vendor req.model w).0) [
              | inl (_, done) ↦ absurd (cc (rw (good, done) at p))
              | inr (e, failed) ↦ elim (Bool-cases (is e err_not_found)) [
                | inr other ↦ (e, failed, other)
                | inl missing ↦
                    let same = rw (good, failed, missing) at p in absurd (ground (arith, same, c))
              ]
            ]
      ]

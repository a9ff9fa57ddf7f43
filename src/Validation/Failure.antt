-- ===== src/Validation/Failure.antt =====
-- When `ValidateMessages` of internal/validation/validation.go fails.
use chargeflow_registry.Prelude.{
  get_elem?, false, ℕ, suc, ◌+◌, String, ◌≡◌, refl, List, [], ◌∷◌, map, ok, err, Result-cases,
  Bool-cases, inl, ◌⊎◌, inr, ◌==◌, ◌<>◌, Option-cases, some, ℤ, decimal, int_eq, arith, subst,
}
use chargeflow_registry.Errors.{Error, wrapped}
use chargeflow_registry.Schema.Model.{MessageType, message_type_request, message_type_response}
use chargeflow_registry.Validation.Chargeflow.{Chargeflow, OcppMessage, BulkEnvelope}
use chargeflow_registry.Validation.Adapter.{SchemaGetter, get_schema}
use chargeflow_registry.Validation.Service.{
  BulkRequest, Request, ReportEntry, validate_entry, validate_from, validate_messages,
  validate_message, message_type_from_ocpp, request_of, build_ocpp_message, context_of,
}
use chargeflow_registry.Validation.Bulk.{count_from, validate_messages-index}

module _ {W C P : Type 0} (getter : SchemaGetter W) (lib : Chargeflow W C P) where
  -- The library's validator has failed on a message that is JSON, has a supported type and an
  -- action, and a payload that is JSON; `x` is the error that it made of it.
  pub record ValidatorFails (req : BulkRequest) (i : ℕ) (msg : String) (x : Error) : Type 0 where
    pub env : BulkEnvelope
    pub is_json : lib.unmarshal_envelope msg ≡ ok env
    pub msg_type : MessageType
    pub supported : message_type_from_ocpp getter lib env.message_type_id ≡ some msg_type
    pub action_given : (env.action == "") ≡ false
    pub payload : P
    pub payload_is_json : lib.unmarshal env.payload ≡ ok payload
    pub ocpp_message : OcppMessage P
    pub built : build_ocpp_message env.action msg_type payload ≡ ok ocpp_message
    pub state : W
    pub error : Error
    pub failed :
        (lib.validate_message
          (get_schema getter lib)
          (context_of (request_of getter lib req env msg_type))
          ocpp_message
          state).0
        ≡ err error
    pub wraps :
        x ≡ wrapped ("validate message " <> decimal (ℤ.pos i)) (wrapped "validate message" error)

  known_type :
      (id : ℤ) (msg_type : MessageType)
      → message_type_from_ocpp getter lib id ≡ some msg_type
      → (action : String) (payload : P)
      → (msg : OcppMessage P) × (build_ocpp_message action msg_type payload ≡ ok msg)
  unfolding message_type_from_ocpp build_ocpp_message
  known_type id msg_type h action payload = elim (Bool-cases (int_eq id lib.call_id)) [
    | inl call ↦
        let same : message_type_request ≡ msg_type = cc (rw call at h) in
        subst (λ t. (msg : OcppMessage P) × (build_ocpp_message action t payload ≡ ok msg)) same
          (_, refl)
    | inr other ↦ elim (Bool-cases (int_eq id lib.call_result_id)) [
      | inl result ↦
          let same : message_type_response ≡ msg_type = cc (rw (other, result) at h) in
          subst (λ t. (msg : OcppMessage P) × (build_ocpp_message action t payload ≡ ok msg)) same
            (_, refl)
      | inr neither ↦ absurd (cc (rw (other, neither) at h))
    ]
  ]

  validate_message-err :
      (req : Request) (w : W) (x : Error)
      → ((payload : P)
          → (msg : OcppMessage P) × (build_ocpp_message req.action req.message_type payload
              ≡ ok msg))
      → (validate_message getter lib req w).0 ≡ err x
      → (payload : P) × (msg : OcppMessage P) × (e : Error) × (lib.unmarshal req.message
          ≡ ok payload)
        × (build_ocpp_message req.action req.message_type payload ≡ ok msg)
        × ((lib.validate_message (get_schema getter lib) (context_of req) msg w).0 ≡ err e)
        × (x ≡ wrapped "validate message" e)
  unfolding validate_message
  validate_message-err req w x known h = elim (Result-cases (lib.unmarshal req.message)) [
    | inr (text, bad) ↦ absurd (cc (rw (bad, validate_message) at h))
    | inl (payload, good) ↦
        let (msg, built) = known payload in
        elim (Result-cases
          (lib.validate_message (get_schema getter lib) (context_of req) msg w).0) [
            | inl (result, done) ↦ absurd (cc (rw (good, built, done, validate_message) at h))
            | inr (e, failed) ↦ (
              payload,
              msg,
              e,
              good,
              built,
              failed,
              cc (rw (good, built, failed, validate_message) at h),
            )
          ]
  ]

  validate_entry-err :
      (req : BulkRequest) (i : ℕ) (msg : String) (w : W) (x : Error)
      → (validate_entry getter lib req i msg w).0 ≡ err x
      → ValidatorFails req i msg x
  unfolding validate_entry
  validate_entry-err req i msg w x h = elim (Result-cases (lib.unmarshal_envelope msg)) [
    | inr (text, bad) ↦ absurd (cc (rw (bad, validate_entry) at h))
    | inl (env, good) ↦
        elim (Option-cases (message_type_from_ocpp getter lib env.message_type_id)) [
          | inl unknown ↦ absurd (cc (rw (good, unknown, validate_entry) at h))
          | inr (msg_type, known) ↦ elim (Bool-cases (env.action == "")) [
            | inl no_action ↦ absurd (cc (rw (good, known, no_action, validate_entry) at h))
            | inr action ↦
                let one = request_of getter lib req env msg_type in
                elim (Result-cases (validate_message getter lib one w).0) [
                  | inl (report, valid) ↦
                      absurd (cc (rw (good, known, action, valid, validate_entry) at h))
                  | inr (y, failed) ↦
                      let (payload, ocpp_message, e, decoded, built, fails, same) =
                        validate_message-err one w y
                          (known_type env.message_type_id msg_type known env.action) failed in
                      let whole = rw (good, known, action, failed, validate_entry) at h in
                      record {
                        env = env;
                        is_json = good;
                        msg_type = msg_type;
                        supported = known;
                        action_given = action;
                        payload = payload;
                        payload_is_json = decoded;
                        ocpp_message = ocpp_message;
                        built = built;
                        state = w;
                        error = e;
                        failed = fails;
                        wraps = cc (whole, same);
                      }
                ]
          ]
        ]
  ]

  -- A message of the list is the one that failed.
  abbrev pub FailsIn : BulkRequest → List String → ℕ → ℕ → Error → Type 0
  FailsIn req msgs i k x =
      (msg : String) × (get_elem? msgs k ≡ some msg) × ValidatorFails req (i + k) msg x

  validate_from-err :
      (req : BulkRequest) (i : ℕ) (msgs : List String) (w : W) (x : Error)
      → (validate_from getter lib req i msgs w).0 ≡ err x
      → (k : ℕ) × FailsIn req msgs i k x
  unfolding validate_from
  validate_from-err req i [] w x h = absurd (cc h)
  validate_from-err req i (msg ∷ msgs) w x h =
      let first = validate_entry getter lib req i msg w in
      elim (Result-cases first.0) [
        | inr (y, failed) ↦
            let same : y ≡ x = cc (rw failed at h) in
            let start : i ≡ i + 0 = omega arith in
            (
              0,
              (
                msg,
                refl,
                subst (λ n. ValidatorFails req n msg x) start
                    (subst (ValidatorFails req i msg) same
                      (validate_entry-err req i msg w y failed)),
              ),
            )
        | inl (entry, done) ↦
            elim (Result-cases (validate_from getter lib req (suc i) msgs first.1).0) [
              | inl (rest, all) ↦ absurd (cc (rw (done, all) at h))
              | inr (y, failed) ↦
                  let same : y ≡ x = cc (rw (done, failed) at h) in
                  let (k, (m, there, fails)) =
                    validate_from-err req (suc i) msgs first.1 y failed in
                  let place : suc i + k ≡ i + suc k = omega arith in
                  (
                    suc k,
                    (
                      m,
                      there,
                      subst (λ n. ValidatorFails req n m x) place
                          (subst (ValidatorFails req (suc i + k) m) same fails),
                    ),
                  )
            ]
      ]

  validate_messages-err :
      (req : BulkRequest) (w : W) (x : Error)
      → (validate_messages getter lib req w).0 ≡ err x
      → (i : ℕ) × (msg : String) × (get_elem? req.messages i ≡ some msg)
        × ValidatorFails req i msg x
  unfolding validate_messages
  validate_messages-err req w x h =
      let (k, (msg, there, fails)) = validate_from-err req 0 req.messages w x h in
      let place : 0 + k ≡ k = omega arith in
      (k, msg, there, subst (λ n. ValidatorFails req n msg x) place fails)

  -- ValidateMessages always returns: with one entry for each message, numbered from 0 in order; or
  -- with an error that names the place of a message of the request and wraps an error with which
  -- the library's validator failed on that message, which is JSON, has a supported type and an
  -- action, and a payload that is JSON.
  pub validate_messages-ends :
      (req : BulkRequest) (w : W)
      → ((entries : List ReportEntry) × ((validate_messages getter lib req w).0 ≡ ok entries)
          × (map (λ x. x.index) entries ≡ count_from 0 req.messages))
        ⊎ ((x : Error) × (i : ℕ) × (msg : String) × ((validate_messages getter lib req w).0 ≡ err x)
            × (get_elem? req.messages i ≡ some msg)
            × ValidatorFails req i msg x)
  validate_messages-ends req w = elim (Result-cases (validate_messages getter lib req w).0) [
    | inl (entries, done) ↦
        inl (entries, done, validate_messages-index getter lib req w entries done)
    | inr (x, failed) ↦
        let (i, msg, there, fails) = validate_messages-err req w x failed in
        inr (x, i, msg, failed, there, fails)
  ]

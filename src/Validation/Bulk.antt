-- ===== src/Validation/Bulk.antt =====
-- `ValidateMessages` of internal/validation/validation.go: its entries against its messages.
use chargeflow_registry.Prelude.{
  ℕ, suc, String, ◌≡◌, List, [], ◌∷◌, map, ok, Result-cases, ok-injective, subst, Bool-cases, inl,
  inr, ◌==◌, Option-cases,
}
use chargeflow_registry.Validation.Chargeflow.{Chargeflow}
use chargeflow_registry.Validation.Adapter.{SchemaGetter}
use chargeflow_registry.Validation.Service.{
  BulkRequest, ReportEntry, validate_entry, validate_from, validate_messages, validate_message,
  message_type_from_ocpp, request_of,
}

-- The numbers `i`, `i + 1`, … of so many messages.
abbrev pub count_from {ℓ} : {A : Type ℓ} → ℕ → List A → List ℕ
count_from i [] = []
count_from i (x ∷ xs) = i ∷ count_from (suc i) xs

module _ {W C P : Type 0} (getter : SchemaGetter W) (lib : Chargeflow W C P) where
  validate_entry-index :
      (req : BulkRequest) (i : ℕ) (msg : String) (w : W) (entry : ReportEntry)
      → (validate_entry getter lib req i msg w).0 ≡ ok entry
      → entry.index ≡ i
  unfolding validate_entry
  validate_entry-index req i msg w entry h = elim (Result-cases (lib.unmarshal_envelope msg)) [
    | inr (text, bad) ↦ cc (rw (bad, validate_entry) at h)
    | inl (env, good) ↦
        elim (Option-cases (message_type_from_ocpp getter lib env.message_type_id)) [
          | inl unknown ↦ cc (rw (good, unknown, validate_entry) at h)
          | inr (msg_type, known) ↦ elim (Bool-cases (env.action == "")) [
            | inl no_action ↦ cc (rw (good, known, no_action, validate_entry) at h)
            | inr action ↦
                elim (Result-cases
                  (validate_message getter lib (request_of getter lib req env msg_type) w).0) [
                    | inl (report, valid) ↦
                        cc (rw (good, known, action, valid, validate_entry) at h)
                    | inr (x, failed) ↦
                        absurd (cc (rw (good, known, action, failed, validate_entry) at h))
                  ]
          ]
        ]
  ]

  validate_from-index :
      (req : BulkRequest) (i : ℕ) (msgs : List String) (w : W) (entries : List ReportEntry)
      → (validate_from getter lib req i msgs w).0 ≡ ok entries
      → map (λ x. x.index) entries ≡ count_from i msgs
  unfolding validate_from
  validate_from-index req i [] w entries h = cc
  validate_from-index req i (msg ∷ msgs) w entries h =
      let first = validate_entry getter lib req i msg w in
      elim (Result-cases first.0) [
        | inr (x, failed) ↦ absurd (cc (rw failed at h))
        | inl (entry, done) ↦
            elim (Result-cases (validate_from getter lib req (suc i) msgs first.1).0) [
              | inr (x, failed) ↦ absurd (cc (rw (done, failed) at h))
              | inl (rest, all) ↦
                  let here = validate_entry-index req i msg w entry done in
                  let there = validate_from-index req (suc i) msgs first.1 rest all in
                  let same : entry ∷ rest ≡ entries = ok-injective (rw (done, all) at h) in
                  subst (λ es. map (λ x. x.index) es ≡ count_from i (msg ∷ msgs)) same (cc)
            ]
      ]

  -- When ValidateMessages succeeds, there is one entry for each message, in order, and each carries
  -- the position of its message, counted from 0.
  pub validate_messages-index :
      (req : BulkRequest) (w : W) (entries : List ReportEntry)
      → (validate_messages getter lib req w).0 ≡ ok entries
      → map (λ x. x.index) entries ≡ count_from 0 req.messages
  unfolding validate_messages
  validate_messages-index req w entries h = validate_from-index req 0 req.messages w entries h

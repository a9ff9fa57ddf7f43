-- ===== src/Mcp/Answers.antt =====
-- The answers of the tools of internal/mcp/tools.go.
use chargeflow_registry.Prelude.{
  ◌⊎◌, err, String, List, some, ◌≡◌, refl, Exec, pure, on_result, Result, Result-cases, ok, inl,
  inr, Bool-cases,
}
use mathlib.Core.List.{Memᴰ}
use chargeflow_registry.Errors.{Error, wrapped, is, err_not_found, err_already_exists}
use chargeflow_registry.Schema.Model.{
  Schema, SchemaVersion, message_type_request, message_type_response, status_verified,
}
use chargeflow_registry.Schema.Ports.{max_page_size}
use chargeflow_registry.Grpc.Handler.{new_schema}
use chargeflow_registry.Validation.Service.{ValidityReport}
use chargeflow_registry.Mcp.Server.{SchemaRegistry, Encoding}
use chargeflow_registry.Mcp.Tools.{
  CallToolRequest, ToolResult, result_text, result_error, schema_validation, register_schema,
  remove_schema, get_schema, list_schema_versions, query_schemas, lookup_schema, answered, encoded,
  not_found_error, tool_error, parse_tool_filter,
}
use chargeflow_registry.Mcp.Registration.{Registered, register_tools, All-lookup}

-- encoding/json has failed with `e` on one of the values that the tools encode.
pub data EncodingFails (enc : Encoding) (e : Error) : Type 0 where
  on_schema : (s : Schema) → enc.marshal_schema s ≡ err e → EncodingFails enc e
  on_schemas : (ss : List Schema) → enc.marshal_schemas ss ≡ err e → EncodingFails enc e
  on_versions : (vs : List SchemaVersion) → enc.marshal_versions vs ≡ err e → EncodingFails enc e
  on_report : (r : ValidityReport) → enc.marshal_report r ≡ err e → EncodingFails enc e

-- A tool result, or an error that wraps one of encoding/json.
abbrev pub IsAnswer : Encoding → Result Error ToolResult → Type 0
IsAnswer enc result =
    ((r : ToolResult) × (result ≡ ok r))
    ⊎ ((context : String) × (e : Error) × (result ≡ err (wrapped context e)) × EncodingFails enc e)

module _ {W : Type 0} (enc : Encoding) where
  abbrev pub Answers : Exec W Error ToolResult → Type 0
  Answers m = (w : W) → IsAnswer enc (m w).0

  encoded-Answers :
      (context : String) (r : Result Error String)
      → ((e : Error) → r ≡ err e → EncodingFails enc e)
      → Answers (encoded context r)
  encoded-Answers context (ok out) fails w = inl (result_text out, refl)
  encoded-Answers context (err e) fails w = inr (context, e, refl, fails e refl)

  not_found_error-Answers :
      (known message : String) (e : Error) → Answers (not_found_error known message e)
  not_found_error-Answers known message e w = elim (Bool-cases (is e err_not_found)) [
    | inl missing ↦ rw missing (inl (_, refl))
    | inr broken ↦ rw broken (inl (_, refl))
  ]

  answered-Answers :
      {A : Type 0} (m : Exec W Error A) (on_err : Error → Exec W Error ToolResult)
      (on_ok : A → Exec W Error ToolResult)
      → ((e : Error) → Answers (on_err e))
      → ((a : A) → Answers (on_ok a))
      → (w : W) → IsAnswer enc (answered on_err on_ok (m w).0 (m w).1).0
  answered-Answers m on_err on_ok bad good w = elim (Result-cases (m w).0) [
    | inl (a, done) ↦ rw done (good a (m w).1)
    | inr (e, failed) ↦ rw failed (bad e (m w).1)
  ]

module _ {W : Type 0} (service : SchemaRegistry W) (enc : Encoding) where
  schema_validation-Answers :
      (req : CallToolRequest) → Answers enc (schema_validation service enc req)
  unfolding schema_validation
  schema_validation-Answers req =
      let filter = parse_tool_filter req.argument in
      answered-Answers enc
        (service.validate_message (record {
          version = req.get_string "ocpp_version" "";
          action = req.get_string "action" "";
          message_type = req.get_string "message_type" "";
          vendor = filter.vendor;
          model = filter.model;
          message = enc.bytes_of (req.get_string "message" "");
        }))
        (not_found_error "schema not found for the given parameters" "validation error")
        (λ a. encoded "marshal result" (enc.marshal_report a))
        (not_found_error-Answers enc "schema not found for the given parameters" "validation error")
        (λ a.
          encoded-Answers enc "marshal result" (enc.marshal_report a) (λ e bad. on_report a bad))

  register_schema-Answers : (req : CallToolRequest) → Answers enc (register_schema service enc req)
  unfolding register_schema
  register_schema-Answers req w =
      let version = req.get_string "ocpp_version" "" in
      let action = req.get_string "action" "" in
      let filter = parse_tool_filter req.argument in
      let call =
        service.add_pair
          (new_schema version action message_type_request filter.vendor filter.model
            (enc.bytes_of (req.get_string "request_schema" "")) "")
          (new_schema version action message_type_response filter.vendor filter.model
            (enc.bytes_of (req.get_string "response_schema" "")) "")
          w in
      elim (Result-cases call.0) [
        | inl (a, done) ↦ rw done (inl (result_text "schema registered successfully", refl))
        | inr (e, failed) ↦ elim (Bool-cases (is e err_already_exists)) [
          | inl taken ↦
              rw (failed, taken)
                (inl (result_error "schema already exists for this action and version", refl))
          | inr broken ↦ rw (failed, broken) (inl (_, refl))
        ]
      ]

  remove_schema-Answers : (req : CallToolRequest) → Answers enc (remove_schema service enc req)
  unfolding remove_schema
  remove_schema-Answers req =
      let filter = parse_tool_filter req.argument in
      answered-Answers enc
        (service.delete (req.get_string "ocpp_version" "") (req.get_string "action" "")
          filter.vendor filter.model)
        (not_found_error "schema not found" "failed to remove schema")
        (λ a. pure (result_text "schema removed successfully"))
        (not_found_error-Answers enc "schema not found" "failed to remove schema")
        (λ a w. inl (_, refl))

  get_schema-Answers : (req : CallToolRequest) → Answers enc (get_schema service enc req)
  unfolding get_schema
  get_schema-Answers req =
      answered-Answers enc (lookup_schema service enc req)
        (not_found_error "schema not found" "failed to get schema")
        (λ a. encoded "marshal schema" (enc.marshal_schema a))
        (not_found_error-Answers enc "schema not found" "failed to get schema")
        (λ a.
          encoded-Answers enc "marshal schema" (enc.marshal_schema a) (λ e bad. on_schema a bad))

  query_schemas-Answers : (req : CallToolRequest) → Answers enc (query_schemas service enc req)
  unfolding query_schemas
  query_schemas-Answers req =
      let filter = parse_tool_filter req.argument in
      answered-Answers enc
        (service.list (req.get_string "ocpp_version" "") filter.vendor filter.model filter.action
          filter.message_type (some status_verified) max_page_size 0)
        (tool_error "failed to query schemas")
        (λ a. encoded "marshal schemas" (enc.marshal_schemas a.0)) (λ e w. inl (_, refl))
        (λ a.
          encoded-Answers enc "marshal schemas" (enc.marshal_schemas a.0)
            (λ e bad. on_schemas a.0 bad))

  changelog-Answers :
      (sc : Schema)
      → Answers enc (
          on_result (service.list_versions sc.id max_page_size 0) (
            answered
              (tool_error "failed to list schema versions")
              (λ found. encoded "marshal versions" (enc.marshal_versions found.0))))
  changelog-Answers sc =
      answered-Answers enc (service.list_versions sc.id max_page_size 0)
        (tool_error "failed to list schema versions")
        (λ a. encoded "marshal versions" (enc.marshal_versions a.0)) (λ e w. inl (_, refl))
        (λ a.
          encoded-Answers enc "marshal versions" (enc.marshal_versions a.0)
            (λ e bad. on_versions a.0 bad))

  list_schema_versions-Answers :
      (req : CallToolRequest) → Answers enc (list_schema_versions service enc req)
  unfolding list_schema_versions
  list_schema_versions-Answers req =
      let filter = parse_tool_filter req.argument in
      answered-Answers enc
        (service.get (req.get_string "ocpp_version" "") (req.get_string "action" "")
          (req.get_string "message_type" "") filter.vendor filter.model)
        (not_found_error "schema not found" "failed to look up schema")
        (λ sc. on_result (service.list_versions sc.id max_page_size 0) (
          answered (tool_error "failed to list schema versions")
            (λ found. encoded "marshal versions" (enc.marshal_versions found.0))))
        (not_found_error-Answers enc "schema not found" "failed to look up schema")
        changelog-Answers

  -- Every handler that registerTools registers returns a tool result and no error, whatever the
  -- service does, since its failures become tool results; or else its error wraps one with which
  -- encoding/json failed to encode a schema, a list of schemas, a list of versions or a report.
  pub register_tools-Answers :
      (t : Registered W) (req : CallToolRequest)
      → Memᴰ t (register_tools service enc)
      → Answers enc (t.handler req)
  unfolding register_tools
  register_tools-Answers t req m =
      All-lookup (λ (u : Registered W). (q : CallToolRequest) → Answers enc (u.handler q)) t
        (register_tools service enc)
        (
          schema_validation-Answers,
          (
            register_schema-Answers,
            (
              remove_schema-Answers,
              (get_schema-Answers, (query_schemas-Answers, (list_schema_versions-Answers, tt))),
            ),
          ),
        )
        m req

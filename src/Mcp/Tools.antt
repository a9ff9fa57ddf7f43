-- ===== src/Mcp/Tools.antt =====
-- internal/mcp/tools.go: the tool handlers. A failure of the service is a tool result; only a
-- failed JSON encoding is an error of the call.
use chargeflow_registry.Prelude.{
  String, Option, none, some, ◌==◌, ◌<>◌, ℤ, pos, int_eq, if◌then◌else◌, Exec, Result, ok, err,
  pure, lift, on_result, trying,
}
use chargeflow_registry.Errors.{Error, wrapped, is, error_text, err_not_found, err_already_exists}
use chargeflow_registry.Schema.Model.{
  Schema, message_type_request, message_type_response, status_verified,
}
use chargeflow_registry.Schema.Ports.{max_page_size}
use chargeflow_registry.Grpc.Handler.{new_schema}
use chargeflow_registry.Mcp.Server.{SchemaRegistry, SchemaFilter, Encoding}

-- An argument in the map of a call: a string, or a value of another type, or none at all.
pub data Argument : Type 0 where
  text : String → Argument
  not_text : Argument

-- mcplib.CallToolRequest: GetString and GetInt with their defaults, and GetArguments.
pub record CallToolRequest : Type 0 where
  pub get_string : String → String → String
  pub get_int : String → ℤ → ℤ
  pub argument : String → Argument

-- mcplib.NewToolResultText and NewToolResultError
pub data ToolResult : Type 0 where
  result_text : String → ToolResult
  result_error : String → ToolResult

unfoldable pub optional_string : Argument → Option String
optional_string (text s) = if s == "" then none else some s
optional_string not_text = none

unfoldable pub parse_tool_filter : (String → Argument) → SchemaFilter
unfolding optional_string
parse_tool_filter args = record {
  vendor = optional_string (args "vendor");
  model = optional_string (args "model");
  action = optional_string (args "action");
  message_type = optional_string (args "message_type");
}

-- An error of the service as a tool result: `known` for the sentinel, else `prefix: error`.
abbrev pub tool_error : {W : Type 0} → String → Error → Exec W Error ToolResult
tool_error message e = pure (result_error (message <> ": " <> error_text e))

abbrev pub not_found_error : {W : Type 0} → String → String → Error → Exec W Error ToolResult
not_found_error known message e =
    if is e err_not_found then pure (result_error known) else tool_error message e

-- The result of an encoding as the text of the tool.
abbrev pub encoded : {W : Type 0} → String → Result Error String → Exec W Error ToolResult
encoded context r = trying (lift r) (wrapped context) λ out. pure (result_text out)

abbrev pub answered :
    {W A : Type 0}
    → (Error → Exec W Error ToolResult)
    → (A → Exec W Error ToolResult)
    → Result Error A
    → Exec W Error ToolResult
answered on_err on_ok (ok a) = on_ok a
answered on_err on_ok (err e) = on_err e

module _ {W : Type 0} (service : SchemaRegistry W) (enc : Encoding) where
  unfoldable pub schema_validation : CallToolRequest → Exec W Error ToolResult
  unfolding parse_tool_filter
  schema_validation req =
      let filter = parse_tool_filter req.argument in
      on_result
        (service.validate_message (record {
          version = req.get_string "ocpp_version" "";
          action = req.get_string "action" "";
          message_type = req.get_string "message_type" "";
          vendor = filter.vendor;
          model = filter.model;
          message = enc.bytes_of (req.get_string "message" "");
        }))
        (answered (not_found_error "schema not found for the given parameters" "validation error")
          (λ result. encoded "marshal result" (enc.marshal_report result)))

  -- The status is left empty, so the column's default applies.
  unfoldable pub register_schema : CallToolRequest → Exec W Error ToolResult
  unfolding parse_tool_filter
  register_schema req =
      let version = req.get_string "ocpp_version" "" in
      let action = req.get_string "action" "" in
      let filter = parse_tool_filter req.argument in
      on_result
        (service.add_pair
          (new_schema version action message_type_request filter.vendor filter.model
            (enc.bytes_of (req.get_string "request_schema" "")) "")
          (new_schema version action message_type_response filter.vendor filter.model
            (enc.bytes_of (req.get_string "response_schema" "")) ""))
        (answered
          (λ e.
            if is e err_already_exists
            then pure (result_error "schema already exists for this action and version")
            else tool_error "failed to register schema" e)
          (λ _. pure (result_text "schema registered successfully")))

  unfoldable pub remove_schema : CallToolRequest → Exec W Error ToolResult
  unfolding parse_tool_filter
  remove_schema req =
      let filter = parse_tool_filter req.argument in
      on_result
        (service.delete (req.get_string "ocpp_version" "") (req.get_string "action" "")
          filter.vendor filter.model)
        (answered (not_found_error "schema not found" "failed to remove schema")
          (λ _. pure (result_text "schema removed successfully")))

  -- Version 0, or none, asks for the current content.
  abbrev pub lookup_schema : CallToolRequest → Exec W Error Schema
  lookup_schema req =
      let filter = parse_tool_filter req.argument in
      let version = req.get_string "ocpp_version" "" in
      let action = req.get_string "action" "" in
      let msg_type = req.get_string "message_type" "" in
      let schema_version = req.get_int "version" (pos 0) in
      if int_eq schema_version (pos 0)
      then service.get version action msg_type filter.vendor filter.model
      else service.get_version version action msg_type filter.vendor filter.model schema_version

  unfoldable pub get_schema : CallToolRequest → Exec W Error ToolResult
  unfolding parse_tool_filter
  get_schema req = on_result (lookup_schema req) (
      answered (not_found_error "schema not found" "failed to get schema")
        (λ sc. encoded "marshal schema" (enc.marshal_schema sc)))

  unfoldable pub list_schema_versions : CallToolRequest → Exec W Error ToolResult
  unfolding parse_tool_filter
  list_schema_versions req =
      let filter = parse_tool_filter req.argument in
      on_result
        (service.get (req.get_string "ocpp_version" "") (req.get_string "action" "")
          (req.get_string "message_type" "") filter.vendor filter.model)
        (answered (not_found_error "schema not found" "failed to look up schema") (λ sc.
          on_result (service.list_versions sc.id max_page_size 0) (
            answered (tool_error "failed to list schema versions")
              (λ found. encoded "marshal versions" (enc.marshal_versions found.0)))))

  unfoldable pub query_schemas : CallToolRequest → Exec W Error ToolResult
  unfolding parse_tool_filter
  query_schemas req =
      let filter = parse_tool_filter req.argument in
      on_result
        (service.list (req.get_string "ocpp_version" "") filter.vendor filter.model filter.action
          filter.message_type (some status_verified) max_page_size 0)
        (answered (tool_error "failed to query schemas")
          (λ found. encoded "marshal schemas" (enc.marshal_schemas found.0)))

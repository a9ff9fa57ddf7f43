-- ===== src/Mcp/Specs.antt =====
-- internal/mcp/tools.go: the tools as the server announces them to its clients.
use chargeflow_registry.Prelude.{String, List, [], ◌∷◌, Bool, true, false}

-- WithString and WithInteger
pub data Kind : Type 0 where
  string integer : Kind

-- A parameter: Required, Description and Enum, `[]` where any value is allowed.
pub record Param : Type 0 where
  pub name : String
  pub kind : Kind
  pub required : Bool
  pub description : String
  pub choices : List String

-- mcplib.Tool
pub record Tool : Type 0 where
  pub name : String
  pub description : String
  pub params : List Param

abbrev pub required_text : String → String → List String → Param
required_text name description choices = record {
  name = name;
  kind = string;
  required = true;
  description = description;
  choices = choices;
}

abbrev pub optional_text : String → String → List String → Param
optional_text name description choices = record {
  name = name;
  kind = string;
  required = false;
  description = description;
  choices = choices;
}

abbrev pub versions : List String
versions = "1.6" ∷ "2.0.1" ∷ "2.1" ∷ []

abbrev pub directions : List String
directions = "request" ∷ "response" ∷ []

unfoldable pub new_schema_validation_tool : Tool
new_schema_validation_tool = record {
  name = "schema_validation";
  description = "Validate an OCPP message payload against its registered JSON schema";
  params =
      required_text "ocpp_version" "OCPP version: \"1.6\", \"2.0.1\", or \"2.1\"" versions
      ∷ required_text "action" "OCPP action name (e.g. Authorize, BootNotification)" []
      ∷ required_text "message_type" "Message direction: \"request\" or \"response\"" directions
      ∷ required_text "message" "JSON-encoded OCPP message payload to validate" []
      ∷ optional_text "vendor"
          "Optional EV manufacturer identifier for vendor-specific schema lookup" []
      ∷ optional_text "model" "Optional EV model identifier (requires vendor)" []
      ∷ [];
}

unfoldable pub new_register_schema_tool : Tool
new_register_schema_tool = record {
  name = "register_schema";
  description = "Register request and response JSON schemas for an OCPP action";
  params =
      required_text "ocpp_version" "OCPP version: \"1.6\", \"2.0.1\", or \"2.1\"" versions
      ∷ required_text "action" "OCPP action name (e.g. Authorize, BootNotification)" []
      ∷ required_text "request_schema" "JSON Schema definition for the request message" []
      ∷ required_text "response_schema" "JSON Schema definition for the response message" []
      ∷ optional_text "vendor" "Optional EV manufacturer identifier for vendor-specific schema" []
      ∷ optional_text "model" "Optional EV model identifier (requires vendor)" []
      ∷ [];
}

unfoldable pub new_remove_schema_tool : Tool
new_remove_schema_tool = record {
  name = "remove_schema";
  description = "Remove request and response schemas for an OCPP action";
  params =
      required_text "ocpp_version" "OCPP version: \"1.6\", \"2.0.1\", or \"2.1\"" versions
      ∷ required_text "action" "OCPP action name" []
      ∷ optional_text "vendor" "Optional EV manufacturer identifier" []
      ∷ optional_text "model" "Optional EV model identifier (requires vendor)" []
      ∷ [];
}

unfoldable pub new_get_schema_tool : Tool
new_get_schema_tool = record {
  name = "get_schema";
  description = "Retrieve a specific OCPP JSON schema by version, action, and message type";
  params =
      required_text "ocpp_version" "OCPP version: \"1.6\", \"2.0.1\", or \"2.1\"" versions
      ∷ required_text "action" "OCPP action name" []
      ∷ required_text "message_type" "Message direction: \"request\" or \"response\"" directions
      ∷ optional_text "vendor"
          "Optional EV manufacturer identifier for vendor-specific schema lookup" []
      ∷ optional_text "model" "Optional EV model identifier (requires vendor)" []
      ∷ (record {
        name = "version";
        kind = integer;
        required = false;
        description = "Optional specific content version to fetch; omit for the latest version";
        choices = [];
      })
      ∷ [];
}

unfoldable pub new_list_schema_versions_tool : Tool
new_list_schema_versions_tool = record {
  name = "list_schema_versions";
  description =
      "List the content version history (changelog) for a registered, verified OCPP schema, newest first";
  params =
      required_text "ocpp_version" "OCPP version: \"1.6\", \"2.0.1\", or \"2.1\"" versions
      ∷ required_text "action" "OCPP action name" []
      ∷ required_text "message_type" "Message direction: \"request\" or \"response\"" directions
      ∷ optional_text "vendor"
          "Optional EV manufacturer identifier for vendor-specific schema lookup" []
      ∷ optional_text "model" "Optional EV model identifier (requires vendor)" []
      ∷ [];
}

unfoldable pub new_query_schemas_tool : Tool
new_query_schemas_tool = record {
  name = "query_schemas";
  description =
      "List all registered OCPP schemas for a given version, optionally filtered by vendor, model, action, and message type";
  params =
      required_text "ocpp_version" "OCPP version to query: \"1.6\", \"2.0.1\", or \"2.1\"" versions
      ∷ optional_text "vendor" "Optional EV manufacturer identifier filter" []
      ∷ optional_text "model" "Optional EV model identifier filter" []
      ∷ optional_text "action" "Optional OCPP action name filter" []
      ∷ optional_text "message_type"
          "Optional message direction filter: \"request\" or \"response\"" directions
      ∷ [];
}

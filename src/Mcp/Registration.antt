-- ===== src/Mcp/Registration.antt =====
-- registerTools of internal/mcp/tools.go: which handler answers which tool.
use chargeflow_registry.Prelude.{String, List, [], ◌∷◌, All, ◌≡◌, refl, subst, sym, Exec}
use mathlib.Core.List.{Memᴰ}
use mathlib.Core.List.Memᴰ.{head, tail}
use chargeflow_registry.Errors.{Error}
use chargeflow_registry.Mcp.Server.{SchemaRegistry, Encoding}
use chargeflow_registry.Mcp.Specs.{
  Param, Tool, new_schema_validation_tool, new_register_schema_tool, new_remove_schema_tool,
  new_get_schema_tool, new_list_schema_versions_tool, new_query_schemas_tool,
}
use chargeflow_registry.Mcp.Tools.{
  CallToolRequest, ToolResult, schema_validation, register_schema, remove_schema, get_schema,
  list_schema_versions, query_schemas, parse_tool_filter,
}

-- AddTool
pub record Registered (W : Type 0) : Type 0 where
  pub tool : Tool
  pub handler : CallToolRequest → Exec W Error ToolResult

abbrev pub registered :
    {W : Type 0} → Tool → (CallToolRequest → Exec W Error ToolResult) → Registered W
registered tool handler = record { tool = tool; handler = handler }

unfoldable pub register_tools : {W : Type 0} → SchemaRegistry W → Encoding → List (Registered W)
register_tools service enc =
    registered new_schema_validation_tool (schema_validation service enc)
    ∷ registered new_register_schema_tool (register_schema service enc)
    ∷ registered new_remove_schema_tool (remove_schema service enc)
    ∷ registered new_get_schema_tool (get_schema service enc)
    ∷ registered new_query_schemas_tool (query_schemas service enc)
    ∷ registered new_list_schema_versions_tool (list_schema_versions service enc)
    ∷ []

-- Two calls with the same argument of a name.
pub record SameAt (req req' : CallToolRequest) (name : String) : Type 0 where
  pub string : req.get_string name ≡ req'.get_string name
  pub int : req.get_int name ≡ req'.get_int name
  pub argument : req.argument name ≡ req'.argument name

abbrev pub SameParams : Tool → CallToolRequest → CallToolRequest → Type 0
SameParams tool req req' = All (λ (p : Param). SameAt req req' p.name) tool.params

pub All-lookup : {A : Type 0} (P : A → Type 0) (a : A) (xs : List A) → All P xs → Memᴰ a xs → P a
All-lookup P a [] h m = elim m [ ]
All-lookup P a (x ∷ xs) h (head same) = subst P (sym same) h.0
All-lookup P a (x ∷ xs) h (tail m) = All-lookup P a xs h.1 m

module _ {W : Type 0} (service : SchemaRegistry W) (enc : Encoding) where
  abbrev ReadsItsParams : Registered W → Type 0
  ReadsItsParams t =
      (req req' : CallToolRequest) → SameParams t.tool req req' → t.handler req ≡ t.handler req'

  schema_validation-reads :
      ReadsItsParams (registered new_schema_validation_tool (schema_validation service enc))
  unfolding schema_validation new_schema_validation_tool parse_tool_filter
  schema_validation-reads req req'
        (version, (action, (direction, (message, (vendor, (model, _)))))) =
      rw
        (
          version.string, action.string, direction.string, message.string, vendor.argument,
          model.argument,
        )
        refl

  register_schema-reads :
      ReadsItsParams (registered new_register_schema_tool (register_schema service enc))
  unfolding register_schema new_register_schema_tool parse_tool_filter
  register_schema-reads req req' (version, (action, (request, (response, (vendor, (model, _)))))) =
      rw
        (
          version.string, action.string, request.string, response.string, vendor.argument,
          model.argument,
        )
        refl

  remove_schema-reads :
      ReadsItsParams (registered new_remove_schema_tool (remove_schema service enc))
  unfolding remove_schema new_remove_schema_tool parse_tool_filter
  remove_schema-reads req req' (version, (action, (vendor, (model, _)))) =
      rw (version.string, action.string, vendor.argument, model.argument) refl

  get_schema-reads : ReadsItsParams (registered new_get_schema_tool (get_schema service enc))
  unfolding get_schema new_get_schema_tool parse_tool_filter
  get_schema-reads req req' (version, (action, (direction, (vendor, (model, (number, _)))))) =
      rw
        (
          version.string, action.string, direction.string, vendor.argument, model.argument,
          number.int,
        )
        refl

  query_schemas-reads :
      ReadsItsParams (registered new_query_schemas_tool (query_schemas service enc))
  unfolding query_schemas new_query_schemas_tool parse_tool_filter
  query_schemas-reads req req' (version, (vendor, (model, (action, (direction, _))))) =
      rw (version.string, vendor.argument, model.argument, action.argument, direction.argument) refl

  list_schema_versions-reads :
      ReadsItsParams (registered new_list_schema_versions_tool (list_schema_versions service enc))
  unfolding list_schema_versions new_list_schema_versions_tool parse_tool_filter
  list_schema_versions-reads req req' (version, (action, (direction, (vendor, (model, _))))) =
      rw (version.string, action.string, direction.string, vendor.argument, model.argument) refl

  -- Every handler that registerTools registers depends on nothing of a call but the arguments that
  -- its tool declares: two calls that agree on those give the same results and effects.
  pub register_tools-declare :
      (t : Registered W) (req req' : CallToolRequest)
      → Memᴰ t (register_tools service enc)
      → SameParams t.tool req req'
      → t.handler req ≡ t.handler req'
  unfolding register_tools
  register_tools-declare t req req' m same =
      All-lookup ReadsItsParams t (register_tools service enc)
        (
          schema_validation-reads,
          (
            register_schema-reads,
            (
              remove_schema-reads,
              (get_schema-reads, (query_schemas-reads, (list_schema_versions-reads, tt))),
            ),
          ),
        )
        m req req' same

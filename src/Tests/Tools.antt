-- ===== src/Tests/Tools.antt =====
-- The theorems on the MCP tools at concrete calls.
use chargeflow_registry.Prelude.{
  String, none, some, List, [], ◌∷◌, All, ◌≡◌, refl, ok, ◌==◌, if◌then◌else◌, false,
}
use mathlib.Core.Path.{fun_ext}
use mathlib.Core.List.{Memᴰ}
use mathlib.Core.List.Memᴰ.{head, tail}
use chargeflow_registry.Schema.Model.{Schema, status_verified}
use chargeflow_registry.Schema.Service
use chargeflow_registry.Postgres.Model.{to_entity, to_domain, to_domain_slice}
use chargeflow_registry.Postgres.Query.{matches_filters}
use chargeflow_registry.Postgres.Repository as Rows
use chargeflow_registry.Mcp.Server.{Encoding, SchemaRegistry}
use chargeflow_registry.Mcp.Tools.{
  CallToolRequest, text, not_text, remove_schema, parse_tool_filter, optional_string, query_schemas,
}
use chargeflow_registry.Mcp.Specs.{new_remove_schema_tool}
use chargeflow_registry.Mcp.Registration.{
  Registered, registered, register_tools, SameAt, register_tools-declare,
}
use chargeflow_registry.Mcp.Answers.{IsAnswer, register_tools-Answers}
use chargeflow_registry.App.{repo, store, schema_registry}
use chargeflow_registry.App.Querying.{query_schemas-verified}
use chargeflow_registry.Tests.Cell.{Cell, cell, jsonb, view}
use chargeflow_registry.Tests.CellLaws.{cell-IsPostgres}
use chargeflow_registry.Tests.Messages.{lib}
use chargeflow_registry.Tests.Worlds.{boot_verified, plain_json, Keys, redis, coding}

-- The actions of the schemas stand for their JSON form.
abbrev action_of : List Schema → String
action_of [] = "none"
action_of (s ∷ ss) = s.action

abbrev pub encoding : Encoding
encoding = record {
  marshal_schema = λ s. ok s.action;
  marshal_schemas = λ ss. ok (action_of ss);
  marshal_versions = λ vs. ok "versions";
  marshal_report = λ r. ok "report";
  quote = λ s. s;
  bytes_of = λ s. [];
  parse_url = λ s. none;
  parse_query = λ s. none;
}

abbrev pub everything : CallToolRequest
everything = record {
  get_string = λ name default. default;
  get_int = λ name default. default;
  argument = λ name. not_text;
}

abbrev pub shelf : Cell × Keys
shelf = ((some (to_entity boot_verified), λ id n. none), λ k. none)

query_schemas-verified_example :
    (found : List Schema) × All (λ s. s.status ≡ status_verified) found
    × (encoding.marshal_schemas found ≡ ok "BootNotification")
query_schemas-verified_example =
    query_schemas-verified cell plain_json redis coding 60 jsonb view cell-IsPostgres lib encoding
      everything shelf "BootNotification"
      (unfold query_schemas schema_registry parse_tool_filter optional_string Service.list
          Service.clamp_page_size repo Rows.repository Rows.list matches_filters to_entity
          to_domain_slice to_domain in
        refl)

-- The same call with an argument that no tool declares.
abbrev chatty : CallToolRequest
chatty = record {
  get_string = λ name default. if name == "mood" then "good" else default;
  get_int = λ name default. default;
  argument = λ name. if name == "mood" then text "good" else not_text;
}

abbrev registry : SchemaRegistry (Cell × Keys)
registry =
    schema_registry (repo cell plain_json redis coding 60) (store cell plain_json redis coding 60)
      lib

abbrev removal : Registered (Cell × Keys)
removal = registered new_remove_schema_tool (remove_schema registry encoding)

removal-Memᴰ : Memᴰ removal (register_tools registry encoding)
unfolding register_tools
removal-Memᴰ = tail (tail (head refl))

same_at : (name : String) → (name == "mood") ≡ false → SameAt everything chatty name
same_at name other = record {
  string = fun_ext λ default. rw other refl;
  int = refl;
  argument = rw other refl;
}

register_tools-declare_example : removal.handler everything ≡ removal.handler chatty
register_tools-declare_example =
    register_tools-declare registry encoding removal everything chatty removal-Memᴰ (
      unfold new_remove_schema_tool in
      (
        same_at "ocpp_version" refl,
        (same_at "action" refl, (same_at "vendor" refl, (same_at "model" refl, tt))),
      ))

register_tools-Answers_example : IsAnswer encoding (removal.handler chatty shelf).0
register_tools-Answers_example =
    register_tools-Answers registry encoding removal chatty removal-Memᴰ shelf

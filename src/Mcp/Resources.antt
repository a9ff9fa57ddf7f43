-- ===== src/Mcp/Resources.antt =====
-- internal/mcp/resources.go: the resources schema://… and schemas://….
use chargeflow_registry.Prelude.{
  String, Option, none, some, List, [], ◌∷◌, not, ◌||◌, ◌==◌, ◌<>◌, trim_slash, split_slash_2,
  if◌then◌else◌, Exec, Result, ok, err, pure, lift, trying,
}
use chargeflow_registry.Errors.{Error, wrapped, other, is, err_not_found}
use chargeflow_registry.Schema.Model.{status_verified}
use chargeflow_registry.Schema.Ports.{max_page_size}
use chargeflow_registry.Mcp.Server.{SchemaRegistry, SchemaFilter, no_filter, Url, Encoding}

-- mcplib.TextResourceContents, of MIME type application/json
pub record ResourceContents : Type 0 where
  pub uri : String
  pub text : String

-- The parts of a schema:// URI.
pub record SchemaUri : Type 0 where
  pub version : String
  pub action : String
  pub msg_type : String
  pub filter : SchemaFilter

abbrev pub unless_empty : String → Option String
unless_empty s = if s == "" then none else some s

unfoldable pub filter_of_values : Option (String → String) → SchemaFilter
filter_of_values none = no_filter
filter_of_values (some values) = record {
  vendor = unless_empty (values "vendor");
  model = unless_empty (values "model");
  action = unless_empty (values "action");
  message_type = unless_empty (values "message_type");
}

abbrev pub invalid_schema_uri : Encoding → String → Error
invalid_schema_uri enc uri =
    other
      ("invalid schema URI " <> enc.quote uri <> ": expected schema://{version}/{action}/{type}")

abbrev pub invalid_schemas_uri : Encoding → String → Error
invalid_schemas_uri enc uri =
    other ("invalid schemas URI " <> enc.quote uri <> ": expected schemas://{version}")

module _ (enc : Encoding) where
  unfoldable pub parse_schema_filter : String → SchemaFilter
  unfolding filter_of_values
  parse_schema_filter raw_query = filter_of_values (enc.parse_query raw_query)

  -- `len(parts) != 2 || parts[0] == "" || parts[1] == ""` is an error
  unfoldable pub uri_of_parts : String → Url → List String → Result Error SchemaUri
  unfolding parse_schema_filter
  uri_of_parts uri u (action ∷ msg_type ∷ []) =
      if u.host == "" || action == "" || msg_type == ""
      then err (invalid_schema_uri enc uri)
      else ok (record {
        version = u.host;
        action = action;
        msg_type = msg_type;
        filter = parse_schema_filter u.raw_query;
      })
  uri_of_parts uri u _ = err (invalid_schema_uri enc uri)

  unfoldable pub parse_schema_uri : String → Result Error SchemaUri
  unfolding uri_of_parts
  parse_schema_uri uri = elim (enc.parse_url uri) [
    | none ↦ err (invalid_schema_uri enc uri)
    | some u ↦
        if not (u.scheme == "schema")
        then err (invalid_schema_uri enc uri)
        else uri_of_parts uri u (split_slash_2 (trim_slash u.path))
  ]

  unfoldable pub parse_schemas_uri : String → Result Error (String × SchemaFilter)
  unfolding parse_schema_filter
  parse_schemas_uri uri = elim (enc.parse_url uri) [
    | none ↦ err (invalid_schemas_uri enc uri)
    | some u ↦
        if not (u.scheme == "schemas") || u.host == ""
        then err (invalid_schemas_uri enc uri)
        else ok (u.host, parse_schema_filter u.raw_query)
  ]

abbrev pub contents_of : String → String → List ResourceContents
contents_of uri out = record { uri = uri; text = out } ∷ []

module _ {W : Type 0} (service : SchemaRegistry W) (enc : Encoding) where
  unfoldable pub read_schema : String → Exec W Error (List ResourceContents)
  unfolding parse_schema_uri
  read_schema uri =
      trying (lift (parse_schema_uri enc uri)) (λ e. e)
        λ parsed.
          trying
            (service.get parsed.version parsed.action parsed.msg_type parsed.filter.vendor
              parsed.filter.model)
            (λ e.
              if is e err_not_found
              then other ("schema not found: " <> uri)
              else wrapped "get schema" e)
            λ sc.
              trying (lift (enc.marshal_schema sc)) (wrapped "marshal schema")
                λ out. pure (contents_of uri out)

  unfoldable pub list_schemas : String → Exec W Error (List ResourceContents)
  unfolding parse_schemas_uri
  list_schemas uri =
      trying (lift (parse_schemas_uri enc uri)) (λ e. e)
        λ (version, filter).
          trying
            (service.list version filter.vendor filter.model filter.action filter.message_type
              (some status_verified) max_page_size 0)
            (wrapped "list schemas")
            λ found.
              trying (lift (enc.marshal_schemas found.0)) (wrapped "marshal schemas")
                λ out. pure (contents_of uri out)

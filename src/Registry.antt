-- ===== src/Registry.antt =====
-- backend/app/gateway/registry.py: the trusted registry of tools.
pub mod Laws
use cage_agent_security.Prelude.{Bool, true, false, String, Option, none, some, List, [], ◌∷◌}
use cage_agent_security.Prelude.Eq.{◌==◌, string_eq, add}
use cage_agent_security.Prelude.Tests.{is_some}
use cage_agent_security.Prelude.Dict.{Dict, get, put}
use cage_agent_security.Enums.{ArtifactSourceType, DataClassification, PayloadBindingMode}
use cage_agent_security.Enums.Same.{data_classification_eq}

pub record ToolSpec : Type 0 where
  pub name : String
  pub known : Bool
  pub privileged : Bool
  pub destructive : Bool
  pub external_sink : Bool
  pub resource_scoped : Bool
  pub default_classification : Option DataClassification
  pub description : String
  pub requires_tracked_inputs : Bool
  pub payload_binding_mode : PayloadBindingMode
  pub payload_argument_names : List String
  pub allowed_destination_paths : List String
  pub produces_artifact : Bool
  pub output_derives_from_inputs : Bool
  pub output_source_type : ArtifactSourceType
  pub reads_resource_data : Bool

abbrev pub default_allowed_destination_paths : List String
default_allowed_destination_paths =
    "" ∷ "/" ∷ "/upload" ∷ "/submit" ∷ "/test" ∷ "/collect" ∷ "/report" ∷ "/exfil" ∷ "/raw"
    ∷ "/sink" ∷ []

-- The defaults of the dataclass.
abbrev default_spec : String → ToolSpec
default_spec name = record {
  name = name;
  known = true;
  privileged = false;
  destructive = false;
  external_sink = false;
  resource_scoped = false;
  default_classification = none;
  description = "";
  requires_tracked_inputs = false;
  payload_binding_mode = PayloadBindingMode.unbound;
  payload_argument_names = [];
  allowed_destination_paths = default_allowed_destination_paths;
  produces_artifact = true;
  output_derives_from_inputs = false;
  output_source_type = ArtifactSourceType.tool_result;
  reads_resource_data = false;
}

abbrev web_search : ToolSpec
web_search = record (default_spec "web.search") {
  default_classification = some DataClassification.public_;
  description = "Search public web information";
  output_source_type = ArtifactSourceType.external_content;
}

abbrev file_read : ToolSpec
file_read = record (default_spec "file.read") {
  resource_scoped = true;
  description = "Read local file contents";
  output_source_type = ArtifactSourceType.file;
}

abbrev file_write : ToolSpec
file_write = record (default_spec "file.write") {
  resource_scoped = true;
  description = "Write to local file path";
  output_derives_from_inputs = true;
  output_source_type = ArtifactSourceType.file;
}

abbrev database_read : ToolSpec
database_read = record (default_spec "database.read") {
  privileged = true;
  resource_scoped = true;
  default_classification = some DataClassification.internal;
  description = "Query internal database tables";
  output_source_type = ArtifactSourceType.database;
  reads_resource_data = true;
}

abbrev external_http_post : ToolSpec
external_http_post = record (default_spec "external.http_post") {
  external_sink = true;
  resource_scoped = true;
  description = "Transmit HTTP payload to external endpoint";
  requires_tracked_inputs = true;
  payload_binding_mode = PayloadBindingMode.artifact_required;
  payload_argument_names = "body" ∷ "data" ∷ "payload" ∷ "content" ∷ [];
  produces_artifact = false;
}

abbrev system_delete_resource : ToolSpec
system_delete_resource = record (default_spec "system.delete_resource") {
  privileged = true;
  destructive = true;
  resource_scoped = true;
  description = "Delete a system or cloud resource";
  produces_artifact = false;
  output_source_type = ArtifactSourceType.system;
}

abbrev agent_transform : ToolSpec
agent_transform = record (default_spec "agent.transform") {
  description = "Agent summarization and data transformation";
  output_derives_from_inputs = true;
  output_source_type = ArtifactSourceType.agent_generated;
}

abbrev secrets_vault_read : ToolSpec
secrets_vault_read = record (default_spec "secrets.vault_read") {
  privileged = true;
  resource_scoped = true;
  default_classification = some DataClassification.credential;
  description = "Read credentials from internal vault";
  output_source_type = ArtifactSourceType.internal_resource;
  reads_resource_data = true;
}

abbrev pub ToolRegistry : Type 0
ToolRegistry = Dict String ToolSpec

unfoldable pub register : ToolRegistry → ToolSpec → ToolRegistry
register registry spec = put registry spec.name spec

register_all : ToolRegistry → List ToolSpec → ToolRegistry
register_all registry [] = registry
register_all registry (spec ∷ specs) = register_all (register registry spec) specs

unfoldable pub default_tool_registry : ToolRegistry
unfolding register register_all put
default_tool_registry = register_all [] (
    web_search ∷ file_read ∷ file_write ∷ database_read ∷ external_http_post
    ∷ system_delete_resource ∷ agent_transform ∷ secrets_vault_read ∷ [])

abbrev pub unknown_tool : String → ToolSpec
unknown_tool name = record (default_spec name) {
  known = false;
  privileged = true;
  resource_scoped = true;
  description = "Unknown tool - defaulting to conservative security bounds";
}

abbrev or_unknown : String → Option ToolSpec → ToolSpec
or_unknown name none = unknown_tool name
or_unknown name (some spec) = spec

-- `registry.get(tool_name)`
unfoldable pub lookup_tool : ToolRegistry → String → ToolSpec
lookup_tool registry name = or_unknown name (get registry name)

unfoldable pub is_known : ToolRegistry → String → Bool
is_known registry name = is_some (get registry name)

abbrev pub with_default :
    List DataClassification → Option DataClassification → List DataClassification
with_default declared none = declared
with_default declared (some c) = add declared c

-- The order of `list(set)` is not specified, and no caller reads it.
unfoldable pub get_effective_classifications :
    ToolRegistry → String → List DataClassification → List DataClassification
get_effective_classifications registry name declared =
    with_default declared (lookup_tool registry name).default_classification

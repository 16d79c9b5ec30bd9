-- ===== src/RegistryService.antt =====
-- pkg/services/registry_service.go, `EnrichMCPServerFromCache`: a server completed from the
-- template that is cached in a ConfigMap. A map that is nil and one that is empty read the same.
pub mod Idempotent
pub mod Fetched
pub mod Token
mod Settled
mod Chosen
mod Tests
use mcp_operator.Prelude.{
  String, ◌==◌, ◌⊎◌, inl, inr, Bool, ◌&&◌, ◌||◌, not, Option, none, some, List, [], ◌∷◌,
  if◌then◌else◌, is_some, pos, concat, Dict, lookup, insert,
}
use mcp_operator.Api.{RegistryRef, RuntimeSpec, TransportSpec, PortSpec, McpServerSpec, McpServer}
use mcp_operator.AutoUpdate.Template.{Template, read}

-- `registry.MCPServerSpec`: the template, and the fields that only enrichment reads.
pub record CachedSpec : Type 0 where
  pub template : Template
  pub transport : Option TransportSpec
  pub ports : List PortSpec

-- `if old == "" { old = new }`.
abbrev pub fill : (old new : String) → String
fill old new = if old == "" then new else old

abbrev pub fill_list : {A : Type 0} → (old new : List A) → List A
fill_list [] new = new
fill_list (x ∷ xs) new = x ∷ xs

-- `if m[key] == "" { m[key] = value }`.
abbrev pub keep_annotation : (key value : String) → Dict String → Dict String
keep_annotation key value m = if read key m == "" then insert key value m else m

unfoldable pub keep_annotations : Template → Dict String → Dict String
keep_annotations t m = keep_annotation "mcp.allbeone.io/registry-author" t.author (
    keep_annotation "mcp.allbeone.io/registry-license" t.license (
      keep_annotation "mcp.allbeone.io/registry-repository" t.repository (
        keep_annotation "mcp.allbeone.io/registry-description" t.description
          (keep_annotation "mcp.allbeone.io/registry-version" t.version m))))

-- The digest is written over an old one.
abbrev pub write_digest : Template → Dict String → Dict String
write_digest t m =
    if t.template_digest == ""
    then m
    else insert "mcp.allbeone.io/template-digest" t.template_digest m

-- The loop over the template's environment.
unfoldable pub fill_env : (template : Dict String) → Dict String → Dict String
fill_env [] env = env
fill_env ((k, v) ∷ rest) env =
    fill_env rest (if is_some (lookup k env) then env else insert k v env)

abbrev pub empty_runtime : RuntimeSpec
empty_runtime = record { kind = ""; image = ""; command = []; args = []; env = []; port = pos 0 }

abbrev pub or_empty : Option RuntimeSpec → RuntimeSpec
or_empty none = empty_runtime
or_empty (some r) = r

abbrev pub is_docker : String → Bool
is_docker kind = kind == "docker" || kind == "Docker"

unfoldable pub enrich_runtime : Template → RuntimeSpec → RuntimeSpec
unfolding fill_env
enrich_runtime t r =
    let kind = fill r.kind t.kind in
    record {
      kind = kind;
      image = if is_docker kind && r.image == "" && not (t.image == "") then t.image else r.image;
      command = fill_list r.command t.command;
      args = fill_list r.args t.args;
      env = fill_env t.env r.env;
      port = r.port;
    }

-- The fields of the template's transport that are not given.
abbrev pub merge_transport : Option TransportSpec → Option TransportSpec → Option TransportSpec
merge_transport none template = template
merge_transport (some given) none = some given
merge_transport (some given) (some t) =
    some (record { kind = fill given.kind t.kind; path = fill given.path t.path })

abbrev pub detected : List PortSpec → String
detected [] = "stdio"
detected (p ∷ ps) = "http"

abbrev pub path_of : Option TransportSpec → String
path_of none = ""
path_of (some t) = t.path

-- The transport whose type is still missing: by the ports of the template.
unfoldable pub detect_transport : CachedSpec → Option TransportSpec → TransportSpec
detect_transport c none = record { kind = detected c.ports; path = path_of c.transport }
detect_transport c (some t) =
    if t.kind == ""
    then record { kind = detected c.ports; path = fill t.path (path_of c.transport) }
    else t

module _ {Q : Type 0} where
  unfoldable pub enrich_spec : CachedSpec → McpServerSpec Q → McpServerSpec Q
  unfolding enrich_runtime detect_transport
  enrich_spec c s = record s {
    runtime = some (enrich_runtime c.template (or_empty s.runtime));
    transport = some (detect_transport c (merge_transport s.transport c.transport));
    ports = fill_list s.ports c.ports;
  }

  -- The server after the template is parsed.
  unfoldable pub enrich : CachedSpec → McpServer Q → McpServer Q
  unfolding keep_annotations enrich_spec
  enrich c s = record s {
    annotations = write_digest c.template (keep_annotations c.template s.annotations);
    spec = enrich_spec c s.spec;
  }

-- The answer to a read of the API server.
pub data Read (A : Type 0) : Type 0 where
  found : A → Read A
  absent : Read A
  broken : String → Read A

-- What reads the cache: the data of a ConfigMap, and the parser of its text.
pub record Registry : Type 0 where
  pub config_map : (name namespace : String) → Read (Dict String)
  pub parse : String → String ⊎ CachedSpec

abbrev pub cached_config_map_name : (registry server : String) → String
cached_config_map_name registry server = concat ("mcpregistry-" ∷ registry ∷ "-" ∷ server ∷ [])

module _ (registry : Registry) where
  abbrev pub parse_data : (name : String) → Dict String → String ⊎ CachedSpec
  parse_data name content = elim (lookup "server.yaml" content) [
    | none ↦ inl (concat ("server.yaml not found in ConfigMap " ∷ name ∷ []))
    | some text ↦ registry.parse text
  ]

  -- The template that is cached under the name.
  unfoldable pub read_cache : (name namespace : String) → String ⊎ CachedSpec
  read_cache name namespace = elim (registry.config_map name namespace) [
    | absent ↦ inl (
        concat (
          "registry cache not found: ConfigMap " ∷ name ∷ " not found in namespace " ∷ namespace
          ∷ []))
    | broken err ↦ inl (concat ("failed to get ConfigMap " ∷ name ∷ ": " ∷ err ∷ []))
    | found content ↦ parse_data name content
  ]

module _ (registry : Registry) {Q : Type 0} where
  unfoldable pub enrich_from_cache :
      RegistryRef → (namespace : String) → McpServer Q → String ⊎ McpServer Q
  unfolding read_cache enrich
  enrich_from_cache r namespace s =
      if r.name == ""
      then inl "registry name is required for cache enrichment"
      else (let server = if r.server_name == "" then s.name else r.server_name in
          let ns = if namespace == "" then s.namespace else namespace in
          elim (read_cache registry (cached_config_map_name r.name server) ns) [
            | inl err ↦ inl err
            | inr c ↦ inr (enrich c s)
          ])

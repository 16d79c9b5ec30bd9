-- ===== src/RegistryService/Fetched.antt =====
-- pkg/services/registry_service.go: `FetchServerSpec`, `EnrichMCPServer` and
-- `ForceEnrichMCPServer`. The registry client is known by its answers; a nil dereference is
-- `panicked`.
use mcp_operator.Prelude.{
  String, ◌==◌, ◌⊎◌, inl, inr, ◌&&◌, not, Option, none, some, [], ◌∷◌, if◌then◌else◌, concat,
}
use mcp_operator.Api.{RegistryRef, RuntimeSpec, McpServerSpec, McpServer}
use mcp_operator.AutoUpdate.Template.{
  Template, Outcome, panicked, failed, returned, read, merge_env, template_annotations,
}
use mcp_operator.RegistryService.{fill, fill_list, keep_annotations, write_digest, fill_env}

-- `fetch` is `GetServerSpec` of the client, which may not be there.
unfoldable pub fetch_server_spec :
    Option (String → String ⊎ Template) → (server : String) → String ⊎ Template
fetch_server_spec none server = inl "registry client is not initialized"
fetch_server_spec (some fetch) server = elim (fetch server) [
  | inl err ↦ inl (concat ("failed to fetch server spec for " ∷ server ∷ ": " ∷ err ∷ []))
  | inr t ↦ inr t
]

-- Unlike `enrich_runtime`, the image is filled in whatever the type.
unfoldable pub fill_runtime : Template → RuntimeSpec → RuntimeSpec
unfolding fill_env
fill_runtime t r = record {
  kind = fill r.kind t.kind;
  image = fill r.image t.image;
  command = fill_list r.command t.command;
  args = fill_list r.args t.args;
  env = fill_env t.env r.env;
  port = r.port;
}

-- The variables are cleared first.
unfoldable pub overwrite_runtime : Template → RuntimeSpec → RuntimeSpec
overwrite_runtime t r = record {
  kind = t.kind;
  image = t.image;
  command = t.command;
  args = t.args;
  env = merge_env [] t.env;
  port = r.port;
}

module _ {Q : Type 0} where
  abbrev pub with_runtime : RuntimeSpec → McpServerSpec Q → McpServerSpec Q
  with_runtime r spec = record spec { runtime = some r }

  unfoldable pub enriched : Template → RuntimeSpec → McpServer Q → McpServer Q
  unfolding keep_annotations fill_runtime
  enriched t r s = record s {
    annotations = write_digest t (keep_annotations t s.annotations);
    spec = with_runtime (fill_runtime t r) s.spec;
  }

  unfoldable pub overwritten : Template → RuntimeSpec → McpServer Q → McpServer Q
  unfolding template_annotations overwrite_runtime
  overwritten t r s = record s {
    annotations = template_annotations t s.annotations;
    spec = with_runtime (overwrite_runtime t r) s.spec;
  }

  -- By the answer of the fetch; the runtime is written to.
  abbrev pub write_template :
      (Template → RuntimeSpec → McpServer Q → McpServer Q)
      → (purpose : String) → McpServer Q
      → Option RuntimeSpec
      → String ⊎ Template
      → Outcome (McpServer Q)
  write_template write purpose s runtime (inl err) =
      failed (concat ("failed to fetch server spec for " ∷ purpose ∷ ": " ∷ err ∷ []))
  write_template write purpose s none (inr t) = panicked
  write_template write purpose s (some r) (inr t) = returned (write t r s)

  -- The fetch reads the reference to the registry.
  unfoldable pub fetch_and_write :
      (Template → RuntimeSpec → McpServer Q → McpServer Q)
      → (purpose : String) → Option (String → String ⊎ Template)
      → McpServer Q
      → Option RegistryRef
      → Outcome (McpServer Q)
  unfolding fetch_server_spec
  fetch_and_write write purpose client s none = panicked
  fetch_and_write write purpose client s (some r) =
      write_template write purpose s s.spec.runtime (fetch_server_spec client r.server_name)

  -- The test for a server that is enriched already, by its runtime; `later` is the rest.
  abbrev pub unless_enriched :
      McpServer Q → Option RuntimeSpec → Outcome (McpServer Q) → Outcome (McpServer Q)
  unless_enriched s none later =
      if read "mcp.allbeone.io/registry-version" s.annotations == "" then later else panicked
  unless_enriched s (some r) later =
      if not (read "mcp.allbeone.io/registry-version" s.annotations == "") && not (r.image == "")
      then returned s
      else later

  unfoldable pub enrich_mcp_server :
      Option (String → String ⊎ Template) → McpServer Q → Outcome (McpServer Q)
  unfolding fetch_and_write enriched
  enrich_mcp_server client s =
      unless_enriched s s.spec.runtime
        (fetch_and_write enriched "enrichment" client s s.spec.registry)

  unfoldable pub force_enrich_mcp_server :
      Option (String → String ⊎ Template) → McpServer Q → Outcome (McpServer Q)
  unfolding fetch_and_write overwritten
  force_enrich_mcp_server client s =
      fetch_and_write overwritten "force enrichment" client s s.spec.registry

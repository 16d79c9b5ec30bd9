-- ===== src/RegistryService/Tests.antt =====
-- A specification without an image, completed from a template, and the theorem at it.
use mcp_operator.Prelude.{
  ℕ, String, ◌≡◌, refl, ◌⊎◌, inr, false, none, some, [], ◌∷◌, pos, lookup, insert,
}
use mcp_operator.Api.{RuntimeSpec, McpServerSpec, McpServer}
use mcp_operator.RegistryService.{CachedSpec, enrich_spec, found}
use mcp_operator.AutoUpdate.Template.{Template, returned, compare}
use mcp_operator.RegistryService.Fetched.{
  enriched, overwritten, enrich_mcp_server, force_enrich_mcp_server,
}
use mcp_operator.RegistryService.Settled.{
  enrich_mcp_server-enriched, compare-force_enrich_mcp_server,
}
use mcp_operator.RegistryService.Token.{Auth, Access, get_github_token}
use mcp_operator.RegistryService.Chosen.{get_github_token-first_given}
use mcp_operator.RegistryService.Idempotent.{enrich_spec_twice}

abbrev cached : CachedSpec
cached = record {
  template = record {
    version = "1.2";
    description = "";
    repository = "";
    license = "";
    author = "";
    template_digest = "abc";
    kind = "docker";
    image = "ghcr.io/x:2";
    command = [];
    args = "serve" ∷ [];
    env = ("A", "1") ∷ ("B", "2") ∷ [];
  };
  transport = none;
  ports = [];
}

abbrev given_runtime : McpServerSpec ℕ
given_runtime = record {
  registry = some (record { name = "main"; server_name = ""; registry = "" });
  runtime = some (record {
    kind = "";
    image = "";
    command = [];
    args = [];
    env = ("A", "mine") ∷ [];
    port = pos 0;
  });
  replicas = none;
  resources = record { limits = none; requests = none };
  security_context = none;
  service_type = "";
  autoscaling = none;
  tenancy = none;
  transport = none;
  ports = [];
}

completed_runtime :
    (enrich_spec cached given_runtime).runtime
    ≡ some (record {
      kind = "docker";
      image = "ghcr.io/x:2";
      command = [];
      args = "serve" ∷ [];
      env = ("A", "mine") ∷ ("B", "2") ∷ [];
      port = pos 0;
    })
unfolding enrich_spec lookup insert
completed_runtime = refl

detected_stdio :
    (enrich_spec cached given_runtime).transport ≡ some (record { kind = "stdio"; path = "" })
unfolding enrich_spec
detected_stdio = refl

enrich_spec_twice_example :
    enrich_spec cached (enrich_spec cached given_runtime) ≡ enrich_spec cached given_runtime
enrich_spec_twice_example = enrich_spec_twice cached given_runtime

abbrev runtime : RuntimeSpec
runtime = record {
  kind = "";
  image = "";
  command = [];
  args = [];
  env = ("A", "mine") ∷ [];
  port = pos 0;
}

abbrev registered : McpServer ℕ
registered = record {
  name = "files";
  namespace = "tools";
  annotations = [];
  spec = given_runtime;
  status = record {
    phase = "";
    message = "";
    reason = "";
    replicas = pos 0;
    ready_replicas = pos 0;
    available_replicas = pos 0;
    conditions = [];
    service_endpoint = none;
    last_update_time = none;
  };
}

abbrev answering : String → String ⊎ Template
answering server = inr (cached.template)

enrich_mcp_server-enriched_example :
    enrich_mcp_server none (enriched cached.template runtime registered)
    ≡ returned (enriched cached.template runtime registered)
enrich_mcp_server-enriched_example =
    enrich_mcp_server-enriched none cached.template runtime registered refl refl

forced :
    force_enrich_mcp_server (some answering) registered
    ≡ returned (overwritten cached.template runtime registered)
unfolding force_enrich_mcp_server
forced = refl

compare-force_enrich_mcp_server_example :
    compare (overwritten cached.template runtime registered) cached.template
    ≡ returned (false, some cached.template)
compare-force_enrich_mcp_server_example =
    compare-force_enrich_mcp_server answering registered
      (overwritten cached.template runtime registered)
      (record { name = "main"; server_name = ""; registry = "" }) cached.template refl refl forced

abbrev access : Access
access = record {
  secret = λ name namespace. found (("GITHUB_TOKEN", "from the secret") ∷ []);
  env_token = "from the environment";
  list_servers = λ token. inr [];
}

abbrev by_secret : Auth
by_secret = record {
  secret_ref = some (record { name = "github"; key = "other"; optional = false });
  token = "";
}

get_github_token-first_given_example :
    get_github_token access "tools" (some by_secret) ≡ "from the secret"
unfolding lookup
get_github_token-first_given_example = get_github_token-first_given access "tools" by_secret

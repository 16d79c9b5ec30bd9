-- ===== src/Server/Tests.antt =====
-- A concrete server under answers that all succeed, and the theorems at it.
use mcp_operator.Prelude.{
  ℕ, ◌+◌, String, ◌==◌, ◌≡◌, refl, inr, Bool, true, false, not, Option, none, some, [], ◌∷◌, eqb,
  if◌then◌else◌, pos, pos_part, lookup, insert,
}
use mcp_operator.Api.{McpServer}
use mcp_operator.RegistryService.{CachedSpec, enrich, found, absent, enrich_from_cache}
use mcp_operator.RetryService.{new_retry_service}
use mcp_operator.Server.{Managed, Deployment, Controls, Ran}
use mcp_operator.Server.Deployed.{is_rolling_update, from_deployment}
use mcp_operator.Server.Reconcile.{reconcile}
use mcp_operator.Server.Watch.{ConfigMapMeta, find_mcp_servers_for_config_map}
use mcp_operator.Server.Unrendered.{any_rendered, any_rendered-reconcile}
use mcp_operator.Server.Readiness.{is_settled, is_true, conditions-from_deployment}
use mcp_operator.Server.Watched.{enrich_from_cache-find_mcp_servers_for_config_map}

abbrev server : McpServer ℕ
server = record {
  name = "files";
  namespace = "tools";
  annotations = [];
  spec = record {
    registry = some (record { name = ""; server_name = ""; registry = "main" });
    runtime = some (record {
      kind = "docker";
      image = "ghcr.io/x:1";
      command = [];
      args = [];
      env = [];
      port = pos 0;
    });
    replicas = some (pos 1);
    resources = record { limits = none; requests = none };
    security_context = none;
    service_type = "ClusterIP";
    autoscaling = none;
    tenancy = none;
    transport = none;
    ports = [];
  };
  status = record {
    phase = "";
    message = "";
    reason = "";
    replicas = pos 0;
    ready_replicas = pos 0;
    available_replicas = pos 0;
    conditions = [];
    service_endpoint = none;
    last_update_time = none;
  };
}

abbrev managed : Managed ℕ
managed = record {
  server = server;
  finalizers = [];
  is_deleted = false;
  gateway = none;
  resolved_hash = "";
  resolved_config_map = none;
}

abbrev three_of_three : Deployment
three_of_three = record {
  desired = some (pos 3);
  generation = pos 2;
  observed_generation = pos 2;
  updated_replicas = pos 3;
  status = record {
    replicas = pos 3;
    ready_replicas = pos 3;
    available_replicas = pos 3;
    conditions = [];
  };
}

abbrev cached : CachedSpec
cached = record {
  template = record {
    version = "1.2";
    description = "";
    repository = "";
    license = "";
    author = "";
    template_digest = "";
    kind = "docker";
    image = "ghcr.io/x:2";
    command = [];
    args = [];
    env = [];
  };
  transport = none;
  ports = [];
}

-- The only ConfigMap is that of the server `files` of the registry `main`.
abbrev env : Controls ℕ String
env = record {
  now = pos 100;
  patch = λ m. none;
  update = λ m. none;
  update_status = λ s. none;
  registry = record {
    config_map = λ name namespace.
        if name == "mcpregistry-main-files" then found (("server.yaml", "x") ∷ []) else absent;
    parse = λ text. inr cached;
  };
  lib = record {
    parse = λ text. inr 1;
    cmp = λ a b. pos 0;
    is_zero = λ a. eqb a 0;
    sign = λ a. pos 1;
    show = λ a. "";
    zero_quantity = 0;
    value = λ a. pos a;
    set = λ q n. pos_part n;
    add = λ a b. a + b;
  };
  show_int = λ n. "n";
  show_duration = λ n. "10m";
  cluster = record { pods = inr []; services = inr 0 };
  render = λ s. inr ("deployment" ∷ [], "manifest");
  hash = λ text. "hash";
  own = λ s r. none;
  own_config_map = λ s. none;
  apply_config_map = λ n. none;
  apply = λ n r. none;
  labelled = λ labels r. r;
  is_done = λ n. false;
  is_cut = λ n. false;
  retry = new_retry_service;
  deployment = λ s. inr three_of_three;
  delete_resources = λ s. none;
  reconcile_istio = none;
  cleanup_istio = λ s. none;
  has_cache = true;
}

-- The enriched server is requeued, and will be enriched again.
abbrev requeues : Option (Ran ℕ String) → Bool
requeues none = false
requeues (some r) = r.requeue

requeued : requeues (reconcile env "tools" (found managed)) ≡ true
unfolding reconcile lookup insert
requeued = refl

any_rendered-reconcile_example : any_rendered env (reconcile env "tools" (found managed)) ≡ false
any_rendered-reconcile_example = any_rendered-reconcile env "tools" managed refl

conditions-from_deployment_example :
    (is_true
        (pos 100)
        (λ n. "n")
        "Ready"
        (from_deployment (pos 100) (λ n. "n") three_of_three server)
      ≡ is_settled (is_rolling_update three_of_three) three_of_three)
    × (is_true
          (pos 100)
          (λ n. "n")
          "Progressing"
          (from_deployment (pos 100) (λ n. "n") three_of_three server)
        ≡ not (is_settled (is_rolling_update three_of_three) three_of_three))
conditions-from_deployment_example =
    conditions-from_deployment (pos 100) (λ n. "n") three_of_three server

settled_three : is_settled (is_rolling_update three_of_three) three_of_three ≡ true
unfolding is_rolling_update
settled_three = refl

abbrev changed : ConfigMapMeta
changed = record {
  name = "mcpregistry-main-files";
  namespace = "tools";
  labels = some (("mcp.allbeone.io/registry", "main") ∷ ("mcp.allbeone.io/server", "files") ∷ []);
}

woken_one : find_mcp_servers_for_config_map (λ namespace. inr (server ∷ [])) changed ≡ server ∷ []
unfolding find_mcp_servers_for_config_map lookup
woken_one = refl

enrich_from_cache-find_mcp_servers_for_config_map_example :
    enrich_from_cache env.registry
      (record { name = "main"; server_name = ""; registry = "main" })
      "tools"
      server
    ≡ inr (enrich cached server)
unfolding lookup
enrich_from_cache-find_mcp_servers_for_config_map_example =
    enrich_from_cache-find_mcp_servers_for_config_map env.registry (λ namespace. inr (server ∷ []))
      changed [] [] server (record { name = ""; server_name = ""; registry = "main" })
      (("server.yaml", "x") ∷ []) "x" woken_one refl (λ e. cc) (λ e. cc) refl refl

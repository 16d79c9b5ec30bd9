-- ===== src/AutoUpdate/Tests.antt =====
-- Updates of a concrete server, and the theorems at it.
use mcp_operator.Prelude.{
  ℕ, ◌*◌, String, ◌==◌, eq_iff, ◌≡◌, refl, ◌≢◌, ◌↔◌, ◌⊎◌, inl, inr, true, false, ◌&&◌, Option, none,
  some, List, [], ◌∷◌, arith, if◌then◌else◌, all, ℤ, pos, ◌+ℤ◌, ltb_ℤ, lookup, insert,
}
use mcp_operator.Api.{RuntimeSpec, McpServer}
use mcp_operator.AutoUpdate.{
  calculate_backoff_duration, is_in_backoff_period, record_failure, record_success,
}
use mcp_operator.AutoUpdate.Backoff.{backoff_minutes, failures_at, is_in_backoff_period-failures_at}
use mcp_operator.AutoUpdate.Template.{
  Template, Outcome, panicked, failed, returned, read, differs, compare,
}
use mcp_operator.AutoUpdate.Update.{Updated, update_server_from_template}
use mcp_operator.AutoUpdate.Comparison.{differs_iff}
use mcp_operator.AutoUpdate.Convergence.{update_server_from_template_converges}
use mcp_operator.AutoUpdate.Check.{Pass, server_key, check_for_updates}
use mcp_operator.AutoUpdate.Sync.{
  SyncState, stop_periodic_sync, stopped, can_quit, stopped-can_quit, crowded, closed_after,
  crowded-Reachable,
}
use mcp_operator.AutoUpdate.Passes.{lookup-check_for_updates}

update_code : Unit {0}
unfolding check_for_updates update_server_from_template is_in_backoff_period
    calculate_backoff_duration record_failure record_success compare lookup insert
update_code = tt

abbrev server : McpServer ℕ
server = record {
  name = "files";
  namespace = "tools";
  annotations = [];
  spec = record {
    registry = some (record { name = "main"; server_name = ""; registry = "" });
    runtime = some (record {
      kind = "docker";
      image = "ghcr.io/x:1";
      command = [];
      args = [];
      env = [];
      port = pos 0;
    });
    replicas = some (pos 1);
    resources = record { limits = none; requests = none };
    security_context = none;
    service_type = "ClusterIP";
    autoscaling = none;
    tenancy = none;
    transport = none;
    ports = [];
  };
  status = record {
    phase = "";
    message = "";
    reason = "";
    replicas = pos 0;
    ready_replicas = pos 0;
    available_replicas = pos 0;
    conditions = [];
    service_endpoint = none;
    last_update_time = none;
  };
}

abbrev template : Template
template = record {
  version = "2";
  description = "files";
  repository = "";
  license = "MIT";
  author = "";
  template_digest = "abc";
  kind = "docker";
  image = "ghcr.io/x:2";
  command = "serve" ∷ [];
  args = [];
  env = ("A", "1") ∷ [];
}

abbrev main_registry : String → String → String ⊎ Template
main_registry registry name =
    if registry == "main" && name == "files" then inr template else inl "not found"

abbrev accepts : McpServer ℕ → Option String
accepts s = none

abbrev refuses : McpServer ℕ → Option String
refuses s = some "conflict"

abbrev result_or : Updated ℕ → Outcome (Updated ℕ) → Updated ℕ
result_or u (returned r) = r
result_or u panicked = u
result_or u (failed e) = u

abbrev nothing : Updated ℕ
nothing = record { updated = false; error = none; server = server; calls = [] }

abbrev first : Updated ℕ
unfolding update_code
first = result_or nothing (update_server_from_template main_registry accepts accepts (pos 7) server)

update_server_from_template_converges_example :
    update_server_from_template main_registry accepts accepts (pos 7) first.server
    ≡ returned (record { updated = false; error = none; server = first.server; calls = [] })
unfolding update_code
update_server_from_template_converges_example =
    update_server_from_template_converges main_registry accepts accepts (pos 7) server first refl
      refl

abbrev no_strings : List String
no_strings = []

abbrev plain : RuntimeSpec
plain = record {
  kind = "";
  image = "";
  command = no_strings;
  args = no_strings;
  env = [];
  port = pos 0;
}

differs_iff_example :
    differs [] plain template ≡ false
    ↔ (read "mcp.allbeone.io/registry-version" [] ≡ template.version)
      × (plain.image ≡ template.image)
      × (plain.kind ≡ template.kind)
      × (plain.command ≡ template.command)
      × (plain.args ≡ template.args)
      × ((read "mcp.allbeone.io/template-digest" [] ≡ "")
          ⊎ (template.template_digest ≡ "")
          ⊎ (read "mcp.allbeone.io/template-digest" [] ≡ template.template_digest))
differs_iff_example = differs_iff [] plain template

abbrev pass_or : Outcome (Pass ℕ) → Pass ℕ
pass_or (returned p) = p
pass_or panicked = record { tracker = []; updated_count = 0; error_count = 0; made = [] }
pass_or (failed e) = record { tracker = []; updated_count = 0; error_count = 0; made = [] }

abbrev listed : List (ℤ × McpServer ℕ)
listed = (pos 5, server) ∷ (pos 9, server) ∷ []

abbrev refused_pass : Pass ℕ
unfolding update_code
refused_pass = pass_or (check_for_updates main_registry refuses accepts (inr listed) [])

-- The second time the server is in its backoff period.
refused_once : refused_pass.error_count ≡ 1
unfolding update_code refused_pass
refused_once = refl

different : server_key server ≢ "tools/other"
different e = ground (arith, eq_iff "tools/files" "tools/other")

lookup-check_for_updates_example :
    lookup "tools/other" refused_pass.tracker ≡ lookup "tools/other" []
unfolding update_code refused_pass
lookup-check_for_updates_example =
    lookup-check_for_updates main_registry refuses accepts listed "tools/other" [] refused_pass refl
      (different, (different, tt))

is_in_backoff_period-failures_at_example :
    is_in_backoff_period (pos 60_000_000_001) "a/b" (failures_at "a/b" (pos 7 ∷ pos 1 ∷ []) [])
    ≡ ltb_ℤ (pos 60_000_000_001) (pos 7 +ℤ pos (60_000_000_000 * backoff_minutes 2))
unfolding lookup
is_in_backoff_period-failures_at_example =
    is_in_backoff_period-failures_at (pos 60_000_000_001) "a/b" (pos 7) (pos 1 ∷ []) [] refl
      (omega arith)

abbrev fresh : Pass ℕ
fresh = record { tracker = []; updated_count = 0; error_count = 0; made = [] }

abbrev unreachable : String → String → String ⊎ Template
unreachable registry name = inl "down"

abbrev stopped_state : SyncState
unfolding stop_periodic_sync
stopped_state = stop_periodic_sync (crowded 3 (closed_after 2) 2)

stopped-can_quit_example : all (can_quit stopped_state.closed) stopped_state.workers ≡ true
unfolding stopped_state
stopped-can_quit_example =
    stopped-can_quit stopped_state (stopped (crowded 3 (closed_after 2) 2) (crowded-Reachable 2))
      refl

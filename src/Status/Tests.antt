-- ===== src/Status/Tests.antt =====
-- Updates of a concrete server, and the theorems at it.
use mcp_operator.Prelude.{
  ℕ, String, ◌≡◌, refl, true, false, Option, none, some, List, [], ◌∷◌, ℤ, pos,
}
use mcp_operator.Api.{Condition, McpServer, McpRegistry}
use mcp_operator.Status.{
  put_condition, find_condition, condition_true, is_condition_true, make_condition,
  DeploymentStatus, set_condition, set_mcp_server_phase, is_mcp_server_condition_true,
  clear_mcp_server_conditions, update_mcp_server_status, update_mcp_server_from_deployment,
  check_deployment_timeout, mark_deployment_as_timed_out,
}
use mcp_operator.Status.Conditions.{find_condition-put_condition}
use mcp_operator.Status.Deployment.{phase_of, is_ready, update-phase_ready}
use mcp_operator.Status.Timeout.{run_updates}

status_code : Unit {0}
unfolding set_condition set_mcp_server_phase update_mcp_server_from_deployment
    check_deployment_timeout mark_deployment_as_timed_out is_condition_true run_updates
    update_mcp_server_status clear_mcp_server_conditions
status_code = tt

abbrev blank : McpServer ℕ
blank = record {
  name = "files";
  namespace = "tools";
  annotations = [];
  spec = record {
    registry = none;
    runtime = some (record {
      kind = "docker";
      image = "ghcr.io/x";
      command = [];
      args = [];
      env = [];
      port = pos 0;
    });
    replicas = some (pos 1);
    resources = record { limits = none; requests = none };
    security_context = none;
    service_type = "ClusterIP";
    autoscaling = none;
    tenancy = none;
    transport = none;
    ports = [];
  };
  status = record {
    phase = "";
    message = "";
    reason = "";
    replicas = pos 0;
    ready_replicas = pos 0;
    available_replicas = pos 0;
    conditions = [];
    service_endpoint = none;
    last_update_time = none;
  };
}

abbrev scaled : ℕ → ℕ → DeploymentStatus
scaled n ready = record {
  replicas = pos n;
  ready_replicas = pos ready;
  available_replicas = pos ready;
  conditions = [];
}

abbrev accepted : McpServer ℕ → Option String
accepted s = none

-- Pending at 10, running at 20, pending again at 5000.
abbrev rollout : List (ℤ × DeploymentStatus)
rollout = (pos 10, scaled 0 0) ∷ (pos 20, scaled 1 1) ∷ []

abbrev get_or_blank : Option (McpServer ℕ) → McpServer ℕ
get_or_blank none = blank
get_or_blank (some s) = s

abbrev at_10 : McpServer ℕ
at_10 = get_or_blank (run_updates accepted ((pos 10, scaled 0 0) ∷ []) blank)

abbrev again : List (ℤ × DeploymentStatus)
again = (pos 20, scaled 1 1) ∷ (pos 5000, scaled 1 0) ∷ []

abbrev at_5000 : McpServer ℕ
at_5000 = get_or_blank (run_updates accepted again at_10)

updates :
    (at_10.status.phase ≡ "Pending")
    × (at_5000.status.phase ≡ "Pending")
    × (is_mcp_server_condition_true at_5000 "Ready" ≡ true)
    × (at_5000.status.service_endpoint
        ≡ some (record { name = "files"; namespace = "tools"; port = pos 8080 }))
    × ((clear_mcp_server_conditions at_10).status.conditions ≡ [])
unfolding status_code
updates = (refl, refl, refl, refl, refl)

abbrev failed_pods : DeploymentStatus
failed_pods = record (scaled 1 1) {
  conditions = make_condition (pos 1) "ReplicaFailure" condition_true "Quota" "no room" ∷ [];
}

update-phase_ready_example :
    let t = get_or_blank (run_updates accepted ((pos 30, failed_pods) ∷ []) at_10) in
    (phase_of t ≡ "Failed") × (is_ready t ≡ false)
unfolding status_code
update-phase_ready_example =
    update-phase_ready (pos 30) accepted failed_pods at_10
      (get_or_blank (run_updates accepted ((pos 30, failed_pods) ∷ []) at_10)) none refl

abbrev no_runtime : McpServer ℕ
no_runtime = record blank { spec = record blank.spec { runtime = none } }

abbrev ready_since : ℕ → String → Condition
ready_since t status = make_condition (pos t) "Ready" status "r" "m"

find_condition-put_condition_example :
    find_condition "Ready"
      (put_condition (ready_since 9 condition_true) (ready_since 3 condition_true ∷ []))
    ≡ some (ready_since 3 condition_true)
unfolding status_code
find_condition-put_condition_example =
    find_condition-put_condition (ready_since 9 condition_true) "Ready"
      (ready_since 3 condition_true ∷ [])

abbrev syncing : McpRegistry
syncing = record {
  name = "main";
  namespace = "tools";
  spec = record { url = "https://x"; kind = "github"; auth = none; sync_interval = none };
  status = record { phase = ""; message = ""; reason = ""; last_sync_time = none; conditions = [] };
}

abbrev accepting : McpRegistry → Option String
accepting r = none

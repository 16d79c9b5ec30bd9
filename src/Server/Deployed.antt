-- ===== src/Server/Deployed.antt =====
-- controllers/mcpserver_controller.go: what `Reconcile` reads off the deployment: the rolling
-- update, the phase and conditions, the watchdog and the gateway.
use mcp_operator.Prelude.{
  String, ◌==◌, ◌⊎◌, inl, inr, Bool, true, false, ◌&&◌, ◌||◌, not, Option, none, some, List, [],
  ◌∷◌, if◌then◌else◌, ℤ, pos, ltb_ℤ, eqb_ℤ, concat,
}
use mcp_operator.Api.{GatewaySpec, Condition, McpServer}
use mcp_operator.Status.{
  condition_true, condition_false, DeploymentStatus, set_condition, check_deployment_timeout,
  mark_deployment_as_timed_out,
}
use mcp_operator.Server.{Deployment}

abbrev pub desired_of : Option ℤ → ℤ
desired_of none = pos 1
desired_of (some n) = n

-- The loop of `isDeploymentRollingUpdate`.
unfoldable pub has_rolling_condition : List Condition → Bool
has_rolling_condition [] = false
has_rolling_condition (c ∷ cs) =
    (c.kind == "Progressing"
      && c.status == condition_true
      && (c.reason == "ReplicaSetUpdated" || c.reason == "NewReplicaSetCreated"))
    || has_rolling_condition cs

-- `isDeploymentRollingUpdate`.
unfoldable pub is_rolling_update : Deployment → Bool
unfolding has_rolling_condition
is_rolling_update d =
    let desired = desired_of d.desired in
    if has_rolling_condition d.status.conditions
    then true
    else if ltb_ℤ desired d.status.replicas
    then true
    else if ltb_ℤ d.updated_replicas desired && ltb_ℤ (pos 0) d.updated_replicas
    then true
    else if ltb_ℤ d.status.ready_replicas d.status.replicas && ltb_ℤ (pos 0) d.updated_replicas
    then true
    else ltb_ℤ d.observed_generation d.generation

module _ {Q : Type 0} where
  abbrev pub copy_counts : DeploymentStatus → McpServer Q → McpServer Q
  copy_counts d s = record s {
    status = record (s.status) {
      replicas = d.replicas;
      ready_replicas = d.ready_replicas;
      available_replicas = d.available_replicas;
    };
  }

  abbrev pub in_phase : String → McpServer Q → McpServer Q
  in_phase phase s = record s { status = record (s.status) { phase = phase } }

-- `DeploymentTimeout`, ten minutes.
abbrev pub deployment_timeout : ℤ
deployment_timeout = pos 600_000_000_000

abbrev pub is_gateway_on : Option GatewaySpec → Bool
is_gateway_on none = false
is_gateway_on (some g) = g.enabled

module _ {Q : Type 0} (now : ℤ) (show_int : ℤ → String) where
  -- One branch: the phase, and the conditions Progressing and Ready.
  abbrev pub two_conditions :
      (progressing ready reason progress_message ready_message : String) → McpServer Q → McpServer Q
  two_conditions progressing ready reason progress_message ready_message s =
      set_condition now "Ready" ready reason ready_message
        (set_condition now "Progressing" progressing reason progress_message s)

  -- The branches, by whether an update is rolling; their events are `deployment_events`.
  unfoldable pub by_state : (rolling : Bool) → Deployment → McpServer Q → McpServer Q
  unfolding set_condition
  by_state true d s =
      two_conditions condition_true condition_false "RollingUpdate"
        "MCPServer deployment is performing rolling update" "MCPServer deployment is updating"
        (in_phase "Running" s)
  by_state false d s =
      let desired = desired_of d.desired in
      let ready = d.status.ready_replicas in
      let counts = concat (show_int ready ∷ "/" ∷ show_int desired ∷ []) in
      if eqb_ℤ ready desired && ltb_ℤ (pos 0) ready
      then set_condition now "Progressing" condition_false "DeploymentComplete"
          "MCPServer deployment completed successfully"
          (set_condition now "Ready" condition_true "DeploymentReady"
            (concat ("ReadyReplicas=" ∷ counts ∷ [])) (in_phase "Running" s))
      else if eqb_ℤ d.status.replicas (pos 0)
      then two_conditions condition_true condition_false "DeploymentScaling"
          "Waiting for deployment to scale up" "Deployment is scaling up" (in_phase "Pending" s)
      else if ltb_ℤ (pos 0) ready && ltb_ℤ ready desired
      then two_conditions condition_true condition_false "DeploymentPartiallyReady"
          (concat ("Deployment has " ∷ counts ∷ " ready replicas" ∷ []))
          (concat ("Only " ∷ counts ∷ " replicas are ready" ∷ [])) (in_phase "Running" s)
      else two_conditions condition_true condition_false "DeploymentPending"
          "Deployment status is pending" "Deployment is not ready yet" (in_phase "Pending" s)

  unfoldable pub from_deployment : Deployment → McpServer Q → McpServer Q
  unfolding is_rolling_update by_state
  from_deployment d s = by_state (is_rolling_update d) d (copy_counts d.status s)

  -- The deployment, or the error of reading it.
  unfoldable pub check_deployment : String ⊎ Deployment → McpServer Q → McpServer Q
  unfolding from_deployment set_condition
  check_deployment (inl err) s =
      set_condition now "Ready" condition_false "DeploymentStatusCheckFailed"
        (concat ("Failed to get deployment status: " ∷ err ∷ [])) s
  check_deployment (inr d) s = from_deployment d s

  unfoldable pub watch : (show_duration : ℤ → String) → McpServer Q → McpServer Q
  unfolding check_deployment_timeout mark_deployment_as_timed_out
  watch show_duration s =
      if check_deployment_timeout now deployment_timeout s
      then mark_deployment_as_timed_out show_duration now deployment_timeout s
      else s

  unfoldable pub gateway_condition : Option GatewaySpec → McpServer Q → McpServer Q
  unfolding set_condition
  gateway_condition g s =
      if not (is_gateway_on g)
      then set_condition now "GatewayReady" condition_true "GatewayDisabled" "Gateway is disabled" s
      else if ltb_ℤ (pos 0) s.status.ready_replicas
      then set_condition now "GatewayReady" condition_true "GatewayReady"
          "Gateway container and port are ready" s
      else set_condition now "GatewayReady" condition_false "GatewayNotReady"
          "Gateway container/port is not ready" s

-- ===== src/Status/Deployment.antt =====
-- pkg/services/status_service.go: a server's status after an update from its deployment.
use mcp_operator.Prelude.{
  String, ◌==◌, eq_iff, ◌≡◌, refl, ◌↔◌, inl, inr, Bool, true, false, ◌&&◌, not, Option, none, some,
  List, [], ◌∷◌, arith, if◌then◌else◌, Option-cases, all, any, ℤ, pos, ◌<ℤ◌, ltb_ℤ,
}
use mcp_operator.Api.{Condition, McpServer}
use mcp_operator.Status.{
  condition_true, condition_false, is_condition_true, make_condition, DeploymentStatus,
  apply_deployment_condition, apply_deployment_conditions, apply_replicas,
  update_mcp_server_from_deployment,
}
use mcp_operator.Status.Conditions.{is_condition_true-put_condition}

-- The deployment reports that it could not create a pod.
abbrev pub is_replica_failure : Condition → Bool
is_replica_failure d = d.kind == "ReplicaFailure" && d.status == condition_true

-- The deployment reports that it has stopped progressing.
abbrev pub is_stalled : Condition → Bool
is_stalled d = d.kind == "Progressing" && d.status == condition_false

abbrev pub is_quiet : Condition → Bool
is_quiet d = not (is_stalled d) && not (is_replica_failure d)

-- The phase that the deployment's replicas and conditions call for.
abbrev pub expected_phase : DeploymentStatus → String
expected_phase d =
    if any is_replica_failure d.conditions
    then "Failed"
    else if ltb_ℤ (pos 0) d.ready_replicas
    then "Running"
    else "Pending"

-- Whether the server is ready afterwards, given whether it was before.
abbrev pub expected_ready : DeploymentStatus → Bool → Bool
expected_ready d before =
    if any is_replica_failure d.conditions
    then false
    else if ltb_ℤ (pos 0) d.ready_replicas
    then true
    else before

abbrev pub phase_of : {Q : Type 0} → McpServer Q → String
phase_of s = s.status.phase

abbrev pub is_ready : {Q : Type 0} → McpServer Q → Bool
is_ready s = is_condition_true "Ready" s.status.conditions

module _ {Q : Type 0} (now : ℤ) where
  failure_step :
      (d : Condition) (s : McpServer Q)
      → is_replica_failure d ≡ true
      → let t = apply_deployment_condition now d s in (phase_of t ≡ "Failed") × (is_ready t ≡ false)
  unfolding apply_deployment_condition
  failure_step d s h = ground (
    arith,
    eq_iff d.kind "Progressing",
    eq_iff d.kind "ReplicaFailure",
    eq_iff "Progressing" "ReplicaFailure",
    is_condition_true-put_condition (make_condition now "Ready" condition_false d.reason d.message)
        "Ready" s.status.conditions,
  )

  other_step :
      (d : Condition) (s : McpServer Q)
      → is_replica_failure d ≡ false
      → let t = apply_deployment_condition now d s in
        (phase_of t ≡ phase_of s) × (is_ready t ≡ is_ready s)
  unfolding apply_deployment_condition
  other_step d s h = ground (
    arith,
    is_condition_true-put_condition
        (make_condition now "Progressing" condition_false d.reason d.message) "Ready"
        s.status.conditions,
  )

  apply-no_failure :
      (ds : List Condition) (s : McpServer Q)
      → any is_replica_failure ds ≡ false
      → let t = apply_deployment_conditions now ds s in
        (phase_of t ≡ phase_of s) × (is_ready t ≡ is_ready s)
  unfolding apply_deployment_conditions
  apply-no_failure [] s h = (refl, refl)
  apply-no_failure (d ∷ ds) s h =
      ground (arith, other_step d s, apply-no_failure ds (apply_deployment_condition now d s))

  apply-failure :
      (ds : List Condition) (s : McpServer Q)
      → any is_replica_failure ds ≡ true
      → let t = apply_deployment_conditions now ds s in
        (phase_of t ≡ "Failed") × (is_ready t ≡ false)
  unfolding apply_deployment_conditions
  apply-failure [] s h = cc
  apply-failure (d ∷ ds) s h = ground (
    arith,
    failure_step d s,
    apply-failure ds (apply_deployment_condition now d s),
    apply-no_failure ds (apply_deployment_condition now d s),
  )

  apply_replicas_facts :
      (d : DeploymentStatus) (s t : McpServer Q)
      → apply_replicas now d s ≡ some t
      → (phase_of t ≡ (if ltb_ℤ (pos 0) d.ready_replicas then "Running" else "Pending"))
        × (is_ready t ≡ (if ltb_ℤ (pos 0) d.ready_replicas then true else is_ready s))
        × (t.status.ready_replicas ≡ d.ready_replicas)
  unfolding apply_replicas
  apply_replicas_facts d s t h = ground (
    arith,
    is_condition_true-put_condition
        (make_condition now "Ready" condition_true "DeploymentReady"
          "MCPServer deployment is ready")
        "Ready" s.status.conditions,
    is_condition_true-put_condition
        (make_condition now "Progressing" condition_true "DeploymentScaling"
          "Waiting for deployment to scale up")
        "Ready" s.status.conditions,
    is_condition_true-put_condition
        (make_condition now "Progressing" condition_true "DeploymentProgressing"
          "Deployment is progressing")
        "Ready" s.status.conditions,
  )

  -- An update from a deployment fails by a nil dereference exactly if a replica is ready, the
  -- server has no endpoint yet and it has no runtime.
  pub update-none_iff :
      (api : McpServer Q → Option String) (d : DeploymentStatus) (s : McpServer Q)
      → (update_mcp_server_from_deployment now api d s ≡ none) ↔ (
          (pos 0 <ℤ d.ready_replicas)
          × (s.status.service_endpoint ≡ none)
          × (s.spec.runtime ≡ none))
  unfolding update_mcp_server_from_deployment
  update-none_iff api d s = ground arith

  -- After an update the phase is Failed if the deployment reports a replica failure, else Running
  -- if a replica is ready, else Pending. The Ready condition is false after a failure and true with
  -- a ready replica; with neither it stays what it was, so a server can be Pending and still Ready.
  pub update-phase_ready :
      (api : McpServer Q → Option String) (d : DeploymentStatus) (s t : McpServer Q)
      (e : Option String)
      → update_mcp_server_from_deployment now api d s ≡ some (t, e)
      → (phase_of t ≡ expected_phase d) × (is_ready t ≡ expected_ready d (is_ready s))
  unfolding update_mcp_server_from_deployment
  update-phase_ready api d s t e h = elim (Option-cases (apply_replicas now d s)) [
    | inl none_yet ↦ absurd (ground arith)
    | inr (u, found) ↦ ground (
      arith,
      apply_replicas_facts d s u found,
      apply-failure d.conditions u,
      apply-no_failure d.conditions u,
    )
  ]

  quiet_step :
      (d : Condition) (s : McpServer Q) → is_quiet d ≡ true → apply_deployment_condition now d s ≡ s
  unfolding apply_deployment_condition
  quiet_step d s h = ground arith

  pub apply-quiet :
      (ds : List Condition) (s : McpServer Q)
      → all is_quiet ds ≡ true
      → apply_deployment_conditions now ds s ≡ s
  unfolding apply_deployment_conditions
  apply-quiet [] s h = refl
  apply-quiet (d ∷ ds) s h = ground (arith, quiet_step d s, apply-quiet ds s)

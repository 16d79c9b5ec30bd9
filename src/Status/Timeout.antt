-- ===== src/Status/Timeout.antt =====
-- pkg/services/status_service.go: since when a server counts as progressing, across updates from
-- its deployment.
use mcp_operator.Prelude.{
  String, ◌==◌, ◌≡◌, refl, ap, ◌∙◌, inl, inr, true, false, ◌&&◌, Option, none, some, List, [], ◌∷◌,
  arith, if◌then◌else◌, Option-cases, all, ℤ, ◌-ℤ◌, ltb_ℤ, concat,
}
use mcp_operator.Api.{Condition, McpServer}
use mcp_operator.Status.{
  put_condition, find_condition, condition_true, condition_false, make_condition, DeploymentStatus,
  is_mcp_server_condition_true, apply_replicas, update_mcp_server_from_deployment,
  check_deployment_timeout, mark_deployment_as_timed_out,
}
use mcp_operator.Status.Deployment.{is_quiet, apply-quiet}
use mcp_operator.Status.Conditions.{find_condition-put_condition, is_condition_true-put_condition}

abbrev pub since_of : Option Condition → Option ℤ
since_of none = none
since_of (some c) = if c.status == condition_true then some c.last_transition_time else none

-- The transition time of a Progressing condition that is true.
abbrev pub progressing_since : {Q : Type 0} → McpServer Q → Option ℤ
progressing_since s = since_of (find_condition "Progressing" s.status.conditions)

-- No deployment in a list of updates reports a stall or a replica failure.
abbrev pub AllQuiet : List (ℤ × DeploymentStatus) → Type 0
AllQuiet [] = Unit {0}
AllQuiet ((now, d) ∷ us) = (all is_quiet d.conditions ≡ true) × AllQuiet us

module _ {Q : Type 0} where
  pub check-since :
      (now timeout : ℤ) (s : McpServer Q) (t0 : ℤ)
      → progressing_since s ≡ some t0
      → check_deployment_timeout now timeout s
        ≡ (s.status.phase == "Pending" && ltb_ℤ timeout (now -ℤ t0))
  unfolding check_deployment_timeout
  check-since now timeout s t0 h = ground arith

  since-apply_replicas :
      (now : ℤ) (d : DeploymentStatus) (s u : McpServer Q) (t0 : ℤ)
      → progressing_since s ≡ some t0
      → apply_replicas now d s ≡ some u
      → progressing_since u ≡ some t0
  unfolding apply_replicas
  since-apply_replicas now d s u t0 h e = ground (
    arith,
    find_condition-put_condition
        (make_condition now "Ready" condition_true "DeploymentReady"
          "MCPServer deployment is ready")
        "Progressing" s.status.conditions,
    find_condition-put_condition
        (make_condition now "Progressing" condition_true "DeploymentScaling"
          "Waiting for deployment to scale up")
        "Progressing" s.status.conditions,
    find_condition-put_condition
        (make_condition now "Progressing" condition_true "DeploymentProgressing"
          "Deployment is progressing")
        "Progressing" s.status.conditions,
  )

  since-update :
      (now : ℤ) (api : McpServer Q → Option String) (d : DeploymentStatus) (s t : McpServer Q)
      (e : Option String) (t0 : ℤ)
      → all is_quiet d.conditions ≡ true
      → progressing_since s ≡ some t0
      → update_mcp_server_from_deployment now api d s ≡ some (t, e)
      → progressing_since t ≡ some t0
  unfolding update_mcp_server_from_deployment
  since-update now api d s t e t0 q h u = elim (Option-cases (apply_replicas now d s)) [
    | inl none_yet ↦ absurd (ground arith)
    | inr (v, found) ↦
        ground (arith, since-apply_replicas now d s v t0 h found, apply-quiet now d.conditions v q)
  ]

  -- Updates at instants, from statuses of the deployment, as the reconciler makes them.
  unfoldable pub run_updates :
      (McpServer Q → Option String)
      → List (ℤ × DeploymentStatus)
      → McpServer Q
      → Option (McpServer Q)
  run_updates api [] s = some s
  run_updates api ((now, d) ∷ us) s = elim (update_mcp_server_from_deployment now api d s) [
    | none ↦ none
    | some (t, e) ↦ run_updates api us t
  ]

  since-run_updates :
      (api : McpServer Q → Option String) (us : List (ℤ × DeploymentStatus)) (s t : McpServer Q)
      (t0 : ℤ)
      → AllQuiet us
      → progressing_since s ≡ some t0
      → run_updates api us s ≡ some t
      → progressing_since t ≡ some t0
  unfolding run_updates
  since-run_updates api [] s t t0 q h e = ground arith
  since-run_updates api ((now, d) ∷ us) s t t0 q h e =
      elim (Option-cases (update_mcp_server_from_deployment now api d s)) [
        | inl none_yet ↦ absurd (ground arith)
        | inr ((u, x), found) ↦
            since-run_updates api us u t t0 q.1 (since-update now api d s u x t0 q.0 h found)
              (rw (found, run_updates) at e)
      ]

  -- A server that has been progressing since `t0` is still counted from `t0` after any updates
  -- whose deployments report no stall and no replica failure, also if it was Running in between:
  -- when it is Pending again, the check at `now` answers that it has timed out exactly if more than
  -- the timeout has passed since `t0`.
  pub check-run_updates :
      (api : McpServer Q → Option String) (us : List (ℤ × DeploymentStatus)) (s t : McpServer Q)
      (now timeout t0 : ℤ)
      → AllQuiet us
      → progressing_since s ≡ some t0
      → run_updates api us s ≡ some t
      → t.status.phase ≡ "Pending"
      → check_deployment_timeout now timeout t ≡ ltb_ℤ timeout (now -ℤ t0)
  check-run_updates api us s t now timeout t0 q h e p =
      check-since now timeout t t0 (since-run_updates api us s t t0 q h e)
      ∙ ap (λ phase. (phase == "Pending") && ltb_ℤ timeout (now -ℤ t0)) p

  -- A server that has been marked as timed out is Failed, not ready and not progressing, and the
  -- check does not report it again.
  pub mark-check :
      (show : ℤ → String) (at now timeout : ℤ) (s : McpServer Q)
      → let t = mark_deployment_as_timed_out show at timeout s in
        (t.status.phase ≡ "Failed")
        × (is_mcp_server_condition_true t "Ready" ≡ false)
        × (is_mcp_server_condition_true t "Progressing" ≡ false)
        × (check_deployment_timeout now timeout t ≡ false)
  unfolding mark_deployment_as_timed_out check_deployment_timeout
  mark-check show at now timeout s =
      let ready = make_condition at "Ready" condition_false "DeploymentTimeout" (
        concat (
          "Deployment has been stuck for "
          ∷ show timeout
          ∷ ", exceeding timeout of "
          ∷ show timeout
          ∷ [])) in
      let progress =
        make_condition at "Progressing" condition_false "DeploymentTimeout"
          (concat ("Deployment timeout exceeded after " ∷ show timeout ∷ [])) in
      let cs = s.status.conditions in
      (
        refl,
        is_condition_true-put_condition progress "Ready" (put_condition ready cs)
            ∙ is_condition_true-put_condition ready "Ready" cs,
        is_condition_true-put_condition progress "Progressing" (put_condition ready cs),
        refl,
      )

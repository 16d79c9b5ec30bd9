-- ===== src/Server/Readiness.antt =====
-- controllers/mcpserver_controller.go: the conditions and the phase that the deployment gives.
use mcp_operator.Prelude.{
  String, ◌==◌, ◌≡◌, ◌∙◌, inl, inr, Bool, true, false, ◌&&◌, not, if◌then◌else◌, Bool-cases, all, ℤ,
  pos, ltb_ℤ, eqb_ℤ,
}
use mcp_operator.Api.{McpServer}
use mcp_operator.Status.{
  condition_true, condition_false, is_condition_true, make_condition, set_condition,
}
use mcp_operator.Status.Conditions.{is_condition_true-put_condition}
use mcp_operator.Server.{Deployment}
use mcp_operator.Server.Deployed.{
  desired_of, is_rolling_update, copy_counts, in_phase, two_conditions, by_state, from_deployment,
}

-- All replicas that are wanted are ready, there is one, and no update is rolling.
abbrev pub is_settled : (rolling : Bool) → Deployment → Bool
is_settled rolling d =
    not rolling
    && (eqb_ℤ d.status.ready_replicas (desired_of d.desired)
        && ltb_ℤ (pos 0) d.status.ready_replicas)

module _ {Q : Type 0} (now : ℤ) (show : ℤ → String) where
  abbrev pub is_true : String → McpServer Q → Bool
  is_true kind s = is_condition_true kind s.status.conditions

  true-set_condition :
      (kind other status reason message : String) (s : McpServer Q)
      → is_true other (set_condition now kind status reason message s)
        ≡ (if kind == other then status == condition_true else is_true other s)
  unfolding set_condition
  true-set_condition kind other status reason message s =
      is_condition_true-put_condition (make_condition now kind status reason message) other
        s.status.conditions

  true-two_conditions :
      (progressing ready reason first second : String) (s : McpServer Q)
      → (is_true "Ready" (two_conditions now show progressing ready reason first second s)
          ≡ (ready == condition_true))
        × (is_true "Progressing" (two_conditions now show progressing ready reason first second s)
            ≡ (progressing == condition_true))
  true-two_conditions progressing ready reason first second s = (
    true-set_condition "Ready" "Ready" ready reason second _,
    true-set_condition "Ready" "Progressing" ready reason second _
        ∙ true-set_condition "Progressing" "Progressing" progressing reason first s,
  )

  abbrev Settles : Bool → McpServer Q → Type 0
  Settles settled s = (is_true "Ready" s ≡ settled) × (is_true "Progressing" s ≡ not settled)

  unsettled :
      (reason first second : String) (s : McpServer Q)
      → Settles false (two_conditions now show condition_true condition_false reason first second s)
  unsettled reason first second s =
      true-two_conditions condition_true condition_false reason first second s

  settled :
      (reason first message second : String) (s : McpServer Q)
      → Settles true (
          set_condition now "Progressing" condition_false reason first
            (set_condition now "Ready" condition_true message second s))
  settled reason first message second s = (
    true-set_condition "Progressing" "Ready" condition_false reason first _
        ∙ true-set_condition "Ready" "Ready" condition_true message second s,
    true-set_condition "Progressing" "Progressing" condition_false reason first _,
  )

  by_state-Settles :
      (rolling : Bool) (d : Deployment) (s : McpServer Q)
      → Settles (is_settled rolling d) (by_state now show rolling d s)
  unfolding by_state
  by_state-Settles true d s = unsettled _ _ _ (in_phase "Running" s)
  by_state-Settles false d s =
      elim (Bool-cases (
        eqb_ℤ d.status.ready_replicas (desired_of d.desired)
        && ltb_ℤ (pos 0) d.status.ready_replicas)) [
          | inl all ↦ rw all (settled _ _ _ _ (in_phase "Running" s))
          | inr some_missing ↦
              rw some_missing (elim (Bool-cases (eqb_ℤ d.status.replicas (pos 0))) [
                | inl nobody ↦ rw nobody (unsettled _ _ _ (in_phase "Pending" s))
                | inr there ↦
                    rw there
                      (elim (Bool-cases (
                        ltb_ℤ (pos 0) d.status.ready_replicas
                        && ltb_ℤ d.status.ready_replicas (desired_of d.desired))) [
                          | inl partly ↦ rw partly (unsettled _ _ _ (in_phase "Running" s))
                          | inr unclear ↦ rw unclear (unsettled _ _ _ (in_phase "Pending" s))
                        ])
              ])
        ]

  -- Once the deployment is read, exactly one of the conditions Ready and Progressing is true: Ready
  -- if no update is rolling and the ready replicas are as many as wanted and not none, else
  -- Progressing.
  pub conditions-from_deployment :
      (d : Deployment) (s : McpServer Q)
      → (is_true "Ready" (from_deployment now show d s) ≡ is_settled (is_rolling_update d) d)
        × (is_true "Progressing" (from_deployment now show d s)
            ≡ not (is_settled (is_rolling_update d) d))
  unfolding from_deployment
  conditions-from_deployment d s = by_state-Settles (is_rolling_update d) d (copy_counts d.status s)

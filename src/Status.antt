-- ===== src/Status.antt =====
-- pkg/services/status_service.go. An instant is a number of nanoseconds, as an integer; the clock
-- is an argument. The two kinds of resources share one model of their conditions.
pub mod Conditions
pub mod Deployment
pub mod Timeout
pub mod Registry
mod Tests
use mcp_operator.Prelude.{
  String, ◌==◌, Bool, false, not, Option, none, some, List, [], ◌∷◌, if◌then◌else◌, ℤ, pos, ◌-ℤ◌,
  ltb_ℤ, eqb_ℤ, concat,
}
use mcp_operator.Api.{RuntimeSpec, Condition, McpServerStatus, McpServer}

-- The loop of `SetCondition` and of `SetRegistryCondition`, which replaces the first condition of
-- the type or appends.
unfoldable pub put_condition : Condition → List Condition → List Condition
put_condition c [] = c ∷ []
put_condition c (old ∷ cs) =
    if old.kind == c.kind
    then (if old.status == c.status
        then record old { reason = c.reason; message = c.message }
        else c)
      ∷ cs
    else old ∷ put_condition c cs

-- The loop of `GetMCPServerCondition` and of `GetMCPRegistryCondition`.
unfoldable pub find_condition : String → List Condition → Option Condition
find_condition kind [] = none
find_condition kind (c ∷ cs) = if c.kind == kind then some c else find_condition kind cs

abbrev pub condition_true : String
condition_true = "True"

abbrev pub condition_false : String
condition_false = "False"

-- The test of `IsMCPServerConditionTrue` and of `IsMCPRegistryConditionTrue`.
unfoldable pub is_condition_true : String → List Condition → Bool
unfolding find_condition
is_condition_true kind cs = elim (find_condition kind cs) [
  | none ↦ false
  | some c ↦ c.status == condition_true
]

abbrev pub make_condition : (now : ℤ) (kind status reason message : String) → Condition
make_condition now kind status reason message = record {
  kind = kind;
  status = status;
  last_transition_time = now;
  reason = reason;
  message = message;
}

pub record DeploymentStatus : Type 0 where
  pub replicas : ℤ
  pub ready_replicas : ℤ
  pub available_replicas : ℤ
  -- The conditions of a deployment have no transition time that is read.
  pub conditions : List Condition

abbrev service_port : RuntimeSpec → ℤ
service_port r = if ltb_ℤ (pos 0) r.port then r.port else pos 8080

module _ {Q : Type 0} where
  unfoldable pub set_condition :
      (now : ℤ) (kind status reason message : String) → McpServer Q → McpServer Q
  unfolding put_condition
  set_condition now kind status reason message s = record s {
    status = record st {
      conditions = put_condition (make_condition now kind status reason message) st.conditions;
    };
  }
    where
      st : McpServerStatus
      st = s.status

  unfoldable pub set_mcp_server_phase :
      (now : ℤ) (phase message reason : String) → McpServer Q → McpServer Q
  set_mcp_server_phase now phase message reason s = record s {
    status = record st {
      phase = phase;
      message = if message == "" then st.message else message;
      reason = if reason == "" then st.reason else reason;
      last_update_time = some now;
    };
  }
    where
      st : McpServerStatus
      st = s.status

  abbrev pub get_mcp_server_condition : McpServer Q → String → Option Condition
  get_mcp_server_condition s kind = find_condition kind s.status.conditions

  abbrev pub is_mcp_server_condition_true : McpServer Q → String → Bool
  is_mcp_server_condition_true s kind = is_condition_true kind s.status.conditions

  unfoldable pub clear_mcp_server_conditions : McpServer Q → McpServer Q
  clear_mcp_server_conditions s = record s { status = record st { conditions = [] } }
    where
      st : McpServerStatus
      st = s.status

  -- `UpdateMCPServerStatus`: the clock is written, and the API server answers, `none` being
  -- success.
  unfoldable pub update_mcp_server_status :
      (now : ℤ) → (McpServer Q → Option String) → McpServer Q → McpServer Q × Option String
  update_mcp_server_status now api s = (
    stamped,
    elim (api stamped) [
      | none ↦ none
      | some err ↦ some (concat ("failed to update MCPServer status: " ∷ err ∷ []))
    ],
  )
    where
      st : McpServerStatus
      st = s.status

      stamped : McpServer Q
      stamped = record s { status = record st { last_update_time = some now } }

  -- The endpoint is set if it is empty; `none` is the nil dereference of a missing runtime.
  unfoldable pub with_endpoint : McpServer Q → Option (McpServer Q)
  with_endpoint s = elim st.service_endpoint [
    | some e ↦ some s
    | none ↦ elim s.spec.runtime [
      | none ↦ none
      | some r ↦ some (record s {
        status = record st {
          service_endpoint =
              some (record { name = s.name; namespace = s.namespace; port = service_port r });
        };
      })
    ]
  ]
    where
      st : McpServerStatus
      st = s.status

  -- The first three assignments of `UpdateMCPServerFromDeployment`.
  copy_replicas : DeploymentStatus → McpServer Q → McpServer Q
  copy_replicas d s = record s {
    status = record st {
      replicas = d.replicas;
      ready_replicas = d.ready_replicas;
      available_replicas = d.available_replicas;
    };
  }
    where
      st : McpServerStatus
      st = s.status

module _ {Q : Type 0} (now : ℤ) where
  -- One round of the loop over the deployment's conditions.
  unfoldable pub apply_deployment_condition : Condition → McpServer Q → McpServer Q
  unfolding set_condition set_mcp_server_phase
  apply_deployment_condition d s =
      if d.kind == "Progressing"
      then (if d.status == condition_false
          then set_condition now "Progressing" condition_false d.reason d.message s
          else s)
      else if d.kind == "ReplicaFailure"
      then (if d.status == condition_true
          then set_condition now "Ready" condition_false d.reason d.message
              (set_mcp_server_phase now "Failed" d.message d.reason s)
          else s)
      else s

  unfoldable pub apply_deployment_conditions : List Condition → McpServer Q → McpServer Q
  unfolding apply_deployment_condition
  apply_deployment_conditions [] s = s
  apply_deployment_conditions (d ∷ ds) s =
      apply_deployment_conditions ds (apply_deployment_condition d s)

  -- The phase and the condition that the replica counts give.
  unfoldable pub apply_replicas : DeploymentStatus → McpServer Q → Option (McpServer Q)
  unfolding copy_replicas set_condition set_mcp_server_phase with_endpoint
  apply_replicas d s =
      let t = copy_replicas d s in
      if ltb_ℤ (pos 0) d.ready_replicas
      then with_endpoint (
          set_condition now "Ready" condition_true "DeploymentReady" "MCPServer deployment is ready"
            (set_mcp_server_phase now "Running" "MCP server is running" "DeploymentReady" t))
      else if eqb_ℤ d.replicas (pos 0)
      then some (
          set_condition now "Progressing" condition_true "DeploymentScaling"
            "Waiting for deployment to scale up"
            (set_mcp_server_phase now "Pending" "Waiting for deployment" "DeploymentScaling" t))
      else some (
          set_condition now "Progressing" condition_true "DeploymentProgressing"
            "Deployment is progressing"
            (set_mcp_server_phase now "Pending" "Deployment in progress" "DeploymentProgressing" t))

  unfoldable pub update_mcp_server_from_deployment :
      (McpServer Q → Option String)
      → DeploymentStatus
      → McpServer Q
      → Option (McpServer Q × Option String)
  unfolding apply_replicas apply_deployment_conditions update_mcp_server_status
  update_mcp_server_from_deployment api d s = elim (apply_replicas d s) [
    | none ↦ none
    | some t ↦ some (update_mcp_server_status now api (apply_deployment_conditions d.conditions t))
  ]

module _ {Q : Type 0} where
  unfoldable pub check_deployment_timeout : (now timeout : ℤ) → McpServer Q → Bool
  unfolding find_condition
  check_deployment_timeout now timeout s =
      if not (s.status.phase == "Pending")
      then false
      else elim (find_condition "Progressing" s.status.conditions) [
        | none ↦ false
        | some c ↦
            if not (c.status == condition_true)
            then false
            else ltb_ℤ timeout (now -ℤ c.last_transition_time)
      ]

  -- `show` is the text of a duration.
  unfoldable pub mark_deployment_as_timed_out :
      (ℤ → String) → (now timeout : ℤ) → McpServer Q → McpServer Q
  unfolding set_condition set_mcp_server_phase
  mark_deployment_as_timed_out show now timeout s =
      set_condition now "Progressing" condition_false "DeploymentTimeout"
        (concat ("Deployment timeout exceeded after " ∷ show timeout ∷ []))
        (set_condition now "Ready" condition_false "DeploymentTimeout"
          (concat (
            "Deployment has been stuck for "
            ∷ show timeout
            ∷ ", exceeding timeout of "
            ∷ show timeout
            ∷ []))
          (set_mcp_server_phase now "Failed"
            (concat ("Deployment timeout exceeded (" ∷ show timeout ∷ ")" ∷ [])) "DeploymentTimeout"
            s))

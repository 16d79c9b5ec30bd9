-- ===== src/Status/Registry.antt =====
-- pkg/services/status_service.go: the methods on registries.
use mcp_operator.Prelude.{
  String, ◌==◌, eq_iff, ◌≡◌, Bool, ◌||◌, Option, none, some, [], ◌∷◌, arith, if◌then◌else◌, ℤ,
  concat,
}
use mcp_operator.Api.{Condition, McpRegistryStatus, McpRegistry}
use mcp_operator.Status.{
  put_condition, find_condition, condition_true, is_condition_true, make_condition,
}
use mcp_operator.Status.Conditions.{is_condition_true-put_condition}

unfoldable pub set_registry_condition :
    (now : ℤ) (kind status reason message : String) → McpRegistry → McpRegistry
unfolding put_condition
set_registry_condition now kind status reason message r = record r {
  status = record st {
    conditions = put_condition (make_condition now kind status reason message) st.conditions;
  };
}
  where
    st : McpRegistryStatus
    st = r.status

unfoldable pub set_mcp_registry_phase : (phase message reason : String) → McpRegistry → McpRegistry
set_mcp_registry_phase phase message reason r = record r {
  status = record st {
    phase = phase;
    message = if message == "" then st.message else message;
    reason = if reason == "" then st.reason else reason;
  };
}
  where
    st : McpRegistryStatus
    st = r.status

abbrev pub is_synced_phase : String → Bool
is_synced_phase phase = phase == "Ready" || phase == "Syncing"

-- `api` is the API server's answer to the update, `none` being success.
unfoldable pub update_mcp_registry_status :
    (now : ℤ) → (McpRegistry → Option String) → McpRegistry → McpRegistry × Option String
update_mcp_registry_status now api r = (
  stamped,
  elim (api stamped) [
    | none ↦ none
    | some err ↦ some (concat ("failed to update MCPRegistry status: " ∷ err ∷ []))
  ],
)
  where
    st : McpRegistryStatus
    st = r.status

    stamped : McpRegistry
    stamped =
        if is_synced_phase st.phase
        then record r { status = record st { last_sync_time = some now } }
        else r

abbrev pub get_mcp_registry_condition : McpRegistry → String → Option Condition
get_mcp_registry_condition r kind = find_condition kind r.status.conditions

abbrev pub is_mcp_registry_condition_true : McpRegistry → String → Bool
is_mcp_registry_condition_true r kind = is_condition_true kind r.status.conditions

unfoldable pub clear_mcp_registry_conditions : McpRegistry → McpRegistry
clear_mcp_registry_conditions r = record r { status = record st { conditions = [] } }
  where
    st : McpRegistryStatus
    st = r.status

-- A phase that is set and then reported, with a condition: the sync time becomes the instant of the
-- report in the phases Ready and Syncing, already while a sync runs, and stays in all others; a
-- condition of the type is true exactly if it was set to "True".
pub update_mcp_registry_status-set_mcp_registry_phase :
    (now : ℤ) (api : McpRegistry → Option String) (phase message reason kind status : String)
    (r : McpRegistry)
    → let set =
        set_registry_condition now kind status reason message
          (set_mcp_registry_phase phase message reason r) in
      let reported = (update_mcp_registry_status now api set).0 in
      (reported.status.last_sync_time
        ≡ (if is_synced_phase phase then some now else r.status.last_sync_time))
      × (is_mcp_registry_condition_true reported kind ≡ (status == condition_true))
unfolding update_mcp_registry_status set_registry_condition set_mcp_registry_phase
update_mcp_registry_status-set_mcp_registry_phase now api phase message reason kind status r =
    ground (
      arith,
      is_condition_true-put_condition (make_condition now kind status reason message) kind
          r.status.conditions,
      eq_iff kind kind,
    )

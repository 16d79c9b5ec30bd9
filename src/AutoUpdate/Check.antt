-- ===== src/AutoUpdate/Check.antt =====
-- pkg/services/auto_update_service.go, `CheckForUpdates`: one pass over the servers. Each server
-- comes with the instant at which the pass reaches it; the clock stands while one server is
-- handled, and the registry answers alike.
use mcp_operator.Prelude.{
  ℕ, ◌+◌, String, ◌==◌, ◌⊎◌, inl, inr, Bool, true, false, ◌&&◌, Option, none, some, List, [], ◌∷◌,
  ◌++◌, if◌then◌else◌, ℤ, concat, Dict,
}
use mcp_operator.Api.{RegistryRef, McpServer}
use mcp_operator.Status.{condition_false, set_condition, update_mcp_server_status}
use mcp_operator.AutoUpdate.{
  UpdateFailureInfo, is_in_backoff_period, record_failure, record_success,
}
use mcp_operator.AutoUpdate.Template.{
  Template, Outcome, panicked, failed, returned, is_update_required,
}
use mcp_operator.AutoUpdate.Update.{
  Call, status_updated, warned, Updated, update_server_from_template,
}

pub record Pass (Q : Type 0) : Type 0 where
  pub tracker : Dict UpdateFailureInfo
  pub updated_count : ℕ
  pub error_count : ℕ
  -- The calls made, the oldest first.
  pub made : List (Call Q)

abbrev pub server_key : {Q : Type 0} → McpServer Q → String
server_key s = concat (s.namespace ∷ "/" ∷ s.name ∷ [])

-- No reference to a registry, or one that names none.
abbrev pub unregistered : Option RegistryRef → Bool
unregistered none = true
unregistered (some r) = r.registry == "" && r.name == ""

module _ {Q : Type 0} (fetch : String → String → String ⊎ Template)
    (api status_api : McpServer Q → Option String) (now : ℤ) where
  -- After `UpdateServerFromTemplate`.
  unfoldable pub record_update : Outcome (Updated Q) → String → Pass Q → Option (Pass Q)
  unfolding set_condition update_mcp_server_status record_failure record_success
  record_update panicked key p = none
  record_update (failed err) key p = none
  record_update (returned r) key p = elim r.error [
    | some err ↦
        let message = concat ("Failed to update from template: " ∷ err ∷ []) in
        let s = set_condition now "Ready" condition_false "TemplateUpdateFailed" message r.server in
        let stamped = update_mcp_server_status now status_api s in
        some (record p {
          tracker = record_failure now key p.tracker;
          error_count = p.error_count + 1;
          made =
              p.made
              ++ r.calls
              ++ warned "TemplateUpdateFailed" message ∷ status_updated stamped.0 ∷ [];
        })
    | none ↦ some (
        if r.updated
        then record p {
          tracker = record_success key p.tracker;
          updated_count = p.updated_count + 1;
          made = p.made ++ r.calls;
        }
        else record p { made = p.made ++ r.calls })
  ]

  -- After `IsUpdateRequired`.
  unfoldable pub act : Outcome (Bool × Option Template) → McpServer Q → Pass Q → Option (Pass Q)
  unfolding update_server_from_template record_update
  act panicked s p = none
  act (failed err) s p = some (record p { error_count = p.error_count + 1 })
  act (returned (false, t)) s p = some p
  act (returned (true, t)) s p =
      -- The log line reads the runtime's image.
      elim s.spec.runtime [
        | none ↦ none
        | some r ↦
            record_update (update_server_from_template fetch api status_api now s) (server_key s) p
      ]

  -- One round of the loop; `none` is a nil dereference.
  unfoldable pub check_server : McpServer Q → Pass Q → Option (Pass Q)
  unfolding is_in_backoff_period is_update_required act
  check_server s p =
      if unregistered s.spec.registry
      then some p
      else if is_in_backoff_period now (server_key s) p.tracker
      then some p
      else act (is_update_required fetch s) s p

module _ {Q : Type 0} (fetch : String → String → String ⊎ Template)
    (api status_api : McpServer Q → Option String) where
  unfoldable pub check_servers : List (ℤ × McpServer Q) → Pass Q → Option (Pass Q)
  unfolding check_server
  check_servers [] p = some p
  check_servers ((now, s) ∷ servers) p = elim (check_server fetch api status_api now s p) [
    | none ↦ none
    | some q ↦ check_servers servers q
  ]

  -- The list comes from the API server. A pass that ends has no error; what it leaves is the
  -- tracker, the counts for the log and the calls.
  unfoldable pub check_for_updates :
      String ⊎ List (ℤ × McpServer Q) → Dict UpdateFailureInfo → Outcome (Pass Q)
  unfolding check_servers
  check_for_updates (inl err) tracker = failed (concat ("failed to list MCPServers: " ∷ err ∷ []))
  check_for_updates (inr servers) tracker =
      elim (check_servers servers
        (record { tracker = tracker; updated_count = 0; error_count = 0; made = [] })) [
          | none ↦ panicked
          | some p ↦ returned p
        ]

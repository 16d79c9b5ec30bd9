-- ===== src/AutoUpdate/Update.antt =====
-- pkg/services/auto_update_service.go: `UpdateServerFromTemplate`, with its calls of the API
-- server.
use mcp_operator.Prelude.{
  String, ◌⊎◌, Bool, true, false, Option, none, some, List, [], ◌∷◌, ℤ, concat,
}
use mcp_operator.Api.{McpServer}
use mcp_operator.Status.{condition_true, condition_false, set_condition, update_mcp_server_status}
use mcp_operator.AutoUpdate.Template.{
  Template, Outcome, panicked, failed, returned, is_update_required, apply_template_updates,
}

-- A call that leaves the service.
pub data Call (Q : Type 0) : Type 0 where
  resource_updated : McpServer Q → Call Q
  status_updated : McpServer Q → Call Q
  warned : (reason message : String) → Call Q
  noted : (reason message : String) → Call Q

-- What `UpdateServerFromTemplate` returns, the server as it leaves it, and its calls in order.
pub record Updated (Q : Type 0) : Type 0 where
  pub updated : Bool
  pub error : Option String
  pub server : McpServer Q
  pub calls : List (Call Q)

-- `fetch` is the registry service, `api` and `status_api` the API server's answers to an update of
-- the resource and of its status, `none` being success; a successful update leaves the object as it
-- was sent.
module _ {Q : Type 0} (fetch : String → String → String ⊎ Template)
    (api status_api : McpServer Q → Option String) (now : ℤ) where
  -- The updated resource is sent; `original_image` is for the event.
  -- `reply` is the API server's to the updated resource; `original_image` is for the event.
  unfoldable pub send_update :
      (reply : Option String) (original_image : String) → Template → McpServer Q → Updated Q
  unfolding set_condition update_mcp_server_status
  send_update (some err) original_image latest s =
      let message = concat ("Failed to update MCPServer resource: " ∷ err ∷ []) in
      let t = set_condition now "Ready" condition_false "TemplateUpdateResourceFailed" message s in
      let stamped = update_mcp_server_status now status_api t in
      record {
        updated = false;
        error = some (concat ("failed to update MCPServer resource: " ∷ err ∷ []));
        server = stamped.0;
        calls =
            resource_updated s
            ∷ warned "TemplateUpdateResourceFailed" message
            ∷ status_updated stamped.0
            ∷ [];
      }
  send_update none original_image latest s = record {
    updated = true;
    error = none;
    server =
        set_condition now "RegistryFetched" condition_true "TemplateUpdated"
          (concat ("Updated from template version " ∷ "" ∷ " to " ∷ latest.version ∷ [])) s;
    calls =
        resource_updated s
        ∷ noted "TemplateUpdated" (
            concat (
              "Updated from template version " ∷ "" ∷ " to " ∷ latest.version ∷ ", image "
              ∷ original_image ∷ " to " ∷ latest.image ∷ []))
        ∷ [];
  }

  unfoldable pub rewrite : McpServer Q → Template → Outcome (Updated Q)
  unfolding apply_template_updates send_update
  rewrite s latest = elim s.spec.runtime [
    | none ↦ panicked
    | some r ↦ elim (apply_template_updates s latest) [
      | none ↦ panicked
      | some t ↦ returned (send_update (api t) r.image latest t)
    ]
  ]

  unfoldable pub proceed : McpServer Q → Outcome (Bool × Option Template) → Outcome (Updated Q)
  unfolding rewrite
  proceed s panicked = panicked
  proceed s (failed err) = returned (record {
    updated = false;
    error = some (concat ("failed to check if update is required: " ∷ err ∷ []));
    server = s;
    calls = [];
  })
  proceed s (returned (false, t)) =
      returned (record { updated = false; error = none; server = s; calls = [] })
  proceed s (returned (true, none)) = panicked
  proceed s (returned (true, some latest)) = rewrite s latest

  unfoldable pub update_server_from_template : McpServer Q → Outcome (Updated Q)
  unfolding is_update_required proceed
  update_server_from_template s = proceed s (is_update_required fetch s)

-- ===== src/Server/Reconcile.antt =====
-- controllers/mcpserver_controller.go, `Reconcile`, up to the rendering, with the validation
-- service. `none` is the nil dereference of a missing runtime.
use mcp_operator.Prelude.{
  String, ◌==◌, false, ◌&&◌, not, Option, none, some, List, [], ◌∷◌, ◌++◌, if◌then◌else◌, contains,
  concat,
}
use mcp_operator.Api.{RegistryRef, RuntimeSpec, McpServer}
use mcp_operator.Validation.{check_mcp_server}
use mcp_operator.Validation.Quota.{check_tenant_resource_quotas}
use mcp_operator.RegistryService.{Read, found, absent, broken}
use mcp_operator.Server.{
  Managed, Controls, Effect, patched, updated, Ran, ran, finalizer, name_in, server_in, with_server,
  report,
}
use mcp_operator.Server.Registered.{enrich_registered, handle_deletion}
use mcp_operator.Server.Deploy.{deploy}

module _ {Q R : Type 0} (env : Controls Q R) where
  -- By the answer of `ValidateTenantResourceQuotas`.
  unfoldable pub after_quotas : List (Effect Q R) → Managed Q → Option String → Ran Q R
  unfolding report deploy
  after_quotas effects m (some err) =
      report env effects "Ready" "TenantValidationFailed"
        (concat ("Tenant validation failed: " ∷ err ∷ [])) m.server
  after_quotas effects m none = deploy env effects m.gateway m.server

  -- By the answer of `ValidateMCPServer`. Without a tenant the check of the quotas finds nothing.
  unfoldable pub after_validation : List (Effect Q R) → Managed Q → Option String → Ran Q R
  unfolding report check_tenant_resource_quotas after_quotas
  after_validation effects m (some err) =
      report env effects "Ready" "ValidationFailed"
        (concat ("MCPServer validation failed: " ∷ err ∷ [])) m.server
  after_validation effects m none =
      after_quotas effects m
        (check_tenant_resource_quotas env.lib env.show_int env.cluster m.server)

  -- Without a registry: the two validations, and the deployment.
  unfoldable pub validate_and_deploy : List (Effect Q R) → Managed Q → Ran Q R
  unfolding check_mcp_server after_validation
  validate_and_deploy effects m = after_validation effects m (check_mcp_server env.lib m.server)

  -- The test for a registry, by the reference.
  unfoldable pub by_registry :
      List (Effect Q R) → (namespace : String) → Managed Q → Option RegistryRef → Ran Q R
  unfolding enrich_registered validate_and_deploy
  by_registry effects namespace m none = validate_and_deploy effects m
  by_registry effects namespace m (some r) =
      if not (name_in r == "") && not (server_in m.server.name r == "")
      then enrich_registered env effects (name_in r) namespace r m
      else validate_and_deploy effects m

  -- With the finalizer: the deletion, or the rest.
  unfoldable pub delete_or_enrich : List (Effect Q R) → (namespace : String) → Managed Q → Ran Q R
  unfolding handle_deletion by_registry
  delete_or_enrich effects namespace m =
      if m.is_deleted
      then handle_deletion env effects m
      else by_registry effects namespace m m.server.spec.registry

  -- By the answer to the update that adds the finalizer.
  unfoldable pub after_adding :
      List (Effect Q R) → (namespace : String) → Managed Q → Option String → Ran Q R
  unfolding delete_or_enrich
  after_adding effects namespace m (some err) = ran effects false (some err)
  after_adding effects namespace m none = delete_or_enrich (effects ++ updated m ∷ []) namespace m

  unfoldable pub with_finalizer : List (Effect Q R) → (namespace : String) → Managed Q → Ran Q R
  unfolding delete_or_enrich after_adding
  with_finalizer effects namespace m =
      let held = record m { finalizers = m.finalizers ++ finalizer ∷ [] } in
      if contains m.finalizers finalizer
      then delete_or_enrich effects namespace m
      else after_adding effects namespace held (env.update held)

  -- The log lines after the normalisation read the runtime.
  abbrev pub read_runtime :
      List (Effect Q R) → (namespace : String) → Managed Q → Option RuntimeSpec → Option (Ran Q R)
  read_runtime effects namespace m none = none
  read_runtime effects namespace m (some r) = some (with_finalizer effects namespace m)

  -- The alias is written to the name where only the alias is given.
  abbrev pub with_alias : RegistryRef → McpServer Q → McpServer Q
  with_alias r s = record s {
    spec = record (s.spec) { registry = some (record r { name = r.registry }) };
  }

  -- By the answer to the patch of the name.
  unfoldable pub after_naming : (namespace : String) → Managed Q → Option String → Option (Ran Q R)
  unfolding with_finalizer
  after_naming namespace m (some err) = some (ran [] false (some err))
  after_naming namespace m none = read_runtime (patched m ∷ []) namespace m m.server.spec.runtime

  unfoldable pub normalize :
      (namespace : String) → Managed Q → Option RegistryRef → Option (Ran Q R)
  unfolding with_finalizer after_naming
  normalize namespace m none = read_runtime [] namespace m m.server.spec.runtime
  normalize namespace m (some r) =
      let renamed = with_server (with_alias r m.server) m in
      if r.name == "" && not (r.registry == "")
      then after_naming namespace renamed (env.patch renamed)
      else read_runtime [] namespace m m.server.spec.runtime

  -- `Reconcile`, by the answer to the read of the server.
  unfoldable pub reconcile : (namespace : String) → Read (Managed Q) → Option (Ran Q R)
  unfolding normalize
  reconcile namespace absent = some (ran [] false none)
  reconcile namespace (broken err) = some (ran [] false (some err))
  reconcile namespace (found m) = normalize namespace m m.server.spec.registry

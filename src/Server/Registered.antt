-- ===== src/Server/Registered.antt =====
-- controllers/mcpserver_controller.go: the branch of `Reconcile` for a server with a registry, and
-- `handleDeletion`.
use mcp_operator.Prelude.{
  String, ◌==◌, ◌⊎◌, inl, inr, true, false, Option, none, some, List, [], ◌∷◌, ◌++◌, if◌then◌else◌,
  is_some, concat,
}
use mcp_operator.Api.{RegistryRef, McpServer}
use mcp_operator.Status.{condition_true, set_condition}
use mcp_operator.RegistryService.{enrich_from_cache}
use mcp_operator.Server.{
  Managed, Controls, Effect, patched, updated, warned, noted, Ran, ran, finalizer, registry_of,
  with_server, report, invalidations,
}

module _ {Q R : Type 0} (env : Controls Q R) where
  -- After the enrichment: the patch, the cache, and the requeue.
  unfoldable pub send_enriched :
      List (Effect Q R) → (registry : String) → Managed Q → McpServer Q → Ran Q R
  unfolding set_condition
  send_enriched effects registry m enriched =
      let fetched =
        set_condition env.now "RegistryFetched" condition_true "RegistryFetched"
          "Successfully enriched from registry cache" enriched in
      let noted_first =
        effects ++ noted "RegistryFetched" "Successfully enriched from registry cache" ∷ [] in
      elim (env.patch (with_server fetched m)) [
        | some err ↦ ran noted_first false (some err)
        | none ↦
            ran
              (noted_first
                ++ (patched (with_server fetched m) ∷ invalidations env fetched registry
                    ++ noted "RegistryEnrichmentSuccessful"
                        "Successfully enriched MCPServer with registry data"
                      ∷ []))
              true none
      ]

  -- By what the registry service answers.
  unfoldable pub after_enrichment :
      List (Effect Q R) → (registry : String) → Managed Q → String ⊎ McpServer Q → Ran Q R
  unfolding send_enriched report
  after_enrichment effects registry m (inl err) =
      report env effects "RegistryFetched" "CacheMissing"
        (concat ("Registry cache missing: " ∷ err ∷ [])) m.server
  after_enrichment effects registry m (inr enriched) = send_enriched effects registry m enriched

  -- `namespace` is that of the request.
  unfoldable pub enrich_registered :
      List (Effect Q R) → (registry namespace : String) → RegistryRef → Managed Q → Ran Q R
  unfolding enrich_from_cache after_enrichment
  enrich_registered effects registry namespace r m =
      after_enrichment effects registry m (enrich_from_cache env.registry r namespace m.server)

  abbrev pub without : String → List String → List String
  without f [] = []
  without f (g ∷ gs) = let rest = without f gs in if g == f then rest else g ∷ rest

  -- `handleDeletion` once the resources are deleted.
  unfoldable pub let_go : List (Effect Q R) → Managed Q → Ran Q R
  let_go effects m =
      let released = record m { finalizers = without finalizer m.finalizers } in
      elim (env.update released) [
        | some err ↦ ran effects false (some err)
        | none ↦
            ran
              (effects
                ++ (updated released
                    ∷ noted "Deleted" "MCPServer and all associated resources deleted successfully"
                    ∷ []))
              false none
      ]

  abbrev pub istio_warning : Option String → List (Effect Q R)
  istio_warning none = []
  istio_warning (some err) =
      warned "IstioCleanupFailed" (concat ("Failed to clean up Istio resources: " ∷ err ∷ [])) ∷ []

  unfoldable pub handle_deletion : List (Effect Q R) → Managed Q → Ran Q R
  unfolding let_go set_condition
  handle_deletion effects m =
      let s = m.server in
      let ending =
        set_condition env.now "Progressing" condition_true "DeletionInProgress"
          "MCPServer deletion in progress"
          (record s { status = record (s.status) { phase = "Terminating" } }) in
      let so_far =
        effects
        ++ (invalidations env s (registry_of s.spec.registry)
            ++ (if is_some env.reconcile_istio
                then istio_warning (env.cleanup_istio ending)
                else [])) in
      elim (env.delete_resources ending) [
        | some err ↦
            ran
              (so_far
                ++ warned "DeletionFailed" (concat ("Failed to delete resources: " ∷ err ∷ []))
                  ∷ [])
              false (some err)
        | none ↦ let_go so_far (with_server ending m)
      ]

-- ===== src/Server/Unrendered.antt =====
-- controllers/mcpserver_controller.go with pkg/services/validation_service.go: what a
-- reconciliation comes to.
use mcp_operator.Prelude.{
  String, ◌==◌, eq_iff, ◌≡◌, refl, sym, ◌∙◌, subst, ◌⊎◌, inl, inr, Bool, true, false, ◌&&◌, ◌||◌,
  not, Option, none, some, List, [], ◌∷◌, ◌++◌, arith, Bool-cases, Option-cases, any, concat,
}
use mcp_operator.Api.{RegistryRef, RuntimeSpec, McpServer}
use mcp_operator.Validation.{check_mcp_server}
use mcp_operator.Validation.Rules.{RefRule}
use mcp_operator.Validation.Whole.{Valid, check_mcp_server_iff}
use mcp_operator.RegistryService.{found, enrich_from_cache}
use mcp_operator.Server.{
  Managed, Controls, Effect, patched, updated, status_updated, warned, noted, invalidated_server,
  invalidated_registry, config_map_applied, resource_applied, Ran, finalizer, name_in, registry_of,
  server_in, with_server, report, invalidations,
}
use mcp_operator.Server.Registered.{
  send_enriched, after_enrichment, enrich_registered, let_go, istio_warning, handle_deletion,
}
use mcp_operator.Server.Reconcile.{
  after_validation, validate_and_deploy, by_registry, delete_or_enrich, after_adding,
  with_finalizer, read_runtime, with_alias, after_naming, normalize, reconcile,
}

registry_of-RefRule : (o : Option RegistryRef) → RefRule o → (registry_of o == "") ≡ true → ⊥
unfolding RefRule
registry_of-RefRule none h e = h
registry_of-RefRule (some r) h e = ground (arith, eq_iff r.name "", eq_iff r.registry "", h.0)

module _ {Q R : Type 0} where
  -- Something rendered reaches the API server.
  abbrev pub is_rendered : Effect Q R → Bool
  is_rendered (patched m) = false
  is_rendered (updated m) = false
  is_rendered (status_updated s) = false
  is_rendered (warned reason message) = false
  is_rendered (noted reason message) = false
  is_rendered (invalidated_server key) = false
  is_rendered (invalidated_registry name) = false
  is_rendered (config_map_applied name text) = true
  is_rendered (resource_applied resource) = true

  any-append :
      (es fs : List (Effect Q R))
      → any is_rendered (es ++ fs) ≡ (any is_rendered es || any is_rendered fs)
  any-append [] fs = refl
  any-append (e ∷ es) fs = ground (arith, any-append es fs)

module _ {Q R : Type 0} (env : Controls Q R) where
  any-report :
      (effects : List (Effect Q R)) (kind reason message : String) (s : McpServer Q)
      → any is_rendered effects ≡ false
      → any is_rendered (report env effects kind reason message s).effects ≡ false
  unfolding report
  any-report effects kind reason message s h = any-append effects _ ∙ rw h (ground arith)

  any-invalidations :
      (s : McpServer Q) (registry : String) → any is_rendered (invalidations env s registry) ≡ false
  any-invalidations s registry = ground arith

  any-send_enriched :
      (effects : List (Effect Q R)) (registry : String) (m : Managed Q) (enriched : McpServer Q)
      → any is_rendered effects ≡ false
      → any is_rendered (send_enriched env effects registry m enriched).effects ≡ false
  unfolding send_enriched
  any-send_enriched effects registry m enriched h = grind (arith, any-append, any-invalidations)

  any-after_enrichment :
      (effects : List (Effect Q R)) (registry : String) (m : Managed Q)
      (answer : String ⊎ McpServer Q)
      → any is_rendered effects ≡ false
      → any is_rendered (after_enrichment env effects registry m answer).effects ≡ false
  unfolding after_enrichment
  any-after_enrichment effects registry m (inl err) h = any-report effects _ _ _ m.server h
  any-after_enrichment effects registry m (inr enriched) h =
      any-send_enriched effects registry m enriched h

  any-let_go :
      (effects : List (Effect Q R)) (m : Managed Q)
      → any is_rendered effects ≡ false
      → any is_rendered (let_go env effects m).effects ≡ false
  unfolding let_go
  any-let_go effects m h = grind (arith, any-append)

  any-istio_warning :
      (answer : Option String) → any is_rendered (istio_warning {Q = Q} {R = R} env answer) ≡ false
  any-istio_warning none = refl
  any-istio_warning (some err) = refl

  any-handle_deletion :
      (effects : List (Effect Q R)) (m : Managed Q)
      → any is_rendered effects ≡ false
      → any is_rendered (handle_deletion env effects m).effects ≡ false
  unfolding handle_deletion
  any-handle_deletion effects m h =
      grind (arith, any-append, any-invalidations, any-istio_warning, any-let_go)

  -- Without a name of a registry the validation fails.
  unnamed-check_mcp_server :
      (s : McpServer Q)
      → (registry_of s.spec.registry == "") ≡ true
      → (err : String) × (check_mcp_server env.lib s ≡ some err)
  unfolding Valid
  unnamed-check_mcp_server s h = elim (Option-cases (check_mcp_server env.lib s)) [
    | inl valid ↦
        absurd (registry_of-RefRule s.spec.registry ((check_mcp_server_iff env.lib s).0 valid).0 h)
    | inr invalid ↦ invalid
  ]

  any-validate_and_deploy :
      (effects : List (Effect Q R)) (m : Managed Q)
      → (registry_of m.server.spec.registry == "") ≡ true
      → any is_rendered effects ≡ false
      → any is_rendered (validate_and_deploy env effects m).effects ≡ false
  unfolding validate_and_deploy
  any-validate_and_deploy effects m unnamed h =
      let (err, e) = unnamed-check_mcp_server m.server unnamed in
      subst (λ o. any is_rendered (after_validation env effects m o).effects ≡ false) (sym e)
        (any-report effects "Ready" "ValidationFailed"
          (concat ("MCPServer validation failed: " ∷ err ∷ [])) m.server h)

  any-by_registry :
      (effects : List (Effect Q R)) (namespace : String) (m : Managed Q) (r : Option RegistryRef)
      → m.server.spec.registry ≡ r
      → (m.server.name == "") ≡ false
      → any is_rendered effects ≡ false
      → any is_rendered (by_registry env effects namespace m r).effects ≡ false
  unfolding by_registry enrich_registered
  any-by_registry effects namespace m none e named h =
      any-validate_and_deploy effects m (rw e refl) h
  any-by_registry effects namespace m (some r) e named h =
      elim (Bool-cases (not (name_in r == "") && not (server_in m.server.name r == ""))) [
        | inl both ↦ rw both (
            any-after_enrichment effects (name_in r) m
              (enrich_from_cache env.registry r namespace m.server) h)
        | inr missing ↦ rw missing (any-validate_and_deploy effects m (rw e (ground (arith))) h)
      ]

  any-delete_or_enrich :
      (effects : List (Effect Q R)) (namespace : String) (m : Managed Q)
      → (m.server.name == "") ≡ false
      → any is_rendered effects ≡ false
      → any is_rendered (delete_or_enrich env effects namespace m).effects ≡ false
  unfolding delete_or_enrich
  any-delete_or_enrich effects namespace m named h = ground (
    arith,
    any-handle_deletion effects m h,
    any-by_registry effects namespace m m.server.spec.registry refl named h,
  )

  any-after_adding :
      (effects : List (Effect Q R)) (namespace : String) (m : Managed Q) (answer : Option String)
      → (m.server.name == "") ≡ false
      → any is_rendered effects ≡ false
      → any is_rendered (after_adding env effects namespace m answer).effects ≡ false
  unfolding after_adding
  any-after_adding effects namespace m (some err) named h = h
  any-after_adding effects namespace m none named h =
      any-delete_or_enrich (effects ++ updated m ∷ []) namespace m named
        (any-append effects (updated m ∷ []) ∙ rw h refl)

  any-with_finalizer :
      (effects : List (Effect Q R)) (namespace : String) (m : Managed Q)
      → (m.server.name == "") ≡ false
      → any is_rendered effects ≡ false
      → any is_rendered (with_finalizer env effects namespace m).effects ≡ false
  unfolding with_finalizer
  any-with_finalizer effects namespace m named h =
      let held : Managed Q = record m { finalizers = m.finalizers ++ finalizer ∷ [] } in
      ground (
        arith,
        any-delete_or_enrich effects namespace m named h,
        any-after_adding effects namespace held (env.update held) named h,
      )

  -- What a run, if it does not panic, has rendered.
  abbrev pub any_rendered : Option (Ran Q R) → Bool
  any_rendered none = false
  any_rendered (some r) = any is_rendered r.effects

  any-read_runtime :
      (effects : List (Effect Q R)) (namespace : String) (m : Managed Q) (r : Option RuntimeSpec)
      → (m.server.name == "") ≡ false
      → any is_rendered effects ≡ false
      → any_rendered (read_runtime env effects namespace m r) ≡ false
  any-read_runtime effects namespace m none named h = refl
  any-read_runtime effects namespace m (some r) named h =
      any-with_finalizer effects namespace m named h

  any-after_naming :
      (namespace : String) (m : Managed Q) (answer : Option String)
      → (m.server.name == "") ≡ false
      → any_rendered (after_naming env namespace m answer) ≡ false
  unfolding after_naming
  any-after_naming namespace m (some err) named = refl
  any-after_naming namespace m none named =
      any-read_runtime (patched m ∷ []) namespace m m.server.spec.runtime named refl

  any-normalize :
      (namespace : String) (m : Managed Q) (r : Option RegistryRef)
      → (m.server.name == "") ≡ false
      → any_rendered (normalize env namespace m r) ≡ false
  unfolding normalize
  any-normalize namespace m none h = any-read_runtime [] namespace m m.server.spec.runtime h refl
  any-normalize namespace m (some r) h =
      let renamed = with_server (with_alias env r m.server) m in
      elim (Bool-cases (r.name == "" && not (r.registry == ""))) [
        | inl alias ↦ rw alias (any-after_naming namespace renamed (env.patch renamed) h)
        | inr other ↦ rw other (any-read_runtime [] namespace m m.server.spec.runtime h refl)
      ]

  -- No reconciliation of a server that has a name renders anything: whatever the registry, the
  -- renderer and the API server answer, it applies no ConfigMap with manifests and no resource.
  pub any_rendered-reconcile :
      (namespace : String) (m : Managed Q)
      → (m.server.name == "") ≡ false
      → any_rendered (reconcile env namespace (found m)) ≡ false
  unfolding reconcile
  any_rendered-reconcile namespace m h = any-normalize namespace m m.server.spec.registry h

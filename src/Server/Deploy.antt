-- ===== src/Server/Deploy.antt =====
-- controllers/mcpserver_controller.go: `Reconcile` from the rendering on, with
-- `applyRenderedResources` and `handleIstioIntegration`. The annotations of the resources are not
-- modelled, and the errors of an attempt leave out the kind and the name of the resource.
use Prim.Native.String
use mcp_operator.Prelude.{
  ℕ, zero, suc, String, ◌==◌, ◌⊎◌, inl, inr, Bool, false, ◌&&◌, Option, none, some, List, [], ◌∷◌,
  ◌++◌, if◌then◌else◌, length, ℤ, pos, ltb_ℤ, eqb_ℤ, concat, Dict, insert,
}
use mcp_operator.Api.{RegistryRef, RuntimeSpec, GatewaySpec, McpServer}
use mcp_operator.Status.{
  condition_true, condition_false, set_condition, update_mcp_server_status,
  check_deployment_timeout,
}
use mcp_operator.RetryService.{Retried, retry_deployment_operation}
use mcp_operator.Server.{
  Deployment, Controls, Effect, status_updated, warned, noted, config_map_applied, resource_applied,
  Ran, ran, name_in, server_in, report,
}
use mcp_operator.Server.Deployed.{
  desired_of, is_rolling_update, in_phase, deployment_timeout, check_deployment, watch,
  gateway_condition,
}

-- The name of the ConfigMap, cut to 63 bytes.
abbrev pub rendered_name : String → String
rendered_name name = String.slice (concat ("mcpserver-" ∷ name ∷ "-rendered" ∷ [])) 0 63

abbrev pub if_named : (key name : String) → Dict String → Dict String
if_named key name m = if name == "" then m else insert key name m

-- The labels that a rendered resource gets.
unfoldable pub labels_of : (hash name : String) → Option RegistryRef → Dict String
labels_of hash name none = ("mcp.allbeone.io/name", name) ∷ ("mcp.allbeone.io/hash", hash) ∷ []
labels_of hash name (some r) = insert "mcp.allbeone.io/hash" hash (
    if_named "mcp.allbeone.io/server" (server_in name r)
      (if_named "mcp.allbeone.io/registry" (name_in r) (("mcp.allbeone.io/name", name) ∷ [])))

-- The port for Istio: of the gateway, else of the runtime, else 8080.
abbrev pub runtime_port : Option RuntimeSpec → ℤ
runtime_port none = pos 8080
runtime_port (some r) = if ltb_ℤ (pos 0) r.port then r.port else pos 8080

abbrev pub istio_port : GatewaySpec → Option RuntimeSpec → ℤ
istio_port g r = if ltb_ℤ (pos 0) g.port then g.port else runtime_port r

abbrev pub has_istio : Option GatewaySpec → Bool
has_istio none = false
has_istio (some g) = elim g.istio [ none ↦ false | some on ↦ on ]

module _ {Q R : Type 0} (env : Controls Q R) where
  -- `applyRenderedResources` in one attempt: what is applied, and the error that ends it.
  unfoldable pub apply_resources :
      (attempt : ℕ)
      → McpServer Q
      → (labels : Dict String) → List R
      → List (Effect Q R) × Option String
  apply_resources attempt s labels [] = ([], none)
  apply_resources attempt s labels (x ∷ xs) =
      let resource = env.labelled labels x in
      let later = apply_resources attempt s labels xs in
      elim (env.own s resource) [
        | some err ↦ ([], some (concat ("failed to set controller reference for " ∷ err ∷ [])))
        | none ↦ elim (env.apply attempt resource) [
          | some err ↦ ([], some (concat ("failed to apply " ∷ err ∷ [])))
          | none ↦ (resource_applied resource ∷ later.0, later.1)
        ]
      ]

  -- The effects of the first attempts.
  abbrev pub of_attempts : (ℕ → List (Effect Q R)) → ℕ → List (Effect Q R)
  of_attempts effects zero = []
  of_attempts effects (suc n) = of_attempts effects n ++ effects n

  abbrev pub retried : (ℕ → Option String) → Retried
  retried operation =
      retry_deployment_operation
        (record { operation = operation; is_done = env.is_done; is_cut = env.is_cut }) env.show_int
        env.retry

  -- `handleIstioIntegration`: the server, and the warning of its caller.
  abbrev pub istio_condition : McpServer Q → Option String → McpServer Q × List (Effect Q R)
  istio_condition s none = (
    set_condition env.now "IstioConfigured" condition_true "IstioConfigured"
        "Istio VirtualService and DestinationRule successfully configured" s,
    [],
  )
  istio_condition s (some err) = (
    set_condition env.now "IstioConfigured" condition_false "IstioConfigurationFailed"
        (concat ("Failed to configure Istio resources: " ∷ err ∷ [])) s,
    warned "IstioIntegrationFailed" (
          concat (
            "Failed to configure Istio integration: failed to reconcile Istio resources: " ∷ err
            ∷ []))
        ∷ [],
  )

  abbrev pub istio_off : McpServer Q → McpServer Q × List (Effect Q R)
  istio_off s = (
    set_condition env.now "IstioConfigured" condition_true "IstioDisabled"
        "Istio integration is disabled" s,
    [],
  )

  abbrev pub istio_of :
      (McpServer Q → (port : ℤ) → Option String)
      → Option GatewaySpec
      → McpServer Q
      → McpServer Q × List (Effect Q R)
  istio_of reconcile none s = istio_off s
  istio_of reconcile (some g) s =
      if has_istio (some g)
      then istio_condition s (reconcile s (istio_port g s.spec.runtime))
      else istio_off s

  unfoldable pub handle_istio : Option GatewaySpec → McpServer Q → McpServer Q × List (Effect Q R)
  unfolding set_condition
  handle_istio g s = elim env.reconcile_istio [
    | none ↦ (s, [])
    | some reconcile ↦ istio_of reconcile g s
  ]

  -- The events of the branches on the deployment.
  abbrev pub deployment_events : String ⊎ Deployment → List (Effect Q R)
  deployment_events (inl err) = []
  deployment_events (inr d) =
      if is_rolling_update d
      then noted "RollingUpdate" "MCPServer deployment is performing rolling update" ∷ []
      else if eqb_ℤ d.status.ready_replicas (desired_of d.desired)
          && ltb_ℤ (pos 0) d.status.ready_replicas
      then noted "DeploymentReady" "MCPServer deployment is ready and running" ∷ []
      else []

  abbrev pub timeout_events : McpServer Q → List (Effect Q R)
  timeout_events s =
      if check_deployment_timeout env.now deployment_timeout s
      then warned "DeploymentTimeout" (
          concat (
            "Deployment has been stuck for "
            ∷ env.show_duration deployment_timeout
            ∷ ", exceeding timeout"
            ∷ []))
        ∷ []
      else []

  -- After the resources are applied.
  unfoldable pub finish : List (Effect Q R) → Option GatewaySpec → McpServer Q → Ran Q R
  unfolding handle_istio check_deployment watch gateway_condition update_mcp_server_status
  finish effects g s =
      let (t, warnings) = handle_istio g s in
      let answer = env.deployment t in
      let checked = check_deployment env.now env.show_int answer t in
      let watched = watch env.now env.show_int env.show_duration checked in
      let ready = gateway_condition env.now env.show_int g watched in
      let (sent, err) = update_mcp_server_status env.now env.update_status ready in
      let so_far = effects ++ (warnings ++ (deployment_events answer ++ timeout_events checked)) in
      elim err [
        | some e ↦ ran so_far false (some e)
        | none ↦ ran (so_far ++ status_updated sent ∷ []) false none
      ]

  -- The ConfigMap is there; the resources are applied.
  unfoldable pub apply_all :
      List (Effect Q R) → (hash : String) → List R → Option GatewaySpec → McpServer Q → Ran Q R
  unfolding retry_deployment_operation apply_resources finish report set_condition
  apply_all effects hash resources g s =
      let started =
        set_condition env.now "Progressing" condition_true "DeploymentInProgress"
          "MCPServer deployment in progress" (in_phase "Pending" s) in
      let labels = labels_of hash s.name s.spec.registry in
      let tried = retried (λ n. (apply_resources n started labels resources).1) in
      let so_far =
        effects ++ of_attempts (λ n. (apply_resources n started labels resources).0) tried.calls in
      let count = env.show_int (pos (length resources)) in
      elim tried.error [
        | some err ↦
            report env so_far "Applied" "ApplyFailed"
              (concat ("Failed to apply resources: " ∷ err ∷ [])) (in_phase "Failed" started)
        | none ↦
            finish
              (so_far
                ++ noted "Applied" (
                    concat
                      ("Successfully applied " ∷ count ∷ " resources using Server-Side Apply" ∷ []))
                  ∷ [])
              g
              (set_condition env.now "Applied" condition_true "Applied"
                (concat ("Successfully applied " ∷ count ∷ " resources" ∷ [])) started)
      ]

  -- The ConfigMap with the rendered text.
  unfoldable pub store_rendered :
      List (Effect Q R) → (text : String) → List R → Option GatewaySpec → McpServer Q → Ran Q R
  unfolding retry_deployment_operation apply_all report set_condition
  store_rendered effects text resources g s =
      let name = rendered_name s.name in
      let tried = retried env.apply_config_map in
      let count = env.show_int (pos (length resources)) in
      elim tried.error [
        | some err ↦
            report env effects "Rendered" "ConfigMapCreateFailed"
              (concat ("Failed to create ConfigMap: " ∷ err ∷ [])) s
        | none ↦
            apply_all
              (effects
                ++ (config_map_applied name text
                    ∷ noted "Rendered" (
                        concat (
                          "Successfully rendered " ∷ count ∷ " resources to ConfigMap " ∷ name
                          ∷ []))
                    ∷ []))
              (env.hash text) resources g
              (set_condition env.now "Rendered" condition_true "Assembled"
                (concat ("resources=" ∷ count ∷ [])) s)
      ]

  unfoldable pub deploy : List (Effect Q R) → Option GatewaySpec → McpServer Q → Ran Q R
  unfolding store_rendered report
  deploy effects g s = elim (env.render s) [
    | inl err ↦
        report env effects "Rendered" "RenderingFailed"
          (concat ("Failed to render resources: " ∷ err ∷ [])) s
    | inr (resources, text) ↦ elim (env.own_config_map s) [
      | some err ↦
          report env effects "Rendered" "ConfigMapOwnerRefFailed"
            (concat ("Failed to set owner reference: " ∷ err ∷ [])) s
      | none ↦ store_rendered effects text resources g s
    ]
  ]

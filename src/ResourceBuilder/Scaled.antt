-- ===== src/ResourceBuilder/Scaled.antt =====
-- pkg/services/resource_builder_service.go: the replicas of the deployment and of the autoscaler,
-- with the validation of pkg/services/validation_service.go.
use mcp_operator.Prelude.{
  String, ◌≡◌, sym, ap, ◌∙◌, subst, Bool, false, Option, none, some, arith, if◌then◌else◌, ℤ, pos,
  ◌≤ℤ◌,
}
use mcp_operator.Api.{HpaSpec, AutoscalingSpec, Quantities}
use mcp_operator.Validation.{check_mcp_server}
use mcp_operator.Validation.Rules.{HpaRule, AutoscalingRule}
use mcp_operator.Validation.Whole.{Valid, check_mcp_server_iff}
use mcp_operator.ResourceBuilder.{Source, build_labels}
use mcp_operator.ResourceBuilder.Workload.{
  IntOrStrings, BuiltDeployment, Autoscaler, hpa_of, initial_replicas, autoscaler_with, build_hpa,
  deployment_with, build_pod_template, build_deployment,
}
use mcp_operator.ResourceBuilder.Selected.{map_found}
use mcp_operator.Server.Deployed.{desired_of}

abbrev pub is_enabled : Option HpaSpec → Bool
is_enabled none = false
is_enabled (some h) = h.enabled

HpaRule-hpa_of :
    (a : Option AutoscalingSpec) (h : HpaSpec)
    → AutoscalingRule a
    → hpa_of a ≡ some h
    → HpaRule (some h)
unfolding AutoscalingRule
HpaRule-hpa_of none h rule e = cc
HpaRule-hpa_of (some a) h rule e = subst HpaRule e rule.0

abbrev pub Bounded : (low high : ℤ) → Type 0
Bounded low high = (pos 1 ≤ℤ low) × (low ≤ℤ high)

Bounded-desired_of :
    (min : Option ℤ) (max : ℤ)
    → (elim min as (λ _. Type 0) [ none ↦ pos 1 ≤ℤ max | some n ↦ (pos 1 ≤ℤ n) × (n ≤ℤ max) ])
    → Bounded (desired_of min) max
Bounded-desired_of none max rule = (ground arith, rule)
Bounded-desired_of (some n) max rule = rule

module _ {Q IntOrString : Type 0} (lib : Quantities Q) (show : ℤ → String)
    (ints : IntOrStrings IntOrString) (b : Source Q IntOrString) where
  -- For a server that the validation service accepts, the autoscaler that is built has 1 ≤ minimum
  -- ≤ maximum, and the deployment that is built starts with the minimum if the autoscaling is
  -- enabled, else with the replicas of the specification, by default one.
  pub Bounded-build_hpa :
      (a : Autoscaler) (d : BuiltDeployment Q IntOrString)
      → check_mcp_server lib b.server ≡ none
      → build_hpa b ≡ some a
      → build_deployment lib show ints b ≡ some d
      → Bounded a.min_replicas a.max_replicas
        × (d.replicas ≡ (
            if is_enabled (hpa_of b.server.spec.autoscaling)
            then a.min_replicas
            else desired_of b.server.spec.replicas))
  unfolding build_hpa autoscaler_with HpaRule Valid build_deployment deployment_with
  Bounded-build_hpa a d valid scaled built =
      let (h, given, whole) =
        map_found (autoscaler_with b) (hpa_of b.server.spec.autoscaling) a scaled in
      let rule = ((check_mcp_server_iff lib b.server).0 valid).1.1.1.1.0 in
      let bounded =
        Bounded-desired_of h.min_replicas h.max_replicas
          (HpaRule-hpa_of b.server.spec.autoscaling h rule given) in
      let (template, made, filled) =
        map_found (deployment_with ints b) (build_pod_template lib show b (build_labels b)) d
          built in
      let replicas = desired_of b.server.spec.replicas in
      let started : initial_replicas b.server.spec.replicas (hpa_of b.server.spec.autoscaling)
          ≡ (if is_enabled (hpa_of b.server.spec.autoscaling) then a.min_replicas else replicas) =
        rw given (ap (λ a. if h.enabled then a.min_replicas else replicas) whole) in
      (
        subst (λ a. Bounded a.min_replicas a.max_replicas) whole bounded,
        ap (λ d. d.replicas) (sym filled) ∙ started,
      )

-- ===== src/ResourceBuilder/Isolated.antt =====
-- pkg/services/resource_builder_service.go: the network policy of a tenant and the pods of its
-- server.
use mathlib.Core.Option
use mcp_operator.Prelude.{
  String, ◌≡◌, refl, sym, ap, ◌∙◌, inl, inr, true, false, Option, none, some, Bool-cases, ℤ, lookup,
}
use mcp_operator.Api.{TenancySpec, Quantities}
use mcp_operator.ResourceBuilder.{NetworkPolicySpec, Source}
use mcp_operator.ResourceBuilder.Workload.{IntOrStrings, BuiltDeployment, build_deployment}
use mcp_operator.ResourceBuilder.NetworkPolicy.{
  NetworkPolicy, tenant_selector, policy_for, by_tenancy, build_network_policy,
}
use mcp_operator.ResourceBuilder.Selected.{lookup-build_labels, Selects, built_deployment}

module _ {Q IntOrString : Type 0} (b : Source Q IntOrString) where
  by_tenancy-enabled :
      (t : TenancySpec Q) (n : NetworkPolicySpec)
      → n.enabled ≡ true
      → by_tenancy b (some t) (some n) ≡ some (policy_for b t n)
  by_tenancy-enabled t n on = rw on refl

  by_tenancy-disabled :
      (t : TenancySpec Q) (n : NetworkPolicySpec)
      → n.enabled ≡ false
      → by_tenancy b (some t) (some n) ≡ none
  by_tenancy-disabled t n off = rw off refl

  selector-by_tenancy :
      (t : Option (TenancySpec Q)) (n : Option NetworkPolicySpec) (p : NetworkPolicy)
      → by_tenancy b t n ≡ some p
      → (id : String) × (p.pod_selector ≡ tenant_selector id)
  unfolding policy_for
  selector-by_tenancy none n p h = cc
  selector-by_tenancy (some t) none p h = cc
  selector-by_tenancy (some t) (some n) p h = elim (Bool-cases n.enabled) [
    | inl on ↦ (
      t.tenant_id,
      ap (λ p. p.pod_selector)
          (sym (Option.some-injective (policy_for b t n) p (sym (by_tenancy-enabled t n on) ∙ h))),
    )
    | inr off ↦ cc (sym (by_tenancy-disabled t n off) ∙ h)
  ]

  -- The network policy that is built for a tenant never selects the pods of the server's own
  -- deployment: it asks for the label mcp.allbeone.io/tenant, which no pod gets, whatever labels
  -- the server has.
  pub Selects-build_network_policy :
      (lib : Quantities Q) (show : ℤ → String) (ints : IntOrStrings IntOrString)
      (d : BuiltDeployment Q IntOrString) (p : NetworkPolicy)
      → build_deployment lib show ints b ≡ some d
      → build_network_policy b ≡ some p
      → ¬ Selects p.pod_selector d.template.labels
  unfolding build_network_policy lookup
  Selects-build_network_policy lib show ints d p built made every =
      let (id, selector) = selector-by_tenancy b.server.spec.tenancy b.network_policy p made in
      let (same, labels, container) = built_deployment lib show ints b d built in
      let missing : lookup "mcp.allbeone.io/tenant" d.template.labels ≡ none =
        rw labels (lookup-build_labels "mcp.allbeone.io/tenant" refl refl refl b refl) in
      let asked : lookup "mcp.allbeone.io/tenant" p.pod_selector ≡ some id = rw selector refl in
      cc (sym missing ∙ every "mcp.allbeone.io/tenant" id asked)

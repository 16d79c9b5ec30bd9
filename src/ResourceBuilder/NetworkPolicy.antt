-- ===== src/ResourceBuilder/NetworkPolicy.antt =====
-- pkg/services/resource_builder_service.go: `BuildNetworkPolicy` with its rules, those given and
-- those by default.
use mcp_operator.Prelude.{
  String, Option, none, some, List, [], ◌∷◌, ◌++◌, map, if◌then◌else◌, pos, concat, Dict,
}
use mcp_operator.Api.{TenancySpec}
use mcp_operator.ResourceBuilder.{
  Selector, Peer, PolicyPort, PolicyRule, NetworkPolicySpec, Source, build_labels,
}

pub record NetworkPolicy : Type 0 where
  pub name : String
  pub namespace : String
  pub labels : Dict String
  pub pod_selector : Selector
  pub policy_types : List String
  pub ingress : List PolicyRule
  pub egress : List PolicyRule

abbrev pub pods_with : Selector → Peer
pods_with s = record { pod_selector = some s; namespace_selector = none; ip_block = none }

abbrev pub namespace_named : String → Peer
namespace_named name = record {
  pod_selector = none;
  namespace_selector = some (("kubernetes.io/metadata.name", name) ∷ []);
  ip_block = none;
}

abbrev pub any_port : Peer → PolicyRule
any_port p = record { peers = p ∷ []; ports = [] }

abbrev pub tenant_selector : (tenant_id : String) → Selector
tenant_selector tenant_id = ("mcp.allbeone.io/tenant", tenant_id) ∷ []

abbrev pub pods_rules : Option Selector → List PolicyRule
pods_rules none = []
pods_rules (some s) = any_port (pods_with s) ∷ []

-- The rules for the allowed namespaces and pods, the same in both directions.
abbrev pub allowed_rules : NetworkPolicySpec → List PolicyRule
allowed_rules n =
    map (λ name. any_port (namespace_named name)) n.allowed_namespaces ++ pods_rules n.allowed_pods

unfoldable pub build_default_ingress_rules :
    (tenant_id : String) → NetworkPolicySpec → List PolicyRule
build_default_ingress_rules tenant_id n =
    any_port (pods_with (tenant_selector tenant_id)) ∷ allowed_rules n

abbrev pub port_53 : (protocol : String) → PolicyPort
port_53 protocol = record { protocol = some protocol; port = some (pos 53); end_port = none }

abbrev pub dns_rule : PolicyRule
dns_rule = record {
  peers = namespace_named "kube-system" ∷ [];
  ports = port_53 "UDP" ∷ port_53 "TCP" ∷ [];
}

unfoldable pub build_default_egress_rules :
    (tenant_id : String) → NetworkPolicySpec → List PolicyRule
build_default_egress_rules tenant_id n =
    any_port (pods_with (tenant_selector tenant_id)) ∷ dns_rule ∷ allowed_rules n

-- The rules that are given, copied; else those by default.
abbrev pub rules_or : List PolicyRule → List PolicyRule → List PolicyRule
rules_or [] defaults = defaults
rules_or (r ∷ rs) defaults = r ∷ rs

module _ {Q IntOrString : Type 0} where
  unfoldable pub policy_for :
      Source Q IntOrString → TenancySpec Q → NetworkPolicySpec → NetworkPolicy
  unfolding build_labels build_default_ingress_rules build_default_egress_rules
  policy_for b t n = record {
    name = concat ("mcp-tenant-" ∷ t.tenant_id ∷ []);
    namespace = b.server.namespace;
    labels = build_labels b;
    pod_selector = tenant_selector t.tenant_id;
    policy_types = "Ingress" ∷ "Egress" ∷ [];
    ingress = rules_or n.ingress_rules (build_default_ingress_rules t.tenant_id n);
    egress = rules_or n.egress_rules (build_default_egress_rules t.tenant_id n);
  }

  abbrev pub by_tenancy :
      Source Q IntOrString
      → Option (TenancySpec Q)
      → Option NetworkPolicySpec
      → Option NetworkPolicy
  by_tenancy b none n = none
  by_tenancy b (some t) none = none
  by_tenancy b (some t) (some n) = if n.enabled then some (policy_for b t n) else none

  unfoldable pub build_network_policy : Source Q IntOrString → Option NetworkPolicy
  unfolding policy_for
  build_network_policy b = by_tenancy b b.server.spec.tenancy b.network_policy

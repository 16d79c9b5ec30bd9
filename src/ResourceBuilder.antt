-- ===== src/ResourceBuilder.antt =====
-- pkg/services/resource_builder_service.go: the labels and the selectors of the resources that are
-- built for a server. A range over a map goes through its list; Go's order is any.
pub mod Container
pub mod Workload
pub mod NetworkPolicy
mod Selected
mod Isolated
mod Probed
mod Routed
mod Scaled
pub mod Tests
use mcp_operator.Prelude.{
  String, ◌==◌, starts_with, Bool, ◌||◌, Option, none, some, List, [], ◌∷◌, if◌then◌else◌, ℤ, Dict,
  insert,
}
use mcp_operator.Api.{RegistryRef, TenancySpec, EnvVar, GatewaySpec, McpServer}
use mcp_operator.AutoUpdate.Template.{read}

-- A selector of pods or namespaces by the labels they have to have.
abbrev pub Selector : Type 0
Selector = Dict String

pub record Peer : Type 0 where
  pub pod_selector : Option Selector
  pub namespace_selector : Option Selector
  -- The CIDR, and the ranges left out of it.
  pub ip_block : Option (String × List String)

pub record PolicyPort : Type 0 where
  pub protocol : Option String
  pub port : Option ℤ
  pub end_port : Option ℤ

-- A rule for one direction: the peers on the other side, and the ports.
pub record PolicyRule : Type 0 where
  pub peers : List Peer
  pub ports : List PolicyPort

pub record NetworkPolicySpec : Type 0 where
  pub enabled : Bool
  pub ingress_rules : List PolicyRule
  pub egress_rules : List PolicyRule
  pub allowed_namespaces : List String
  pub allowed_pods : Option Selector

pub record RollingUpdate (IntOrString : Type 0) : Type 0 where
  pub max_unavailable : Option IntOrString
  pub max_surge : Option IntOrString

pub record StrategySpec (IntOrString : Type 0) : Type 0 where
  pub kind : String
  pub rolling_update : Option (RollingUpdate IntOrString)

-- The server, with what only the builder reads of it. `config` is the raw text, and a reference to
-- a secret is given by its key.
pub record Source (Q IntOrString : Type 0) : Type 0 where
  pub server : McpServer Q
  pub labels : Dict String
  pub selector : Selector
  pub env : List EnvVar
  pub gateway : Option GatewaySpec
  pub network_policy : Option NetworkPolicySpec
  pub strategy : Option (StrategySpec IntOrString)
  pub service_account : String
  pub config : Option String
  pub secret_keys : List String

-- `isSystemLabel`.
abbrev pub is_system_label : (key : String) → Bool
is_system_label key =
    starts_with key "app.kubernetes.io/"
    || starts_with key "mcp.allbeone.io/"
    || starts_with key "kubernetes.io/"
    || starts_with key "k8s.io/"

-- The loop over the labels of the server.
unfoldable pub add_custom : Dict String → Dict String → Dict String
add_custom [] labels = labels
add_custom ((k, v) ∷ rest) labels =
    let others = add_custom rest labels in if is_system_label k then others else insert k v others

-- The loop over the selector of the server.
unfoldable pub add_all : Dict String → Dict String → Dict String
add_all [] labels = labels
add_all ((k, v) ∷ rest) labels = insert k v (add_all rest labels)

abbrev pub or_else : (name other : String) → String
or_else name other = if name == "" then other else name

abbrev pub add_server_name : (name : String) → Option RegistryRef → Dict String → Dict String
add_server_name name none labels = labels
add_server_name name (some r) labels =
    let server_name = or_else r.server_name name in
    if server_name == "" then labels else insert "mcp.allbeone.io/server-name" server_name labels

abbrev pub add_version : Dict String → Dict String → Dict String
add_version annotations labels =
    let version = read "mcp.allbeone.io/registry-version" annotations in
    if version == "" then labels else insert "mcp.allbeone.io/server-version" version labels

abbrev pub add_tenant : {Q : Type 0} → Option (TenancySpec Q) → Dict String → Dict String
add_tenant none labels = labels
add_tenant (some t) labels =
    if t.tenant_id == "" then labels else insert "mcp.allbeone.io/tenant-id" t.tenant_id labels

abbrev pub standard_labels : (name : String) → Dict String
standard_labels name =
    ("app.kubernetes.io/name", "mcp-server")
    ∷ ("app.kubernetes.io/instance", name)
    ∷ ("app.kubernetes.io/component", "server")
    ∷ ("app.kubernetes.io/part-of", "mcp-operator")
    ∷ ("app.kubernetes.io/managed-by", "mcp-operator")
    ∷ []

module _ {Q : Type 0} where
  -- Before the labels of the server are added.
  unfoldable pub system_labels : McpServer Q → Dict String
  system_labels s =
      add_tenant s.spec.tenancy (
        add_version s.annotations (add_server_name s.name s.spec.registry (standard_labels s.name)))

module _ {Q IntOrString : Type 0} where
  unfoldable pub build_labels : Source Q IntOrString → Dict String
  unfolding add_custom system_labels
  build_labels b = add_custom b.labels (system_labels b.server)

  unfoldable pub build_selector : Source Q IntOrString → Selector
  unfolding add_all
  build_selector b = add_all b.selector (
      ("app.kubernetes.io/name", "mcp-server") ∷ ("app.kubernetes.io/instance", b.server.name) ∷ [])

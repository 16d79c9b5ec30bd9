-- ===== src/Api.antt =====
-- api/v1: the fields of the custom resources that the modelled code reads or writes. A Go pointer
-- is an `Option`, an integer field an integer, and a map that may be nil a dictionary, or an
-- `Option` of one where the code tells nil from empty.
use mcp_operator.Prelude.{String, ◌⊎◌, Bool, Option, List, ℤ, Dict}

pub record RegistryRef : Type 0 where
  pub name : String
  pub server_name : String
  pub registry : String

pub record RuntimeSpec : Type 0 where
  pub kind : String
  pub image : String
  pub command : List String
  pub args : List String
  pub env : Dict String
  pub port : ℤ

pub record TransportSpec : Type 0 where
  pub kind : String
  pub path : String

pub record PortSpec : Type 0 where
  pub name : String
  pub port : ℤ
  pub target_port : ℤ
  pub protocol : String
  pub app_protocol : String

pub record ResourceRequirements : Type 0 where
  pub limits : Option (Dict String)
  pub requests : Option (Dict String)

pub record SecurityContext : Type 0 where
  pub run_as_user : Option ℤ
  pub run_as_non_root : Option Bool

-- A metric of its own kind; a source is given by what it holds, and is copied.
pub record MetricSpec : Type 0 where
  pub kind : String
  pub resource : Option String
  pub pods : Option String
  pub object : Option String
  pub external : Option String

pub record HpaSpec : Type 0 where
  pub enabled : Bool
  pub min_replicas : Option ℤ
  pub max_replicas : ℤ
  pub target_cpu : Option ℤ
  pub target_memory : Option ℤ
  pub metrics : List MetricSpec

pub record AutoscalingSpec : Type 0 where
  pub hpa : Option HpaSpec
  -- The update mode of the VPA, if there is one.
  pub vpa_mode : Option String

-- `Quantity` is `resource.Quantity`.
pub record TenantResourceQuotas (Quantity : Type 0) : Type 0 where
  pub cpu : Option Quantity
  pub memory : Option Quantity
  pub storage : Option Quantity
  pub pods : Option ℤ
  pub services : Option ℤ
  pub persistent_volume_claims : Option ℤ
  pub config_maps : Option ℤ
  pub secrets : Option ℤ

pub record TenancySpec (Quantity : Type 0) : Type 0 where
  pub tenant_id : String
  pub isolation_level : String
  pub resource_quotas : Option (TenantResourceQuotas Quantity)

pub record McpServerSpec (Quantity : Type 0) : Type 0 where
  pub registry : Option RegistryRef
  pub runtime : Option RuntimeSpec
  pub replicas : Option ℤ
  pub resources : ResourceRequirements
  pub security_context : Option SecurityContext
  pub service_type : String
  pub autoscaling : Option AutoscalingSpec
  pub tenancy : Option (TenancySpec Quantity)
  pub transport : Option TransportSpec
  pub ports : List PortSpec

-- An environment variable of a container. `source` is its `ValueFrom`, a field by its path.
pub record EnvVar : Type 0 where
  pub name : String
  pub value : String
  pub source : Option String

-- `istio` is whether Istio is enabled, where that is given.
pub record GatewaySpec : Type 0 where
  pub enabled : Bool
  pub image : String
  pub port : ℤ
  pub args : List String
  pub env : List EnvVar
  pub istio : Option Bool

pub record Condition : Type 0 where
  pub kind : String
  pub status : String
  pub last_transition_time : ℤ
  pub reason : String
  pub message : String

-- The address `name.namespace.svc.cluster.local:port`.
pub record Endpoint : Type 0 where
  pub name : String
  pub namespace : String
  pub port : ℤ

pub record McpServerStatus : Type 0 where
  pub phase : String
  pub message : String
  pub reason : String
  pub replicas : ℤ
  pub ready_replicas : ℤ
  pub available_replicas : ℤ
  pub conditions : List Condition
  pub service_endpoint : Option Endpoint
  pub last_update_time : Option ℤ

pub record McpServer (Quantity : Type 0) : Type 0 where
  pub name : String
  pub namespace : String
  pub annotations : Dict String
  pub spec : McpServerSpec Quantity
  pub status : McpServerStatus

-- `k8s.io/apimachinery/pkg/api/resource`, with the type `Quantity`. `none` is an error of the
-- parser; `value` is the whole number above, and `set q n` is what `q.Set(n)` leaves.
pub record Quantities (Quantity : Type 0) : Type 0 where
  pub parse : String → String ⊎ Quantity
  pub cmp : Quantity → Quantity → ℤ
  pub is_zero : Quantity → Bool
  pub sign : Quantity → ℤ
  pub show : Quantity → String
  pub zero_quantity : Quantity
  pub value : Quantity → ℤ
  pub set : Quantity → ℤ → Quantity
  pub add : Quantity → Quantity → Quantity

-- A secret is given by its name.
pub record RegistryAuth : Type 0 where
  pub secret_ref : Option String
  pub token : String

pub record McpRegistrySpec : Type 0 where
  pub url : String
  pub kind : String
  pub auth : Option RegistryAuth
  pub sync_interval : Option ℤ

pub record McpRegistryStatus : Type 0 where
  pub phase : String
  pub message : String
  pub reason : String
  pub last_sync_time : Option ℤ
  pub conditions : List Condition

pub record McpRegistry : Type 0 where
  pub name : String
  pub namespace : String
  pub spec : McpRegistrySpec
  pub status : McpRegistryStatus

-- ===== src/Webhook/Defaults.antt =====
-- pkg/webhook/mcpserver_webhook.go, the mutating webhook, and api/v1/mcpserver_webhook.go, the
-- defaults of the type.
use mcp_operator.Prelude.{
  ℕ, String, ◌==◌, Bool, true, ◌&&◌, ◌||◌, not, Option, none, some, List, [], ◌∷◌, leb, eqb,
  if◌then◌else◌, all, pos, eqb_ℤ, runes, Dict,
}
use mcp_operator.Api.{
  RegistryRef, RuntimeSpec, TransportSpec, PortSpec, ResourceRequirements, SecurityContext,
  TenancySpec, McpServerSpec, McpServer,
}

abbrev pub string_or : String → String → String
string_or default s = if s == "" then default else s

abbrev pub default_registry : String → Option RegistryRef → RegistryRef
default_registry name none = record { name = "default-registry"; server_name = name; registry = "" }
default_registry name (some r) = record r {
  name = string_or "default-registry" r.name;
  server_name = string_or name r.server_name;
}

abbrev pub default_port : PortSpec → PortSpec
default_port p = record p {
  target_port = if eqb_ℤ p.target_port (pos 0) then p.port else p.target_port;
  protocol = string_or "TCP" p.protocol;
}

abbrev pub default_ports : List PortSpec → List PortSpec
default_ports [] = []
default_ports (p ∷ ps) = default_port p ∷ default_ports ps

abbrev pub default_transport : Option TransportSpec → Option TransportSpec
default_transport none = none
default_transport (some t) =
    if not (t.kind == "") && t.path == "" then some (record t { path = "/mcp" }) else some t

abbrev pub default_runtime : Option RuntimeSpec → Option RuntimeSpec
default_runtime none = none
default_runtime (some r) =
    if eqb_ℤ r.port (pos 0) then some (record r { port = pos 8080 }) else some r

abbrev pub given {ℓ} : {A : Type ℓ} → A → Option A → Option A
given default none = some default
given default (some a) = some a

abbrev pub resource_list : (cpu memory : String) → Dict String
resource_list cpu memory = ("cpu", cpu) ∷ ("memory", memory) ∷ []

abbrev pub default_context : SecurityContext
default_context = record { run_as_user = some (pos 1000); run_as_non_root = some true }

abbrev pub default_resources : ResourceRequirements → ResourceRequirements
default_resources r = record {
  requests = given (resource_list "100m" "128Mi") r.requests;
  limits = given (resource_list "500m" "512Mi") r.limits;
}

module _ {Q : Type 0} where
  abbrev pub default_tenancy : Option (TenancySpec Q) → Option (TenancySpec Q)
  default_tenancy none = none
  default_tenancy (some t) =
      some (record t { isolation_level = string_or "Namespace" t.isolation_level })

  abbrev pub default_spec : String → McpServerSpec Q → McpServerSpec Q
  default_spec name spec = record {
    registry = some (default_registry name spec.registry);
    runtime = default_runtime spec.runtime;
    replicas = given (pos 1) spec.replicas;
    resources = default_resources spec.resources;
    security_context = given default_context spec.security_context;
    service_type = string_or "ClusterIP" spec.service_type;
    autoscaling = spec.autoscaling;
    tenancy = default_tenancy spec.tenancy;
    transport = default_transport spec.transport;
    ports = default_ports spec.ports;
  }

  unfoldable pub set_defaults : McpServer Q → McpServer Q
  set_defaults s = record s { spec = default_spec s.name s.spec }

-- The runes that `unicode.IsSpace` holds of.
abbrev is_space : ℕ → Bool
is_space r =
    (leb 9 r && leb r 13)
    || eqb r 0x20
    || eqb r 0x85
    || eqb r 0xa0
    || eqb r 0x1680
    || (leb 0x2000 r && leb r 0x200a)
    || eqb r 0x2028
    || eqb r 0x2029
    || eqb r 0x202f
    || eqb r 0x205f
    || eqb r 0x3000

-- `strings.TrimSpace(s) == ""`.
unfoldable pub is_blank : String → Bool
is_blank s = all is_space (runes s)

abbrev blank_or : String → String → String
unfolding is_blank
blank_or default s = if is_blank s then default else s

abbrev pub empty_ref : RegistryRef
empty_ref = record { name = ""; server_name = ""; registry = "" }

abbrev pub ref_or_empty : Option RegistryRef → RegistryRef
ref_or_empty none = empty_ref
ref_or_empty (some r) = r

-- The reference that `Default` leaves; the alias `registry` gives the name.
unfoldable pub type_default_registry : String → RegistryRef → RegistryRef
unfolding blank_or
type_default_registry name r = record r {
  name =
      blank_or "default-registry"
        (if r.name == "" && not (r.registry == "") then r.registry else r.name);
  server_name = blank_or name r.server_name;
}

module _ {Q : Type 0} where
  unfoldable pub default : McpServer Q → McpServer Q
  unfolding type_default_registry
  default s = record s {
    spec = record spec {
      registry = some (type_default_registry s.name (ref_or_empty spec.registry));
    };
  }
    where
      spec : McpServerSpec Q
      spec = s.spec

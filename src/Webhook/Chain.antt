-- ===== src/Webhook/Chain.antt =====
-- pkg/webhook/mcpserver_webhook.go: the mutating webhook in front of the validating one.
use mcp_operator.Prelude.{
  ◌≤◌, String, eq_iff, ◌≡◌, refl, ◌≢◌, ◌↔◌, inl, inr, Bool, true, false, Option, none, some, List,
  [], ◌∷◌, arith, if◌then◌else◌, ℤ, pos, eqb_ℤ, Dict,
}
use mcp_operator.Api.{
  RegistryRef, RuntimeSpec, TransportSpec, PortSpec, SecurityContext, TenancySpec, McpServer,
  Quantities,
}
use mcp_operator.Webhook.{byte_len, validate_registry_info, validate_mcp_server}
use mcp_operator.Webhook.Rules.{
  RegistryRule, IsNamed, ImageRule, ReplicasRule, SecurityRule, TenantRule, registry_rule,
  LimitsRule, Acceptable, validate_mcp_server_iff,
}
use mcp_operator.Webhook.Defaults.{
  string_or, default_registry, default_ports, default_transport, default_runtime, given,
  resource_list, default_context, default_tenancy, set_defaults, is_blank, ref_or_empty,
  type_default_registry, default,
}

string_or_twice : (d s : String) → string_or d (string_or d s) ≡ string_or d s
string_or_twice d s = ground (arith, eq_iff s "")

registry_twice :
    (name : String) (r : Option RegistryRef)
    → default_registry name (some (default_registry name r)) ≡ default_registry name r
registry_twice name none = ground (arith, eq_iff name "")
registry_twice name (some r) =
    ground (arith, string_or_twice "default-registry" r.name, string_or_twice name r.server_name)

ports_twice : (ps : List PortSpec) → default_ports (default_ports ps) ≡ default_ports ps
ports_twice [] = refl
ports_twice (p ∷ ps) = ground (arith, ports_twice ps, string_or_twice "TCP" p.protocol)

transport_twice :
    (t : Option TransportSpec) → default_transport (default_transport t) ≡ default_transport t
transport_twice none = refl
transport_twice (some t) = ground (arith, eq_iff "/mcp" "")

runtime_twice : (r : Option RuntimeSpec) → default_runtime (default_runtime r) ≡ default_runtime r
runtime_twice none = refl
runtime_twice (some r) = ground arith

given_twice : {A : Type 0} (d : A) (o : Option A) → given d (given d o) ≡ given d o
given_twice d none = refl
given_twice d (some a) = refl

module _ {Q : Type 0} where
  tenancy_twice :
      (t : Option (TenancySpec Q)) → default_tenancy (default_tenancy t) ≡ default_tenancy t
  tenancy_twice none = refl
  tenancy_twice (some t) = ground (arith, string_or_twice "Namespace" t.isolation_level)

  -- Defaulting a server that is defaulted already changes nothing.
  pub set_defaults_idempotent : (s : McpServer Q) → set_defaults (set_defaults s) ≡ set_defaults s
  unfolding set_defaults
  set_defaults_idempotent s = ground (
    arith,
    registry_twice s.name s.spec.registry,
    ports_twice s.spec.ports,
    transport_twice s.spec.transport,
    runtime_twice s.spec.runtime,
    given_twice (pos 1) s.spec.replicas,
    given_twice (resource_list "100m" "128Mi") s.spec.resources.requests,
    given_twice (resource_list "500m" "512Mi") s.spec.resources.limits,
    given_twice default_context s.spec.security_context,
    string_or_twice "ClusterIP" s.spec.service_type,
    tenancy_twice s.spec.tenancy,
  )

RegistryRule-default :
    (name : String) (r : Option RegistryRef)
    → byte_len name ≤ 253
    → RegistryRule r
    → RegistryRule (some (default_registry name r))
unfolding RegistryRule
RegistryRule-default name none k h = ground arith
RegistryRule-default name (some r) k h = ground (arith, eq_iff r.name "", eq_iff r.server_name "")

reference_stays :
    (name : String) (r : Option RegistryRef) → IsNamed r → IsNamed (some (default_registry name r))
reference_stays name none h = absurd h
reference_stays name (some r) h = ground (arith, eq_iff r.name "")

image_stays :
    (name : String) (ref : Option RegistryRef) (r : RuntimeSpec)
    → ImageRule ref (some r)
    → ImageRule (some (default_registry name ref)) (some r)
unfolding ImageRule
image_stays name ref r (inl other) = inl other
image_stays name ref r (inr (inl left)) = inr (inl (left.0, reference_stays name ref left.1))
image_stays name ref r (inr (inr given)) = inr (inr given)

port_changed :
    (b : Bool) (ref : Option RegistryRef) (r : RuntimeSpec)
    → ImageRule ref (some r)
    → ImageRule ref (if b then some (record r { port = pos 8080 }) else some r)
unfolding ImageRule
port_changed true ref r h = h
port_changed false ref r h = h

ImageRule-default :
    (name : String) (ref : Option RegistryRef) (r : Option RuntimeSpec)
    → ImageRule ref r
    → ImageRule (some (default_registry name ref)) (default_runtime r)
unfolding ImageRule
ImageRule-default name ref none h = tt
ImageRule-default name ref (some r) h =
    port_changed (eqb_ℤ r.port (pos 0)) (some (default_registry name ref)) r
      (image_stays name ref r h)

name_given : (name : String) (r : Option RegistryRef) → (default_registry name r).name ≢ ""
name_given name none h = ground (arith, eq_iff "default-registry" "")
name_given name (some r) h = ground (arith, eq_iff r.name "", eq_iff "default-registry" "")

ReplicasRule-default : (n : Option ℤ) → ReplicasRule n → ReplicasRule (given (pos 1) n)
unfolding ReplicasRule
ReplicasRule-default none h = ground arith
ReplicasRule-default (some n) h = h

SecurityRule-default :
    (c : Option SecurityContext) → SecurityRule c → SecurityRule (given default_context c)
unfolding SecurityRule
SecurityRule-default none h = ground arith
SecurityRule-default (some c) h = h

TenantRule-default :
    {Q : Type 0} (t : Option (TenancySpec Q)) → TenantRule t → TenantRule (default_tenancy t)
unfolding TenantRule
TenantRule-default none h = h
TenantRule-default (some t) h = h

module _ {Q : Type 0} (lib : Quantities Q) (max_cpu max_memory : Q) where
  LimitsRule-default :
      (cpu memory : String) (l : Option (Dict String))
      → LimitsRule lib max_cpu max_memory l
      → LimitsRule lib max_cpu max_memory (given (resource_list cpu memory) l)
  unfolding LimitsRule
  LimitsRule-default cpu memory none h = absurd h
  LimitsRule-default cpu memory (some l) h = h

  -- A server that the validating webhook admits, with a name of at most 253 bytes, is still
  -- admitted once it has passed the mutating one.
  pub validate-set_defaults :
      (s : McpServer Q)
      → byte_len s.name ≤ 253
      → validate_mcp_server lib max_cpu max_memory s ≡ []
      → validate_mcp_server lib max_cpu max_memory (set_defaults s) ≡ []
  unfolding set_defaults Acceptable
  validate-set_defaults s k h =
      let ok = (validate_mcp_server_iff lib max_cpu max_memory s).0 h in
      (validate_mcp_server_iff lib max_cpu max_memory (set_defaults s)).1 (
        RegistryRule-default s.name s.spec.registry k ok.0,
        (
          ImageRule-default s.name s.spec.registry s.spec.runtime ok.1.0,
          (
            LimitsRule-default "500m" "512Mi" s.spec.resources.limits ok.1.1.0,
            (
              ReplicasRule-default s.spec.replicas ok.1.1.1.0,
              (
                SecurityRule-default s.spec.security_context ok.1.1.1.1.0,
                TenantRule-default s.spec.tenancy ok.1.1.1.1.1,
              ),
            ),
          ),
        ),
      )

module _ {Q : Type 0} where
  -- On a server that has passed the mutating webhook, the validating one asks of the registry only
  -- that the names fit 253 bytes.
  pub validate_registry_info-set_defaults :
      (s : McpServer Q)
      → validate_registry_info (set_defaults s).spec.registry ≡ []
        ↔ (byte_len (default_registry s.name s.spec.registry).name ≤ 253)
          × (byte_len (default_registry s.name s.spec.registry).server_name ≤ 253)
  unfolding set_defaults RegistryRule
  validate_registry_info-set_defaults s =
      let rule = registry_rule (some (default_registry s.name s.spec.registry)) in
      let named = name_given s.name s.spec.registry in
      (λ h. let parts = rule.0 h in (parts.1, parts.2), λ h. rule.1 (named, h.0, h.1))

-- The two defaulters disagree on a reference that gives only its alias `registry`: the webhook
-- names "default-registry", the method of the type the alias, if that is not blank.
pub defaulters_disagree :
    {Q : Type 0} (s : McpServer Q) (r : RegistryRef)
    → s.spec.registry ≡ some r
    → r.name ≡ ""
    → is_blank r.registry ≡ false
    → ((ref_or_empty (set_defaults s).spec.registry).name ≡ "default-registry")
      × ((ref_or_empty (default s).spec.registry).name ≡ r.registry)
unfolding set_defaults default type_default_registry
defaulters_disagree s r h e b = ground (arith, eq_iff r.name "", eq_iff r.registry "")

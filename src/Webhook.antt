-- ===== src/Webhook.antt =====
-- pkg/webhook/mcpserver_webhook.go, the validating webhook. Decoding the request and encoding the
-- answer are not modelled: a request holds the object.
pub mod Rules
pub mod Defaults
pub mod Chain
mod Tests
use mcp_operator.Prelude.{
  ℕ, String, ◌==◌, inl, inr, Bool, true, false, ◌&&◌, not, Option, none, some, List, [], ◌∷◌, ◌++◌,
  ltb, if◌then◌else◌, length, any, ℤ, pos, ltb_ℤ, leb_ℤ, eqb_ℤ, runes, bytes, is_prefix_of,
  has_suffix, concat, Dict, lookup,
}
use mcp_operator.Api.{
  RegistryRef, RuntimeSpec, SecurityContext, TenantResourceQuotas, TenancySpec, McpServer,
  Quantities,
}

pub data Value : Type 0 where
  text : String → Value
  int : ℤ → Value
  bool : Bool → Value

-- `field.Error`, with the path in dots.
pub data FieldError : Type 0 where
  required : (path detail : String) → FieldError
  invalid : (path : String) (value : Value) (detail : String) → FieldError

abbrev pub trusted_registries : List String
trusted_registries = "docker.io" ∷ "ghcr.io" ∷ "quay.io" ∷ "gcr.io" ∷ "registry.k8s.io" ∷ []

-- `len(s)`, in bytes.
abbrev pub byte_len : String → ℕ
byte_len s = length (bytes (runes s))

-- `append(errs, e)` under a test.
abbrev pub when : Bool → FieldError → List FieldError
when b e = if b then e ∷ [] else []

unfoldable pub validate_registry_info : Option RegistryRef → List FieldError
validate_registry_info none = required "spec.registry" "registry information is required" ∷ []
validate_registry_info (some r) =
    if r.name == ""
    then required "spec.registry.name" "registry name is required" ∷ []
    else when (ltb 253 (byte_len r.name)) (
        invalid "spec.registry.name" (text r.name)
          "registry name cannot be longer than 253 characters")
      ++ when (not (r.server_name == "") && ltb 253 (byte_len r.server_name)) (
          invalid "spec.registry.serverName" (text r.server_name)
            "registry serverName cannot be longer than 253 characters")

abbrev pub registry_specified : Option RegistryRef → Bool
registry_specified none = false
registry_specified (some r) = not (r.name == "")

unfoldable pub is_trusted : String → Bool
is_trusted image = any (λ registry. is_prefix_of (runes registry) (runes image)) trusted_registries

unfoldable pub validate_image_security : Option RegistryRef → Option RuntimeSpec → List FieldError
unfolding is_trusted
validate_image_security registry none = []
validate_image_security registry (some r) =
    if not (r.kind == "docker")
    then []
    else if r.image == ""
    then when (not (registry_specified registry)) (
        required "spec.runtime.image"
          "image is required for docker runtime when registry is not specified")
    else when (not (is_trusted r.image)) (
        invalid "spec.runtime.image" (text r.image)
          "image must be from trusted registry: [docker.io ghcr.io quay.io gcr.io registry.k8s.io]")
      ++ when (has_suffix r.image ":latest") (
          invalid "spec.runtime.image" (text r.image)
            "using 'latest' tag is not recommended for production")

unfoldable pub validate_replicas : Option ℤ → List FieldError
validate_replicas none = []
validate_replicas (some n) =
    when (ltb_ℤ n (pos 0)) (invalid "spec.replicas" (int n) "replicas cannot be negative")
    ++ when (ltb_ℤ (pos 10) n)
        (invalid "spec.replicas" (int n) "replicas cannot exceed 10 for security reasons")

abbrev pub is_root : Option ℤ → Bool
is_root none = false
is_root (some user) = eqb_ℤ user (pos 0)

abbrev pub root_allowed : Option Bool → Bool
root_allowed none = false
root_allowed (some non_root) = not non_root

unfoldable pub validate_security_context : Option SecurityContext → List FieldError
validate_security_context none = []
validate_security_context (some c) =
    when (is_root c.run_as_user) (
      invalid "spec.securityContext.runAsUser" (int (pos 0))
        "running as root (UID 0) is not allowed")
    ++ when (root_allowed c.run_as_non_root)
        (invalid "spec.securityContext.runAsNonRoot" (bool false) "runAsNonRoot must be true")

-- `*q <= 0` on a quota that is given.
validate_count : (path detail : String) → Option ℤ → List FieldError
validate_count path detail none = []
validate_count path detail (some n) = when (leb_ℤ n (pos 0)) (invalid path (int n) detail)

module _ {Q : Type 0} where
  validate_quotas : Option (TenantResourceQuotas Q) → List FieldError
  unfolding validate_count
  validate_quotas none = []
  validate_quotas (some q) =
      validate_count "spec.tenancy.resourceQuotas.pods" "pod quota must be positive" q.pods
      ++ validate_count "spec.tenancy.resourceQuotas.services" "service quota must be positive"
          q.services

  unfoldable pub validate_tenant_configuration : Option (TenancySpec Q) → List FieldError
  unfolding validate_quotas
  validate_tenant_configuration none = []
  validate_tenant_configuration (some t) =
      (if t.tenant_id == ""
        then required "spec.tenancy.tenantId" "tenant ID is required when tenancy is configured"
          ∷ []
        else when (ltb 63 (byte_len t.tenant_id)) (
            invalid "spec.tenancy.tenantId" (text t.tenant_id)
              "tenant ID cannot exceed 63 characters"))
      ++ validate_quotas t.resource_quotas

-- `max_cpu` and `max_memory` are the parsed texts "2" and "4Gi".
module _ {Q : Type 0} (lib : Quantities Q) (max_cpu max_memory : Q) where
  -- A limit that is given, parses and is above the maximum.
  abbrev pub exceeds : Q → Option String → Bool
  exceeds maximum none = false
  exceeds maximum (some given) = elim (lib.parse given) [
    | inl err ↦ false
    | inr q ↦ ltb_ℤ (pos 0) (lib.cmp q maximum)
  ]

  abbrev given_text : Option String → String
  given_text none = ""
  given_text (some given) = given

  unfoldable pub validate_resource_limits : Option (Dict String) → List FieldError
  validate_resource_limits none =
      required "spec.resources.limits" "resource limits are required" ∷ []
  validate_resource_limits (some limits) =
      when (exceeds max_cpu (lookup "cpu" limits)) (
        invalid "spec.resources.limits.cpu" (text (given_text (lookup "cpu" limits)))
          (concat ("CPU limit cannot exceed " ∷ lib.show max_cpu ∷ [])))
      ++ when (exceeds max_memory (lookup "memory" limits)) (
          invalid "spec.resources.limits.memory" (text (given_text (lookup "memory" limits)))
            (concat ("Memory limit cannot exceed " ∷ lib.show max_memory ∷ [])))

  unfoldable pub validate_mcp_server : McpServer Q → List FieldError
  unfolding validate_registry_info validate_image_security validate_resource_limits
      validate_replicas validate_security_context validate_tenant_configuration
  validate_mcp_server s =
      validate_registry_info s.spec.registry
      ++ (validate_image_security s.spec.registry s.spec.runtime
          ++ (validate_resource_limits s.spec.resources.limits
              ++ (validate_replicas s.spec.replicas
                  ++ (validate_security_context s.spec.security_context
                      ++ validate_tenant_configuration s.spec.tenancy))))

  -- `Handle` on a request that decodes: admitted, or denied with the errors.
  abbrev pub admits : McpServer Q → Bool
  unfolding validate_mcp_server
  admits s = elim (validate_mcp_server s) [ [] ↦ true | ◌∷◌ e es ↦ false ]

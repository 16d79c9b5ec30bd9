-- ===== src/Validation.antt =====
-- pkg/services/validation_service.go: the validation of a server's specification. `none` is success
-- and `some` an error's text. A map is ranged over in the order of its list.
pub mod Quota
pub mod Label
pub mod Rules
pub mod Whole
pub mod Registry
pub mod Counts
pub mod Agreement
mod Tests
use mcp_operator.Prelude.{
  String, ◌==◌, inl, inr, Bool, false, ◌&&◌, ◌||◌, not, Option, none, some, List, [], ◌∷◌, ltb,
  if◌then◌else◌, ℤ, pos, ltb_ℤ, leb_ℤ, contains, concat, Dict, lookup,
}
use mcp_operator.Api.{
  RegistryRef, RuntimeSpec, TransportSpec, ResourceRequirements, HpaSpec, AutoscalingSpec,
  TenantResourceQuotas, TenancySpec, McpServer, Quantities,
}
use mcp_operator.Webhook.{byte_len}

-- `if b { return err }`.
abbrev pub fail_if : Bool → String → Option String
fail_if b message = if b then some message else none

infixr 30 ◌>>>◌
-- The second check runs if the first finds nothing.
abbrev pub ◌>>>◌ : Option String → Option String → Option String
none >>> e = e
some message >>> e = some message

-- `fmt.Errorf(prefix + "%w", err)`.
abbrev pub wrapped : String → Option String → Option String
wrapped prefix none = none
wrapped prefix (some message) = some (concat (prefix ∷ message ∷ []))

unfoldable pub validate_registry_ref : Option RegistryRef → Option String
validate_registry_ref none = some "registry information is required"
validate_registry_ref (some r) =
    fail_if (r.name == "" && r.registry == "")
      "registry name is required: use name field or registry field"
    >>> fail_if (not (r.name == "") && ltb 253 (byte_len r.name))
        "registry name cannot be longer than 253 characters"
    >>> fail_if (not (r.registry == "") && ltb 253 (byte_len r.registry))
        "registry registry field cannot be longer than 253 characters"
    >>> fail_if (not (r.server_name == "") && ltb 253 (byte_len r.server_name))
        "registry serverName cannot be longer than 253 characters"

abbrev pub runtime_types : List String
runtime_types = "docker" ∷ "node" ∷ "python" ∷ "binary" ∷ []

abbrev pub is_stdio : Option TransportSpec → Bool
is_stdio none = false
is_stdio (some t) = t.kind == "stdio"

unfoldable pub validate_runtime_spec : Option RuntimeSpec → Option TransportSpec → Option String
validate_runtime_spec none transport = some "runtime type is required"
validate_runtime_spec (some r) transport =
    fail_if (r.kind == "") "runtime type is required"
    >>> fail_if (not (contains runtime_types r.kind)) (
        concat (
          "invalid runtime type: " ∷ r.kind ∷ ", must be one of: docker, node, python, binary"
          ∷ []))
    >>> fail_if (r.kind == "docker" && r.image == "") "image is required for docker runtime"
    >>> fail_if (not (is_stdio transport) && (ltb_ℤ r.port (pos 0) || ltb_ℤ (pos 65535) r.port))
        "port must be between 0 and 65535"

abbrev pub below_one : Option ℤ → Bool
below_one none = false
below_one (some n) = ltb_ℤ n (pos 1)

abbrev pub above : Option ℤ → ℤ → Bool
above none maximum = false
above (some n) maximum = ltb_ℤ maximum n

unfoldable pub validate_hpa : Option HpaSpec → Option String
validate_hpa none = none
validate_hpa (some hpa) =
    fail_if (below_one hpa.min_replicas) "HPA minReplicas must be at least 1"
    >>> fail_if (ltb_ℤ hpa.max_replicas (pos 1)) "HPA maxReplicas must be at least 1"
    >>> fail_if (above hpa.min_replicas hpa.max_replicas)
        "HPA minReplicas cannot be greater than maxReplicas"

abbrev pub vpa_modes : List String
vpa_modes = "Off" ∷ "Initial" ∷ "Recreate" ∷ "Auto" ∷ []

unfoldable pub validate_vpa : Option String → Option String
validate_vpa none = none
validate_vpa (some mode) = fail_if (not (contains vpa_modes mode)) (
    concat
      ("invalid VPA update mode: " ∷ mode ∷ ", must be one of: Off, Initial, Recreate, Auto" ∷ []))

unfoldable pub validate_autoscaling_spec : AutoscalingSpec → Option String
unfolding validate_hpa validate_vpa
validate_autoscaling_spec a = validate_hpa a.hpa >>> validate_vpa a.vpa_mode

abbrev pub isolation_levels : List String
isolation_levels = "None" ∷ "Namespace" ∷ "Node" ∷ "Strict" ∷ []

unfoldable pub validate_isolation_level : String → Option String
validate_isolation_level level =
    fail_if (not (contains isolation_levels level))
      (concat ("invalid isolation level: " ∷ level ∷ []))

-- `*q <= 0` on a count that is given.
abbrev pub not_positive : Option ℤ → Bool
not_positive none = false
not_positive (some n) = leb_ℤ n (pos 0)

abbrev limit_text : Option String → String
limit_text none = ""
limit_text (some limit) = limit

-- A nil map has no entries.
abbrev pub entries_of : Option (Dict String) → Dict String
entries_of none = []
entries_of (some m) = m

abbrev pub negative : Option ℤ → Bool
negative none = false
negative (some n) = ltb_ℤ n (pos 0)

unfoldable pub validate_autoscaling : Option AutoscalingSpec → Option String
unfolding validate_autoscaling_spec
validate_autoscaling none = none
validate_autoscaling (some a) = validate_autoscaling_spec a

module _ {Q : Type 0} (lib : Quantities Q) where
  -- `q.IsZero() || q.Sign() < 0` on a quantity that is given.
  abbrev pub quantity_not_positive : Option Q → Bool
  quantity_not_positive none = false
  quantity_not_positive (some q) = lib.is_zero q || ltb_ℤ (lib.sign q) (pos 0)

  unfoldable pub validate_tenant_resource_quotas : TenantResourceQuotas Q → Option String
  validate_tenant_resource_quotas q =
      fail_if (quantity_not_positive q.cpu) "CPU quota must be positive"
      >>> fail_if (quantity_not_positive q.memory) "memory quota must be positive"
      >>> fail_if (quantity_not_positive q.storage) "storage quota must be positive"
      >>> fail_if (not_positive q.pods) "pods quota must be positive"
      >>> fail_if (not_positive q.services) "services quota must be positive"
      >>> fail_if (not_positive q.persistent_volume_claims)
          "PersistentVolumeClaims quota must be positive"
      >>> fail_if (not_positive q.config_maps) "ConfigMaps quota must be positive"
      >>> fail_if (not_positive q.secrets) "secrets quota must be positive"

  unfoldable pub validate_given_quotas : Option (TenantResourceQuotas Q) → Option String
  unfolding validate_tenant_resource_quotas
  validate_given_quotas none = none
  validate_given_quotas (some q) = validate_tenant_resource_quotas q

  unfoldable pub validate_tenancy_spec : TenancySpec Q → Option String
  unfolding validate_isolation_level validate_given_quotas
  validate_tenancy_spec t =
      fail_if (t.tenant_id == "") "tenant ID is required"
      >>> validate_isolation_level t.isolation_level
      >>> validate_given_quotas t.resource_quotas

  -- One entry of a resource list.
  abbrev pub validate_entry : (list_type name value : String) → Option String
  validate_entry list_type name value =
      fail_if (value == "") (concat (list_type ∷ "." ∷ name ∷ " cannot be empty" ∷ []))
      >>> elim (lib.parse value) [
        | inl err ↦
            some
              (concat ("invalid " ∷ list_type ∷ "." ∷ name ∷ " value '" ∷ value ∷ "': " ∷ err ∷ []))
        | inr q ↦ none
      ]

  unfoldable pub validate_resource_list : (list_type : String) → Dict String → Option String
  validate_resource_list list_type [] = none
  validate_resource_list list_type ((name, value) ∷ entries) =
      validate_entry list_type name value >>> validate_resource_list list_type entries

  -- Both texts are quantities and the request is the greater one.
  abbrev pub request_exceeds : String → Option String → Bool
  request_exceeds request none = false
  request_exceeds request (some limit) = elim (lib.parse request) [
    | inl err ↦ false
    | inr r ↦ elim (lib.parse limit) [ inl err ↦ false | inr l ↦ ltb_ℤ (pos 0) (lib.cmp r l) ]
  ]

  unfoldable pub validate_requests_vs_limits : (requests limits : Dict String) → Option String
  validate_requests_vs_limits [] limits = none
  validate_requests_vs_limits ((name, request) ∷ requests) limits =
      fail_if (request_exceeds request (lookup name limits)) (
        concat (
          "requests."
          ∷ name
          ∷ " ("
          ∷ request
          ∷ ") exceeds limits."
          ∷ name
          ∷ " ("
          ∷ limit_text (lookup name limits)
          ∷ ")"
          ∷ []))
      >>> validate_requests_vs_limits requests limits

  unfoldable pub validate_resource_requirements : ResourceRequirements → Option String
  unfolding validate_resource_list validate_requests_vs_limits
  validate_resource_requirements r =
      validate_resource_list "limits" (entries_of r.limits)
      >>> validate_resource_list "requests" (entries_of r.requests)
      >>> validate_requests_vs_limits (entries_of r.requests) (entries_of r.limits)

  unfoldable pub validate_tenancy : Option (TenancySpec Q) → Option String
  unfolding validate_tenancy_spec
  validate_tenancy none = none
  validate_tenancy (some t) = validate_tenancy_spec t

  unfoldable pub check_mcp_server : McpServer Q → Option String
  unfolding validate_registry_ref validate_runtime_spec validate_resource_requirements
      validate_autoscaling validate_tenancy
  check_mcp_server s =
      wrapped "registry validation failed: " (validate_registry_ref s.spec.registry)
      >>> wrapped "runtime validation failed: "
          (validate_runtime_spec s.spec.runtime s.spec.transport)
      >>> wrapped "resource requirements validation failed: "
          (validate_resource_requirements s.spec.resources)
      >>> fail_if (negative s.spec.replicas) "replicas cannot be negative"
      >>> wrapped "autoscaling validation failed: " (validate_autoscaling s.spec.autoscaling)
      >>> wrapped "tenancy validation failed: " (validate_tenancy s.spec.tenancy)

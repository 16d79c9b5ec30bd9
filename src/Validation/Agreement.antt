-- ===== src/Validation/Agreement.antt =====
-- pkg/services/validation_service.go: the check of the image that differs from the webhook's.
use mcp_operator.Prelude.{eq_iff, ◌≡◌, ◌≢◌, Option, some, [], arith}
use mcp_operator.Api.{RegistryRef, RuntimeSpec, TransportSpec}
use mcp_operator.Webhook.{validate_image_security}
use mcp_operator.Validation.{validate_runtime_spec}

-- An image left to the registry: where a registry is named by its first field, the webhook finds no
-- error in a docker runtime without an image, and the service always refuses it.
pub image_left_to_registry :
    (r : RegistryRef) (runtime : RuntimeSpec) (transport : Option TransportSpec)
    → r.name ≢ ""
    → runtime.kind ≡ "docker"
    → runtime.image ≡ ""
    → (validate_image_security (some r) (some runtime) ≡ [])
      × (validate_runtime_spec (some runtime) transport
          ≡ some "image is required for docker runtime")
unfolding validate_image_security validate_runtime_spec
image_left_to_registry r runtime transport h k e = (
  ground (arith, eq_iff r.name "", eq_iff runtime.image ""),
  ground (
    arith,
    eq_iff runtime.kind "docker",
    eq_iff "docker" runtime.kind,
    eq_iff runtime.kind "",
    eq_iff "docker" "",
    eq_iff runtime.image "",
  ),
)

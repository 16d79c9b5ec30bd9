-- ===== src/ResourceBuilder/Tests.antt =====
-- Concrete servers: a plain one of a tenant, and one behind a gateway without a port; and the
-- theorems at them.
use mcp_operator.Prelude.{
  ℕ, ◌+◌, String, ◌≡◌, refl, ◌↔◌, inr, true, false, Option, none, some, [], ◌∷◌, eqb, ℤ, pos,
  pos_part, bytes,
}
use mcp_operator.Api.{
  RuntimeSpec, TransportSpec, AutoscalingSpec, TenancySpec, GatewaySpec, Quantities,
}
use mcp_operator.ResourceBuilder.{NetworkPolicySpec, Source, build_labels}
use mcp_operator.ResourceBuilder.Container.{
  Container, gateway_args, build_gateway_container, plain_container, by_runtime, build_container,
}
use mcp_operator.ResourceBuilder.Workload.{
  IntOrStrings, BuiltDeployment, Autoscaler, build_service, build_hpa, template_with,
  deployment_with, build_pod_template, build_deployment,
}
use mcp_operator.ResourceBuilder.NetworkPolicy.{NetworkPolicy, policy_for, build_network_policy}
use mcp_operator.Validation.{
  validate_registry_ref, validate_runtime_spec, validate_autoscaling_spec, validate_tenancy_spec,
  validate_resource_requirements, check_mcp_server,
}
use mcp_operator.ResourceBuilder.Scaled.{Bounded, Bounded-build_hpa}
use mcp_operator.ResourceBuilder.Selected.{Selects, Selects-build_deployment}
use mcp_operator.ResourceBuilder.Isolated.{Selects-build_network_policy}
use mcp_operator.ResourceBuilder.Probed.{is_probed, is_probed-build_container}
use mcp_operator.ResourceBuilder.Routed.{is_routed, is_routed-build_service}

abbrev numbers : Quantities ℕ
numbers = record {
  parse = λ text. inr 1;
  cmp = λ a b. pos 0;
  is_zero = λ a. eqb a 0;
  sign = λ a. pos 1;
  show = λ a. "";
  zero_quantity = 0;
  value = λ a. pos a;
  set = λ q n. pos_part n;
  add = λ a b. a + b;
}

abbrev show : ℤ → String
show n = "n"

abbrev zero_and_one : IntOrStrings ℕ
zero_and_one = record { zero_value = 0; one_value = 1 }

abbrev docker : RuntimeSpec
docker = record {
  kind = "docker";
  image = "ghcr.io/x:1";
  command = [];
  args = [];
  env = [];
  port = pos 0;
}

abbrev stdio : TransportSpec
stdio = record { kind = "stdio"; path = "" }

abbrev acme : TenancySpec ℕ
acme = record { tenant_id = "acme"; isolation_level = "Namespace"; resource_quotas = none }

abbrev isolated : NetworkPolicySpec
isolated = record {
  enabled = true;
  ingress_rules = [];
  egress_rules = [];
  allowed_namespaces = [];
  allowed_pods = none;
}

abbrev scaling : AutoscalingSpec
scaling = record {
  hpa = some (record {
    enabled = true;
    min_replicas = some (pos 2);
    max_replicas = pos 5;
    target_cpu = none;
    target_memory = none;
    metrics = [];
  });
  vpa_mode = none;
}

abbrev source_with : Option TransportSpec → Option GatewaySpec → Option AutoscalingSpec → Source ℕ ℕ
source_with transport gateway autoscaling = record {
  server = record {
    name = "files";
    namespace = "tools";
    annotations = [];
    spec = record {
      registry = some (record { name = "main"; server_name = ""; registry = "" });
      runtime = some docker;
      replicas = some (pos 2);
      resources = record { limits = none; requests = none };
      security_context = none;
      service_type = "";
      autoscaling = autoscaling;
      tenancy = some acme;
      transport = transport;
      ports =
          record {
            name = "web";
            port = pos 80;
            target_port = pos 9000;
            protocol = "TCP";
            app_protocol = "";
          }
          ∷ [];
    };
    status = record {
      phase = "";
      message = "";
      reason = "";
      replicas = pos 0;
      ready_replicas = pos 0;
      available_replicas = pos 0;
      conditions = [];
      service_endpoint = none;
      last_update_time = none;
    };
  };
  labels = ("team", "blue") ∷ ("mcp.allbeone.io/tenant", "acme") ∷ [];
  selector = ("team", "blue") ∷ [];
  env = [];
  gateway = gateway;
  network_policy = some isolated;
  strategy = none;
  service_account = "";
  config = none;
  secret_keys = [];
}

abbrev pub plain : Source ℕ ℕ
plain = source_with none none (some scaling)

abbrev portless_gateway : GatewaySpec
portless_gateway = record {
  enabled = true;
  image = "gateway";
  port = pos 0;
  args = [];
  env = [];
  istio = none;
}

abbrev behind_gateway : Source ℕ ℕ
behind_gateway = source_with (some stdio) (some portless_gateway) none

-- The one that is built, or another.
abbrev built : {A : Type 0} → A → Option A → A
built other none = other
built other (some a) = a

abbrev empty_container : Container ℕ
empty_container = plain_container numbers show plain docker

unfoldable container_of : Source ℕ ℕ → Container ℕ
unfolding build_container plain_container
container_of b = built empty_container (build_container numbers show b)

abbrev deployment_of : Source ℕ ℕ → BuiltDeployment ℕ ℕ
deployment_of b = deployment_with zero_and_one b (template_with b (build_labels b) (container_of b))

abbrev no_scaler : Autoscaler
no_scaler = record {
  name = "";
  namespace = "";
  labels = [];
  target = "";
  min_replicas = pos 0;
  max_replicas = pos 0;
  metrics = [];
}

unfoldable scaler : Autoscaler
unfolding build_hpa
scaler = built no_scaler (build_hpa plain)

scaled : build_hpa plain ≡ some scaler
unfolding build_hpa scaler
scaled = refl

accepted : check_mcp_server numbers plain.server ≡ none
unfolding check_mcp_server validate_registry_ref validate_runtime_spec
    validate_resource_requirements validate_autoscaling_spec validate_tenancy_spec bytes
accepted = refl

abbrev pub policy : NetworkPolicy
policy = policy_for plain acme isolated

deployed : build_deployment numbers show zero_and_one plain ≡ some (deployment_of plain)
unfolding build_deployment build_pod_template build_container by_runtime container_of
deployed = refl

pub protected : build_network_policy plain ≡ some policy
unfolding build_network_policy
protected = refl

gated : build_container numbers show behind_gateway ≡ some (container_of behind_gateway)
unfolding build_container build_gateway_container gateway_args container_of
gated = refl

Selects-build_deployment_example :
    ((deployment_of plain).selector ≡ (build_service plain).selector)
    × (Selects (deployment_of plain).selector (deployment_of plain).template.labels
        ↔ Selects plain.selector (deployment_of plain).template.labels)
Selects-build_deployment_example =
    Selects-build_deployment numbers show zero_and_one plain (deployment_of plain) deployed

Selects-build_network_policy_example :
    ¬ Selects policy.pod_selector (deployment_of plain).template.labels
Selects-build_network_policy_example =
    Selects-build_network_policy plain numbers show zero_and_one (deployment_of plain) policy
      deployed protected

is_probed-build_container_example : is_probed (container_of behind_gateway) ≡ true
is_probed-build_container_example =
    is_probed-build_container numbers show behind_gateway refl (container_of behind_gateway) gated

-- The service sends to 8080, the gateway listens on 8000.
is_routed-build_service_example :
    is_routed (container_of behind_gateway).ports (build_service behind_gateway).ports ≡ false
is_routed-build_service_example =
    is_routed-build_service numbers show behind_gateway docker refl refl
      (container_of behind_gateway) gated

Bounded-build_hpa_example :
    Bounded scaler.min_replicas scaler.max_replicas
    × ((deployment_of plain).replicas ≡ scaler.min_replicas)
Bounded-build_hpa_example =
    Bounded-build_hpa numbers show zero_and_one plain scaler (deployment_of plain) accepted scaled
      deployed

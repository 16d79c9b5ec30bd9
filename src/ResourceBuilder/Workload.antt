-- ===== src/ResourceBuilder/Workload.antt =====
-- pkg/services/resource_builder_service.go: the deployment and the service of a server, its
-- ConfigMap and secret, and its autoscaler. What the pod template copies as it is, the volumes and
-- the behaviour of the autoscaler are left out.
use mathlib.Core.Option
use mcp_operator.Prelude.{
  String, ◌==◌, Option, none, some, List, [], ◌∷◌, ◌++◌, map, if◌then◌else◌, ℤ, pos, eqb_ℤ, concat,
  Dict, insert,
}
use mcp_operator.Api.{MetricSpec, HpaSpec, AutoscalingSpec, EnvVar, GatewaySpec, Quantities}
use mcp_operator.ResourceBuilder.{
  Selector, RollingUpdate, StrategySpec, Source, or_else, build_labels, build_selector,
}
use mcp_operator.ResourceBuilder.Container.{
  ContainerPort, Container, collect_container_ports, build_container,
}
use mcp_operator.Server.Deployed.{desired_of}
use mcp_operator.Server.Deploy.{has_istio}

-- `zero` and `one` are the defaults 0 and 1.
pub record IntOrStrings (IntOrString : Type 0) : Type 0 where
  pub zero_value : IntOrString
  pub one_value : IntOrString

abbrev pub or_default : {A : Type 0} → Option A → A → A
or_default none a = a
or_default (some given) a = given

module _ {IntOrString : Type 0} (ints : IntOrStrings IntOrString) where
  abbrev pub default_update : RollingUpdate IntOrString
  default_update = record {
    max_unavailable = some ints.zero_value;
    max_surge = some ints.one_value;
  }

  abbrev pub update_of : Option (RollingUpdate IntOrString) → RollingUpdate IntOrString
  update_of none = default_update
  update_of (some u) = record {
    max_unavailable = some (or_default u.max_unavailable ints.zero_value);
    max_surge = some (or_default u.max_surge ints.one_value);
  }

  unfoldable pub build_deployment_strategy :
      Option (StrategySpec IntOrString) → StrategySpec IntOrString
  build_deployment_strategy none = record {
    kind = "RollingUpdate";
    rolling_update = some default_update;
  }
  build_deployment_strategy (some s) =
      if s.kind == "Recreate"
      then record { kind = "Recreate"; rolling_update = none }
      else record { kind = "RollingUpdate"; rolling_update = some (update_of s.rolling_update) }

pub record PodTemplate (Q : Type 0) : Type 0 where
  pub labels : Dict String
  pub annotations : Dict String
  pub service_account : String
  pub container : Container Q

pub record BuiltDeployment (Q IntOrString : Type 0) : Type 0 where
  pub name : String
  pub namespace : String
  pub labels : Dict String
  pub selector : Selector
  pub template : PodTemplate Q
  pub strategy : StrategySpec IntOrString
  pub replicas : ℤ

pub record ServicePort : Type 0 where
  pub name : String
  pub port : ℤ
  pub target_port : ℤ
  pub protocol : String

pub record Service : Type 0 where
  pub name : String
  pub namespace : String
  pub labels : Dict String
  pub kind : String
  pub selector : Selector
  pub ports : List ServicePort

-- `Data` of a ConfigMap or a secret.
pub record Content : Type 0 where
  pub name : String
  pub namespace : String
  pub labels : Dict String
  pub content : Dict String

-- The use of a resource, in percent, or a metric of another kind.
pub data Metric : Type 0 where
  utilized : (resource : String) → (average : ℤ) → Metric
  custom : (kind source : String) → Metric

pub record Autoscaler : Type 0 where
  pub name : String
  pub namespace : String
  pub labels : Dict String
  pub target : String
  pub min_replicas : ℤ
  pub max_replicas : ℤ
  pub metrics : List Metric

abbrev pub hpa_of : Option AutoscalingSpec → Option HpaSpec
hpa_of none = none
hpa_of (some a) = a.hpa

-- The replicas of the deployment.
abbrev pub initial_replicas : (replicas : Option ℤ) → Option HpaSpec → ℤ
initial_replicas replicas none = desired_of replicas
initial_replicas replicas (some h) =
    if h.enabled then desired_of h.min_replicas else desired_of replicas

abbrev pub utilization : (resource : String) → Option ℤ → List Metric
utilization resource none = []
utilization resource (some average) = utilized resource average ∷ []

abbrev pub custom_if : (kind : String) → Option String → List Metric
custom_if kind none = []
custom_if kind (some source) = custom kind source ∷ []

-- At most one metric; an unknown kind, or a source that is missing, gives none.
unfoldable pub build_custom_metric : MetricSpec → List Metric
build_custom_metric m =
    if m.kind == "Resource"
    then custom_if "Resource" m.resource
    else if m.kind == "Pods"
    then custom_if "Pods" m.pods
    else if m.kind == "Object"
    then custom_if "Object" m.object
    else if m.kind == "External"
    then custom_if "External" m.external
    else []

abbrev pub custom_metrics : List MetricSpec → List Metric
custom_metrics [] = []
custom_metrics (m ∷ ms) = build_custom_metric m ++ custom_metrics ms

abbrev pub or_cpu : List Metric → List Metric
or_cpu [] = utilized "cpu" (pos 80) ∷ []
or_cpu (m ∷ ms) = m ∷ ms

unfoldable pub build_hpa_metrics : HpaSpec → List Metric
unfolding build_custom_metric
build_hpa_metrics h = or_cpu (
    utilization "cpu" h.target_cpu
    ++ (utilization "memory" h.target_memory ++ custom_metrics h.metrics))

abbrev pub istio_annotations : Option GatewaySpec → Dict String
istio_annotations g = if has_istio g then ("sidecar.istio.io/inject", "true") ∷ [] else []

abbrev pub service_port_of : ContainerPort → ServicePort
service_port_of p = record {
  name = p.name;
  port = p.container_port;
  target_port = p.container_port;
  protocol = or_else p.protocol "TCP";
}

abbrev pub single : (name : String) → (port : ℤ) → List ServicePort
single name port = record { name = name; port = port; target_port = port; protocol = "TCP" } ∷ []

abbrev pub or_mcp : List ServicePort → List ServicePort
or_mcp [] = single "mcp" (pos 8080)
or_mcp (p ∷ ps) = p ∷ ps

-- The port that the service publishes for the gateway.
abbrev pub published_port : GatewaySpec → ℤ
published_port g = if eqb_ℤ g.port (pos 0) then pos 8080 else g.port

abbrev pub config_data : Option String → Dict String
config_data none = []
config_data (some text) = ("config.json", text) ∷ []

abbrev pub add_values : List EnvVar → Dict String → Dict String
add_values [] m = m
add_values (e ∷ es) m = add_values es (insert e.name e.value m)

abbrev pub add_placeholders : (keys : List String) → Dict String → Dict String
add_placeholders [] m = m
add_placeholders (k ∷ ks) m =
    add_placeholders ks (insert k (concat ("secret-data-for-" ∷ k ∷ [])) m)

module _ {Q IntOrString : Type 0} where
  abbrev pub service_ports : Source Q IntOrString → Option GatewaySpec → List ServicePort
  service_ports b none = or_mcp (map service_port_of (collect_container_ports b))
  service_ports b (some g) =
      if g.enabled
      then single "gateway" (published_port g)
      else or_mcp (map service_port_of (collect_container_ports b))

  unfoldable pub build_service : Source Q IntOrString → Service
  unfolding build_labels build_selector collect_container_ports
  build_service b = record {
    name = b.server.name;
    namespace = b.server.namespace;
    labels = build_labels b;
    kind = or_else b.server.spec.service_type "ClusterIP";
    selector = build_selector b;
    ports = service_ports b b.gateway;
  }

  unfoldable pub build_config_map : Source Q IntOrString → Content
  unfolding build_labels
  build_config_map b = record {
    name = concat (b.server.name ∷ "-config" ∷ []);
    namespace = b.server.namespace;
    labels = build_labels b;
    content = add_values b.env (config_data b.config);
  }

  abbrev pub secret_with : Source Q IntOrString → Dict String → Option Content
  secret_with b [] = none
  secret_with b (entry ∷ rest) = some (record {
    name = concat (b.server.name ∷ "-secret" ∷ []);
    namespace = b.server.namespace;
    labels = build_labels b;
    content = entry ∷ rest;
  })

  unfoldable pub build_secret : Source Q IntOrString → Option Content
  unfolding build_labels
  build_secret b = secret_with b (add_placeholders b.secret_keys [])

  unfoldable pub autoscaler_with : Source Q IntOrString → HpaSpec → Autoscaler
  unfolding build_labels build_hpa_metrics
  autoscaler_with b h = record {
    name = b.server.name;
    namespace = b.server.namespace;
    labels = build_labels b;
    target = b.server.name;
    min_replicas = desired_of h.min_replicas;
    max_replicas = h.max_replicas;
    metrics = build_hpa_metrics h;
  }

  unfoldable pub build_hpa : Source Q IntOrString → Option Autoscaler
  unfolding autoscaler_with
  build_hpa b = Option.map (autoscaler_with b) (hpa_of b.server.spec.autoscaling)

module _ {Q IntOrString : Type 0} where
  abbrev pub template_with :
      Source Q IntOrString → (labels : Dict String) → Container Q → PodTemplate Q
  template_with b labels c = record {
    labels = labels;
    annotations = istio_annotations b.gateway;
    service_account = b.service_account;
    container = c;
  }

  unfoldable pub deployment_with :
      IntOrStrings IntOrString
      → Source Q IntOrString
      → PodTemplate Q
      → BuiltDeployment Q IntOrString
  unfolding build_labels build_selector build_deployment_strategy
  deployment_with ints b template = record {
    name = b.server.name;
    namespace = b.server.namespace;
    labels = build_labels b;
    selector = build_selector b;
    template = template;
    strategy = build_deployment_strategy ints b.strategy;
    replicas = initial_replicas b.server.spec.replicas (hpa_of b.server.spec.autoscaling);
  }

module _ {Q IntOrString : Type 0} (lib : Quantities Q) (show : ℤ → String) where
  unfoldable pub build_pod_template :
      Source Q IntOrString → (labels : Dict String) → Option (PodTemplate Q)
  unfolding build_container
  build_pod_template b labels = Option.map (template_with b labels) (build_container lib show b)

  unfoldable pub build_deployment :
      IntOrStrings IntOrString → Source Q IntOrString → Option (BuiltDeployment Q IntOrString)
  unfolding build_labels build_pod_template deployment_with
  build_deployment ints b =
      Option.map (deployment_with ints b) (build_pod_template b (build_labels b))

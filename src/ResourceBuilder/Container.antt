-- ===== src/ResourceBuilder/Container.antt =====
-- pkg/services/resource_builder_service.go: the container of a server: the plain one, the one of a
-- binary, and the gateway's. Volume mounts and the security context are copied and left out.
use mathlib.Core.Option
use mcp_operator.Prelude.{
  String, ◌==◌, ◌⊎◌, inl, inr, Bool, false, ◌&&◌, not, Option, none, some, List, [], ◌∷◌, ◌++◌, map,
  if◌then◌else◌, ℤ, pos, ltb_ℤ, eqb_ℤ, concat, Dict,
}
use mcp_operator.Api.{
  RuntimeSpec, TransportSpec, PortSpec, ResourceRequirements, EnvVar, GatewaySpec, Quantities,
}
use mcp_operator.ResourceBuilder.{Source}
use mcp_operator.Server.Deployed.{is_gateway_on}

pub record ContainerPort : Type 0 where
  pub name : String
  pub container_port : ℤ
  pub protocol : String

-- A TCP probe, its times in seconds.
pub record Probe : Type 0 where
  pub port : ℤ
  pub initial_delay : ℤ
  pub period : ℤ
  pub timeout : ℤ
  pub failure_threshold : ℤ
  pub success_threshold : ℤ

pub record Requirements (Q : Type 0) : Type 0 where
  pub limits : Dict Q
  pub requests : Dict Q

pub record Container (Q : Type 0) : Type 0 where
  pub name : String
  pub image : String
  pub command : List String
  pub args : List String
  pub ports : List ContainerPort
  pub env : List EnvVar
  pub resources : Requirements Q
  pub liveness_probe : Option Probe
  pub readiness_probe : Option Probe

abbrev pub is_stdio_transport : Option TransportSpec → Bool
is_stdio_transport none = false
is_stdio_transport (some t) = t.kind == "stdio"

abbrev pub target_of : PortSpec → ℤ
target_of p = if ltb_ℤ (pos 0) p.target_port then p.target_port else p.port

abbrev pub protocol_of : String → String
protocol_of given = if given == "UDP" then "UDP" else "TCP"

abbrev pub container_port_of : PortSpec → ContainerPort
container_port_of p = record {
  name = p.name;
  container_port = target_of p;
  protocol = protocol_of p.protocol;
}

abbrev pub tcp : (name : String) → (port : ℤ) → ContainerPort
tcp name port = record { name = name; container_port = port; protocol = "TCP" }

abbrev pub of_runtime : Option RuntimeSpec → List ContainerPort
of_runtime none = tcp "mcp" (pos 8080) ∷ []
of_runtime (some r) =
    if ltb_ℤ (pos 0) r.port then tcp "mcp" r.port ∷ [] else tcp "mcp" (pos 8080) ∷ []

abbrev pub of_specs : List PortSpec → Option RuntimeSpec → List ContainerPort
of_specs [] runtime = of_runtime runtime
of_specs (p ∷ ps) runtime = map container_port_of (p ∷ ps)

module _ {Q IntOrString : Type 0} where
  unfoldable pub collect_container_ports : Source Q IntOrString → List ContainerPort
  collect_container_ports b =
      let spec = b.server.spec in
      if is_stdio_transport spec.transport && not (is_gateway_on b.gateway)
      then []
      else of_specs spec.ports spec.runtime

abbrev pub liveness_on : (port : ℤ) → Probe
liveness_on port = record {
  port = port;
  initial_delay = pos 30;
  period = pos 10;
  timeout = pos 5;
  failure_threshold = pos 3;
  success_threshold = pos 1;
}

abbrev pub readiness_on : (port : ℤ) → Probe
readiness_on port = record {
  port = port;
  initial_delay = pos 5;
  period = pos 5;
  timeout = pos 3;
  failure_threshold = pos 3;
  success_threshold = pos 1;
}

-- The quantities that do not parse are left out.
abbrev pub with_parsed : {Q : Type 0} → String ⊎ Q → (name : String) → Dict Q → Dict Q
with_parsed (inl err) name rest = rest
with_parsed (inr q) name rest = (name, q) ∷ rest

abbrev pub parse_all : {Q : Type 0} → Quantities Q → Dict String → Dict Q
parse_all lib [] = []
parse_all lib ((name, text) ∷ rest) = with_parsed (lib.parse text) name (parse_all lib rest)

abbrev pub or_nothing : Option (Dict String) → Dict String
or_nothing none = []
or_nothing (some m) = m

unfoldable pub build_resource_requirements :
    {Q : Type 0} → Quantities Q → ResourceRequirements → Requirements Q
build_resource_requirements lib r = record {
  limits = parse_all lib (or_nothing r.limits);
  requests = parse_all lib (or_nothing r.requests);
}

abbrev pub literal : (name value : String) → EnvVar
literal name value = record { name = name; value = value; source = none }

abbrev pub from_field : (name path : String) → EnvVar
from_field name path = record { name = name; value = ""; source = some path }

abbrev pub from_map : Dict String → List EnvVar
from_map [] = []
from_map ((k, v) ∷ rest) = literal k v ∷ from_map rest

abbrev pub env_of : Option RuntimeSpec → List EnvVar
env_of none = []
env_of (some r) = from_map r.env

abbrev pub standard_env : List EnvVar
standard_env =
    from_field "MCP_SERVER_NAME" "metadata.name"
    ∷ from_field "MCP_SERVER_NAMESPACE" "metadata.namespace"
    ∷ []

abbrev pub first_port : List ContainerPort → ℤ
first_port [] = pos 8080
first_port (p ∷ ps) = p.container_port

-- `buildEnvironmentVariables`: of the server's variables it copies the name and the value.
unfoldable pub build_environment_variables :
    (show : ℤ → String) → RuntimeSpec → List EnvVar → List ContainerPort → List EnvVar
build_environment_variables show r env ports =
    from_map r.env
    ++ (map (λ e. literal e.name e.value) env
        ++ (standard_env ++ literal "MCP_SERVER_PORT" (show (first_port ports)) ∷ []))

unfoldable pub build_binary_environment_variables :
    (show : ℤ → String) → RuntimeSpec → List EnvVar → (proxy_port : ℤ) → List EnvVar
build_binary_environment_variables show r env proxy_port =
    from_map r.env
    ++ (env
        ++ (standard_env
            ++ (literal "MCP_SERVER_PORT" (show proxy_port)
                ∷ literal "MCP_RUNTIME_TYPE" "binary"
                ∷ [])))

abbrev pub gateway_port : GatewaySpec → ℤ
gateway_port g = if eqb_ℤ g.port (pos 0) then pos 8000 else g.port

unfoldable pub build_gateway_environment_variables :
    (show : ℤ → String) → GatewaySpec → Option RuntimeSpec → List EnvVar → List EnvVar
build_gateway_environment_variables show g r env =
    g.env
    ++ (env_of r ++ (env ++ (standard_env ++ literal "GATEWAY_PORT" (show (gateway_port g)) ∷ [])))

-- `strings.Join(_, " ")`.
abbrev pub join : List String → String
join [] = ""
join (x ∷ []) = x
join (x ∷ y ∷ ys) = concat (x ∷ " " ∷ join (y ∷ ys) ∷ [])

abbrev pub followed_by : (command : String) → (args : List String) → String
followed_by command [] = command
followed_by command (x ∷ xs) =
    if command == "" then join (x ∷ xs) else concat (command ∷ " " ∷ join (x ∷ xs) ∷ [])

abbrev pub subprocess_command : RuntimeSpec → String
subprocess_command r = followed_by (join r.command) r.args

-- The arguments of the gateway with the placeholder replaced. `none` is the nil dereference of a
-- missing runtime.
unfoldable pub gateway_args : Option RuntimeSpec → List String → Option (List String)
gateway_args runtime [] = some []
gateway_args none (a ∷ rest) =
    let others = gateway_args none rest in
    if a == "<cmd>" then none else Option.map (λ args. a ∷ args) others
gateway_args (some r) (a ∷ rest) =
    let others = gateway_args (some r) rest in
    Option.map (λ args. (if a == "<cmd>" then subprocess_command r else a) ∷ args) others

-- The command and the arguments of a binary.
abbrev pub binary_command : (command args : List String) → List String × List String
binary_command (c ∷ cs) args = (c ∷ cs, args)
binary_command [] (a ∷ rest) = (a ∷ [], rest)
binary_command [] [] =
    ("/bin/sh" ∷ "-c" ∷ "echo 'Binary executable not specified'; sleep infinity" ∷ [], [])

abbrev pub binary_port : RuntimeSpec → ℤ
binary_port r = if eqb_ℤ r.port (pos 0) then pos 8080 else r.port

abbrev pub probe_first : (ℤ → Probe) → List ContainerPort → Option Probe
probe_first on [] = none
probe_first on (p ∷ ps) = some (on p.container_port)

module _ {Q IntOrString : Type 0} (lib : Quantities Q) (show : ℤ → String) where
  unfoldable pub build_binary_container : Source Q IntOrString → RuntimeSpec → Container Q
  unfolding build_resource_requirements build_binary_environment_variables
  build_binary_container b r =
      let (command, args) = binary_command r.command r.args in
      record {
        name = "mcp-binary";
        image = if r.image == "" then "alpine:latest" else r.image;
        command = command;
        args = args;
        ports = tcp "mcp" (binary_port r) ∷ [];
        env = build_binary_environment_variables show r b.env (binary_port r);
        resources = build_resource_requirements lib b.server.spec.resources;
        liveness_probe = some (liveness_on (binary_port r));
        readiness_probe = some (readiness_on (binary_port r));
      }

  abbrev pub gateway_with : Source Q IntOrString → GatewaySpec → List String → Container Q
  gateway_with b g args = record {
    name = "gateway";
    image = g.image;
    command = [];
    args = args;
    ports = tcp "gateway" (gateway_port g) ∷ [];
    env = build_gateway_environment_variables show g b.server.spec.runtime b.env;
    resources = build_resource_requirements lib b.server.spec.resources;
    liveness_probe = some (liveness_on (gateway_port g));
    readiness_probe = some (readiness_on (gateway_port g));
  }

  unfoldable pub build_gateway_container : Source Q IntOrString → GatewaySpec → Option (Container Q)
  unfolding gateway_args
  build_gateway_container b g =
      Option.map (gateway_with b g) (gateway_args b.server.spec.runtime g.args)

  unfoldable pub plain_container : Source Q IntOrString → RuntimeSpec → Container Q
  unfolding collect_container_ports build_environment_variables build_resource_requirements
  plain_container b r =
      let ports = collect_container_ports b in
      record {
        name = "mcp-server";
        image = r.image;
        command = r.command;
        args = r.args;
        ports = ports;
        env = build_environment_variables show r b.env ports;
        resources = build_resource_requirements lib b.server.spec.resources;
        liveness_probe = probe_first liveness_on ports;
        readiness_probe = probe_first readiness_on ports;
      }

  -- Without a gateway container: by the runtime.
  unfoldable pub by_runtime : Source Q IntOrString → Option RuntimeSpec → Option (Container Q)
  unfolding build_binary_container plain_container
  by_runtime b none = none
  by_runtime b (some r) =
      some (if r.kind == "binary" then build_binary_container b r else plain_container b r)

  abbrev pub by_gateway : Source Q IntOrString → Option GatewaySpec → Option (Container Q)
  by_gateway b none = by_runtime b b.server.spec.runtime
  by_gateway b (some g) =
      if g.enabled && is_stdio_transport b.server.spec.transport
      then build_gateway_container b g
      else by_runtime b b.server.spec.runtime

  unfoldable pub build_container : Source Q IntOrString → Option (Container Q)
  unfolding by_runtime build_gateway_container
  build_container b = by_gateway b b.gateway

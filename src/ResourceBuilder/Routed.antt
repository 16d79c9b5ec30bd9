-- ===== src/ResourceBuilder/Routed.antt =====
-- pkg/services/resource_builder_service.go: whether the container listens on what the service sends
-- to.
use mathlib.Core.Option
use mcp_operator.Prelude.{
  String, ◌==◌, eq_iff, ◌≡◌, refl, sym, ap, ◌∙◌, inl, inr, Bool, true, false, ◌&&◌, ◌||◌, not,
  Option, none, some, List, [], ◌∷◌, map, arith, if◌then◌else◌, Bool-cases, all, any, ℤ, pos, ltb_ℤ,
  eqb_ℤ,
}
use mcp_operator.Api.{RuntimeSpec, PortSpec, GatewaySpec, Quantities}
use mcp_operator.ResourceBuilder.{Source, or_else}
use mcp_operator.ResourceBuilder.Container.{
  ContainerPort, Container, is_stdio_transport, container_port_of, tcp, of_runtime, of_specs,
  collect_container_ports, gateway_port, gateway_args, gateway_with, build_gateway_container,
  plain_container, by_runtime, by_gateway, build_container,
}
use mcp_operator.ResourceBuilder.Workload.{
  ServicePort, service_port_of, single, or_mcp, published_port, service_ports, build_service,
}
use mcp_operator.ResourceBuilder.Selected.{map_found}
use mcp_operator.ResourceBuilder.Probed.{is_tcp_at, by_gateway-on, by_gateway-off}
use mcp_operator.Server.Deployed.{is_gateway_on}

abbrev pub is_target : ServicePort → ContainerPort → Bool
is_target s p = eqb_ℤ p.container_port s.target_port && p.protocol == s.protocol

abbrev pub serves : List ContainerPort → ServicePort → Bool
serves ports s = any (is_target s) ports

-- Every port of the service is one of the container.
abbrev pub is_routed : List ContainerPort → List ServicePort → Bool
is_routed ports services = all (serves ports) services

abbrev is_empty : List ContainerPort → Bool
is_empty [] = true
is_empty (p ∷ ports) = false

is_routed-∷ :
    (p : ContainerPort) (ports : List ContainerPort) (services : List ServicePort)
    → is_routed ports services ≡ true
    → is_routed (p ∷ ports) services ≡ true
is_routed-∷ p ports [] h = refl
is_routed-∷ p ports (s ∷ ss) h =
    let ih : is_routed ports ss ≡ true → is_routed (p ∷ ports) ss ≡ true = is_routed-∷ p ports ss in
    ground (arith, h, ih)

abbrev has_protocol : ContainerPort → Bool
has_protocol p = p.protocol == "TCP" || p.protocol == "UDP"

kept_protocol :
    (p : ContainerPort) → has_protocol p ≡ true → (p.protocol == or_else p.protocol "TCP") ≡ true
kept_protocol p h = elim (Bool-cases (p.protocol == "")) [
  | inl empty ↦ cc (sym (ap (λ s. s == "TCP" || s == "UDP") ((eq_iff p.protocol "").0 empty)) ∙ h)
  | inr given ↦ rw given ((eq_iff p.protocol p.protocol).1 refl)
]

serves-itself :
    (p : ContainerPort) (ports : List ContainerPort)
    → has_protocol p ≡ true
    → serves (p ∷ ports) (service_port_of p) ≡ true
serves-itself p ports h =
    let same : eqb_ℤ p.container_port p.container_port ≡ true = ground arith in
    rw (same, kept_protocol p h) refl

is_routed-map :
    (ports : List ContainerPort)
    → all has_protocol ports ≡ true
    → is_routed ports (map service_port_of ports) ≡ true
is_routed-map [] h = refl
is_routed-map (p ∷ ports) h =
    let first : has_protocol p ≡ true = ground (arith, h) in
    let others : all has_protocol ports ≡ true = ground (arith, h) in
    rw
      (
        serves-itself p ports first,
        is_routed-∷ p ports (map service_port_of ports) (is_routed-map ports others),
      )
      refl

has_protocol-container_port_of : (p : PortSpec) → has_protocol (container_port_of p) ≡ true
has_protocol-container_port_of p = elim (Bool-cases (p.protocol == "UDP")) [
  | inl udp ↦ rw udp refl
  | inr tcp ↦ rw tcp refl
]

has_protocol-specs : (ps : List PortSpec) → all has_protocol (map container_port_of ps) ≡ true
has_protocol-specs [] = refl
has_protocol-specs (p ∷ ps) = rw (has_protocol-container_port_of p, has_protocol-specs ps) refl

has_protocol-of_runtime : (r : Option RuntimeSpec) → all has_protocol (of_runtime r) ≡ true
has_protocol-of_runtime none = refl
has_protocol-of_runtime (some r) = elim (Bool-cases (ltb_ℤ (pos 0) r.port)) [
  | inl given ↦ rw given refl
  | inr missing ↦ rw missing refl
]

has_protocol-of_specs :
    (ps : List PortSpec) (r : Option RuntimeSpec) → all has_protocol (of_specs ps r) ≡ true
has_protocol-of_specs [] r = has_protocol-of_runtime r
has_protocol-of_specs (p ∷ ps) r = has_protocol-specs (p ∷ ps)

-- The fallback of the service serves nothing if there are no ports.
is_routed-or_mcp :
    (ports : List ContainerPort)
    → all has_protocol ports ≡ true
    → is_routed ports (or_mcp (map service_port_of ports)) ≡ not (is_empty ports)
is_routed-or_mcp [] h = refl
is_routed-or_mcp (p ∷ ports) h = is_routed-map (p ∷ ports) h

some_of_specs : (ps : List PortSpec) (r : Option RuntimeSpec) → is_empty (of_specs ps r) ≡ false
some_of_specs [] none = refl
some_of_specs [] (some r) = elim (Bool-cases (ltb_ℤ (pos 0) r.port)) [
  | inl given ↦ rw given refl
  | inr missing ↦ rw missing refl
]
some_of_specs (p ∷ ps) r = refl

module _ {Q IntOrString : Type 0} (b : Source Q IntOrString) where
  abbrev collected : List ContainerPort
  collected = collect_container_ports b

  is_routed-collected :
      is_gateway_on b.gateway ≡ false
      → is_routed collected (or_mcp (map service_port_of collected))
        ≡ not (is_stdio_transport b.server.spec.transport)
  unfolding collect_container_ports
  is_routed-collected off = elim (Bool-cases (is_stdio_transport b.server.spec.transport)) [
    | inl stdio ↦ rw (stdio, off) refl
    | inr other ↦
        rw
          (
            other,
            is_routed-or_mcp (of_specs b.server.spec.ports b.server.spec.runtime)
                (has_protocol-of_specs b.server.spec.ports b.server.spec.runtime),
            some_of_specs b.server.spec.ports b.server.spec.runtime,
          )
          refl
  ]

  -- What decides whether the container of a server that is no binary listens where its service
  -- sends to.
  abbrev pub is_reachable : Option GatewaySpec → Bool
  is_reachable none = not (is_stdio_transport b.server.spec.transport)
  is_reachable (some g) =
      if g.enabled
      then (if is_stdio_transport b.server.spec.transport
          then not (eqb_ℤ g.port (pos 0))
          else any (is_tcp_at (published_port g)) (collect_container_ports b))
      else not (is_stdio_transport b.server.spec.transport)

module _ {Q IntOrString : Type 0} (lib : Quantities Q) (show : ℤ → String)
    (b : Source Q IntOrString) (r : RuntimeSpec) (runtime : b.server.spec.runtime ≡ some r)
    (no_binary : (r.kind == "binary") ≡ false) where
  ports-by_runtime :
      (c : Container Q)
      → by_runtime lib show b b.server.spec.runtime ≡ some c
      → c.ports ≡ collect_container_ports b
  unfolding plain_container by_runtime
  ports-by_runtime c h =
      let plain : by_runtime lib show b b.server.spec.runtime
          ≡ some (plain_container lib show b r) =
        rw (runtime, no_binary) refl in
      ap (λ c. c.ports) (sym (Option.some-injective _ c (sym plain ∙ h)))

  ports-gateway :
      (g : GatewaySpec) (c : Container Q)
      → build_gateway_container lib show b g ≡ some c
      → c.ports ≡ tcp "gateway" (gateway_port g) ∷ []
  unfolding build_gateway_container
  ports-gateway g c h =
      let (args, there, whole) =
        map_found (gateway_with lib show b g) (gateway_args b.server.spec.runtime g.args) c h in
      ap (λ c. c.ports) (sym whole)

  is_routed-gateway :
      (g : GatewaySpec)
      → is_routed (tcp "gateway" (gateway_port g) ∷ []) (single "gateway" (published_port g))
        ≡ not (eqb_ℤ g.port (pos 0))
  is_routed-gateway g = ground arith

  is_routed-service_ports :
      (g : Option GatewaySpec) (c : Container Q)
      → g ≡ b.gateway
      → by_gateway lib show b g ≡ some c
      → is_routed c.ports (service_ports b g) ≡ is_reachable b g
  is_routed-service_ports none c e h =
      rw (ports-by_runtime c h) (is_routed-collected b (ap is_gateway_on (sym e)))
  is_routed-service_ports (some g) c e h = elim (Bool-cases g.enabled) [
    | inl on ↦ elim (Bool-cases (is_stdio_transport b.server.spec.transport)) [
      | inl stdio ↦
          let gateway : (g.enabled && is_stdio_transport b.server.spec.transport) ≡ true =
            rw (on, stdio) refl in
          rw (ports-gateway g c (sym (by_gateway-on lib show b g gateway) ∙ h), on, stdio)
            (is_routed-gateway g)
      | inr other ↦
          let plain : (g.enabled && is_stdio_transport b.server.spec.transport) ≡ false =
            rw (on, other) refl in
          rw (ports-by_runtime c (sym (by_gateway-off lib show b g plain) ∙ h), on, other)
            (ground arith)
    ]
    | inr off ↦
        let plain : (g.enabled && is_stdio_transport b.server.spec.transport) ≡ false =
          rw off refl in
        rw (ports-by_runtime c (sym (by_gateway-off lib show b g plain) ∙ h), off)
          (is_routed-collected b (ap is_gateway_on (sym e) ∙ off))
  ]

  -- A server that is no binary, and whose container is built, listens on all that its service sends
  -- to exactly if: without a gateway, its transport is not stdio; with a gateway and stdio, the
  -- gateway's port is given; with a gateway in front of another transport, one of the server's own
  -- ports is the TCP port that the service publishes for the gateway.
  pub is_routed-build_service :
      (c : Container Q)
      → build_container lib show b ≡ some c
      → is_routed c.ports (build_service b).ports ≡ is_reachable b b.gateway
  unfolding build_container build_service
  is_routed-build_service c h = is_routed-service_ports b.gateway c refl h

-- ===== src/ResourceBuilder/Probed.antt =====
-- pkg/services/resource_builder_service.go: the probes of the container that is built.
use mathlib.Core.Option
use mcp_operator.Prelude.{
  String, ◌==◌, ◌≡◌, refl, sym, ◌∙◌, subst, inl, inr, Bool, true, false, ◌&&◌, not, Option, none,
  some, List, [], ◌∷◌, map, arith, eqb, Bool-cases, length, all, any, ℤ, pos, ltb_ℤ, eqb_ℤ,
}
use mcp_operator.Api.{RuntimeSpec, PortSpec, GatewaySpec, Quantities}
use mcp_operator.ResourceBuilder.{Source}
use mcp_operator.ResourceBuilder.Container.{
  ContainerPort, Probe, Container, is_stdio_transport, protocol_of, container_port_of, tcp,
  of_runtime, of_specs, collect_container_ports, liveness_on, readiness_on, gateway_port,
  gateway_args, binary_port, probe_first, build_binary_container, gateway_with,
  build_gateway_container, plain_container, by_runtime, by_gateway, build_container,
}
use mcp_operator.ResourceBuilder.Selected.{map_found}
use mcp_operator.Server.Deployed.{is_gateway_on}

abbrev pub is_tcp_at : (port : ℤ) → ContainerPort → Bool
is_tcp_at port p = eqb_ℤ p.container_port port && p.protocol == "TCP"

-- The probe is on a TCP port of the container, or there are no ports and no probe.
abbrev pub probes : List ContainerPort → Option Probe → Bool
probes ports none = eqb (length ports) 0
probes ports (some p) = any (is_tcp_at p.port) ports

abbrev pub is_tcp_spec : PortSpec → Bool
is_tcp_spec p = not (p.protocol == "UDP")

abbrev pub is_probed : {Q : Type 0} → Container Q → Bool
is_probed c = probes c.ports c.liveness_probe && probes c.ports c.readiness_probe

probes-first :
    (on : ℤ → Probe)
    → ((port : ℤ) → (on port).port ≡ port)
    → (p : ContainerPort) (ps : List ContainerPort) → p.protocol ≡ "TCP"
    → probes (p ∷ ps) (some (on p.container_port)) ≡ true
probes-first on port p ps h = rw (port p.container_port, h) (ground (arith))

module _ (on : ℤ → Probe) (port : (n : ℤ) → (on n).port ≡ n) where
  probes-of_runtime :
      (r : Option RuntimeSpec) → probes (of_runtime r) (probe_first on (of_runtime r)) ≡ true
  probes-of_runtime none = probes-first on port (tcp "mcp" (pos 8080)) [] refl
  probes-of_runtime (some r) = elim (Bool-cases (ltb_ℤ (pos 0) r.port)) [
    | inl given ↦ rw given (probes-first on port (tcp "mcp" r.port) [] refl)
    | inr missing ↦ rw missing (probes-first on port (tcp "mcp" (pos 8080)) [] refl)
  ]

  probes-of_specs :
      (ps : List PortSpec) (r : Option RuntimeSpec)
      → all is_tcp_spec ps ≡ true
      → probes (of_specs ps r) (probe_first on (of_specs ps r)) ≡ true
  probes-of_specs [] r h = probes-of_runtime r
  probes-of_specs (p ∷ ps) r h =
      let tcp_first : protocol_of p.protocol ≡ "TCP" = ground (arith, h) in
      probes-first on port (container_port_of p) (map container_port_of ps) tcp_first

  probes-collect_container_ports :
      {Q IntOrString : Type 0} (b : Source Q IntOrString)
      → all is_tcp_spec b.server.spec.ports ≡ true
      → probes (collect_container_ports b) (probe_first on (collect_container_ports b)) ≡ true
  unfolding collect_container_ports
  probes-collect_container_ports b h =
      elim (Bool-cases
        (is_stdio_transport b.server.spec.transport && not (is_gateway_on b.gateway))) [
          | inl closed ↦ rw closed refl
          | inr others ↦ rw others (probes-of_specs b.server.spec.ports b.server.spec.runtime h)
        ]

module _ {Q IntOrString : Type 0} (lib : Quantities Q) (show : ℤ → String)
    (b : Source Q IntOrString) (g : GatewaySpec) where
  pub by_gateway-on :
      (g.enabled && is_stdio_transport b.server.spec.transport) ≡ true
      → by_gateway lib show b (some g) ≡ build_gateway_container lib show b g
  by_gateway-on on = rw on refl

  pub by_gateway-off :
      (g.enabled && is_stdio_transport b.server.spec.transport) ≡ false
      → by_gateway lib show b (some g) ≡ by_runtime lib show b b.server.spec.runtime
  by_gateway-off off = rw off refl

module _ {Q IntOrString : Type 0} (lib : Quantities Q) (show : ℤ → String)
    (b : Source Q IntOrString) (tcp_only : all is_tcp_spec b.server.spec.ports ≡ true) where
  one_port :
      (name : String) (n : ℤ)
      → (probes (tcp name n ∷ []) (some (liveness_on n))
          && probes (tcp name n ∷ []) (some (readiness_on n)))
        ≡ true
  one_port name n = rw (probes-first liveness_on (λ n. refl) (tcp name n) [] refl) refl

  is_probed-by_runtime :
      (r : Option RuntimeSpec) (c : Container Q)
      → by_runtime lib show b r ≡ some c
      → is_probed c ≡ true
  unfolding by_runtime build_binary_container plain_container
  is_probed-by_runtime none c h = cc
  is_probed-by_runtime (some r) c h =
      subst (λ c. is_probed c ≡ true) (Option.some-injective _ c h)
        (elim (Bool-cases (r.kind == "binary")) [
          | inl binary ↦ rw binary (one_port "mcp" (binary_port r))
          | inr plain ↦
              rw
                (
                  plain,
                  probes-collect_container_ports liveness_on (λ n. refl) b tcp_only,
                  probes-collect_container_ports readiness_on (λ n. refl) b tcp_only,
                )
                refl
        ])

  is_probed-by_gateway :
      (g : Option GatewaySpec) (c : Container Q)
      → by_gateway lib show b g ≡ some c
      → is_probed c ≡ true
  unfolding build_gateway_container
  is_probed-by_gateway none c h = is_probed-by_runtime b.server.spec.runtime c h
  is_probed-by_gateway (some g) c h =
      elim (Bool-cases (g.enabled && is_stdio_transport b.server.spec.transport)) [
        | inl gateway ↦
            let built : build_gateway_container lib show b g ≡ some c =
              sym (by_gateway-on lib show b g gateway) ∙ h in
            let (args, there, whole) =
              map_found (gateway_with lib show b g) (gateway_args b.server.spec.runtime g.args) c
                built in
            subst (λ c. is_probed c ≡ true) whole (one_port "gateway" (gateway_port g))
        | inr other ↦
            is_probed-by_runtime b.server.spec.runtime c
              (sym (by_gateway-off lib show b g other) ∙ h)
      ]

  -- Where the ports that are given are all TCP, the container that is built, plain, of a binary or
  -- of the gateway, has its two probes on a TCP port that it declares, or it has no ports and no
  -- probes.
  pub is_probed-build_container :
      (c : Container Q) → build_container lib show b ≡ some c → is_probed c ≡ true
  unfolding build_container
  is_probed-build_container c h = is_probed-by_gateway b.gateway c h

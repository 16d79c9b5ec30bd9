-- ===== src/RegistryService/Idempotent.antt =====
-- pkg/services/registry_service.go: a server that is enriched twice from the same template.
use mcp_operator.Prelude.{
  String, ◌==◌, eq_iff, ◌≡◌, refl, inl, inr, true, false, ◌&&◌, not, Option, none, some, List, [],
  ◌∷◌, arith, if◌then◌else◌, Bool-cases, is_some, Dict, lookup, insert, lookup-insert,
}
use mcp_operator.Api.{RuntimeSpec, TransportSpec, PortSpec, McpServerSpec}
use mcp_operator.AutoUpdate.Template.{Template}
use mcp_operator.RegistryService.{
  CachedSpec, fill, fill_list, fill_env, or_empty, is_docker, enrich_runtime, merge_transport,
  detected, detect_transport, enrich_spec,
}

fill_twice : (old new : String) → fill (fill old new) new ≡ fill old new
fill_twice old new = ground arith

fill_list_twice :
    {A : Type 0} (old new : List A) → fill_list (fill_list old new) new ≡ fill_list old new
fill_list_twice [] [] = refl
fill_list_twice [] (y ∷ ys) = refl
fill_list_twice (x ∷ xs) new = refl

-- All keys of the template are there.
abbrev HasKeys : Dict String → Dict String → Type 0
HasKeys [] env = Unit {0}
HasKeys ((k, v) ∷ rest) env = (is_some (lookup k env) ≡ true) × HasKeys rest env

fill_env-keeps :
    (k : String) (template env : Dict String)
    → is_some (lookup k env) ≡ true
    → is_some (lookup k (fill_env template env)) ≡ true
unfolding fill_env
fill_env-keeps k [] env h = h
fill_env-keeps k ((j, v) ∷ rest) env h = elim (Bool-cases (is_some (lookup j env))) [
  | inl there ↦ rw there (fill_env-keeps k rest env h)
  | inr new ↦
      rw new (fill_env-keeps k rest (insert j v env) (ground (arith, lookup-insert j k v env)))
]

fill_env-HasKeys : (template env : Dict String) → HasKeys template (fill_env template env)
unfolding fill_env
fill_env-HasKeys [] env = tt
fill_env-HasKeys ((j, v) ∷ rest) env = (
  elim (Bool-cases (is_some (lookup j env))) [
    | inl there ↦ rw there (fill_env-keeps j rest env there)
    | inr new ↦ rw new (
        fill_env-keeps j rest (insert j v env)
          (ground (arith, lookup-insert j j v env, eq_iff j j)))
  ],
  fill_env-HasKeys rest (if is_some (lookup j env) then env else insert j v env),
)

fill_env-full : (template env : Dict String) → HasKeys template env → fill_env template env ≡ env
unfolding fill_env
fill_env-full [] env h = refl
fill_env-full ((j, v) ∷ rest) env h = rw h.0 (fill_env-full rest env h.1)

fill_env_twice :
    (template env : Dict String) → fill_env template (fill_env template env) ≡ fill_env template env
fill_env_twice template env =
    fill_env-full template (fill_env template env) (fill_env-HasKeys template env)

image_twice :
    (t : Template) (kind image : String)
    → (let once = if is_docker kind && image == "" && not (t.image == "") then t.image else image in
        (if is_docker kind && once == "" && not (t.image == "") then t.image else once) ≡ once)
image_twice t kind image = ground arith

enrich_runtime_twice :
    (t : Template) (r : RuntimeSpec) → enrich_runtime t (enrich_runtime t r) ≡ enrich_runtime t r
unfolding enrich_runtime
enrich_runtime_twice t r =
    rw
      (
        fill_twice r.kind t.kind,
        image_twice t (fill r.kind t.kind) r.image,
        fill_list_twice r.command t.command,
        fill_list_twice r.args t.args,
        fill_env_twice t.env r.env,
      )
      refl

detected_given : (ports : List PortSpec) → (detected ports == "") ≡ false
detected_given [] = refl
detected_given (p ∷ ps) = refl

transport_twice :
    (c : CachedSpec) (given template : Option TransportSpec)
    → c.transport ≡ template
    → detect_transport c
        (merge_transport (some (detect_transport c (merge_transport given template))) template)
      ≡ detect_transport c (merge_transport given template)
unfolding detect_transport
transport_twice c none none e = ground (arith, detected_given c.ports)
transport_twice c none (some t) e = ground (arith, e, detected_given c.ports)
transport_twice c (some g) none e = ground (arith, e, detected_given c.ports)
transport_twice c (some g) (some t) e = ground (arith, e, detected_given c.ports)

-- A server that is enriched twice from the same template has the runtime, the transport, the ports
-- and all else of its specification as after the first time.
pub enrich_spec_twice :
    {Q : Type 0} (c : CachedSpec) (s : McpServerSpec Q)
    → enrich_spec c (enrich_spec c s) ≡ enrich_spec c s
unfolding enrich_spec
enrich_spec_twice c s =
    rw
      (
        enrich_runtime_twice c.template (or_empty s.runtime),
        transport_twice c s.transport c.transport refl,
        fill_list_twice s.ports c.ports,
      )
      refl

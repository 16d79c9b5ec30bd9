-- ===== src/Webhook/Rules.antt =====
-- pkg/webhook/mcpserver_webhook.go: the validating webhook against a list of rules.
use mathlib.Core.List.{reverse, reverse-append, reverse-reverse}
use mcp_operator.Prelude.{
  ℕ, ◌≤◌, String, ◌==◌, eq_iff, ◌≡◌, refl, sym, ap, ◌∙◌, subst, ◌≢◌, ◌↔◌, ◌⊎◌, inl, inr, Bool, true,
  false, ◌||◌, not, Option, none, some, List, [], ◌∷◌, ◌++◌, arith, ltb, eqb, if◌then◌else◌, eqb→eq,
  Bool-cases, ℤ, pos, ◌≤ℤ◌, ◌<ℤ◌, ltb_ℤ, runes, utf8, bytes, is_prefix_of, has_suffix, Dict, lookup,
}
use mcp_operator.Api.{
  RegistryRef, RuntimeSpec, SecurityContext, TenantResourceQuotas, TenancySpec, McpServer,
  Quantities,
}
use mcp_operator.Webhook.{
  text, FieldError, required, invalid, byte_len, when, validate_registry_info, registry_specified,
  is_trusted, validate_image_security, validate_replicas, is_root, validate_security_context,
  validate_count, validate_quotas, validate_tenant_configuration, exceeds, validate_resource_limits,
  validate_mcp_server,
}

-- A registry is named, and the names fit 253 bytes.
unfoldable pub RegistryRule : Option RegistryRef → Type 0
RegistryRule none = ⊥
RegistryRule (some r) = (r.name ≢ "") × (byte_len r.name ≤ 253) × (byte_len r.server_name ≤ 253)

abbrev pub StartsWith : (prefix : String) → String → Type 0
StartsWith prefix s = (rest : List ℕ) × (runes s ≡ runes prefix ++ rest)

abbrev pub EndsWith : (suffix : String) → String → Type 0
EndsWith suffix s = (front : List ℕ) × (runes s ≡ front ++ runes suffix)

-- The image begins with the name of one of the five registries.
abbrev pub IsTrusted : String → Type 0
IsTrusted image =
    StartsWith "docker.io" image
    ⊎ StartsWith "ghcr.io" image
    ⊎ StartsWith "quay.io" image
    ⊎ StartsWith "gcr.io" image
    ⊎ StartsWith "registry.k8s.io" image

abbrev pub IsNamed : Option RegistryRef → Type 0
IsNamed none = ⊥
IsNamed (some r) = r.name ≢ ""

-- An image of the docker runtime comes from a trusted registry without the tag latest, or is left
-- to the registry.
unfoldable pub ImageRule : Option RegistryRef → Option RuntimeSpec → Type 0
ImageRule registry none = Unit
ImageRule registry (some r) =
    (r.kind ≢ "docker")
    ⊎ ((r.image ≡ "") × IsNamed registry)
    ⊎ ((r.image ≢ "") × (IsTrusted r.image × (¬ EndsWith ":latest" r.image)))

unfoldable pub ReplicasRule : Option ℤ → Type 0
ReplicasRule none = Unit
ReplicasRule (some n) = (pos 0 ≤ℤ n) × (n ≤ℤ pos 10)

-- Neither root nor leave to run as root.
unfoldable pub SecurityRule : Option SecurityContext → Type 0
SecurityRule none = Unit
SecurityRule (some c) = (c.run_as_user ≢ some (pos 0)) × (c.run_as_non_root ≢ some false)

unfoldable pub CountRule : Option ℤ → Type 0
CountRule none = Unit
CountRule (some n) = pos 0 <ℤ n

module _ {Q : Type 0} where
  unfoldable pub QuotasRule : Option (TenantResourceQuotas Q) → Type 0
  unfolding CountRule
  QuotasRule none = Unit
  QuotasRule (some q) = CountRule q.pods × CountRule q.services

  unfoldable pub TenantRule : Option (TenancySpec Q) → Type 0
  unfolding QuotasRule
  TenantRule none = Unit
  TenantRule (some t) =
      (t.tenant_id ≢ "") × (byte_len t.tenant_id ≤ 63) × QuotasRule t.resource_quotas

when_nil : (b : Bool) (e : FieldError) → when b e ≡ [] ↔ b ≡ false
when_nil b e = ground arith

append_nil : (xs ys : List FieldError) → xs ++ ys ≡ [] ↔ (xs ≡ []) × (ys ≡ [])
append_nil [] ys = ground arith
append_nil (x ∷ xs) ys = ground arith

both :
    {A B : Type 0} (xs ys : List FieldError)
    → (xs ≡ [] ↔ A)
    → (ys ≡ [] ↔ B)
    → (xs ++ ys ≡ [] ↔ A × B)
both xs ys f g = (
  λ h. let parts = (append_nil xs ys).0 h in (f.0 parts.0, g.0 parts.1),
  λ h. (append_nil xs ys).1 (f.1 h.0, g.1 h.1),
)

len_empty : (s : String) → s ≡ "" → byte_len s ≤ 253
unfolding bytes utf8
len_empty s h = subst (λ x. byte_len x ≤ 253) (sym h) (omega arith)

pub registry_rule : (r : Option RegistryRef) → validate_registry_info r ≡ [] ↔ RegistryRule r
unfolding validate_registry_info RegistryRule
registry_rule none = ground arith
registry_rule (some r) =
    ground (arith, eq_iff r.name "", eq_iff r.server_name "", len_empty r.server_name)

image_choice :
    (docker empty specified trusted latest : Bool) (x y z : FieldError)
    → (if not docker
          then []
          else if empty
          then when (not specified) x
          else when (not trusted) y ++ when latest z)
        ≡ []
      ↔ (docker ≡ false)
        ⊎ ((empty ≡ true) × (specified ≡ true))
        ⊎ ((empty ≡ false) × ((trusted ≡ true) × (latest ≡ false)))
image_choice docker empty specified trusted latest x y z = ground arith

image_words :
    {A B C : Type 0} (kind image : String) (specified trusted latest : Bool)
    → (specified ≡ true ↔ A)
    → (trusted ≡ true ↔ B)
    → (latest ≡ false ↔ C)
    → (((kind == "docker") ≡ false)
          ⊎ (((image == "") ≡ true) × (specified ≡ true))
          ⊎ (((image == "") ≡ false) × ((trusted ≡ true) × (latest ≡ false)))
        ↔ (kind ≢ "docker") ⊎ ((image ≡ "") × A) ⊎ ((image ≢ "") × (B × C)))
image_words kind image specified trusted latest f g h =
    ground (arith, eq_iff kind "docker", eq_iff image "", f, g, h)

prefix_step :
    (x y : ℕ) (xs ys : List ℕ)
    → (is_prefix_of xs ys ≡ true ↔ (rest : List ℕ) × (ys ≡ xs ++ rest))
    → (is_prefix_of (x ∷ xs) (y ∷ ys) ≡ true ↔ (rest : List ℕ) × (y ∷ ys ≡ (x ∷ xs) ++ rest))
prefix_step x y xs ys ih = elim (Bool-cases (eqb x y)) [
  | inl same ↦
      let e = eqb→eq x y same in
      (
        λ h. let found = ih.0 (ground (arith, h)) in (found.0, cc),
        λ h. ground (arith, ih.1 (h.0, cc)),
      )
  | inr other ↦ (λ h. absurd (ground arith), λ h. absurd (ground (arith, h.1)))
]

prefix_iff : (xs ys : List ℕ) → is_prefix_of xs ys ≡ true ↔ (rest : List ℕ) × (ys ≡ xs ++ rest)
prefix_iff [] ys = (λ h. (ys, refl), λ h. refl)
prefix_iff (x ∷ xs) [] = (λ h. cc, λ h. absurd (ground (arith, h.1)))
prefix_iff (x ∷ xs) (y ∷ ys) = prefix_step x y xs ys (prefix_iff xs ys)

or_iff : {A B : Type 0} (a b : Bool) → (a ≡ true ↔ A) → (b ≡ true ↔ B) → ((a || b) ≡ true ↔ A ⊎ B)
or_iff a b f g = ground (arith, f, g)

or_last : {A : Type 0} (a : Bool) → (a ≡ true ↔ A) → ((a || false) ≡ true ↔ A)
or_last a f = ground (arith, f)

registry_iff : (image : String) → is_trusted image ≡ true ↔ IsTrusted image
unfolding is_trusted
registry_iff image = or_iff _ _ (prefix_iff (runes "docker.io") (runes image)) (
    or_iff _ _ (prefix_iff (runes "ghcr.io") (runes image)) (
      or_iff _ _ (prefix_iff (runes "quay.io") (runes image)) (
        or_iff _ _ (prefix_iff (runes "gcr.io") (runes image))
          (or_last _ (prefix_iff (runes "registry.k8s.io") (runes image))))))

turn_back : (xs ys rest : List ℕ) → reverse ys ≡ reverse xs ++ rest → ys ≡ reverse rest ++ xs
turn_back xs ys rest h =
    sym (reverse-reverse ys)
    ∙ ap reverse h
    ∙ reverse-append (reverse xs) rest
    ∙ ap (λ zs. reverse rest ++ zs) (reverse-reverse xs)

suffix_iff : (suffix s : String) → has_suffix s suffix ≡ true ↔ EndsWith suffix s
unfolding has_suffix
suffix_iff suffix s =
    let parts = prefix_iff (reverse (runes suffix)) (reverse (runes s)) in
    (
      λ h.
          let found = parts.0 h in
          (reverse found.0, turn_back (runes suffix) (runes s) found.0 found.1),
      λ h. parts.1 (reverse h.0, ap reverse h.1 ∙ reverse-append h.0 (runes suffix)),
    )

no_suffix : (suffix s : String) → has_suffix s suffix ≡ false ↔ ¬ EndsWith suffix s
no_suffix suffix s = ground (arith, suffix_iff suffix s)

reference_iff : (r : Option RegistryRef) → registry_specified r ≡ true ↔ IsNamed r
reference_iff none = ground arith
reference_iff (some r) = ground (arith, eq_iff r.name "")

image_rule :
    (registry : Option RegistryRef) (r : Option RuntimeSpec)
    → validate_image_security registry r ≡ [] ↔ ImageRule registry r
unfolding validate_image_security ImageRule
image_rule registry none = ground arith
image_rule registry (some r) =
    let choice =
      image_choice (r.kind == "docker") (r.image == "") (registry_specified registry)
        (is_trusted r.image) (has_suffix r.image ":latest") _ _ _ in
    let words =
      image_words r.kind r.image (registry_specified registry) (is_trusted r.image)
        (has_suffix r.image ":latest") (reference_iff registry) (registry_iff r.image)
        (no_suffix ":latest" r.image) in
    (λ h. words.0 (choice.0 h), λ h. choice.1 (words.1 h))

replicas_rule : (n : Option ℤ) → validate_replicas n ≡ [] ↔ ReplicasRule n
unfolding validate_replicas ReplicasRule
replicas_rule none = ground arith
replicas_rule (some n) = ground arith

not_root : (user : Option ℤ) → is_root user ≡ false ↔ user ≢ some (pos 0)
not_root none = ground arith
not_root (some user) = ground arith

security_rule : (c : Option SecurityContext) → validate_security_context c ≡ [] ↔ SecurityRule c
unfolding validate_security_context SecurityRule
security_rule none = ground arith
security_rule (some c) = ground (arith, not_root c.run_as_user)

count_rule : (path detail : String) (n : Option ℤ) → validate_count path detail n ≡ [] ↔ CountRule n
unfolding validate_count CountRule
count_rule path detail none = ground arith
count_rule path detail (some n) = ground arith

module _ {Q : Type 0} where
  quotas_rule : (q : Option (TenantResourceQuotas Q)) → validate_quotas q ≡ [] ↔ QuotasRule q
  unfolding validate_quotas QuotasRule
  quotas_rule none = ground arith
  quotas_rule (some q) = both _ _ (count_rule _ _ q.pods) (count_rule _ _ q.services)

  tenant_rule : (t : Option (TenancySpec Q)) → validate_tenant_configuration t ≡ [] ↔ TenantRule t
  unfolding validate_tenant_configuration TenantRule
  tenant_rule none = ground arith
  tenant_rule (some t) = ground (
    arith,
    eq_iff t.tenant_id "",
    quotas_rule t.resource_quotas,
    append_nil
        (if t.tenant_id == ""
          then required "spec.tenancy.tenantId" "tenant ID is required when tenancy is configured"
            ∷ []
          else when (ltb 63 (byte_len t.tenant_id)) (
              invalid "spec.tenancy.tenantId" (text t.tenant_id)
                "tenant ID cannot exceed 63 characters"))
        (validate_quotas t.resource_quotas),
  )

module _ {Q : Type 0} (lib : Quantities Q) (max_cpu max_memory : Q) where
  -- A limit that is given and parses compares as at most the maximum.
  abbrev pub IsAtMost : (maximum : Q) → Option String → Type 0
  IsAtMost maximum given =
      (text : String) (q : Q)
      → given ≡ some text
      → lib.parse text ≡ inr q
      → lib.cmp q maximum ≤ℤ pos 0

  unfoldable pub LimitsRule : Option (Dict String) → Type 0
  LimitsRule none = ⊥
  LimitsRule (some limits) =
      IsAtMost max_cpu (lookup "cpu" limits) × IsAtMost max_memory (lookup "memory" limits)

  parsed_below :
      (maximum : Q) (found : String ⊎ Q)
      → elim found as (λ _. Bool) [ inl err ↦ false | inr q ↦ ltb_ℤ (pos 0) (lib.cmp q maximum) ]
          ≡ false
        ↔ ((q : Q) → found ≡ inr q → lib.cmp q maximum ≤ℤ pos 0)
  parsed_below maximum (inl err) = (λ h q e. cc, λ h. refl)
  parsed_below maximum (inr q) = (λ h a e. ground arith, λ h. ground (arith, h q refl))

  at_most :
      (maximum : Q) (given : Option String)
      → exceeds lib max_cpu max_memory maximum given ≡ false ↔ IsAtMost maximum given
  at_most maximum none = (λ h text q e f. cc, λ h. refl)
  at_most maximum (some given) =
      let below = parsed_below maximum (lib.parse given) in
      (λ h text q e f. below.0 h q (ground arith), λ h. below.1 (λ q e. h given q refl e))

  limit_rule :
      (maximum : Q) (given : Option String) (e : FieldError)
      → when (exceeds lib max_cpu max_memory maximum given) e ≡ [] ↔ IsAtMost maximum given
  limit_rule maximum given e =
      let step = when_nil (exceeds lib max_cpu max_memory maximum given) e in
      let below = at_most maximum given in (λ h. below.0 (step.0 h), λ h. step.1 (below.1 h))

  limits_rule :
      (limits : Option (Dict String))
      → validate_resource_limits lib max_cpu max_memory limits ≡ [] ↔ LimitsRule limits
  unfolding validate_resource_limits LimitsRule
  limits_rule none = ground arith
  limits_rule (some limits) =
      both _ _ (limit_rule max_cpu (lookup "cpu" limits) _)
        (limit_rule max_memory (lookup "memory" limits) _)

  unfoldable pub Acceptable : McpServer Q → Type 0
  unfolding RegistryRule ImageRule LimitsRule ReplicasRule SecurityRule TenantRule
  Acceptable s =
      RegistryRule s.spec.registry
      × (ImageRule s.spec.registry s.spec.runtime
          × (LimitsRule s.spec.resources.limits
              × (ReplicasRule s.spec.replicas
                  × (SecurityRule s.spec.security_context × TenantRule s.spec.tenancy))))

  -- The webhook finds no error exactly on the acceptable servers: a registry with a name, the name
  -- and the server name of at most 253 bytes; for a docker runtime, an image that begins with
  -- docker.io, ghcr.io, quay.io, gcr.io or registry.k8s.io and does not end in :latest, or no
  -- image; limits that are given, those for cpu and memory comparing as at most the maximum where
  -- they are given and parse; replicas, if given, from 0 to 10; in a security context, a user that
  -- is not 0 and runAsNonRoot not false; and a tenant, if given, with an id that is not empty, of
  -- at most 63 bytes, and with quotas of pods and services that are positive where they are given.
  pub validate_mcp_server_iff :
      (s : McpServer Q) → validate_mcp_server lib max_cpu max_memory s ≡ [] ↔ Acceptable s
  unfolding validate_mcp_server Acceptable
  validate_mcp_server_iff s = both _ _ (registry_rule s.spec.registry) (
      both _ _ (image_rule s.spec.registry s.spec.runtime) (
        both _ _ (limits_rule s.spec.resources.limits) (
          both _ _ (replicas_rule s.spec.replicas)
            (both _ _ (security_rule s.spec.security_context) (tenant_rule s.spec.tenancy)))))

-- ===== src/Validation/Rules.antt =====
-- pkg/services/validation_service.go: the parts of a server's validation against a list of rules.
use mcp_operator.Prelude.{
  ◌≤◌, String, ◌==◌, eq_iff, ◌≡◌, refl, sym, subst, ◌≢◌, ◌↔◌, ◌⊎◌, inl, inr, Bool, true, false,
  ◌&&◌, ◌||◌, not, Option, none, some, [], ◌∷◌, arith, Bool-cases, ℤ, pos, ◌≤ℤ◌, ◌<ℤ◌, ltb_ℤ, utf8,
  bytes, contains,
}
use mcp_operator.Api.{
  RegistryRef, RuntimeSpec, TransportSpec, HpaSpec, AutoscalingSpec, TenantResourceQuotas,
  TenancySpec, Quantities,
}
use mcp_operator.Webhook.{byte_len}
use mcp_operator.Validation.{
  fail_if, ◌>>>◌, wrapped, validate_registry_ref, runtime_types, is_stdio, validate_runtime_spec,
  below_one, above, validate_hpa, validate_vpa, validate_autoscaling_spec, validate_isolation_level,
  not_positive, negative, validate_autoscaling, quantity_not_positive,
  validate_tenant_resource_quotas, validate_given_quotas, validate_tenancy_spec, validate_tenancy,
}

-- One of the two names is given, and all names fit 253 bytes.
unfoldable pub RefRule : Option RegistryRef → Type 0
RefRule none = ⊥
RefRule (some r) =
    ((r.name ≢ "") ⊎ (r.registry ≢ ""))
    × (byte_len r.name ≤ 253)
    × (byte_len r.registry ≤ 253)
    × (byte_len r.server_name ≤ 253)

abbrev pub IsOneOf : (a b c d : String) → String → Type 0
IsOneOf a b c d s = (s ≡ a) ⊎ (s ≡ b) ⊎ (s ≡ c) ⊎ (s ≡ d)

abbrev pub IsStdio : Option TransportSpec → Type 0
IsStdio none = ⊥
IsStdio (some t) = t.kind ≡ "stdio"

-- A known type, an image for docker, and a port in range unless the transport is stdio.
unfoldable pub RuntimeRule : Option RuntimeSpec → Option TransportSpec → Type 0
RuntimeRule none transport = ⊥
RuntimeRule (some r) transport =
    IsOneOf "docker" "node" "python" "binary" r.kind
    × (((r.kind ≢ "docker") ⊎ (r.image ≢ ""))
        × (IsStdio transport ⊎ ((pos 0 ≤ℤ r.port) × (r.port ≤ℤ pos 65535))))

-- 1 ≤ minimum ≤ maximum.
unfoldable pub HpaRule : Option HpaSpec → Type 0
HpaRule none = Unit
HpaRule (some hpa) = elim hpa.min_replicas [
  | none ↦ pos 1 ≤ℤ hpa.max_replicas
  | some n ↦ (pos 1 ≤ℤ n) × (n ≤ℤ hpa.max_replicas)
]

unfoldable pub VpaRule : Option String → Type 0
VpaRule none = Unit
VpaRule (some mode) = IsOneOf "Off" "Initial" "Recreate" "Auto" mode

unfoldable pub AutoscalingRule : Option AutoscalingSpec → Type 0
unfolding HpaRule VpaRule
AutoscalingRule none = Unit
AutoscalingRule (some a) = HpaRule a.hpa × VpaRule a.vpa_mode

unfoldable pub NotNegative : Option ℤ → Type 0
NotNegative none = Unit
NotNegative (some n) = pos 0 ≤ℤ n

unfoldable pub Positive : Option ℤ → Type 0
Positive none = Unit
Positive (some n) = pos 0 <ℤ n

pub fail_none : (b : Bool) (m : String) → fail_if b m ≡ none ↔ b ≡ false
fail_none b m = ground arith

pub then_none :
    {A B : Type 0} (x y : Option String)
    → (x ≡ none ↔ A)
    → (y ≡ none ↔ B)
    → (x >>> y ≡ none ↔ A × B)
then_none none y f g = (λ h. (f.0 refl, g.0 h), λ h. g.1 h.1)
then_none (some m) y f g = (λ h. absurd (ground arith), λ h. absurd (ground (arith, f.1 h.0)))

pub wrapped-none :
    {A : Type 0} (p : String) (x : Option String) → (x ≡ none ↔ A) → (wrapped p x ≡ none ↔ A)
wrapped-none p none f = f
wrapped-none p (some m) f = (λ h. absurd (ground arith), λ h. absurd (ground (arith, f.1 h)))

fits_empty : (s : String) → s ≡ "" → byte_len s ≤ 253
unfolding bytes utf8
fits_empty s h = subst (λ x. byte_len x ≤ 253) (sym h) (omega arith)

pub ref_rule : (r : Option RegistryRef) → validate_registry_ref r ≡ none ↔ RefRule r
unfolding validate_registry_ref RefRule
ref_rule none = ground arith
ref_rule (some r) = ground (
  arith,
  eq_iff r.name "",
  eq_iff r.registry "",
  eq_iff r.server_name "",
  fits_empty r.name,
  fits_empty r.registry,
  fits_empty r.server_name,
)

pub fail_not : (b : Bool) (m : String) → fail_if (not b) m ≡ none ↔ b ≡ true
fail_not b m = ground arith

is_one_of : (a b c d s : String) → contains (a ∷ b ∷ c ∷ d ∷ []) s ≡ true ↔ IsOneOf a b c d s
is_one_of a b c d s = ground (arith, eq_iff a s, eq_iff b s, eq_iff c s, eq_iff d s)

fail_other :
    (a b c d s m : String)
    → fail_if (not (contains (a ∷ b ∷ c ∷ d ∷ []) s)) m ≡ none ↔ IsOneOf a b c d s
fail_other a b c d s m =
    let other = fail_not (contains (a ∷ b ∷ c ∷ d ∷ []) s) m in
    let one = is_one_of a b c d s in (λ h. one.0 (other.0 h), λ h. other.1 (one.1 h))

not_empty : (kind : String) → contains runtime_types kind ≡ true → kind == "" ≡ false
not_empty kind h = elim (Bool-cases (kind == "")) [
  | inr different ↦ different
  | inl same ↦
      absurd
        (ground (arith, subst (λ k. contains runtime_types k ≡ true) ((eq_iff kind "").0 same) h))
]

kind_then :
    {A : Type 0} (kind m n : String) (rest : Option String)
    → (rest ≡ none ↔ A)
    → (fail_if (kind == "") m >>> fail_if (not (contains runtime_types kind)) n >>> rest ≡ none
        ↔ IsOneOf "docker" "node" "python" "binary" kind × A)
kind_then kind m n rest f =
    let parts =
      then_none _ _ (fail_none (kind == "") m)
        (then_none _ _ (fail_other "docker" "node" "python" "binary" kind n) f) in
    let one = is_one_of "docker" "node" "python" "binary" kind in
    (λ h. (parts.0 h).1, λ h. parts.1 (not_empty kind (one.1 h.0), h))

docker_rule :
    (kind image m : String)
    → fail_if (kind == "docker" && image == "") m ≡ none ↔ (kind ≢ "docker") ⊎ (image ≢ "")
docker_rule kind image m = ground (arith, eq_iff kind "docker", eq_iff image "")

port_rule :
    (t : Option TransportSpec) (port : ℤ) (m : String)
    → fail_if (not (is_stdio t) && (ltb_ℤ port (pos 0) || ltb_ℤ (pos 65535) port)) m ≡ none
      ↔ IsStdio t ⊎ ((pos 0 ≤ℤ port) × (port ≤ℤ pos 65535))
port_rule none port m = ground arith
port_rule (some t) port m = ground (arith, eq_iff t.kind "stdio")

pub runtime_rule :
    (r : Option RuntimeSpec) (t : Option TransportSpec)
    → validate_runtime_spec r t ≡ none ↔ RuntimeRule r t
unfolding validate_runtime_spec RuntimeRule
runtime_rule none t = ground arith
runtime_rule (some r) t =
    kind_then r.kind _ _ _ (then_none _ _ (docker_rule r.kind r.image _) (port_rule t r.port _))

hpa_bounds :
    (n : Option ℤ) (m : ℤ) (a b c : String)
    → fail_if (below_one n) a >>> fail_if (ltb_ℤ m (pos 1)) b >>> fail_if (above n m) c ≡ none
      ↔ elim n [ none ↦ pos 1 ≤ℤ m | some k ↦ (pos 1 ≤ℤ k) × (k ≤ℤ m) ]
hpa_bounds none m a b c = ground arith
hpa_bounds (some k) m a b c = ground arith

hpa_rule : (h : Option HpaSpec) → validate_hpa h ≡ none ↔ HpaRule h
unfolding validate_hpa HpaRule
hpa_rule none = ground arith
hpa_rule (some h) = hpa_bounds h.min_replicas h.max_replicas _ _ _

vpa_rule : (m : Option String) → validate_vpa m ≡ none ↔ VpaRule m
unfolding validate_vpa VpaRule
vpa_rule none = ground arith
vpa_rule (some m) = fail_other "Off" "Initial" "Recreate" "Auto" m _

pub autoscaling_rule :
    (a : Option AutoscalingSpec) → validate_autoscaling a ≡ none ↔ AutoscalingRule a
unfolding AutoscalingRule validate_autoscaling validate_autoscaling_spec
autoscaling_rule none = (λ h. tt, λ h. refl)
autoscaling_rule (some a) = then_none _ _ (hpa_rule a.hpa) (vpa_rule a.vpa_mode)

pub isolation_rule :
    (l : String) → validate_isolation_level l ≡ none ↔ IsOneOf "None" "Namespace" "Node" "Strict" l
unfolding validate_isolation_level
isolation_rule l = fail_other "None" "Namespace" "Node" "Strict" l _

pub negative_rule : (n : Option ℤ) (m : String) → fail_if (negative n) m ≡ none ↔ NotNegative n
unfolding NotNegative
negative_rule none m = ground arith
negative_rule (some n) m = ground arith

pub count_above_zero : (n : Option ℤ) (m : String) → fail_if (not_positive n) m ≡ none ↔ Positive n
unfolding Positive
count_above_zero none m = ground arith
count_above_zero (some n) m = ground arith

module _ {Q : Type 0} (lib : Quantities Q) where
  -- A quantity that is given is neither zero nor of a negative sign.
  abbrev pub PositiveQuantity : Option Q → Type 0
  PositiveQuantity none = Unit
  PositiveQuantity (some q) = (lib.is_zero q ≡ false) × (pos 0 ≤ℤ lib.sign q)

  quantity_above_zero :
      (q : Option Q) (m : String)
      → fail_if (quantity_not_positive lib q) m ≡ none ↔ PositiveQuantity q
  quantity_above_zero none m = ground arith
  quantity_above_zero (some q) m = ground arith

  -- Every quota that is given is positive.
  unfoldable pub QuotasPositive : TenantResourceQuotas Q → Type 0
  unfolding Positive
  QuotasPositive q =
      PositiveQuantity q.cpu
      × (PositiveQuantity q.memory
          × (PositiveQuantity q.storage
              × (Positive q.pods
                  × (Positive q.services
                      × (Positive q.persistent_volume_claims
                          × (Positive q.config_maps × Positive q.secrets))))))

  unfoldable pub GivenQuotasRule : Option (TenantResourceQuotas Q) → Type 0
  unfolding QuotasPositive
  GivenQuotasRule none = Unit
  GivenQuotasRule (some q) = QuotasPositive q

  unfoldable pub TenancyRule : Option (TenancySpec Q) → Type 0
  unfolding GivenQuotasRule
  TenancyRule none = Unit
  TenancyRule (some t) =
      (t.tenant_id ≢ "")
      × (IsOneOf "None" "Namespace" "Node" "Strict" t.isolation_level
          × GivenQuotasRule t.resource_quotas)

  pub quotas_positive :
      (q : TenantResourceQuotas Q) → validate_tenant_resource_quotas lib q ≡ none ↔ QuotasPositive q
  unfolding validate_tenant_resource_quotas QuotasPositive
  quotas_positive q = then_none _ _ (quantity_above_zero q.cpu _) (
      then_none _ _ (quantity_above_zero q.memory _) (
        then_none _ _ (quantity_above_zero q.storage _) (
          then_none _ _ (count_above_zero q.pods _) (
            then_none _ _ (count_above_zero q.services _) (
              then_none _ _ (count_above_zero q.persistent_volume_claims _) (
                then_none _ _ (count_above_zero q.config_maps _)
                  (count_above_zero q.secrets _)))))))

  given_quotas_rule :
      (q : Option (TenantResourceQuotas Q)) → validate_given_quotas lib q ≡ none ↔ GivenQuotasRule q
  unfolding GivenQuotasRule validate_given_quotas
  given_quotas_rule none = (λ h. tt, λ h. refl)
  given_quotas_rule (some q) = quotas_positive q

  pub id_rule : (id m : String) → fail_if (id == "") m ≡ none ↔ id ≢ ""
  id_rule id m = ground (arith, eq_iff id "")

  pub tenancy_rule : (t : Option (TenancySpec Q)) → validate_tenancy lib t ≡ none ↔ TenancyRule t
  unfolding TenancyRule validate_tenancy validate_tenancy_spec
  tenancy_rule none = (λ h. tt, λ h. refl)
  tenancy_rule (some t) =
      then_none _ _ (id_rule t.tenant_id _)
        (then_none _ _ (isolation_rule t.isolation_level) (given_quotas_rule t.resource_quotas))

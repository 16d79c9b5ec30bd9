-- ===== src/Validation/Quota.antt =====
-- pkg/services/validation_service.go: the quotas of a tenant against what runs in the cluster. The
-- answers of the API server are given, and stand still while one server is validated: the pods and
-- the services with the label.
use mcp_operator.Prelude.{
  ℕ, String, ◌==◌, ◌⊎◌, inl, inr, Bool, not, Option, none, some, List, [], ◌∷◌, ltb, if◌then◌else◌,
  ℤ, pos, pos_part, neg_part, ◌+ℤ◌, ◌-ℤ◌, ltb_ℤ, wrap_signed, scale, runes, concat, Dict, lookup,
}
use mcp_operator.Api.{
  ResourceRequirements, TenantResourceQuotas, TenancySpec, McpServer, Quantities,
}
use mcp_operator.Webhook.{byte_len}
use mcp_operator.Validation.{
  fail_if, ◌>>>◌, wrapped, validate_isolation_level, entries_of, validate_tenant_resource_quotas,
}
use mcp_operator.Validation.Label.{is_valid_dns_label}

-- A pod with the resource requests of its containers.
pub record Pod (Q : Type 0) : Type 0 where
  pub phase : String
  pub containers : List (Dict Q)

pub record Cluster (Q : Type 0) : Type 0 where
  pub pods : String ⊎ List (Pod Q)
  -- The number of services.
  pub services : String ⊎ ℕ

abbrev pub is_running : {Q : Type 0} → Pod Q → Bool
is_running p = p.phase == "Running"

-- `runningPodCount`, an int32 that is counted up.
unfoldable pub count_running : {Q : Type 0} → ℤ → List (Pod Q) → ℤ
count_running n [] = n
count_running n (p ∷ ps) =
    count_running (if is_running p then wrap_signed 32 (n +ℤ pos 1) else n) ps

abbrev pub replicas_or_one : Option ℤ → ℤ
replicas_or_one none = pos 1
replicas_or_one (some n) = n

-- The sum in an int32 and its comparison; `message` is the error's text.
unfoldable pub exceeds_count : (requested current quota : ℤ) → Bool
exceeds_count requested current quota = ltb_ℤ quota (wrap_signed 32 (current +ℤ requested))

-- A product of integers.
abbrev times : ℤ → ℤ → ℤ
times a b = scale (pos_part a) b -ℤ scale (neg_part a) b

-- The answer of a list, counted.
abbrev pub counted {ℓ} : {A : Type ℓ} → (what tenant : String) → (A → ℤ) → String ⊎ A → String ⊎ ℤ
counted what tenant count (inl err) =
    inl (concat ("failed to list " ∷ what ∷ " for tenant " ∷ tenant ∷ ": " ∷ err ∷ []))
counted what tenant count (inr a) = inr (count a)

module _ (tenant : String) {Q : Type 0} where
  unfoldable pub get_tenant_pod_count : Cluster Q → String ⊎ ℤ
  unfolding count_running
  get_tenant_pod_count cluster = counted "pods" tenant (count_running (pos 0)) cluster.pods

  unfoldable pub get_tenant_service_count : Cluster Q → String ⊎ ℤ
  get_tenant_service_count cluster =
      counted "services" tenant (λ n. wrap_signed 32 (pos n)) cluster.services

-- `show_int` is the decimal text of an integer.
module _ (show_int : ℤ → String) where
  -- `validatePodQuota` and `validateServiceQuota` once the current count has been got.
  unfoldable pub check_count :
      (kind kind_word : String) → (requested quota : ℤ) → String ⊎ ℤ → Option String
  unfolding exceeds_count
  check_count kind kind_word requested quota (inl err) =
      some (concat ("failed to get current " ∷ kind_word ∷ " count: " ∷ err ∷ []))
  check_count kind kind_word requested quota (inr current) =
      fail_if (exceeds_count requested current quota) (
        concat (
          kind
          ∷ " quota exceeded: requested "
          ∷ show_int requested
          ∷ " + current "
          ∷ show_int current
          ∷ " = "
          ∷ show_int (wrap_signed 32 (current +ℤ requested))
          ∷ " > quota "
          ∷ show_int quota
          ∷ []))

  unfoldable pub validate_pod_quota :
      {Q : Type 0} → (tenant : String) → Cluster Q → McpServer Q → (quota : ℤ) → Option String
  unfolding get_tenant_pod_count check_count
  validate_pod_quota tenant cluster s quota =
      check_count "pod" "Pod" (replicas_or_one s.spec.replicas) quota
        (get_tenant_pod_count tenant cluster)

  unfoldable pub validate_service_quota :
      {Q : Type 0} → (tenant : String) → Cluster Q → (quota : ℤ) → Option String
  unfolding get_tenant_service_count check_count
  validate_service_quota tenant cluster quota =
      check_count "service" "Service" (pos 1) quota (get_tenant_service_count tenant cluster)

module _ {Q : Type 0} (lib : Quantities Q) (tenant : String) where
  add_request : (name : String) → Q → List (Dict Q) → Q
  add_request name total [] = total
  add_request name total (c ∷ cs) =
      add_request name (elim (lookup name c) [ none ↦ total | some q ↦ lib.add total q ]) cs

  unfoldable pub add_running : (name : String) → Q → List (Pod Q) → Q
  unfolding add_request
  add_running name total [] = total
  add_running name total (p ∷ ps) =
      add_running name (if is_running p then add_request name total p.containers else total) ps

  -- `getTenantCPUUsage` and `getTenantMemoryUsage`.
  unfoldable pub get_tenant_usage : (name : String) → Cluster Q → String ⊎ Q
  unfolding add_running
  get_tenant_usage name cluster = elim cluster.pods [
    | inl err ↦ inl (concat ("failed to list pods for tenant " ∷ tenant ∷ ": " ∷ err ∷ []))
    | inr pods ↦ inr (add_running name lib.zero_quantity pods)
  ]

  -- The request of the resource list, or nothing.
  abbrev pub requested_quantity : (name : String) → ResourceRequirements → Q
  requested_quantity name r = elim (lookup name (entries_of r.requests)) [
    | none ↦ lib.zero_quantity
    | some given ↦ elim (lib.parse given) [ inl err ↦ lib.zero_quantity | inr q ↦ q ]
  ]

  -- `Value() * int64(replicas)`, set on the request.
  abbrev pub total_request : (name : String) → McpServer Q → Q
  total_request name s =
      let q = requested_quantity name s.spec.resources in
      lib.set q (wrap_signed 64 (times (lib.value q) (replicas_or_one s.spec.replicas)))

  -- `validateCPUQuota` and `validateMemoryQuota`, which differ in the words of their errors.
  unfoldable pub validate_quantity_quota :
      (name usage_word quota_word : String) → Cluster Q → McpServer Q → (quota : Q) → Option String
  unfolding get_tenant_usage
  validate_quantity_quota name usage_word quota_word cluster s quota =
      elim (get_tenant_usage name cluster) [
        | inl err ↦ some (concat ("failed to get current " ∷ usage_word ∷ " usage: " ∷ err ∷ []))
        | inr current ↦
            let requested = total_request name s in
            let total = lib.add current requested in
            fail_if (ltb_ℤ (pos 0) (lib.cmp total quota)) (
              concat (
                quota_word
                ∷ " quota exceeded: requested "
                ∷ lib.show requested
                ∷ " + current "
                ∷ lib.show current
                ∷ " = "
                ∷ lib.show total
                ∷ " > quota "
                ∷ lib.show quota
                ∷ []))
      ]

-- A check of a quota that is given.
abbrev pub given_check {ℓ} : {A : Type ℓ} → (A → Option String) → Option A → Option String
given_check check none = none
given_check check (some a) = check a

module _ {Q : Type 0} (lib : Quantities Q) (show_int : ℤ → String) (cluster : Cluster Q) where
  unfoldable pub check_tenant : McpServer Q → TenancySpec Q → TenantResourceQuotas Q → Option String
  unfolding validate_tenant_resource_quotas validate_quantity_quota validate_pod_quota
      validate_service_quota validate_isolation_level is_valid_dns_label
  check_tenant s t q =
      wrapped "resource quotas validation failed: " (validate_tenant_resource_quotas lib q)
      >>> wrapped "CPU quota validation failed: "
          (given_check (validate_quantity_quota lib t.tenant_id "cpu" "CPU" "CPU" cluster s) q.cpu)
      >>> wrapped "memory quota validation failed: " (
          given_check (validate_quantity_quota lib t.tenant_id "memory" "Memory" "memory" cluster s)
            q.memory)
      >>> wrapped "pod quota validation failed: "
          (given_check (validate_pod_quota show_int t.tenant_id cluster s) q.pods)
      >>> wrapped "service quota validation failed: "
          (given_check (validate_service_quota show_int t.tenant_id cluster) q.services)
      >>> wrapped "isolation level validation failed: " (validate_isolation_level t.isolation_level)
      >>> fail_if (t.tenant_id == "") "tenant ID is required when tenancy is enabled"
      >>> fail_if (ltb 63 (byte_len t.tenant_id)) "tenant ID cannot be longer than 63 characters"
      >>> fail_if (not (is_valid_dns_label (runes t.tenant_id)))
          "tenant ID must be a valid DNS label"

  unfoldable pub check_given_quotas :
      McpServer Q → TenancySpec Q → Option (TenantResourceQuotas Q) → Option String
  unfolding check_tenant
  check_given_quotas s t none = none
  check_given_quotas s t (some q) = check_tenant s t q

  unfoldable pub check_given_tenancy : McpServer Q → Option (TenancySpec Q) → Option String
  unfolding check_given_quotas
  check_given_tenancy s none = none
  check_given_tenancy s (some t) = check_given_quotas s t t.resource_quotas

  -- `ValidateTenantResourceQuotas`.
  unfoldable pub check_tenant_resource_quotas : McpServer Q → Option String
  unfolding check_given_tenancy
  check_tenant_resource_quotas s = check_given_tenancy s s.spec.tenancy

-- ===== src/Validation/Tests.antt =====
-- A concrete server and its tenant, and the theorems at them.
use mcp_operator.Prelude.{
  ℕ, ◌+◌, ◌-◌, ◌^◌, ◌≤◌, String, ◌≡◌, refl, ◌↔◌, ◌⊎◌, inl, inr, true, Option, none, some, List, [],
  ◌∷◌, arith, ltb, eqb, if◌then◌else◌, ℤ, pos, negsuc, pos_part, utf8, bytes, parse_int, lookup,
}
use mcp_operator.Validation.Registry.{check_registry}
use mcp_operator.Api.{TenantResourceQuotas, TenancySpec, McpServer, Quantities, McpRegistry}
use mcp_operator.Validation.{check_mcp_server}
use mcp_operator.Validation.Counts.{running, validate_pod_quota_iff}
use mcp_operator.Validation.Quota.{Pod, Cluster, validate_pod_quota, check_tenant_resource_quotas}
use mcp_operator.Validation.Label.{is_valid_dns_label, is_label}
use mcp_operator.Validation.Whole.{Valid, check_mcp_server_iff}

validation_code : Unit {0}
unfolding check_mcp_server is_valid_dns_label is_label check_tenant_resource_quotas bytes utf8
    lookup
validation_code = tt

-- Quantities that are whole numbers.
abbrev whole_number : String → String ⊎ ℕ
unfolding parse_int
whole_number s = elim (parse_int s) [
  | none ↦ inl "unable to parse quantity"
  | some n ↦ inr (pos_part n)
]

abbrev whole_numbers : Quantities ℕ
whole_numbers = record {
  parse = whole_number;
  cmp = λ a b. if ltb a b then negsuc 0 else if ltb b a then pos 1 else pos 0;
  is_zero = λ a. eqb a 0;
  sign = λ a. if eqb a 0 then pos 0 else pos 1;
  show = λ a. "";
  zero_quantity = 0;
  value = λ a. pos a;
  set = λ q n. pos_part n;
  add = λ a b. a + b;
}

abbrev quotas : TenantResourceQuotas ℕ
quotas = record {
  cpu = some 10;
  memory = none;
  storage = none;
  pods = some (pos 3);
  services = some (pos 1);
  persistent_volume_claims = none;
  config_maps = none;
  secrets = none;
}

abbrev tenancy : TenancySpec ℕ
tenancy = record {
  tenant_id = "team-a";
  isolation_level = "Namespace";
  resource_quotas = some quotas;
}

abbrev given_server : McpServer ℕ
given_server = record {
  name = "files";
  namespace = "tools";
  annotations = [];
  spec = record {
    registry = some (record { name = "main"; server_name = ""; registry = "" });
    runtime = some (record {
      kind = "docker";
      image = "ghcr.io/x:1";
      command = [];
      args = [];
      env = [];
      port = pos 0;
    });
    replicas = some (pos 1);
    resources = record { limits = some (("cpu", "1") ∷ []); requests = none };
    security_context = none;
    service_type = "ClusterIP";
    autoscaling = none;
    tenancy = some tenancy;
    transport = none;
    ports = [];
  };
  status = record {
    phase = "";
    message = "";
    reason = "";
    replicas = pos 0;
    ready_replicas = pos 0;
    available_replicas = pos 0;
    conditions = [];
    service_endpoint = none;
    last_update_time = none;
  };
}

abbrev two_pods : List (Pod ℕ)
two_pods =
    record { phase = "Running"; containers = (("cpu", 2) ∷ []) ∷ [] }
    ∷ record { phase = "Pending"; containers = [] }
    ∷ []

abbrev cluster : Cluster ℕ
cluster = record { pods = inr two_pods; services = inr 0 }

abbrev digits : ℤ → String
digits n = ""

server_passes : check_mcp_server whole_numbers given_server ≡ none
unfolding validation_code parse_int
server_passes = refl

tenant_passes : check_tenant_resource_quotas whole_numbers digits cluster given_server ≡ none
unfolding validation_code parse_int
tenant_passes = refl

-- The rune U+0141 has the low byte of the letter A, and passes in the middle of a label.
wide_rune : is_valid_dns_label (b'a' ∷ 0x141 ∷ b'a' ∷ []) ≡ true
unfolding validation_code
wide_rune = refl

check_mcp_server_iff_example :
    check_mcp_server whole_numbers given_server ≡ none ↔ Valid whole_numbers given_server
check_mcp_server_iff_example = check_mcp_server_iff whole_numbers given_server

abbrev greedy : McpServer ℕ
greedy = record given_server {
  spec = record {
    registry = none;
    runtime = none;
    replicas = some (pos (2 ^ 31 - 1));
    resources = record { limits = none; requests = none };
    security_context = none;
    service_type = "";
    autoscaling = none;
    tenancy = some tenancy;
    transport = none;
    ports = [];
  };
}

-- One pod runs and 2^31 - 1 are asked for: a quota of three passes, since the sum wraps around.
validate_pod_quota_iff_example :
    validate_pod_quota digits "team-a" cluster greedy (pos 3) ≡ none
    ↔ (running two_pods + (2 ^ 31 - 1) ≤ 3) ⊎ (2 ^ 31 ≤ running two_pods + (2 ^ 31 - 1))
validate_pod_quota_iff_example =
    validate_pod_quota_iff digits "team-a" cluster two_pods greedy 3 (2 ^ 31 - 1) refl (omega arith)
      (inl refl) (omega arith)

abbrev registry : McpRegistry
registry = record {
  name = "main";
  namespace = "tools";
  spec = record {
    url = "https://x";
    kind = "github";
    auth = some (record { secret_ref = some "token"; token = "" });
    sync_interval = some (pos 60);
  };
  status = record { phase = ""; message = ""; reason = ""; last_sync_time = none; conditions = [] };
}

abbrev parses : String → Option String
parses url = none

registry_passes : check_registry parses registry ≡ none
unfolding check_registry
registry_passes = refl

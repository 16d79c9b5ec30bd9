-- ===== src/Webhook/Tests.antt =====
-- A concrete server in front of the webhooks, and the theorems at it.
use mcp_operator.Prelude.{
  ℕ, ◌+◌, ◌≤◌, String, ◌≡◌, refl, ◌↔◌, ◌⊎◌, inl, inr, none, some, [], ◌∷◌, arith, ltb, eqb,
  if◌then◌else◌, length, pos, negsuc, pos_part, utf8, bytes, has_suffix, parse_int, lookup,
}
use mcp_operator.Api.{RegistryRef, McpServer, Quantities}
use mcp_operator.Webhook.{byte_len, validate_mcp_server}
use mcp_operator.Webhook.Rules.{Acceptable, validate_mcp_server_iff}
use mcp_operator.Webhook.Defaults.{set_defaults, default}
use mcp_operator.Webhook.Chain.{validate-set_defaults}

webhook_code : Unit {0}
unfolding validate_mcp_server set_defaults default Acceptable utf8 bytes has_suffix lookup
webhook_code = tt

-- Quantities that are whole numbers.
abbrev whole_number : String → String ⊎ ℕ
unfolding parse_int
whole_number s = elim (parse_int s) [
  | none ↦ inl "unable to parse quantity"
  | some n ↦ inr (pos_part n)
]

abbrev whole_numbers : Quantities ℕ
whole_numbers = record {
  parse = whole_number;
  cmp = λ a b. if ltb a b then negsuc 0 else if ltb b a then pos 1 else pos 0;
  is_zero = λ a. eqb a 0;
  sign = λ a. if eqb a 0 then pos 0 else pos 1;
  show = λ a. "";
  zero_quantity = 0;
  value = λ a. pos a;
  set = λ q n. pos_part n;
  add = λ a b. a + b;
}

abbrev given_server : McpServer ℕ
given_server = record {
  name = "files";
  namespace = "tools";
  annotations = [];
  spec = record {
    registry = some (record { name = "main"; server_name = ""; registry = "" });
    runtime = some (record {
      kind = "docker";
      image = "ghcr.io/x:1";
      command = [];
      args = [];
      env = [];
      port = pos 0;
    });
    replicas = some (pos 1);
    resources = record { limits = some (("cpu", "1") ∷ []); requests = none };
    security_context = none;
    service_type = "ClusterIP";
    autoscaling = none;
    tenancy = none;
    transport = none;
    ports = [];
  };
  status = record {
    phase = "";
    message = "";
    reason = "";
    replicas = pos 0;
    ready_replicas = pos 0;
    available_replicas = pos 0;
    conditions = [];
    service_endpoint = none;
    last_update_time = none;
  };
}

abbrev rooted : McpServer ℕ
rooted = record given_server {
  spec = record {
    registry = none;
    runtime = some (record {
      kind = "docker";
      image = "evil.io/x:latest";
      command = [];
      args = [];
      env = [];
      port = pos 0;
    });
    replicas = some (pos 11);
    resources = record { limits = some (("cpu", "3") ∷ []); requests = none };
    security_context = some (record { run_as_user = some (pos 0); run_as_non_root = none });
    service_type = "";
    autoscaling = none;
    tenancy = none;
    transport = none;
    ports = [];
  };
}

-- No registry, an untrusted image with the tag latest, too much of the processor, too many
-- replicas, and root.
rooted_errors : length (validate_mcp_server whole_numbers 2 4 rooted) ≡ 6
unfolding webhook_code parse_int
rooted_errors = refl

validate_mcp_server_iff_example :
    validate_mcp_server whole_numbers 2 4 given_server ≡ []
    ↔ Acceptable whole_numbers 2 4 given_server
validate_mcp_server_iff_example = validate_mcp_server_iff whole_numbers 2 4 given_server

short_name : byte_len "files" ≤ 253
unfolding webhook_code
short_name = omega arith

validate-set_defaults_example :
    validate_mcp_server whole_numbers 2 4 (set_defaults given_server) ≡ []
unfolding webhook_code parse_int
validate-set_defaults_example = validate-set_defaults whole_numbers 2 4 given_server short_name refl

abbrev alias_only : RegistryRef
alias_only = record { name = ""; server_name = ""; registry = "main" }

abbrev aliased : McpServer ℕ
aliased = record given_server {
  spec = record {
    registry = some alias_only;
    runtime = none;
    replicas = none;
    resources = record { limits = none; requests = none };
    security_context = none;
    service_type = "";
    autoscaling = none;
    tenancy = none;
    transport = none;
    ports = [];
  };
}

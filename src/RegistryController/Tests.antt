-- ===== src/RegistryController/Tests.antt =====
-- A registry with a URL under answers that all succeed, and the theorem at it.
use mcp_operator.Prelude.{◌≡◌, refl, ap, inr, false, none, [], ◌∷◌, ltb, if◌then◌else◌, pos}
use mcp_operator.RegistryService.{found, absent}
use mcp_operator.RegistryController.{
  CatalogStatus, Catalog, accepted, conflict, Answers, set_catalog_condition, set_catalog_phase,
}
use mcp_operator.RegistryController.Update.{update_status_with_retry, get_auth_token}
use mcp_operator.RegistryController.Sync.{reconcile_registry}
use mcp_operator.RegistryController.Kept.{status-update_status_with_retry}
use mcp_operator.RegistryController.Phases.{phase_after, phase_after-reconcile_registry}

abbrev catalog : Catalog
catalog = record {
  name = "main";
  namespace = "tools";
  generation = pos 1;
  is_deleted = false;
  spec = record {
    url = "https://github.com/x/y";
    source = none;
    auth = none;
    refresh_interval = none;
  };
  status = record {
    phase = "Pending";
    conditions = [];
    last_sync_time = none;
    servers_discovered = pos 0;
    observed_revision = "";
    observed_generation = pos 0;
    servers = [];
    errors = [];
    rate_limit_remaining = none;
  };
}

abbrev answers : Answers
answers = record {
  now = pos 100;
  send = λ update left c. accepted;
  secret = λ name namespace. absent;
  sync = λ token c. inr (record {
    servers = record { name = "files"; path = "servers/files" } ∷ [];
    server_specs =
        ("files", record { title = "Files"; description = ""; version = "1"; keywords = [] }) ∷ [];
    servers_count = pos 1;
    observed_sha = "abc";
    errors = [];
    rate_limit = none;
  });
  apply_server = λ c s. none;
  apply_index = λ c metadata. none;
  show = λ n. "1";
  show_time = λ t. "";
}

phase_after-reconcile_registry_example :
    phase_after "Pending" (reconcile_registry answers (found catalog)).effects ≡ "Ready"
unfolding get_auth_token set_catalog_condition
phase_after-reconcile_registry_example =
    phase_after-reconcile_registry answers (λ update c. refl) catalog refl

-- The server of the API server has moved on twice.
abbrev contended : Answers
contended = record answers {
  send = λ update left c. if ltb left 3 then accepted else conflict (found catalog);
}

status-update_status_with_retry_example :
    (update_status_with_retry contended 0 (set_catalog_phase "Ready" catalog)).0.status.phase
    ≡ "Ready"
status-update_status_with_retry_example =
    ap (λ (s : CatalogStatus). s.phase)
      (status-update_status_with_retry contended 0 (set_catalog_phase "Ready" catalog))

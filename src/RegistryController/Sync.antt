-- ===== src/RegistryController/Sync.antt =====
-- controllers/mcpregistry_controller.go: `Reconcile`.
use text.Mathlib.Text.{find?}
use mcp_operator.Prelude.{
  ℕ, zero, suc, String, ◌==◌, ◌⊎◌, inl, inr, Bool, false, ◌&&◌, ◌||◌, not, Option, none, some, List,
  [], ◌∷◌, ◌++◌, if◌then◌else◌, is_some, ℤ, pos, ◌+ℤ◌, ◌-ℤ◌, ltb_ℤ, concat, Dict, lookup,
}
use mcp_operator.Status.{condition_true, condition_false}
use mcp_operator.RegistryService.{Read, found, absent, broken}
use mcp_operator.RegistryService.Token.{ServerInfo}
use mcp_operator.RegistryController.{
  SourceSpec, CatalogSpec, Listed, Catalog, ServerFile, RateLimit, SyncResult, Answers, Effect,
  status_stored, warned, noted, server_cached, indexed, cleaned, Reconciled, ends, minutes,
  set_catalog_condition, set_catalog_phase,
}
use mcp_operator.RegistryController.Update.{update_status_with_retry, get_auth_token}

abbrev pub is_github : Option SourceSpec → Bool
is_github none = false
is_github (some s) = s.kind == "github" && is_some s.github

abbrev pub has_valid_config : CatalogSpec → Bool
has_valid_config spec = is_github spec.source || not (spec.url == "")

-- The metadata of the index.
abbrev pub metadata_of_github : (path : String) → Option (String × String) → Dict String
metadata_of_github path none = []
metadata_of_github path (some (repo, branch)) =
    ("source", repo) ∷ ("branch", branch) ∷ (if path == "" then [] else ("path", path) ∷ [])

abbrev pub metadata_of_source : Option SourceSpec → Dict String
metadata_of_source none = []
metadata_of_source (some s) = metadata_of_github s.path s.github

abbrev pub metadata_of : CatalogSpec → Dict String
metadata_of spec = if spec.url == "" then metadata_of_source spec.source else ("url", spec.url) ∷ []

abbrev pub listed_as : ServerInfo → ServerFile → Listed
listed_as s file = record {
  name = s.name;
  path = s.path;
  title = file.title;
  description = file.description;
  version = file.version;
  tags = file.keywords;
}

abbrev pub list_if : ServerInfo → Option ServerFile → List Listed → List Listed
list_if s none rest = rest
list_if s (some file) rest = listed_as s file ∷ rest

-- The servers of the status: those with a valid file.
unfoldable pub registry_servers : Dict ServerFile → List ServerInfo → List Listed
registry_servers specs [] = []
registry_servers specs (s ∷ ss) = list_if s (lookup s.name specs) (registry_servers specs ss)

-- `allErrors[:10]`.
abbrev pub first_errors : (count : ℕ) → List String → List String
first_errors zero errors = []
first_errors (suc n) [] = []
first_errors (suc n) (e ∷ errors) = e ∷ first_errors n errors

module _ (answers : Answers) where
  -- The status is sent: what is stored, the registry left, and the error.
  abbrev pub sent : (Catalog × Option String) → List Effect × Catalog × Option String
  sent (c, none) = (status_stored c.status ∷ [], c, none)
  sent (c, some err) = ([], c, some err)

  abbrev pub send_status : (update : ℕ) → Catalog → List Effect × Catalog × Option String
  send_status update c = sent (update_status_with_retry answers update c)

  abbrev pub condition : (kind status reason message : String) → Catalog → Catalog
  condition = set_catalog_condition answers.now

  -- A failure: the status is sent, and an error of that is only logged.
  abbrev pub report_failure :
      (update : ℕ)
      → List Effect
      → (reason err : String) → (requeue_after : ℤ) → Catalog
      → Reconciled
  report_failure update effects reason err requeue_after c =
      ends (effects ++ (warned reason err ∷ (send_status update c).0)) requeue_after none

  abbrev pub invalid_message : String
  invalid_message =
      "either spec.url must be provided or spec.source.type=github with valid github configuration must be set"

  abbrev pub without_config : Catalog → Catalog
  without_config c =
      condition "Synced" condition_false "InvalidConfiguration" invalid_message
        (condition "Reachable" condition_false "InvalidConfiguration" invalid_message c)

  unfoldable pub report_invalid : Catalog → Reconciled
  unfolding update_status_with_retry set_catalog_condition
  report_invalid c =
      report_failure 0 [] "ValidationFailed" invalid_message (minutes 5) (without_config c)

  abbrev pub without_token : (err : String) → Catalog → Catalog
  without_token err c = condition "Synced" condition_false "AuthTokenFailed" err (
      condition "Reachable" condition_false "AuthTokenFailed" err
        (condition "AuthFailed" condition_true "AuthTokenFailed" err c))

  unfoldable pub report_no_token : List Effect → (err : String) → Catalog → Reconciled
  unfolding update_status_with_retry set_catalog_condition
  report_no_token effects err c =
      report_failure 1 effects "AuthFailed" err (minutes 5) (without_token err c)

  abbrev pub is_path_not_found : (err : String) → Bool
  is_path_not_found err = is_some (find? err "PathNotFound:")

  abbrev pub without_sync : (err : String) → Catalog → Catalog
  without_sync err c =
      let reason = if is_path_not_found err then "PathNotFound" else "SyncFailed" in
      set_catalog_phase "Failed" (
        condition "Synced" condition_false "SyncFailed" err (
          condition "Reachable" condition_false reason err
            (condition "Syncing" condition_false "SyncFailed" err c)))

  unfoldable pub report_no_sync : List Effect → (err : String) → Catalog → Reconciled
  unfolding update_status_with_retry set_catalog_condition
  report_no_sync effects err c =
      report_failure 1 effects "SyncFailed" err (minutes 15) (without_sync err c)

  abbrev pub cache_if :
      Catalog
      → ServerInfo
      → Option ServerFile
      → List Effect × List String
      → List Effect × List String
  cache_if c s none rest = rest
  cache_if c s (some file) rest = elim (answers.apply_server c s) [
    | none ↦ (server_cached s ∷ rest.0, rest.1)
    | some err ↦ (rest.0, concat ("failed to cache server " ∷ s.name ∷ ": " ∷ err ∷ []) ∷ rest.1)
  ]

  -- The servers that are cached, and the errors.
  unfoldable pub cache_servers :
      Catalog → Dict ServerFile → List ServerInfo → List Effect × List String
  cache_servers c specs [] = ([], [])
  cache_servers c specs (s ∷ ss) = cache_if c s (lookup s.name specs) (cache_servers c specs ss)

  unfoldable pub index_registry : Catalog → List Effect × List String
  index_registry c = elim (answers.apply_index c (metadata_of c.spec)) [
    | none ↦ (indexed (metadata_of c.spec) ∷ [], [])
    | some err ↦ ([], concat ("failed to cache registry index: " ∷ err ∷ []) ∷ [])
  ]

  abbrev pub with_result : SyncResult → (errors : List String) → Catalog → Catalog
  with_result r errors c = record c {
    status = record (c.status) {
      last_sync_time = some answers.now;
      servers_discovered = r.servers_count;
      observed_revision = r.observed_sha;
      observed_generation = c.generation;
      servers = registry_servers r.server_specs r.servers;
      phase = "Ready";
      errors = first_errors 10 errors;
    };
  }

  -- The rate limit: the registry, the event, and the time until the limit is lifted.
  abbrev pub with_rate_limit : Option RateLimit → Catalog → Catalog × List Effect × Option ℤ
  with_rate_limit none c = (c, [], none)
  with_rate_limit (some l) c =
      let counted = record c {
        status = record (c.status) { rate_limit_remaining = some l.remaining };
      } in
      let delay = l.reset_time -ℤ answers.now in
      let low =
        concat ("GitHub API rate limit low: " ∷ answers.show l.remaining ∷ " remaining" ∷ []) in
      if ltb_ℤ l.remaining (pos 100)
      then (
        condition "RateLimited" condition_true "RateLimited"
            (concat (low ∷ ", resets at " ∷ answers.show_time l.reset_time ∷ [])) counted,
        noted "RateLimited" low ∷ [],
        if ltb_ℤ (pos 0) delay then some (delay +ℤ minutes 2) else none,
      )
      else (
        condition "RateLimited" condition_false "RateLimitOK" "GitHub API rate limit is sufficient"
            counted,
        [],
        none,
      )

  abbrev pub discovered_message : SyncResult → String
  discovered_message r = concat (
      "Registry synchronized successfully, "
      ∷ answers.show r.servers_count
      ∷ " servers discovered"
      ∷ [])

  abbrev pub with_success : SyncResult → Catalog → Catalog
  with_success r c =
      condition "AuthFailed" condition_false "AuthSuccessful" "Authentication successful" (
        condition "Synced" condition_true "OK" (discovered_message r) (
          condition "Reachable" condition_true "OK" "Registry is reachable" (
            condition "Syncing" condition_false "SyncCompleted" "Registry synchronization completed"
              c)))

  abbrev pub next_requeue : Option ℤ → CatalogSpec → ℤ
  next_requeue (some delay) spec = delay
  next_requeue none spec = elim spec.refresh_interval [ none ↦ minutes 15 | some n ↦ n ]

  -- By the last update.
  abbrev pub finish_sync :
      List Effect → Option ℤ → List Effect × Catalog × Option String → Reconciled
  finish_sync effects limited (writes, c, none) =
      ends (effects ++ writes) (next_requeue limited c.spec) none
  finish_sync effects limited (writes, c, some err) = ends (effects ++ writes) (pos 0) (some err)

  -- The effects between the sync and the last update.
  unfoldable pub sync_effects : SyncResult → Catalog → List Effect
  unfolding cache_servers index_registry set_catalog_condition
  sync_effects r c =
      (cache_servers c r.server_specs r.servers).0
      ++ ((index_registry c).0
          ++ ((with_rate_limit r.rate_limit c).1 ++ noted "Synced" (discovered_message r) ∷ []))

  -- The registry that is sent in the end.
  unfoldable pub synced : SyncResult → Catalog → Catalog
  unfolding cache_servers index_registry set_catalog_condition registry_servers
  synced r c =
      let errors =
        r.errors ++ ((cache_servers c r.server_specs r.servers).1 ++ (index_registry c).1) in
      with_success r (with_rate_limit r.rate_limit (with_result r errors c)).0

  unfoldable pub store_sync : List Effect → SyncResult → Catalog → Reconciled
  unfolding update_status_with_retry sync_effects synced set_catalog_condition
  store_sync effects r c =
      finish_sync (effects ++ sync_effects r c) (with_rate_limit r.rate_limit c).2
        (send_status 1 (synced r c))

  -- By the answer of the GitHub client.
  unfoldable pub after_sync : List Effect → Catalog → String ⊎ SyncResult → Reconciled
  unfolding report_no_sync store_sync
  after_sync effects c (inl err) = report_no_sync effects err c
  after_sync effects c (inr r) = store_sync effects r c

  -- By the token.
  unfoldable pub after_token : List Effect → Catalog → String ⊎ String → Reconciled
  unfolding report_no_token after_sync
  after_token effects c (inl err) = report_no_token effects err c
  after_token effects c (inr token) = after_sync effects c (answers.sync token c)

  -- By the update that says that the sync is on.
  unfoldable pub after_start : List Effect × Catalog × Option String → Reconciled
  unfolding get_auth_token after_token
  after_start (writes, c, some err) = ends writes (pos 0) (some err)
  after_start (writes, c, none) = after_token writes c (get_auth_token answers c)

  abbrev pub with_start : Catalog → Catalog
  with_start c =
      set_catalog_phase "Syncing" (
        condition "Syncing" condition_true "SyncInProgress" "Registry synchronization in progress"
          c)

  unfoldable pub start_sync : Catalog → Reconciled
  unfolding after_start update_status_with_retry set_catalog_condition
  start_sync c = after_start (send_status 0 (with_start c))

  -- `Reconcile`, by the read of the registry. An error of the clean-up is only logged.
  unfoldable pub reconcile_registry : Read Catalog → Reconciled
  unfolding report_invalid start_sync
  reconcile_registry absent = ends [] (pos 0) none
  reconcile_registry (broken err) = ends [] (pos 0) (some err)
  reconcile_registry (found c) =
      if c.is_deleted
      then ends (cleaned c.name c.namespace ∷ []) (pos 0) none
      else if has_valid_config c.spec
      then start_sync c
      else report_invalid c

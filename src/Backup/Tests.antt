-- ===== src/Backup/Tests.antt =====
-- A concrete backup with its server, and the theorems at it.
use mcp_operator.Prelude.{
  ℕ, zero, suc, ◌≤◌, String, ◌≡◌, refl, ◌↔◌, inr, true, false, ◌&&◌, not, none, some, List, [], ◌∷◌,
  map, arith, is_some, length, any, All, pos, ◌+ℤ◌, concat, Dict,
}
use mcp_operator.Backup.{phase_running, phase_completed}
use mcp_operator.Backup.Dependencies.{Server, collect_dependencies}
use mcp_operator.Backup.Retention.{done, enforce_retention_policy}
use mcp_operator.Backup.Files.{present}
use mcp_operator.Backup.Objects.{Page, broken, page, list_objects, delete_batches}
use mcp_operator.Backup.Reconcile.{found, Object, Env, finalizer, backup_data_of}
use mcp_operator.Backup.Controller.{perform_backup_cleanup, reconcile}
use mcp_operator.Backup.InsertionSort.{
  insertion_sort, insertion_sort-perm, insertion_sort-IsSortedBy,
}
use mcp_operator.Backup.Policy.{IsEnforced, enforce_retention_policy-IsEnforced}
use mcp_operator.Backup.Phases.{stored, is_storable, promised_phase, phase-reconcile}
use mcp_operator.Backup.Due.{IsScheduled, run_schedule-IsScheduled}
use mcp_operator.Backup.Release.{is_release, any-reconcile}
use mcp_operator.Backup.Renewal.{with_suspend, after, suspension_renews}
use mcp_operator.Backup.Listing.{HasLast, Ends, list_objects_iff, flatten, flatten-delete_batches}

abbrev server : Server ℕ
server = record {
  name = "files";
  namespace = "tools";
  spec = record {
    config_sources = some "settings" ∷ none ∷ [];
    secret_refs = "token" ∷ [];
    env_from = [];
    volumes = [];
    rest = 7;
  };
}

abbrev stamped : String → ℕ → String → Object ℕ
stamped name created phase = record {
  name = name;
  namespace = "tools";
  uid = concat (name ∷ "-uid" ∷ []);
  labels = [];
  annotations = [];
  finalizers = finalizer ∷ [];
  is_deleted = false;
  creation_timestamp = pos created;
  spec = record {
    mcp_server_ref = "files";
    schedule = "";
    retention_policy = record { keep_last = some (pos 2); max_age = some (pos 50) };
    storage_location = record { kind = "Local"; local = some "/backups"; has_s3 = false };
    suspend = none;
  };
  status = record {
    phase = phase;
    message = "";
    reason = "";
    start_time = none;
    completion_time = none;
    backup_size = 0;
    backup_location = "";
    last_schedule_time = none;
    next_schedule_time = none;
    backup_data = none;
    conditions = [];
  };
}

-- The API server accepts all writes, the files are there, and every schedule comes each 60 ticks.
abbrev env : Env ℕ
env = record {
  now = pos 100;
  get_server = λ name namespace. found server;
  update = λ b. none;
  update_status = λ b. none;
  delete = λ b. done;
  list = λ namespace name. inr [];
  sort = insertion_sort;
  parse_schedule = λ text. some (λ t. t +ℤ pos 60);
  marshal = λ content. inr 5;
  operator_version = "v1";
  cluster_version = none;
  stat = λ path. present;
  remove_file = λ path. none;
  cleanup_s3 = λ b. none;
}

collected_references :
    map (λ r. r.kind) (collect_dependencies server)
    ≡ "ConfigMap" ∷ "Secret" ∷ "Service" ∷ "Deployment" ∷ []
unfolding collect_dependencies
collected_references = refl

-- Of three completed backups, the oldest is over the limit and the next too old; the fourth runs.
abbrev listed : List (Object ℕ)
listed =
    stamped "b" 40 phase_completed
    ∷ stamped "c" 90 phase_completed
    ∷ stamped "a" 20 phase_completed
    ∷ stamped "d" 10 phase_running
    ∷ []

doomed_names :
    map
      (λ b. b.name)
      (enforce_retention_policy insertion_sort
        (λ b. done)
        (pos 100)
        (inr listed)
        (record { keep_last = some (pos 2); max_age = some (pos 50) })).0
    ≡ "a" ∷ "b" ∷ []
unfolding enforce_retention_policy
doomed_names = refl

enforce_retention_policy-IsEnforced_example :
    ((enforce_retention_policy insertion_sort
        (λ b. done)
        (pos 100)
        (inr listed)
        (record { keep_last = some (pos 2); max_age = some (pos 50) })).1
      ≡ none)
    × IsEnforced
        (pos 100)
        (pos 2)
        (some (pos 50))
        listed
        (enforce_retention_policy insertion_sort
          (λ b. done)
          (pos 100)
          (inr listed)
          (record { keep_last = some (pos 2); max_age = some (pos 50) })).0
enforce_retention_policy-IsEnforced_example =
    enforce_retention_policy-IsEnforced insertion_sort (λ b. done) (pos 100) (pos 2) listed
      (record { keep_last = some (pos 2); max_age = some (pos 50) }) insertion_sort-perm
      insertion_sort-IsSortedBy (λ b err e. cc) refl (refl, (refl, (refl, tt)))

phase-reconcile_example :
    (stored (stamped "a" 20 "").status (reconcile env (found (stamped "a" 20 ""))).writes).phase
    ≡ promised_phase env (stamped "a" 20 "")
phase-reconcile_example = phase-reconcile env (λ b. refl) (stamped "a" 20 "") refl refl

any-reconcile_example :
    any is_release (reconcile env (found (record (stamped "a" 20 "") { is_deleted = true }))).writes
    ≡ (true
        && not (
            is_some
              (perform_backup_cleanup env (record (stamped "a" 20 "") { is_deleted = true })).2))
any-reconcile_example =
    any-reconcile env (record (stamped "a" 20 "") { is_deleted = true }) (λ b. refl)

run_schedule-IsScheduled_example :
    IsScheduled env (λ b. refl) (stamped "a" 20 "") server (λ t. t +ℤ pos 60)
unfolding is_storable
run_schedule-IsScheduled_example =
    run_schedule-IsScheduled env (λ b. refl) (stamped "a" 20 "") server (λ t. t +ℤ pos 60) refl

abbrev over : Object ℕ
over = stamped "a" 20 phase_completed

abbrev paused : Object ℕ
paused = after over (reconcile env (found (with_suspend true over))).writes

suspension_renews_example :
    ((reconcile env (found (with_suspend false over))).writes ≡ [])
    × ((stored paused.status (reconcile env (found (with_suspend false paused))).writes).backup_data
        ≡ some (backup_data_of env over server))
unfolding is_storable
suspension_renews_example =
    suspension_renews env (λ b. refl) over server refl refl refl refl refl refl

-- One failing request, then the two pages.
abbrev answers : ℕ → Page
answers zero = broken
answers (suc zero) = page ("a" ∷ []) true
answers (suc (suc n)) = page ("b" ∷ []) false

list_objects_iff_example : Ends answers 0 ↔ HasLast answers 0
list_objects_iff_example = list_objects_iff answers 0

listed_in_three : list_objects 3 answers 0 ≡ some ("a" ∷ "b" ∷ [])
unfolding list_objects
listed_in_three = refl

flatten-delete_batches_example :
    (batches : List (List String)) × (delete_batches 3 2 (λ _. true) ("a" ∷ "b" ∷ "c" ∷ [])
      ≡ some (batches, true))
    × (flatten batches ≡ "a" ∷ "b" ∷ "c" ∷ [])
    × All (λ b. length b ≤ 2) batches
flatten-delete_batches_example =
    flatten-delete_batches 3 2 ("a" ∷ "b" ∷ "c" ∷ []) (omega arith) (omega arith)

abbrev index : Dict ℕ
index = ("tools/a", 1) ∷ ("x", 2) ∷ []

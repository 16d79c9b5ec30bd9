-- ===== src/Backup/Reconcile.antt =====
-- controllers/mcpserverbackup_controller.go: one reconciliation of a backup. The clock stands
-- during it, and what is not of the repository answers through `Env`: the API server, the file
-- system, the cron library, the encoder and the cluster. A write that is accepted leaves the object
-- as sent.
use mcp_operator.Prelude.{
  ℕ, String, ◌==◌, ◌⊎◌, inl, inr, Bool, true, ◌||◌, Option, none, some, List, [], ◌∷◌, ◌++◌,
  if◌then◌else◌, is_some, ℤ, ltb_ℤ, eqb_ℤ, concat,
}
use mcp_operator.Backup.{
  BackupData, Backup, phase_running, phase_completed, phase_failed, set_status,
}
use mcp_operator.Backup.Dependencies.{ServerSpec, Server, collect_dependencies}
use mcp_operator.Backup.Retention.{Deletion, enforce_retention_policy}
use mcp_operator.Backup.Files.{Stat}

-- The answer to a read of the API server.
pub data Found (A : Type 0) : Type 0 where
  found : A → Found A
  absent : Found A
  broken : String → Found A

abbrev pub Object : Type 0 → Type 0
Object Rest = Backup (ServerSpec Rest)

pub record Env (Rest : Type 0) : Type 0 where
  pub now : ℤ
  pub get_server : (name namespace : String) → Found (Server Rest)
  pub update : Object Rest → Option String
  pub update_status : Object Rest → Option String
  pub delete : Object Rest → Deletion
  -- The backups of the namespace whose label names the server.
  pub list : (namespace server : String) → String ⊎ List (Object Rest)
  pub sort : (less : Object Rest → Object Rest → Bool) → List (Object Rest) → List (Object Rest)
  -- `cron.ParseStandard`, with the schedule's `Next`.
  pub parse_schedule : String → Option (ℤ → ℤ)
  -- The length of the encoded data.
  pub marshal : BackupData (ServerSpec Rest) → String ⊎ ℕ
  pub operator_version : String
  pub cluster_version : Option String
  pub stat : String → Stat
  pub remove_file : String → Option String
  -- `cleanupS3Backup`, where the storage is configured.
  pub cleanup_s3 : Object Rest → Option String

-- The requests that change the API server: those accepted, and the deletions asked for.
pub data Write (Rest : Type 0) : Type 0 where
  updated : Object Rest → Write Rest
  status_updated : Object Rest → Write Rest
  deletion : Object Rest → Write Rest

-- The result `ctrl.Result{RequeueAfter: ...}` in nanoseconds, with the error.
pub record Reconciled (Rest : Type 0) : Type 0 where
  pub writes : List (Write Rest)
  pub requeue_after : ℕ
  pub error : Option String

abbrev pub finalizer : String
finalizer = "mcp.allbeone.io/backup-finalizer"

abbrev pub without : String → List String → List String
without f [] = []
without f (g ∷ gs) = let rest = without f gs in if g == f then rest else g ∷ rest

abbrev pub ends : {Rest : Type 0} → List (Write Rest) → ℕ → Option String → Reconciled Rest
ends writes requeue_after error = record {
  writes = writes;
  requeue_after = requeue_after;
  error = error;
}

module _ {Rest : Type 0} where
  abbrev pub deletions : List (Object Rest) → List (Write Rest)
  deletions [] = []
  deletions (b ∷ bs) = deletion b ∷ deletions bs

module _ {Rest : Type 0} (env : Env Rest) where
  -- `updateBackupStatus`, after the writes made so far.
  unfoldable pub update_backup_status :
      List (Write Rest)
      → Object Rest
      → (phase message reason : String) → Object Rest × Reconciled Rest
  unfolding set_status
  update_backup_status writes b phase message reason =
      let sent = set_status env.now phase message reason b in
      (
        sent,
        elim (env.update_status sent) [
          | none ↦ ends (writes ++ status_updated sent ∷ []) 0 none
          | some err ↦ ends writes 0 (some (concat ("failed to update backup status: " ∷ err ∷ [])))
        ],
      )

  -- `storeLocalBackup`: the object that it leaves, and its error.
  unfoldable pub store_local_backup :
      Object Rest → BackupData (ServerSpec Rest) → Object Rest × Option String
  store_local_backup b content =
      let kept = record b { status = record (b.status) { backup_data = some content } } in
      elim (env.marshal content) [
        | inl err ↦ (kept, some (concat ("failed to marshal backup data: " ∷ err ∷ [])))
        | inr size ↦ (
          record kept {
            status = record (kept.status) {
              backup_size = size;
              backup_location = concat ("local://" ∷ b.namespace ∷ "/" ∷ b.name ∷ []);
            };
          },
          none,
        )
      ]

  unfoldable pub backup_data_of : Object Rest → Server Rest → BackupData (ServerSpec Rest)
  unfolding collect_dependencies
  backup_data_of b server = record {
    mcp_server_spec = server.spec;
    metadata = record {
      backup_version = "v1";
      operator_version = env.operator_version;
      kubernetes_version = elim env.cluster_version [ none ↦ "unknown" | some v ↦ v ];
      created_by = "mcp-operator";
      labels = b.labels;
      annotations = b.annotations;
    };
    dependencies = collect_dependencies server;
  }

  -- `createBackup`, with the stores that are not implemented.
  unfoldable pub create_backup : Object Rest → Server Rest → Object Rest × Option String
  unfolding store_local_backup backup_data_of
  create_backup b server =
      let kind = b.spec.storage_location.kind in
      if kind == "Local"
      then store_local_backup b (backup_data_of b server)
      else if kind == "S3"
      then (b, some "S3 backup storage not implemented yet")
      else if kind == "GCS"
      then (b, some "GCS backup storage not implemented yet")
      else if kind == "Azure"
      then (b, some "azure backup storage not implemented yet")
      else (b, some (concat ("unsupported storage type: " ∷ kind ∷ [])))

  -- The test for a backup that is due.
  unfoldable pub is_due : (next : ℤ → ℤ) → (last : Option ℤ) → Bool
  is_due next none = true
  is_due next (some last) = ltb_ℤ (next last) env.now || eqb_ℤ (next last) env.now

  -- The end of `handleScheduledBackup`.
  unfoldable pub finish_schedule : List (Write Rest) → Object Rest → Reconciled Rest
  unfolding update_backup_status
  finish_schedule writes b =
      let (sent, r) =
        update_backup_status writes b phase_completed "Scheduled backup processed"
          "ScheduleProcessed" in
      if is_some r.error then r else record r { requeue_after = 60_000_000_000 }

  abbrev pub stamp : Object Rest → Object Rest
  stamp b = record b { status = record (b.status) { last_schedule_time = some env.now } }

  abbrev pub plan_next : (next : ℤ → ℤ) → Object Rest → Object Rest
  plan_next next b = record b {
    status = record (b.status) { next_schedule_time = some (next env.now) };
  }

  -- `enforceRetentionPolicy` as the controller calls it; its error is logged only.
  abbrev pub doomed_by : Object Rest → List (Object Rest)
  doomed_by b =
      (enforce_retention_policy env.sort env.delete env.now
        (env.list b.namespace b.spec.mcp_server_ref) b.spec.retention_policy).0

  -- After `createBackup` in `handleScheduledBackup`.
  unfoldable pub after_creation : Object Rest × Option String → Reconciled Rest
  unfolding finish_schedule enforce_retention_policy
  after_creation (b, some err) =
      (update_backup_status [] b phase_failed (concat ("Failed to create backup: " ∷ err ∷ []))
        "BackupCreationFailed").1
  after_creation (b, none) = finish_schedule (deletions (doomed_by b)) (stamp b)

  -- `handleScheduledBackup`, by what the cron library makes of the schedule.
  unfoldable pub run_schedule : Object Rest → Server Rest → Option (ℤ → ℤ) → Reconciled Rest
  unfolding create_backup is_due after_creation
  run_schedule b server none =
      (update_backup_status [] b phase_failed
        (concat ("Invalid schedule format: " ∷ b.spec.schedule ∷ [])) "InvalidSchedule").1
  run_schedule b server (some next) =
      if is_due next b.status.last_schedule_time
      then after_creation (create_backup (plan_next next b) server)
      else finish_schedule [] (plan_next next b)

  unfoldable pub handle_scheduled_backup : Object Rest → Server Rest → Reconciled Rest
  unfolding run_schedule
  handle_scheduled_backup b server = run_schedule b server (env.parse_schedule b.spec.schedule)

  -- After `createBackup` in `handleOneTimeBackup`.
  unfoldable pub finish_one_time : List (Write Rest) → Object Rest × Option String → Reconciled Rest
  unfolding update_backup_status
  finish_one_time writes (b, some err) =
      (update_backup_status writes b phase_failed (concat ("Failed to create backup: " ∷ err ∷ []))
        "BackupCreationFailed").1
  finish_one_time writes (b, none) =
      (update_backup_status writes b phase_completed "Backup created successfully"
        "BackupCompleted").1

  unfoldable pub handle_one_time_backup : Object Rest → Server Rest → Reconciled Rest
  unfolding finish_one_time create_backup update_backup_status
  handle_one_time_backup b server =
      if b.status.phase == phase_completed
      then ends [] 0 none
      else (let (begun, r) =
            update_backup_status [] b phase_running "Creating backup" "BackupInProgress" in
          if is_some r.error then r else finish_one_time r.writes (create_backup begun server))

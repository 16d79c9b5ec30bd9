-- ===== src/Backup.antt =====
-- api/v1/mcpserverbackup_types.go, and from controllers/mcpserverbackup_controller.go the
-- conditions and `updateBackupStatus`. `Rest` stands for the fields of a server's specification
-- that a backup only copies.
pub mod Dependencies
pub mod Retention
pub mod Files
pub mod Objects
pub mod Reconcile
pub mod Controller
mod Conditions
mod Names
mod InsertionSort
mod Kept
mod Policy
mod Phases
mod Due
mod Release
mod Renewal
mod Listing
mod Index
mod Tests
use mcp_operator.Prelude.{
  ℕ, String, ◌==◌, Bool, ◌&&◌, ◌||◌, not, Option, some, List, [], ◌∷◌, if◌then◌else◌, is_some, ℤ,
  Dict,
}

pub record ResourceReference : Type 0 where
  pub api_version : String
  pub kind : String
  pub name : String
  pub namespace : String

pub record BackupMetadata : Type 0 where
  pub backup_version : String
  pub operator_version : String
  pub kubernetes_version : String
  pub created_by : String
  pub labels : Dict String
  pub annotations : Dict String

pub record BackupData (Spec : Type 0) : Type 0 where
  pub mcp_server_spec : Spec
  pub metadata : BackupMetadata
  pub dependencies : List ResourceReference

-- `KeepDaily`, `KeepWeekly` and `KeepMonthly` are read by no code.
pub record RetentionPolicy : Type 0 where
  pub keep_last : Option ℤ
  pub max_age : Option ℤ

-- The path of the local storage, if there is one, and whether the others are configured.
pub record StorageLocation : Type 0 where
  pub kind : String
  pub local : Option String
  pub has_s3 : Bool

pub record BackupSpec : Type 0 where
  pub mcp_server_ref : String
  pub schedule : String
  pub retention_policy : RetentionPolicy
  pub storage_location : StorageLocation
  pub suspend : Option Bool

pub record BackupCondition : Type 0 where
  pub kind : String
  pub status : String
  pub last_transition_time : ℤ
  pub reason : String
  pub message : String

pub record BackupStatus (Spec : Type 0) : Type 0 where
  pub phase : String
  pub message : String
  pub reason : String
  pub start_time : Option ℤ
  pub completion_time : Option ℤ
  pub backup_size : ℕ
  pub backup_location : String
  pub last_schedule_time : Option ℤ
  pub next_schedule_time : Option ℤ
  pub backup_data : Option (BackupData Spec)
  pub conditions : List BackupCondition

pub record Backup (Spec : Type 0) : Type 0 where
  pub name : String
  pub namespace : String
  pub uid : String
  pub labels : Dict String
  pub annotations : Dict String
  pub finalizers : List String
  pub is_deleted : Bool
  pub creation_timestamp : ℤ
  pub spec : BackupSpec
  pub status : BackupStatus Spec

-- The phases, `BackupPhase` in the source.
abbrev pub phase_pending : String
phase_pending = "Pending"

abbrev pub phase_running : String
phase_running = "Running"

abbrev pub phase_completed : String
phase_completed = "Completed"

abbrev pub phase_failed : String
phase_failed = "Failed"

-- `getConditionType` and `getConditionStatus`.
unfoldable pub get_condition_type : String → String
get_condition_type phase =
    if phase == phase_running
    then "Progressing"
    else if phase == phase_completed
    then "Ready"
    else if phase == phase_failed
    then "Failed"
    else "Progressing"

unfoldable pub get_condition_status : String → String
get_condition_status phase =
    if phase == phase_completed
    then "True"
    else if phase == phase_failed
    then "False"
    else "Unknown"

-- `updateConditions`: the first condition of the type is replaced whole.
unfoldable pub update_conditions : List BackupCondition → BackupCondition → List BackupCondition
update_conditions [] new = new ∷ []
update_conditions (c ∷ cs) new =
    let rest = update_conditions cs new in if c.kind == new.kind then new ∷ cs else c ∷ rest

module _ {Spec : Type 0} where
  -- What `updateBackupStatus` makes of the status, before it sends it.
  unfoldable pub set_status :
      (now : ℤ) → (phase message reason : String) → Backup Spec → Backup Spec
  unfolding update_conditions get_condition_type get_condition_status
  set_status now phase message reason b =
      let old = b.status in
      record b {
        status = record old {
          phase = phase;
          message = message;
          reason = reason;
          start_time =
              if phase == phase_running && not (is_some old.start_time)
              then some now
              else old.start_time;
          completion_time =
              if phase == phase_completed || phase == phase_failed
              then some now
              else old.completion_time;
          conditions = update_conditions old.conditions (record {
            kind = get_condition_type phase;
            status = get_condition_status phase;
            last_transition_time = now;
            reason = reason;
            message = message;
          });
        };
      }

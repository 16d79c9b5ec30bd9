-- ===== src/Backup/Controller.antt =====
-- controllers/mcpserverbackup_controller.go: `Reconcile`, `handleDeletion` and the cleanup by the
-- type of the storage.
use mcp_operator.Prelude.{
  String, ◌==◌, Bool, false, Option, none, some, List, [], ◌∷◌, ◌++◌, if◌then◌else◌, is_some,
  contains, concat,
}
use mcp_operator.Backup.{phase_pending, phase_failed}
use mcp_operator.Backup.Dependencies.{Server}
use mcp_operator.Backup.Files.{cleanup_backup_files}
use mcp_operator.Backup.Reconcile.{
  Found, found, absent, broken, Object, Env, Write, updated, status_updated, Reconciled, finalizer,
  without, ends, update_backup_status, handle_scheduled_backup, handle_one_time_backup,
}

abbrev pub is_suspended : Option Bool → Bool
is_suspended none = false
is_suspended (some suspend) = suspend

module _ {Rest : Type 0} (env : Env Rest) where
  abbrev pub clear_data : Object Rest → Object Rest
  clear_data b = record b {
    status = record (b.status) { backup_data = none; backup_size = 0; backup_location = "" };
  }

  -- `cleanupLocalBackup`: the writes, the object left, and the error. The temporary files and the
  -- indexes come last and report no error.
  unfoldable pub cleanup_files :
      List (Write Rest) → Object Rest → List (Write Rest) × Object Rest × Option String
  unfolding cleanup_backup_files
  cleanup_files writes b = elim (cleanup_backup_files env.stat env.remove_file b) [
    | none ↦ (writes, b, none)
    | some err ↦ (writes, b, some (concat ("failed to cleanup backup files: " ∷ err ∷ [])))
  ]

  -- The status without the data is sent: by the answer.
  unfoldable pub after_clearing :
      Option String → Object Rest → List (Write Rest) × Object Rest × Option String
  unfolding cleanup_files
  after_clearing none b = cleanup_files (status_updated b ∷ []) b
  after_clearing (some err) b =
      ([], b, some (concat ("failed to update backup status after cleanup: " ∷ err ∷ [])))

  unfoldable pub cleanup_local_backup :
      Object Rest → List (Write Rest) × Object Rest × Option String
  unfolding cleanup_files after_clearing
  cleanup_local_backup b =
      if is_some b.status.backup_data
      then after_clearing (env.update_status (clear_data b)) (clear_data b)
      else cleanup_files [] b

  -- `performBackupCleanup`, before it wraps the error.
  unfoldable pub perform_backup_cleanup :
      Object Rest → List (Write Rest) × Object Rest × Option String
  unfolding cleanup_local_backup
  perform_backup_cleanup b =
      let kind = b.spec.storage_location.kind in
      if kind == "Local"
      then cleanup_local_backup b
      else if kind == "S3"
      then ([], b, if b.spec.storage_location.has_s3 then env.cleanup_s3 b else none)
      else if kind == "GCS"
      then ([], b, none)
      else if kind == "Azure"
      then ([], b, none)
      else ([], b, some (concat ("unsupported storage type: " ∷ kind ∷ [])))

  -- `handleDeletion` after the cleanup.
  unfoldable pub release : List (Write Rest) × Object Rest × Option String → Reconciled Rest
  release (writes, b, some err) =
      ends writes 0 (some (concat ("failed to cleanup backup: " ∷ err ∷ [])))
  release (writes, b, none) =
      let released = record b { finalizers = without finalizer b.finalizers } in
      elim (env.update released) [
        | none ↦ ends (writes ++ updated released ∷ []) 0 none
        | some err ↦ ends writes 0 (some err)
      ]

  unfoldable pub handle_deletion : Object Rest → Reconciled Rest
  unfolding perform_backup_cleanup release
  handle_deletion b = release (perform_backup_cleanup b)

  unfoldable pub add_finalizer : Object Rest → Reconciled Rest
  add_finalizer b =
      let held = record b { finalizers = b.finalizers ++ finalizer ∷ [] } in
      elim (env.update held) [
        | none ↦ ends (updated held ∷ []) 1_000_000_000 none
        | some err ↦ ends [] 0 (some err)
      ]

  -- The server is there: a scheduled backup, or one for once.
  unfoldable pub back_up : Object Rest → Server Rest → Reconciled Rest
  unfolding handle_scheduled_backup handle_one_time_backup
  back_up b server =
      if b.spec.schedule == ""
      then handle_one_time_backup env b server
      else handle_scheduled_backup env b server

  -- By the answer to the read of the server.
  unfoldable pub reconcile_with : Object Rest → Found (Server Rest) → Reconciled Rest
  unfolding back_up update_backup_status
  reconcile_with b absent =
      (update_backup_status env [] b phase_failed
        (concat ("MCPServer " ∷ b.spec.mcp_server_ref ∷ " not found" ∷ [])) "MCPServerNotFound").1
  reconcile_with b (broken err) = ends [] 0 (some err)
  reconcile_with b (found server) = back_up b server

  -- A live backup with its finalizer.
  unfoldable pub reconcile_live : Object Rest → Reconciled Rest
  unfolding reconcile_with
  reconcile_live b =
      if is_suspended b.spec.suspend
      then (update_backup_status env [] b phase_pending "Backup is suspended" "Suspended").1
      else reconcile_with b (env.get_server b.spec.mcp_server_ref b.namespace)

  -- `Reconcile`, by the answer to the read of the backup.
  unfoldable pub reconcile : Found (Object Rest) → Reconciled Rest
  unfolding handle_deletion add_finalizer reconcile_live
  reconcile absent = ends [] 0 none
  reconcile (broken err) = ends [] 0 (some err)
  reconcile (found b) =
      if b.is_deleted
      then handle_deletion b
      else if contains b.finalizers finalizer
      then reconcile_live b
      else add_finalizer b

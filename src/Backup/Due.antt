-- ===== src/Backup/Due.antt =====
-- controllers/mcpserverbackup_controller.go: what a scheduled backup stores, and when.
use mcp_operator.Prelude.{
  String, ◌==◌, ◌≡◌, ap, ◌∙◌, inl, inr, true, Option, none, some, [], arith, if◌then◌else◌,
  Bool-cases, ℤ,
}
use mcp_operator.Backup.{BackupStatus, phase_completed, set_status}
use mcp_operator.Backup.Dependencies.{ServerSpec, Server}
use mcp_operator.Backup.Reconcile.{
  Object, Env, deletions, store_local_backup, backup_data_of, create_backup, stamp, plan_next,
  doomed_by, after_creation, run_schedule,
}
use mcp_operator.Backup.Phases.{
  stored, is_length, is_storable, has_come, is_due-has_come, stored-finish_schedule,
}

module _ {Rest : Type 0} (env : Env Rest) where
  -- The object with the data of a server that can be stored.
  pub record HasStored (b : Object Rest) (server : Server Rest) (made : Object Rest × Option String)
      : Type 0 where
    pub no_error : made.1 ≡ none
    pub content : made.0.status.backup_data ≡ some (backup_data_of env b server)
    pub same_last : made.0.status.last_schedule_time ≡ b.status.last_schedule_time
    pub same_next : made.0.status.next_schedule_time ≡ b.status.next_schedule_time

  store_local_backup-HasStored :
      (b : Object Rest) (server : Server Rest)
      → is_length (env.marshal (backup_data_of env b server)) ≡ true
      → HasStored b server (store_local_backup env b (backup_data_of env b server))
  unfolding store_local_backup
  store_local_backup-HasStored b server h = ground arith

  pub create_backup-HasStored :
      (b : Object Rest) (server : Server Rest)
      → is_storable env b server ≡ true
      → HasStored b server (create_backup env b server)
  unfolding create_backup is_storable
  create_backup-HasStored b server h = elim (Bool-cases (b.spec.storage_location.kind == "Local")) [
    | inl l ↦ rw l (store_local_backup-HasStored b server (ground arith))
    | inr l ↦ absurd (ground arith)
  ]

  module _ (accepted : (b : Object Rest) → env.update_status b ≡ none) where
    run_due :
        (b : Object Rest) (server : Server Rest) (made : Object Rest) (err : Option String)
        (old : BackupStatus (ServerSpec Rest))
        → HasStored b server (made, err)
        → stored old (after_creation env (made, err)).writes
          ≡ (set_status env.now phase_completed "Scheduled backup processed" "ScheduleProcessed"
              (stamp env made)).status
    unfolding after_creation
    run_due b server made (some err) old h = absurd (ground (arith, h.no_error))
    run_due b server made none old h =
        stored-finish_schedule env accepted (deletions (doomed_by env made)) (stamp env made) old

    -- What a scheduled reconciliation stores: the server's data and the instant if a backup is due,
    -- else what there was, and in either case the next instant.
    pub record IsScheduled (b : Object Rest) (server : Server Rest) (next : ℤ → ℤ) : Type 0 where
      pub content : (stored b.status (run_schedule env b server (some next)).writes).backup_data ≡ (
          if has_come env next b.status.last_schedule_time
          then some (backup_data_of env b server)
          else b.status.backup_data)
      pub last_time :
          (stored b.status (run_schedule env b server (some next)).writes).last_schedule_time ≡ (
            if has_come env next b.status.last_schedule_time
            then some env.now
            else b.status.last_schedule_time)
      pub next_time :
          (stored b.status (run_schedule env b server (some next)).writes).next_schedule_time
          ≡ some (next env.now)

    -- Where the API server accepts every status and the server can be stored, a scheduled
    -- reconciliation stores the data of the server and the instant as its last time if no backup
    -- was made before or the schedule's next instant after the last is not in the future; otherwise
    -- both stay. The next time is the schedule's next instant after now in both cases.
    pub run_schedule-IsScheduled :
        (b : Object Rest) (server : Server Rest) (next : ℤ → ℤ)
        → is_storable env b server ≡ true
        → IsScheduled b server next
    unfolding run_schedule set_status is_storable
    run_schedule-IsScheduled b server next storable =
        let same = is_due-has_come env next b.status.last_schedule_time in
        elim (Bool-cases (has_come env next b.status.last_schedule_time)) [
          | inl due ↦
              let h = create_backup-HasStored (plan_next env next b) server storable in
              let e =
                run_due (plan_next env next b) server
                  (create_backup env (plan_next env next b) server).0
                  (create_backup env (plan_next env next b) server).1 b.status h in
              record {
                content = rw (same, due) (ap (λ t. t.backup_data) e ∙ h.content);
                last_time = rw (same, due) (ap (λ t. t.last_schedule_time) e);
                next_time = rw (same, due) (ap (λ t. t.next_schedule_time) e ∙ h.same_next);
              }
          | inr early ↦
              let e = stored-finish_schedule env accepted [] (plan_next env next b) b.status in
              record {
                content = rw (same, early) (ap (λ t. t.backup_data) e);
                last_time = rw (same, early) (ap (λ t. t.last_schedule_time) e);
                next_time = rw (same, early) (ap (λ t. t.next_schedule_time) e);
              }
        ]

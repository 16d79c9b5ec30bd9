-- ===== src/Backup/Renewal.antt =====
-- controllers/mcpserverbackup_controller.go: a backup for once that is suspended and resumed.
use mcp_operator.Prelude.{
  String, ◌==◌, eq_iff, ◌≡◌, refl, sym, ap, ◌∙◌, subst, Bool, true, false, Option, none, some, List,
  [], arith, contains,
}
use mcp_operator.Backup.{BackupStatus, phase_pending, phase_running, phase_completed, set_status}
use mcp_operator.Backup.Dependencies.{ServerSpec, Server}
use mcp_operator.Backup.Reconcile.{
  found, Object, Env, Write, finalizer, update_backup_status, backup_data_of, create_backup,
  finish_one_time, handle_one_time_backup,
}
use mcp_operator.Backup.Controller.{
  is_suspended, back_up, reconcile_with, reconcile_live, reconcile,
}
use mcp_operator.Backup.Phases.{
  stored, is_storable, reconcile-live, stored-update_backup_status, error-update_backup_status,
}
use mcp_operator.Backup.Due.{HasStored, create_backup-HasStored}

module _ {Rest : Type 0} where
  abbrev pub with_suspend : Bool → Object Rest → Object Rest
  with_suspend s b = record b { spec = record (b.spec) { suspend = some s } }

  -- The object after a reconciliation whose writes are of its status only.
  abbrev pub after : Object Rest → List (Write Rest) → Object Rest
  after b ws = record b { status = stored b.status ws }

module _ {Rest : Type 0} (env : Env Rest)
    (accepted : (b : Object Rest) → env.update_status b ≡ none) where
  data-finish_one_time :
      (ws : List (Write Rest)) (b : Object Rest) (server : Server Rest) (made : Object Rest)
      (err : Option String) (old : BackupStatus (ServerSpec Rest))
      → HasStored env b server (made, err)
      → (stored old (finish_one_time env ws (made, err)).writes).backup_data
        ≡ some (backup_data_of env b server)
  unfolding finish_one_time set_status
  data-finish_one_time ws b server made (some err) old h = absurd (ground (arith, h.no_error))
  data-finish_one_time ws b server made none old h =
      ap (λ t. t.backup_data)
        (stored-update_backup_status env accepted ws made phase_completed
          "Backup created successfully" "BackupCompleted" old)
      ∙ h.content

  -- A backup for once that has not completed stores the data of the server as it is.
  pub data-handle_one_time_backup :
      (b : Object Rest) (server : Server Rest)
      → (b.status.phase == phase_completed) ≡ false
      → is_storable env b server ≡ true
      → (stored b.status (handle_one_time_backup env b server).writes).backup_data
        ≡ some (backup_data_of env b server)
  unfolding handle_one_time_backup set_status is_storable
  data-handle_one_time_backup b server fresh storable =
      let begun = set_status env.now phase_running "Creating backup" "BackupInProgress" b in
      let ws =
        (update_backup_status env [] b phase_running "Creating backup"
          "BackupInProgress").1.writes in
      rw
        (
          fresh,
          error-update_backup_status env accepted [] b phase_running "Creating backup"
              "BackupInProgress",
        )
        (data-finish_one_time ws begun server (create_backup env begun server).0
          (create_backup env begun server).1 b.status
          (create_backup-HasStored env begun server storable))

  awake :
      (b : Object Rest) (server : Server Rest)
      → is_suspended b.spec.suspend ≡ false
      → b.is_deleted ≡ false
      → contains b.finalizers finalizer ≡ true
      → (b.spec.schedule == "") ≡ true
      → env.get_server b.spec.mcp_server_ref b.namespace ≡ found server
      → reconcile env (found b) ≡ handle_one_time_backup env b server
  unfolding reconcile_live reconcile_with back_up
  awake b server on live held once there =
      reconcile-live env b live held ∙ rw (on, there, once) refl

  asleep :
      (b : Object Rest)
      → b.is_deleted ≡ false
      → contains b.finalizers finalizer ≡ true
      → stored b.status (reconcile env (found (with_suspend true b))).writes
        ≡ (set_status env.now phase_pending "Backup is suspended" "Suspended"
            (with_suspend true b)).status
  unfolding reconcile_live
  asleep b live held =
      ap (λ r. stored b.status r.writes) (reconcile-live env (with_suspend true b) live held)
      ∙ stored-update_backup_status env accepted [] (with_suspend true b) phase_pending
          "Backup is suspended" "Suspended" b.status

  -- Where the API server accepts every status, take a backup without a schedule that is completed,
  -- is not being deleted and has its finalizer, and whose server is found and can be stored. While
  -- it is not suspended, a reconciliation of it writes nothing. But once it has been suspended,
  -- reconciled and resumed, the next reconciliation replaces its data by those of the server that
  -- is found.
  pub suspension_renews :
      (b : Object Rest) (server : Server Rest)
      → b.is_deleted ≡ false
      → contains b.finalizers finalizer ≡ true
      → (b.spec.schedule == "") ≡ true
      → b.status.phase ≡ phase_completed
      → env.get_server b.spec.mcp_server_ref b.namespace ≡ found server
      → is_storable env b server ≡ true
      → let idle = (reconcile env (found (with_suspend false b))).writes in
        let paused = after b (reconcile env (found (with_suspend true b))).writes in
        let resumed = (reconcile env (found (with_suspend false paused))).writes in
        (idle ≡ [])
        × ((stored paused.status resumed).backup_data ≡ some (backup_data_of env b server))
  unfolding set_status is_storable handle_one_time_backup
  suspension_renews b server live held once over there storable =
      let slept = asleep b live held in
      let again =
        set_status env.now phase_pending "Backup is suspended" "Suspended" (with_suspend true b) in
      (
        ap (λ r. r.writes) (awake (with_suspend false b) server refl live held once there)
            ∙ ground (arith, eq_iff b.status.phase phase_completed),
        subst
            (λ t.
              (stored t
                (reconcile env
                  (found (record (with_suspend false b) { status = t }))).writes).backup_data
              ≡ some (backup_data_of env b server))
            (sym slept)
            (ap (λ r. (stored again.status r.writes).backup_data)
                (awake (with_suspend false again) server refl live held once there)
              ∙ data-handle_one_time_backup (with_suspend false again) server refl storable),
      )

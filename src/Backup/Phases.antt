-- ===== src/Backup/Phases.antt =====
-- controllers/mcpserverbackup_controller.go: the phase that a reconciliation leaves.
use mcp_operator.Prelude.{
  ℕ, String, ◌==◌, eq_iff, ◌≡◌, refl, ap, ◌∙◌, ◌⊎◌, inl, inr, Bool, true, false, ◌&&◌, not, Option,
  none, some, List, [], ◌∷◌, ◌++◌, arith, if◌then◌else◌, Bool-cases, is_some, ℤ, leb_ℤ, contains,
  concat,
}
use mcp_operator.Backup.{
  BackupData, BackupStatus, phase_pending, phase_running, phase_completed, phase_failed, set_status,
}
use mcp_operator.Backup.Dependencies.{ServerSpec, Server}
use mcp_operator.Backup.Reconcile.{
  Found, found, absent, broken, Object, Env, Write, updated, status_updated, deletion, finalizer,
  deletions, update_backup_status, store_local_backup, backup_data_of, create_backup, is_due,
  finish_schedule, stamp, plan_next, doomed_by, after_creation, run_schedule,
  handle_scheduled_backup, finish_one_time, handle_one_time_backup,
}
use mcp_operator.Backup.Controller.{
  is_suspended, back_up, reconcile_with, reconcile_live, reconcile,
}

module _ {Rest : Type 0} where
  -- The status that the last of the writes leaves of a backup, from the status before them.
  unfoldable pub stored :
      BackupStatus (ServerSpec Rest) → List (Write Rest) → BackupStatus (ServerSpec Rest)
  stored old [] = old
  stored old (status_updated b ∷ ws) = stored b.status ws
  stored old (updated b ∷ ws) = stored old ws
  stored old (deletion b ∷ ws) = stored old ws

  pub stored-append :
      (old : BackupStatus (ServerSpec Rest)) (ws vs : List (Write Rest))
      → stored old (ws ++ vs) ≡ stored (stored old ws) vs
  unfolding stored
  stored-append old [] vs = refl
  stored-append old (status_updated b ∷ ws) vs = stored-append b.status ws vs
  stored-append old (updated b ∷ ws) vs = stored-append old ws vs
  stored-append old (deletion b ∷ ws) vs = stored-append old ws vs

  pub stored-deletions :
      (old : BackupStatus (ServerSpec Rest)) (bs : List (Object Rest))
      → stored old (deletions bs) ≡ old
  unfolding stored
  stored-deletions old [] = refl
  stored-deletions old (b ∷ bs) = stored-deletions old bs

abbrev pub is_length : String ⊎ ℕ → Bool
is_length (inl err) = false
is_length (inr n) = true

module _ {Rest : Type 0} (env : Env Rest) where
  -- The one storage that is implemented, and data that can be encoded.
  unfoldable pub is_storable : Object Rest → Server Rest → Bool
  is_storable b server =
      b.spec.storage_location.kind == "Local"
      && is_length (env.marshal (backup_data_of env b server))

  -- No backup was made before, or the schedule's instant after the last one is not in the future.
  abbrev pub has_come : (next : ℤ → ℤ) → (last : Option ℤ) → Bool
  has_come next none = true
  has_come next (some last) = leb_ℤ (next last) env.now

  pub is_due-has_come : (next : ℤ → ℤ) (last : Option ℤ) → is_due env next last ≡ has_come next last
  unfolding is_due
  is_due-has_come next none = refl
  is_due-has_come next (some last) = ground arith

  abbrev pub verdict : Bool → String
  verdict true = phase_completed
  verdict false = phase_failed

  -- The phase of a scheduled backup, by its schedule.
  abbrev pub scheduled_phase : Object Rest → Server Rest → Option (ℤ → ℤ) → String
  scheduled_phase b server none = phase_failed
  scheduled_phase b server (some next) =
      if has_come next b.status.last_schedule_time
      then verdict (is_storable b server)
      else phase_completed

  abbrev pub phase_with : Object Rest → Found (Server Rest) → String
  phase_with b absent = phase_failed
  phase_with b (broken err) = b.status.phase
  phase_with b (found server) =
      if b.spec.schedule == ""
      then if b.status.phase == phase_completed
        then phase_completed
        else verdict (is_storable b server)
      else scheduled_phase b server (env.parse_schedule b.spec.schedule)

  -- The phase that is promised for a live backup with its finalizer.
  abbrev pub promised_phase : Object Rest → String
  promised_phase b =
      if is_suspended b.spec.suspend
      then phase_pending
      else phase_with b (env.get_server b.spec.mcp_server_ref b.namespace)

  is_some-store_local_backup :
      (b : Object Rest) (content : BackupData (ServerSpec Rest))
      → is_some (store_local_backup env b content).1 ≡ not (is_length (env.marshal content))
  unfolding store_local_backup
  is_some-store_local_backup b content = ground arith

  -- A creation fails exactly where the data cannot be stored.
  pub is_some-create_backup :
      (b : Object Rest) (server : Server Rest)
      → is_some (create_backup env b server).1 ≡ not (is_storable b server)
  unfolding create_backup is_storable
  is_some-create_backup b server = elim (Bool-cases (b.spec.storage_location.kind == "Local")) [
    | inl l ↦ rw l (is_some-store_local_backup b (backup_data_of env b server))
    | inr l ↦ rw l (elim (Bool-cases (b.spec.storage_location.kind == "S3")) [
      | inl k ↦ rw k refl
      | inr k ↦ rw k (elim (Bool-cases (b.spec.storage_location.kind == "GCS")) [
        | inl g ↦ rw g refl
        | inr g ↦ rw g (elim (Bool-cases (b.spec.storage_location.kind == "Azure")) [
          | inl a ↦ rw a refl
          | inr a ↦ rw a refl
        ])
      ])
    ])
  ]

  pub reconcile-live :
      (b : Object Rest)
      → b.is_deleted ≡ false
      → contains b.finalizers finalizer ≡ true
      → reconcile env (found b) ≡ reconcile_live env b
  unfolding reconcile
  reconcile-live b live held = ground arith

  module _ (accepted : (b : Object Rest) → env.update_status b ≡ none) where
    pub stored-update_backup_status :
        (ws : List (Write Rest)) (b : Object Rest) (phase message reason : String)
        (old : BackupStatus (ServerSpec Rest))
        → stored old (update_backup_status env ws b phase message reason).1.writes
          ≡ (set_status env.now phase message reason b).status
    unfolding update_backup_status stored
    stored-update_backup_status ws b phase message reason old =
        rw (accepted (set_status env.now phase message reason b)) (stored-append old ws _)

    pub error-update_backup_status :
        (ws : List (Write Rest)) (b : Object Rest) (phase message reason : String)
        → (update_backup_status env ws b phase message reason).1.error ≡ none
    unfolding update_backup_status
    error-update_backup_status ws b phase message reason =
        rw (accepted (set_status env.now phase message reason b)) refl

    pub stored-finish_schedule :
        (ws : List (Write Rest)) (b : Object Rest) (old : BackupStatus (ServerSpec Rest))
        → stored old (finish_schedule env ws b).writes
          ≡ (set_status env.now phase_completed "Scheduled backup processed" "ScheduleProcessed"
              b).status
    unfolding finish_schedule
    stored-finish_schedule ws b old =
        rw
          (error-update_backup_status ws b phase_completed "Scheduled backup processed"
            "ScheduleProcessed")
          (stored-update_backup_status ws b phase_completed _ _ old)

    -- The status after a creation at the due instant, by the creation's error.
    phase-after_creation :
        (made : Object Rest) (err : Option String) (old : BackupStatus (ServerSpec Rest))
        → (stored old (after_creation env (made, err)).writes).phase ≡ verdict (not (is_some err))
    unfolding after_creation set_status
    phase-after_creation made (some err) old =
        ap (λ t. t.phase)
          (stored-update_backup_status [] made phase_failed
            (concat ("Failed to create backup: " ∷ err ∷ [])) "BackupCreationFailed" old)
    phase-after_creation made none old =
        ap (λ t. t.phase)
          (stored-finish_schedule (deletions (doomed_by env made)) (stamp env made) old)

    phase-create_backup :
        (b : Object Rest) (server : Server Rest) (old : BackupStatus (ServerSpec Rest))
        → (stored old (after_creation env (create_backup env b server)).writes).phase
          ≡ verdict (is_storable b server)
    phase-create_backup b server old =
        phase-after_creation (create_backup env b server).0 (create_backup env b server).1 old
        ∙ rw (is_some-create_backup b server) (ap verdict (ground arith))

    phase-run_schedule :
        (b : Object Rest) (server : Server Rest) (next : Option (ℤ → ℤ))
        → (stored b.status (run_schedule env b server next).writes).phase
          ≡ scheduled_phase b server next
    unfolding run_schedule is_storable set_status
    phase-run_schedule b server none =
        ap (λ t. t.phase)
          (stored-update_backup_status [] b phase_failed
            (concat ("Invalid schedule format: " ∷ b.spec.schedule ∷ [])) "InvalidSchedule"
            b.status)
    phase-run_schedule b server (some next) =
        let same = is_due-has_come next b.status.last_schedule_time in
        elim (Bool-cases (has_come next b.status.last_schedule_time)) [
          | inl due ↦ rw (same, due) (phase-create_backup (plan_next env next b) server b.status)
          | inr early ↦
              rw (same, early)
                (ap (λ t. t.phase) (stored-finish_schedule [] (plan_next env next b) b.status))
        ]

    phase-finish_one_time :
        (ws : List (Write Rest)) (made : Object Rest) (err : Option String)
        (old : BackupStatus (ServerSpec Rest))
        → (stored old (finish_one_time env ws (made, err)).writes).phase
          ≡ verdict (not (is_some err))
    unfolding finish_one_time set_status
    phase-finish_one_time ws made (some err) old =
        ap (λ t. t.phase)
          (stored-update_backup_status ws made phase_failed
            (concat ("Failed to create backup: " ∷ err ∷ [])) "BackupCreationFailed" old)
    phase-finish_one_time ws made none old =
        ap (λ t. t.phase)
          (stored-update_backup_status ws made phase_completed "Backup created successfully"
            "BackupCompleted" old)

    -- A creation depends on the specification and the metadata of a backup, not on its status.
    phase-made :
        (ws : List (Write Rest)) (begun b : Object Rest) (server : Server Rest)
        (old : BackupStatus (ServerSpec Rest))
        → is_storable begun server ≡ is_storable b server
        → (stored old (finish_one_time env ws (create_backup env begun server)).writes).phase
          ≡ verdict (is_storable b server)
    phase-made ws begun b server old same =
        phase-finish_one_time ws (create_backup env begun server).0
          (create_backup env begun server).1 old
        ∙ rw (is_some-create_backup begun server, same) (ap verdict (ground arith))

    phase-handle_one_time_backup :
        (b : Object Rest) (server : Server Rest)
        → (stored b.status (handle_one_time_backup env b server).writes).phase ≡ (
            if b.status.phase == phase_completed
            then phase_completed
            else verdict (is_storable b server))
    unfolding handle_one_time_backup stored is_storable
    phase-handle_one_time_backup b server = elim (Bool-cases (b.status.phase == phase_completed)) [
      | inl over ↦ rw over ((eq_iff b.status.phase phase_completed).0 over)
      | inr open_still ↦
          rw
            (
              open_still,
              error-update_backup_status [] b phase_running "Creating backup" "BackupInProgress",
            )
            (phase-made
              (update_backup_status env [] b phase_running "Creating backup"
                "BackupInProgress").1.writes
              (set_status env.now phase_running "Creating backup" "BackupInProgress" b) b server
              b.status refl)
    ]

    phase-reconcile_with :
        (b : Object Rest) (answer : Found (Server Rest))
        → (stored b.status (reconcile_with env b answer).writes).phase ≡ phase_with b answer
    unfolding reconcile_with back_up set_status handle_scheduled_backup stored
    phase-reconcile_with b absent =
        ap (λ t. t.phase)
          (stored-update_backup_status [] b phase_failed
            (concat ("MCPServer " ∷ b.spec.mcp_server_ref ∷ " not found" ∷ [])) "MCPServerNotFound"
            b.status)
    phase-reconcile_with b (broken err) = refl
    phase-reconcile_with b (found server) = elim (Bool-cases (b.spec.schedule == "")) [
      | inl once ↦ rw once (phase-handle_one_time_backup b server)
      | inr often ↦ rw often (phase-run_schedule b server (env.parse_schedule b.spec.schedule))
    ]

    phase-reconcile_live :
        (b : Object Rest) → (stored b.status (reconcile_live env b).writes).phase ≡ promised_phase b
    unfolding reconcile_live set_status
    phase-reconcile_live b = elim (Bool-cases (is_suspended b.spec.suspend)) [
      | inl off ↦ rw off (
          ap (λ t. t.phase)
            (stored-update_backup_status [] b phase_pending "Backup is suspended" "Suspended"
              b.status))
      | inr on ↦ rw on (phase-reconcile_with b (env.get_server b.spec.mcp_server_ref b.namespace))
    ]

    -- Where the API server accepts every status, a reconciliation of a backup that is not being
    -- deleted and has its finalizer leaves this phase: Pending if the backup is suspended.
    -- Otherwise Failed if the server is missing, and the phase that was there if the server cannot
    -- be read. With a server that is found, a backup without a schedule is Completed if it was so
    -- before or its storage is local and its data can be encoded, else Failed. One with a schedule
    -- is Failed if the schedule does not parse, and Failed if the schedule's instant after the last
    -- backup is not in the future, or there was no backup, while the storage is not local or the
    -- data cannot be encoded; else it is Completed.
    pub phase-reconcile :
        (b : Object Rest)
        → b.is_deleted ≡ false
        → contains b.finalizers finalizer ≡ true
        → (stored b.status (reconcile env (found b)).writes).phase ≡ promised_phase b
    phase-reconcile b live held = rw (reconcile-live b live held) (phase-reconcile_live b)

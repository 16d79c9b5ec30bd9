-- ===== src/Backup/Release.antt =====
-- controllers/mcpserverbackup_controller.go: the finalizer holds a backup until it is cleaned up.
use mcp_operator.Prelude.{
  String, eq_iff, ◌≡◌, refl, ap, ◌∙◌, Bool, true, false, ◌&&◌, ◌||◌, not, Option, none, some, List,
  [], ◌∷◌, ◌++◌, arith, is_some, any, ℤ, contains, concat,
}
use mcp_operator.Backup.{phase_pending, phase_running, phase_completed, phase_failed, set_status}
use mcp_operator.Backup.Dependencies.{Server}
use mcp_operator.Backup.Reconcile.{
  Found, found, absent, broken, Object, Env, Write, updated, status_updated, deletion, Reconciled,
  finalizer, without, ends, deletions, update_backup_status, create_backup, finish_schedule, stamp,
  plan_next, doomed_by, after_creation, run_schedule, handle_scheduled_backup, finish_one_time,
  handle_one_time_backup,
}
use mcp_operator.Backup.Controller.{
  clear_data, cleanup_files, after_clearing, cleanup_local_backup, perform_backup_cleanup, release,
  handle_deletion, add_finalizer, back_up, reconcile_with, reconcile_live, reconcile,
}

contains-without : (f : String) (fs : List String) → contains (without f fs) f ≡ false
contains-without f [] = refl
contains-without f (g ∷ gs) = ground (arith, contains-without f gs)

contains-append : (fs : List String) (f : String) → contains (fs ++ f ∷ []) f ≡ true
contains-append [] f = ground (arith, eq_iff f f)
contains-append (g ∷ gs) f = ground (arith, contains-append gs f)

module _ {Rest : Type 0} where
  -- A write after which the object is held no more.
  abbrev pub is_release : Write Rest → Bool
  is_release (updated b) = not (contains b.finalizers finalizer)
  is_release (status_updated b) = false
  is_release (deletion b) = false

  any-append :
      (ws vs : List (Write Rest))
      → any is_release (ws ++ vs) ≡ (any is_release ws || any is_release vs)
  any-append [] vs = refl
  any-append (w ∷ ws) vs = ground (arith, any-append ws vs)

  any-deletions : (bs : List (Object Rest)) → any is_release (deletions bs) ≡ false
  any-deletions [] = refl
  any-deletions (b ∷ bs) = any-deletions bs

module _ {Rest : Type 0} (env : Env Rest) where
  any-update_backup_status :
      (ws : List (Write Rest)) (b : Object Rest) (phase message reason : String)
      → any is_release ws ≡ false
      → any is_release (update_backup_status env ws b phase message reason).1.writes ≡ false
  unfolding update_backup_status
  any-update_backup_status ws b phase message reason h =
      answered (env.update_status (set_status env.now phase message reason b))
    where
      sent : Object Rest
      sent = set_status env.now phase message reason b

      answered :
          (answer : Option String)
          → any is_release
              (elim answer as (λ _. Reconciled Rest) [
                | none ↦ ends (ws ++ status_updated sent ∷ []) 0 none
                | some err ↦
                    ends ws 0 (some (concat ("failed to update backup status: " ∷ err ∷ [])))
              ]).writes
            ≡ false
      answered none = any-append ws (status_updated sent ∷ []) ∙ rw h refl
      answered (some err) = h

  any-finish_schedule :
      (ws : List (Write Rest)) (b : Object Rest)
      → any is_release ws ≡ false
      → any is_release (finish_schedule env ws b).writes ≡ false
  unfolding finish_schedule
  any-finish_schedule ws b h = ground (
    arith,
    any-update_backup_status ws b phase_completed "Scheduled backup processed" "ScheduleProcessed"
        h,
  )

  any-after_creation :
      (made : Object Rest) (err : Option String)
      → any is_release (after_creation env (made, err)).writes ≡ false
  unfolding after_creation
  any-after_creation made (some err) = any-update_backup_status [] made phase_failed _ _ refl
  any-after_creation made none =
      any-finish_schedule (deletions (doomed_by env made)) (stamp env made)
        (any-deletions (doomed_by env made))

  any-run_schedule :
      (b : Object Rest) (server : Server Rest) (next : Option (ℤ → ℤ))
      → any is_release (run_schedule env b server next).writes ≡ false
  unfolding run_schedule
  any-run_schedule b server none = any-update_backup_status [] b phase_failed _ _ refl
  any-run_schedule b server (some next) = ground (
    arith,
    any-after_creation (create_backup env (plan_next env next b) server).0
        (create_backup env (plan_next env next b) server).1,
    any-finish_schedule [] (plan_next env next b) refl,
  )

  any-finish_one_time :
      (ws : List (Write Rest)) (made : Object Rest) (err : Option String)
      → any is_release ws ≡ false
      → any is_release (finish_one_time env ws (made, err)).writes ≡ false
  unfolding finish_one_time
  any-finish_one_time ws made (some err) h = any-update_backup_status ws made phase_failed _ _ h
  any-finish_one_time ws made none h = any-update_backup_status ws made phase_completed _ _ h

  any-handle_one_time_backup :
      (b : Object Rest) (server : Server Rest)
      → any is_release (handle_one_time_backup env b server).writes ≡ false
  unfolding handle_one_time_backup
  any-handle_one_time_backup b server =
      let begun =
        update_backup_status env [] b phase_running "Creating backup" "BackupInProgress" in
      let h =
        any-update_backup_status [] b phase_running "Creating backup" "BackupInProgress" refl in
      ground (
        arith,
        h,
        any-finish_one_time begun.1.writes (create_backup env begun.0 server).0
            (create_backup env begun.0 server).1 h,
      )

  any-reconcile_with :
      (b : Object Rest) (answer : Found (Server Rest))
      → any is_release (reconcile_with env b answer).writes ≡ false
  unfolding reconcile_with back_up handle_scheduled_backup
  any-reconcile_with b absent = any-update_backup_status [] b phase_failed _ _ refl
  any-reconcile_with b (broken err) = refl
  any-reconcile_with b (found server) = ground (
    arith,
    any-handle_one_time_backup b server,
    any-run_schedule b server (env.parse_schedule b.spec.schedule),
  )

  any-reconcile_live : (b : Object Rest) → any is_release (reconcile_live env b).writes ≡ false
  unfolding reconcile_live
  any-reconcile_live b = ground (
    arith,
    any-update_backup_status [] b phase_pending "Backup is suspended" "Suspended" refl,
    any-reconcile_with b (env.get_server b.spec.mcp_server_ref b.namespace),
  )

  any-cleanup_files :
      (ws : List (Write Rest)) (b : Object Rest)
      → any is_release (cleanup_files env ws b).0 ≡ any is_release ws
  unfolding cleanup_files
  any-cleanup_files ws b = ground arith

  any-after_clearing :
      (answer : Option String) (b : Object Rest)
      → any is_release (after_clearing env answer b).0 ≡ false
  unfolding after_clearing
  any-after_clearing none b = any-cleanup_files (status_updated b ∷ []) b
  any-after_clearing (some err) b = refl

  any-perform_backup_cleanup :
      (b : Object Rest) → any is_release (perform_backup_cleanup env b).0 ≡ false
  unfolding perform_backup_cleanup cleanup_local_backup
  any-perform_backup_cleanup b = ground (
    arith,
    any-after_clearing (env.update_status (clear_data env b)) (clear_data env b),
    any-cleanup_files [] b,
  )

  any-release :
      (ws : List (Write Rest)) (b : Object Rest) (err : Option String)
      → ((b : Object Rest) → env.update b ≡ none)
      → any is_release ws ≡ false
      → any is_release (release env (ws, b, err)).writes ≡ not (is_some err)
  unfolding release
  any-release ws b (some err) accepted h = h
  any-release ws b none accepted h =
      let released : Object Rest = record b { finalizers = without finalizer b.finalizers } in
      let sent : (release env (ws, b, none)).writes ≡ ws ++ updated released ∷ [] =
        ground (arith, accepted released) in
      ap (any is_release) sent
      ∙ any-append ws (updated released ∷ [])
      ∙ rw (h, contains-without finalizer b.finalizers) refl

  any-add_finalizer : (b : Object Rest) → any is_release (add_finalizer env b).writes ≡ false
  unfolding add_finalizer
  any-add_finalizer b = ground (arith, contains-append b.finalizers finalizer)

  -- Where the API server accepts the updates of the object, a reconciliation takes the finalizer
  -- off a backup exactly if the backup is being deleted and its cleanup reports no error.
  pub any-reconcile :
      (b : Object Rest)
      → ((b : Object Rest) → env.update b ≡ none)
      → any is_release (reconcile env (found b)).writes
        ≡ (b.is_deleted && not (is_some (perform_backup_cleanup env b).2))
  unfolding reconcile handle_deletion
  any-reconcile b accepted =
      let cleaned = perform_backup_cleanup env b in
      ground (
        arith,
        any-release cleaned.0 cleaned.1 cleaned.2 accepted (any-perform_backup_cleanup b),
        any-reconcile_live b,
        any-add_finalizer b,
      )

-- ===== src/Backup/Conditions.antt =====
-- controllers/mcpserverbackup_controller.go: a list of conditions as a map from types, and what a
-- change of phase makes of it.
use mcp_operator.Prelude.{
  String, ◌==◌, eq_iff, ◌≡◌, refl, ap, ◌∙◌, inl, inr, Option, none, some, List, [], ◌∷◌, arith,
  if◌then◌else◌, Bool-cases, ℤ,
}
use mcp_operator.Backup.{
  BackupCondition, Backup, phase_running, phase_completed, phase_failed, get_condition_type,
  get_condition_status, update_conditions, set_status,
}

pub find_backup_condition : (kind : String) → List BackupCondition → Option BackupCondition
find_backup_condition kind [] = none
find_backup_condition kind (c ∷ cs) =
    let rest = find_backup_condition kind cs in if c.kind == kind then some c else rest

-- A lookup after a write finds the new condition under its type, and under any other type what was
-- there before.
pub find_backup_condition-update_conditions :
    (new : BackupCondition) (kind : String) (cs : List BackupCondition)
    → find_backup_condition kind (update_conditions cs new)
      ≡ (if new.kind == kind then some new else find_backup_condition kind cs)
unfolding find_backup_condition update_conditions
find_backup_condition-update_conditions new kind [] = refl
find_backup_condition-update_conditions new kind (c ∷ cs) = ground (
  arith,
  eq_iff c.kind new.kind,
  eq_iff c.kind kind,
  eq_iff new.kind kind,
  find_backup_condition-update_conditions new kind cs,
)

get_condition_type-eq-ready :
    (phase : String) → (get_condition_type phase == "Ready") ≡ (phase == phase_completed)
unfolding get_condition_type
get_condition_type-eq-ready phase = elim (Bool-cases (phase == phase_running)) [
  | inl r ↦ rw ((eq_iff phase phase_running).0 r) refl
  | inr r ↦ rw r (elim (Bool-cases (phase == phase_completed)) [
    | inl c ↦ rw c refl
    | inr c ↦
        rw c (elim (Bool-cases (phase == phase_failed)) [ inl f ↦ rw f refl | inr f ↦ rw f refl ])
  ])
]

-- The status of a condition, if it is there.
abbrev pub status_of : Option BackupCondition → Option String
status_of none = none
status_of (some c) = some c.status

module _ {Spec : Type 0} where
  abbrev pub condition : String → Backup Spec → Option String
  condition kind b = status_of (find_backup_condition kind b.status.conditions)

  -- A backup whose phase becomes Failed has its condition Failed at "False", and keeps its
  -- condition Ready as it was: one that has completed before stays ready.
  pub condition-set_status_failed :
      (now : ℤ) (message reason : String) (b : Backup Spec)
      → (condition "Failed" (set_status now phase_failed message reason b) ≡ some "False")
        × (condition "Ready" (set_status now phase_failed message reason b) ≡ condition "Ready" b)
  unfolding set_status get_condition_type get_condition_status
  condition-set_status_failed now message reason b = (
    ap status_of (find_backup_condition-update_conditions _ "Failed" b.status.conditions),
    ap status_of (find_backup_condition-update_conditions _ "Ready" b.status.conditions),
  )

  -- Ready is set by the phase Completed alone, to "True"; every other phase leaves it.
  pub condition-set_status_ready :
      (now : ℤ) (phase message reason : String) (b : Backup Spec)
      → condition "Ready" (set_status now phase message reason b)
        ≡ (if phase == phase_completed then some "True" else condition "Ready" b)
  unfolding set_status get_condition_status
  condition-set_status_ready now phase message reason b =
      ap status_of (find_backup_condition-update_conditions _ "Ready" b.status.conditions)
      ∙ rw (get_condition_type-eq-ready phase)
          (elim (Bool-cases (phase == phase_completed)) [ inl c ↦ rw c refl | inr c ↦ rw c refl ])

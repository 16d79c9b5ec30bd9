-- ===== src/Backup/Retention.antt =====
-- controllers/mcpserverbackup_controller.go, `enforceRetentionPolicy`. `sort.Slice` is a parameter,
-- since it leaves the order of equal elements open, and so are the answers of the API server.
use mcp_operator.Prelude.{
  ℕ, zero, suc, String, ◌==◌, ◌⊎◌, inl, inr, Bool, false, ◌&&◌, ◌||◌, not, Option, none, some, List,
  [], ◌∷◌, ◌++◌, ltb, eqb, if◌then◌else◌, length, ℤ, pos, pos_part, ◌-ℤ◌, ltb_ℤ, concat,
}
use mcp_operator.Backup.{RetentionPolicy, Backup, phase_completed}

-- The answers to a deletion.
pub data Deletion : Type 0 where
  done : Deletion
  not_found : Deletion
  refused : String → Deletion

module _ {Spec : Type 0} where
  abbrev pub select : (Backup Spec → Bool) → List (Backup Spec) → List (Backup Spec)
  select test [] = []
  select test (b ∷ bs) = let rest = select test bs in if test b then b ∷ rest else rest

  abbrev pub is_completed : Backup Spec → Bool
  is_completed b = b.status.phase == phase_completed

  -- The comparison of two backups by name and namespace.
  abbrev pub is_same : Backup Spec → Backup Spec → Bool
  is_same b c = c.name == b.name && c.namespace == b.namespace

  abbrev pub is_among : List (Backup Spec) → Backup Spec → Bool
  is_among [] b = false
  is_among (c ∷ cs) b = is_same b c || is_among cs b

  abbrev pub after_first : ℕ → List (Backup Spec) → List (Backup Spec)
  after_first zero bs = bs
  after_first (suc n) [] = []
  after_first (suc n) (b ∷ bs) = after_first n bs

  -- The comparator that `sort.Slice` is given: the newest first.
  abbrev pub is_newer : Backup Spec → Backup Spec → Bool
  is_newer b c = ltb_ℤ c.creation_timestamp b.creation_timestamp

  -- The policy `KeepLast`.
  unfoldable pub beyond_last : ℤ → List (Backup Spec) → List (Backup Spec)
  beyond_last keep_last bs =
      if ltb_ℤ (pos 0) keep_last
      then if ltb (pos_part keep_last) (length bs) then after_first (pos_part keep_last) bs else []
      else []

  abbrev pub is_older : (cutoff : ℤ) → Backup Spec → Bool
  is_older cutoff b = ltb_ℤ b.creation_timestamp cutoff

  -- The loop of the policy `MaxAge`, over the completed backups.
  unfoldable pub add_older :
      (cutoff : ℤ) → List (Backup Spec) → List (Backup Spec) → List (Backup Spec)
  add_older cutoff [] doomed = doomed
  add_older cutoff (b ∷ bs) doomed =
      add_older cutoff bs
        (if is_older cutoff b && not (is_among doomed b) then doomed ++ b ∷ [] else doomed)

  -- `backupsToDelete`, from the completed backups with the newest first.
  unfoldable pub to_delete :
      (now : ℤ) → (keep_last : ℤ) → (max_age : Option ℤ) → List (Backup Spec) → List (Backup Spec)
  unfolding beyond_last add_older
  to_delete now keep_last none bs = beyond_last keep_last bs
  to_delete now keep_last (some age) bs = add_older (now -ℤ age) bs (beyond_last keep_last bs)

  -- The loop of the deletions: those asked for, and the error that ends it.
  unfoldable pub request_deletions :
      (Backup Spec → Deletion) → List (Backup Spec) → List (Backup Spec) × Option String
  request_deletions delete [] = ([], none)
  request_deletions delete (b ∷ bs) = elim (delete b) [
    | refused err ↦ (b ∷ [], some (concat ("failed to delete backup " ∷ b.name ∷ ": " ∷ err ∷ [])))
    | _ ↦ let (asked, err) = request_deletions delete bs in (b ∷ asked, err)
  ]

  -- The deletions asked for, and the error.
  unfoldable pub enforce_retention_policy :
      (sort : (less : Backup Spec → Backup Spec → Bool) → List (Backup Spec) → List (Backup Spec))
      → (delete : Backup Spec → Deletion) → (now : ℤ) → (listed : String ⊎ List (Backup Spec))
      → RetentionPolicy
      → List (Backup Spec) × Option String
  unfolding to_delete request_deletions
  enforce_retention_policy sort delete now listed policy = elim policy.keep_last [
    | none ↦ ([], none)
    | some keep_last ↦ elim listed [
      | inl err ↦ ([], some (concat ("failed to list backups: " ∷ err ∷ [])))
      | inr items ↦
          let found = select is_completed items in
          if eqb (length found) 0
          then ([], none)
          else request_deletions delete
              (to_delete now keep_last policy.max_age (sort is_newer found))
    ]
  ]

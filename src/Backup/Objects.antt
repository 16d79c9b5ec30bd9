-- ===== src/Backup/Objects.antt =====
-- controllers/mcpserverbackup_controller.go, `deleteS3BackupObjects`: which objects of a bucket go.
use mathlib.Core.Option
use mcp_operator.Prelude.{
  ℕ, zero, suc, String, ◌==◌, Bool, true, false, ◌&&◌, ◌||◌, not, Option, none, some, List, [], ◌∷◌,
  ◌++◌, if◌then◌else◌, runes, has_infix, concat,
}
use mcp_operator.Backup.{Backup}

-- An answer of the paginator: an error, or the keys of a page and whether there are more.
pub data Page : Type 0 where
  broken : Page
  page : (keys : List String) → (more : Bool) → Page

-- One round, given what the later requests bring; an error is followed by the next request.
abbrev pub collect : Page → Option (List String) → Option (List String)
collect broken later = later
collect (page keys false) later = some keys
collect (page keys true) none = none
collect (page keys true) (some rest) = some (keys ++ rest)

-- The loop over the pages of one listing, from the n-th request on, which `answer n` answers.
-- `none` if `rounds` requests do not end it.
unfoldable pub list_objects : (rounds : ℕ) → (answer : ℕ → Page) → (n : ℕ) → Option (List String)
list_objects zero answer n = none
list_objects (suc rounds) answer n = collect (answer n) (list_objects rounds answer (suc n))

module _ {Spec : Type 0} where
  abbrev pub name_and_uid : Backup Spec → String
  name_and_uid b = concat (b.name ∷ "-" ∷ b.uid ∷ [])

  abbrev pub is_in_namespace : String → Backup Spec → Bool
  is_in_namespace key b =
      has_infix (runes b.namespace) (runes key) || not (has_infix (runes "/") (runes key))

  -- `matchesBackupPattern`.
  unfoldable pub matches_backup_pattern : (key : String) → Backup Spec → Bool
  matches_backup_pattern key b =
      (has_infix (runes (name_and_uid b)) (runes key) && is_in_namespace key b)
      || (has_infix (runes b.name) (runes key) && is_in_namespace key b)

  -- `backupKeyPatterns`.
  unfoldable pub backup_key_patterns : (prefix : String) → Backup Spec → List String
  backup_key_patterns prefix b =
      let file = concat (name_and_uid b ∷ ".json" ∷ []) in
      if prefix == ""
      then file
        ∷ concat (b.namespace ∷ "/" ∷ file ∷ [])
        ∷ concat (b.namespace ∷ "/" ∷ b.name ∷ ".json" ∷ [])
        ∷ []
      else concat (prefix ∷ "/" ∷ file ∷ [])
        ∷ concat (prefix ∷ "/" ∷ b.namespace ∷ "/" ∷ file ∷ [])
        ∷ concat (prefix ∷ "/" ∷ b.namespace ∷ "/" ∷ b.name ∷ ".json" ∷ [])
        ∷ []

  abbrev pub matching : Backup Spec → List String → List String
  matching b [] = []
  matching b (key ∷ keys) =
      let rest = matching b keys in if matches_backup_pattern key b then key ∷ rest else rest

  -- The objects to delete, where `list` gives the keys with a prefix. No pattern has a star, since
  -- no name has one.
  unfoldable pub objects_to_delete :
      (list : String → List String) → (patterns : List String) → Backup Spec → List String
  unfolding matches_backup_pattern
  objects_to_delete list [] b = []
  objects_to_delete list (pattern ∷ patterns) b =
      matching b (list pattern) ++ objects_to_delete list patterns b

-- `batch := objectsToDelete[i:end]` and what is left.
abbrev pub split_at : ℕ → List String → List String × List String
split_at zero keys = ([], keys)
split_at (suc n) [] = ([], [])
split_at (suc n) (key ∷ keys) = let (batch, rest) = split_at n keys in (key ∷ batch, rest)

-- The loop over the batches, in at most `rounds` rounds; the batches that are requested, and
-- whether all was done. `accepts` says which requests succeed.
unfoldable pub delete_batches :
    (rounds size : ℕ)
    → (accepts : List String → Bool) → List String
    → Option (List (List String) × Bool)
delete_batches rounds size accepts [] = some ([], true)
delete_batches zero size accepts (key ∷ keys) = none
delete_batches (suc rounds) size accepts (key ∷ keys) =
    let (batch, rest) = split_at size (key ∷ keys) in
    let later = delete_batches rounds size accepts rest in
    if accepts batch then Option.map (λ r. (batch ∷ r.0, r.1)) later else some (batch ∷ [], false)

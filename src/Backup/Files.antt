-- ===== src/Backup/Files.antt =====
-- controllers/mcpserverbackup_controller.go: the files of the local storage. The file system's
-- answers are parameters.
use mcp_operator.Prelude.{
  String, ◌==◌, ◌⊎◌, inl, inr, Option, none, some, List, [], ◌∷◌, if◌then◌else◌, is_some, runes,
  has_infix, concat, Dict, lookup, remove,
}
use mcp_operator.Backup.{Backup}

-- What `os.Stat` says.
pub data Stat : Type 0 where
  present : Stat
  missing : Stat
  unreadable : String → Stat

-- `filepath.Join`, on parts that are clean and not empty.
abbrev pub join : List String → String
join [] = ""
join (s ∷ []) = s
join (s ∷ t ∷ ss) = concat (s ∷ "/" ∷ join (t ∷ ss) ∷ [])

module _ {Spec : Type 0} where
  abbrev pub backup_file_path : (path : String) → Backup Spec → String
  backup_file_path path b =
      join (path ∷ b.namespace ∷ concat (b.name ∷ "-" ∷ b.uid ∷ ".json" ∷ []) ∷ [])

  -- `cleanupBackupFiles`: its error. What becomes of the directory changes nothing in the answer.
  unfoldable pub cleanup_backup_files :
      (stat : String → Stat) → (remove : String → Option String) → Backup Spec → Option String
  cleanup_backup_files stat remove b = elim b.spec.storage_location.local [
    | none ↦ none
    | some path ↦
        if path == ""
        then none
        else let file = backup_file_path path b in
          elim (stat file) [
            | present ↦ elim (remove file) [
              | none ↦ none
              | some err ↦ some (concat ("failed to delete backup file " ∷ file ∷ ": " ∷ err ∷ []))
            ]
            | missing ↦ none
            | unreadable err ↦ some (concat ("failed to check backup file status: " ∷ err ∷ []))
          ]
  ]

  -- The entries of a parsed index file that `removeBackupFromIndexFile` writes back, if it writes.
  unfoldable pub without_backup :
      {V : Type 0} → (key : String) → Backup Spec → Dict V → Option (Dict V)
  without_backup key b index =
      let first = remove key index in
      if is_some (lookup key index)
      then some (if is_some (lookup b.uid first) then remove b.uid first else first)
      else if is_some (lookup b.uid index)
      then some (remove b.uid index)
      else none

-- `validateIndexPath`. `absolute` is `filepath.Abs` of `filepath.Clean`, and `base` is
-- `filepath.Base`.
unfoldable pub validate_index_path :
    (absolute : String → String ⊎ String) → (base : String → String) → String → Option String
validate_index_path absolute base path =
    if has_infix (0 ∷ []) (runes path)
    then some (concat ("invalid characters in index path: " ∷ path ∷ []))
    else if has_infix (runes "..") (runes path)
    then some (concat ("path traversal detected in index path: " ∷ path ∷ []))
    else elim (absolute path) [
      | inl err ↦ some (concat ("failed to resolve absolute path: " ∷ err ∷ []))
      | inr resolved ↦
          if has_infix (runes "..") (runes (base resolved))
          then some (concat ("suspicious path detected after resolution: " ∷ path ∷ []))
          else none
    ]

-- ===== src/Backup/Index.antt =====
-- controllers/mcpserverbackup_controller.go, `removeBackupFromIndexFile`: the index that is left.
use mcp_operator.Prelude.{
  String, ◌==◌, eq_iff, ◌≡◌, ◌||◌, Option, none, some, arith, if◌then◌else◌, Dict, lookup, remove,
  lookup-remove,
}
use mcp_operator.Backup.{Backup}
use mcp_operator.Backup.Files.{without_backup}

-- The index in the file afterwards: the one written back, or the old one.
abbrev pub left_index : {V : Type 0} → Dict V → Option (Dict V) → Dict V
left_index old none = old
left_index old (some new) = new

-- The index afterwards has no entry for the backup's key and none for its UID, and every other
-- entry as before.
pub lookup-without_backup :
    {V Spec : Type 0} (key read : String) (b : Backup Spec) (index : Dict V)
    → lookup read (left_index index (without_backup key b index))
      ≡ (if key == read || b.uid == read then none else lookup read index)
unfolding without_backup
lookup-without_backup key read b index = ground (
  arith,
  eq_iff key read,
  eq_iff b.uid read,
  lookup-remove key read index,
  lookup-remove b.uid read index,
  lookup-remove b.uid read (remove key index),
  lookup-remove key b.uid index,
  eq_iff key b.uid,
)

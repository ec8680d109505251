-- ===== src/Backup/Tests.antt =====
-- Backups and cleanups on concrete files.
use ankiced.Base.{
  ◌≡◌, ◌≤◌, ◌-◌, refl, true, false, none, some, List, [], ◌∷◌, take, last, length, All, pos, arith,
  if◌then◌else◌, ltb, ◌==◌,
}
use ankiced.Text.{Text, codes, eq_text}
use ankiced.Assoc.{lookup}
use ankiced.Errors.{external}
use ankiced.Backup.{Disk, Faults, no_info, no_faults, backup_path, is_done, create_backup}
use ankiced.Backup.Once.{
  is_none, create_backup_writes, count_backups, count_backups-le-one, create_backup_unsynced,
}
use ankiced.Backup.Stamp.{Time, stamp, rank, lex_le-stamp}
use ankiced.Backup.Cleanup.{cleanup_backups, is_backup, kept_count, lex_le, sort, remove_all}
use ankiced.Backup.Cleanup.Sorted.{AllAbove}
use ankiced.Backup.Cleanup.Kept.{
  no_error, backups_in, others, cleanup_backups_kept, others-cleanup_backups,
}

abbrev db : Text
db = codes "c.anki2"

abbrev disk : Disk
disk = record { locks = []; files = (db, codes "SQLite") ∷ [] }

abbrev unsynced : Faults
unsynced = record {
  open_src = none;
  create_dst = none;
  copy = none;
  copied = [];
  sync_dst = some (external (codes "I/O error"));
  close_dst = none;
  close_src = none;
}

-- The flag and the file before any call.
start : (is_done db disk ≡ false) × (lookup db disk.files ≡ some (codes "SQLite"))
unfolding lookup
start = (refl, refl)

create_backup_writes_example :
    ((create_backup db (codes "1") [] no_faults disk).0
      ≡ (record { path = backup_path db (codes "1"); created_at = [] }, none))
    × ((j : Text)
        → lookup j (create_backup db (codes "1") [] no_faults disk).1.files ≡ (
            if eq_text (backup_path db (codes "1")) j
            then some (codes "SQLite")
            else lookup j disk.files))
create_backup_writes_example =
    create_backup_writes db (codes "1") [] (codes "SQLite") disk start.0 start.1

count_backups-le-one_example :
    count_backups db (record { path = db; stamp = []; now = []; faults = unsynced } ∷ []) disk ≤ 1
count_backups-le-one_example =
    count_backups-le-one db (record { path = db; stamp = []; now = []; faults = unsynced } ∷ [])
      disk

create_backup_unsynced_example :
    let (r, d) = create_backup db (codes "1") [] unsynced disk in
    (is_none r.1 ≡ false)
    × ((create_backup db (codes "2") [] no_faults d).0 ≡ (no_info, none))
    × ((create_backup db (codes "2") [] no_faults d).1.files ≡ d.files)
create_backup_unsynced_example =
    create_backup_unsynced db (codes "1") [] (codes "2") [] unsynced no_faults disk (codes "SQLite")
      (external (codes "I/O error")) start.0 start.1 refl refl refl refl

abbrev noon : Time
noon = record { year = 2024; month = 5; day = 6; hour = 12; minute = 0; second = 0 }

abbrev later : Time
later = record { year = 2024; month = 5; day = 6; hour = 12; minute = 0; second = 1 }

stamp_text : stamp noon [] ≡ codes "20240506_120000"
unfolding stamp
stamp_text = refl

lex_le-stamp_example : lex_le (stamp noon []) (stamp later []) ≡ (
    if ltb (rank noon) (rank later)
    then true
    else if rank noon == rank later
    then lex_le [] []
    else false)
lex_le-stamp_example = lex_le-stamp noon later (omega arith) (omega arith) [] []

abbrev dir : List Text
dir = codes "c.anki2.2.bak" ∷ db ∷ codes "c.anki2.1.bak" ∷ codes "x.bak" ∷ []

left :
    (cleanup_backups none no_error db (pos 1) dir).1
    ≡ codes "c.anki2.2.bak" ∷ db ∷ codes "x.bak" ∷ []
unfolding cleanup_backups is_backup sort remove_all
left = refl

cleanup_backups_kept_example :
    let (err, dir') = cleanup_backups none no_error db (pos 1) dir in
    let all = backups_in db dir in
    (err ≡ none)
    × (backups_in db dir' ≡ last (kept_count (pos 1)) all)
    × All (λ r. AllAbove r (last 1 all)) (take (length all - 1) all)
unfolding eq_text
cleanup_backups_kept_example =
    cleanup_backups_kept db (pos 1) dir (refl, (refl, (refl, (refl, tt))))

others-cleanup_backups_example :
    others no_error db (cleanup_backups none no_error db (pos 1) dir).1 ≡ others no_error db dir
others-cleanup_backups_example = others-cleanup_backups no_error db none (pos 1) dir

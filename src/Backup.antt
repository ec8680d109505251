-- ===== src/Backup.antt =====
-- internal/infrastructure/fs/backup_store.go. The files of the machine are a map from paths to
-- contents. What the operating system answers is an argument: the errors of the calls, and how far
-- a copy that fails got. A lock is held for the whole of CreateBackup, so that calls for one path
-- run one after the other.
pub mod Once
pub mod Stamp
pub mod Cleanup
mod Tests
use ankiced.Base.{ℕ, ◌+◌, Bool, true, false, Option, none, some, List, [], ◌∷◌, ◌++◌, if◌then◌else◌}
use ankiced.Text.{Text, codes}
use ankiced.Assoc.{lookup, insert}
use ankiced.Errors.{Err, fmt_wrap, external, join_to}

-- BackupInfo. A time is the text that the clock's reading is formatted to.
pub record BackupInfo : Type 0 where
  pub path : Text
  pub created_at : Text

abbrev pub no_info : BackupInfo
no_info = record { path = []; created_at = [] }

-- BackupStore with the files: `locks` has the flag `done` of each path that was asked for.
pub record Disk : Type 0 where
  pub locks : List (Text × Bool)
  pub files : List (Text × Text)

-- What goes wrong in one call.
pub record Faults : Type 0 where
  pub open_src : Option Err
  pub create_dst : Option Err
  pub copy : Option Err
  pub copied : Text
  pub sync_dst : Option Err
  pub close_dst : Option Err
  pub close_src : Option Err

abbrev pub no_faults : Faults
no_faults = record {
  open_src = none;
  create_dst = none;
  copy = none;
  copied = [];
  sync_dst = none;
  close_dst = none;
  close_src = none;
}

abbrev flag : Option Bool → Bool
flag none = false
flag (some done) = done

abbrev pub is_done : Text → Disk → Bool
is_done path d = flag (lookup path d.locks)

-- lockFor
unfoldable pub lock_for : Text → Disk → Disk
unfolding lookup insert
lock_for path d = elim (lookup path d.locks) [
  | some _ ↦ d
  | none ↦ record d { locks = insert path false d.locks }
]

-- A deferred call that joins its error to the one that is returned.
abbrev deferred : Text → Option Err → Option Err → Option Err
deferred what none err = err
deferred what (some e) err = some (join_to err (fmt_wrap what e []))

-- The deferred calls for `dst`, then the one for `src`.
abbrev close_src : Faults → Option Err → Option Err
close_src f err = deferred (codes "close source file: ") f.close_src err

abbrev close_both : Faults → Option Err → Option Err
close_both f err = close_src f (
    deferred (codes "close backup file: ") f.close_dst
      (deferred (codes "sync backup file: ") f.sync_dst err))

abbrev pub backup_path : Text → Text → Text
backup_path db_path stamp = db_path ++ (codes "." ++ (stamp ++ codes ".bak"))

abbrev copy_to : Text → Text → Text → Text → Faults → Disk → (BackupInfo × Option Err) × Disk
copy_to db_path path now content f d = elim f.copy [
  | some e ↦ ((no_info, close_both f (some e)), record d { files = insert path f.copied d.files })
  | none ↦ (
    (record { path = path; created_at = now }, close_both f none),
    record { locks = insert db_path true d.locks; files = insert path content d.files },
  )
]

abbrev open_and_copy :
    Text → Text → Text → Faults → Option Text → Disk → (BackupInfo × Option Err) × Disk
open_and_copy db_path stamp now f none d =
    ((no_info, some (external (codes "no such file or directory"))), d)
open_and_copy db_path stamp now f (some content) d = elim f.create_dst [
  | some e ↦ ((no_info, close_src f (some e)), d)
  | none ↦ copy_to db_path (backup_path db_path stamp) now content f d
]

-- CreateBackup; `stamp` is the formatted time of `now`. The result has the info beside the error.
unfoldable pub create_backup : Text → Text → Text → Faults → Disk → (BackupInfo × Option Err) × Disk
create_backup db_path stamp now f d =
    let locked = lock_for db_path d in
    if is_done db_path locked then ((no_info, none), locked) else elim f.open_src [
      | some e ↦ ((no_info, some e), locked)
      | none ↦ open_and_copy db_path stamp now f (lookup db_path locked.files) locked
    ]

-- ===== src/Backup/Once.antt =====
-- One backup of a path in a session.
use ankiced.Base.{
  ◌≡◌, ◌≢◌, refl, ap, sym, ◌∙◌, Bool, true, false, Option, none, some, List, [], ◌∷◌, arith, inl,
  inr, ◌⊎◌, if◌then◌else◌, Bool-cases, ◌≤◌, false≢true, &&-eq-true, ◌&&◌, ℕ, suc, not,
}
use ankiced.Text.{Text, eq_text, is_empty}
use ankiced.Text.Equal.{eq_text_iff, eq_text_refl, eq_text_ne}
use ankiced.Assoc.{lookup, insert, lookup-insert}
use ankiced.Errors.{Err}
use ankiced.Backup.{no_info, no_faults, Disk, Faults, is_done, lock_for, backup_path, create_backup}

abbrev pub is_none {ℓ} : {A : Type ℓ} → Option A → Bool
is_none none = true
is_none (some _) = false

files-lock_for : (path : Text) (d : Disk) → (lock_for path d).files ≡ d.files
unfolding lock_for
files-lock_for path d = ground arith

is_done-lock_for : (path j : Text) (d : Disk) → is_done j (lock_for path d) ≡ is_done j d
unfolding lock_for
is_done-lock_for path j d = ground (arith, lookup-insert path j false d.locks, eq_text_iff path j)

-- Once a backup of a path is done every later call for it succeeds, reports no new backup, and
-- leaves all files and what is done for other paths alone.
pub create_backup_done :
    (path stamp now : Text) (f : Faults) (d : Disk)
    → is_done path d ≡ true
    → ((create_backup path stamp now f d).0 ≡ (no_info, none))
      × ((create_backup path stamp now f d).1.files ≡ d.files)
      × ((j : Text) → is_done j (create_backup path stamp now f d).1 ≡ is_done j d)
unfolding create_backup
create_backup_done path stamp now f d h =
    let locked : is_done path (lock_for path d) ≡ true = is_done-lock_for path path d ∙ h in
    rw locked (refl, files-lock_for path d, λ j. is_done-lock_for path j d)

-- One call that finds no backup done: it makes the path done exactly when the copy was complete,
-- whatever the deferred calls then report, and touches no other path's flag.
pub is_done-create_backup :
    (path stamp now : Text) (f : Faults) (d : Disk) (content : Text)
    → is_done path d ≡ false
    → lookup path d.files ≡ some content
    → (is_done path (create_backup path stamp now f d).1
        ≡ is_none f.open_src && (is_none f.create_dst && is_none f.copy))
      × ((j : Text) → path ≢ j → is_done j (create_backup path stamp now f d).1 ≡ is_done j d)
unfolding create_backup
is_done-create_backup path stamp now f d content h e =
    let locked : is_done path (lock_for path d) ≡ false = is_done-lock_for path path d ∙ h in
    let found : lookup path (lock_for path d).files ≡ some content =
      ap (lookup path) (files-lock_for path d) ∙ e in
    rw locked (
      ground (arith, lookup-insert path path true (lock_for path d).locks, eq_text_refl path),
      (λ j n. ground (
        arith,
        lookup-insert path j true (lock_for path d).locks,
        eq_text_ne path j n,
        is_done-lock_for path j d,
      )),
    )

-- A first call in which the system reports no error writes the content of the collection to the
-- backup's path, leaves every other file as it was, and returns that path.
pub create_backup_writes :
    (path stamp now content : Text) (d : Disk)
    → is_done path d ≡ false
    → lookup path d.files ≡ some content
    → ((create_backup path stamp now no_faults d).0
        ≡ (record { path = backup_path path stamp; created_at = now }, none))
      × ((j : Text)
          → lookup j (create_backup path stamp now no_faults d).1.files
            ≡ (if eq_text (backup_path path stamp) j then some content else lookup j d.files))
unfolding create_backup
create_backup_writes path stamp now content d h e =
    let locked : is_done path (lock_for path d) ≡ false = is_done-lock_for path path d ∙ h in
    let found : lookup path (lock_for path d).files ≡ some content =
      ap (lookup path) (files-lock_for path d) ∙ e in
    rw (locked, found)
      (
        refl,
        λ j. rw (files-lock_for path d) (lookup-insert (backup_path path stamp) j content d.files),
      )

-- A call of CreateBackup, for one path.
pub record Call : Type 0 where
  pub path : Text
  pub stamp : Text
  pub now : Text
  pub faults : Faults

abbrev pub after_call : Call → Disk → Disk
after_call c d = (create_backup c.path c.stamp c.now c.faults d).1

-- The call reports a new backup of the path.
abbrev reports : Text → Call → Disk → Bool
reports path c d =
    eq_text c.path path && not (is_empty (create_backup c.path c.stamp c.now c.faults d).0.0.path)

-- How many of the calls report a new backup of the path.
unfoldable pub count_backups : Text → List Call → Disk → ℕ
count_backups path [] d = 0
count_backups path (c ∷ cs) d =
    let rest = count_backups path cs (after_call c d) in if reports path c d then suc rest else rest

-- A call reports nothing and sets no flag, or it sets the flag of its path.
call_cases :
    (path stamp now : Text) (f : Faults) (d : Disk)
    → let (r, d') = create_backup path stamp now f d in
      ((r.0 ≡ no_info) × (d'.locks ≡ (lock_for path d).locks))
      ⊎ ((is_done path d ≡ false) × (d'.locks ≡ insert path true (lock_for path d).locks))
unfolding create_backup
call_cases path stamp now f d = elim (Bool-cases (is_done path (lock_for path d))) [
  | inl done ↦ rw done (inl (refl, refl))
  | inr first ↦ rw first (ground (arith, is_done-lock_for path path d))
]

keeps_done :
    (c : Call) (path : Text) (d : Disk)
    → is_done path d ≡ true
    → is_done path (after_call c d) ≡ true
keeps_done c path d h = elim (call_cases c.path c.stamp c.now c.faults d) [
  | inl (_, locks) ↦ rw locks (is_done-lock_for c.path path d ∙ h)
  | inr (_, locks) ↦ rw locks (
      ground (
        arith,
        lookup-insert c.path path true (lock_for c.path d).locks,
        is_done-lock_for c.path path d,
      ))
]

reports_once :
    (c : Call) (path : Text) (d : Disk)
    → reports path c d ≡ true
    → (is_done path d ≡ false) × (is_done path (after_call c d) ≡ true)
reports_once c path d h =
    let (same, filled) = &&-eq-true _ _ h in
    let e : c.path ≡ path = (eq_text_iff c.path path).0 same in
    elim (call_cases c.path c.stamp c.now c.faults d) [
      | inl (nothing, _) ↦
          absurd (false≢true (ap (λ i. not (is_empty i.path)) (sym nothing) ∙ filled))
      | inr (first, locks) ↦ (
        rw (← e) first,
        rw locks (ground (arith, lookup-insert c.path path true (lock_for c.path d).locks)),
      )
    ]

count_backups_done :
    (path : Text) (cs : List Call) (d : Disk) → is_done path d ≡ true → count_backups path cs d ≡ 0
unfolding count_backups
count_backups_done path [] d h = refl
count_backups_done path (c ∷ cs) d h = elim (Bool-cases (reports path c d)) [
  | inl yes_it_does ↦ absurd (false≢true (sym (reports_once c path d yes_it_does).0 ∙ h))
  | inr no_report ↦
      rw no_report (count_backups_done path cs (after_call c d) (keeps_done c path d h))
]

-- Of all calls of CreateBackup in a session, for whatever paths and whatever goes wrong in them, at
-- most one reports a new backup of a given path.
pub count_backups-le-one : (path : Text) (cs : List Call) (d : Disk) → count_backups path cs d ≤ 1
unfolding count_backups
count_backups-le-one path [] d = omega arith
count_backups-le-one path (c ∷ cs) d = elim (Bool-cases (reports path c d)) [
  | inl first ↦
      rw first
        (omega (arith, count_backups_done path cs (after_call c d) (reports_once c path d first).1))
  | inr no_report ↦ rw no_report (count_backups-le-one path cs (after_call c d))
]

create_backup_sync_error :
    (path stamp now : Text) (f : Faults) (d : Disk) (content : Text) (e : Err)
    → is_done path d ≡ false
    → lookup path d.files ≡ some content
    → f.open_src ≡ none
    → f.create_dst ≡ none
    → f.copy ≡ none
    → f.sync_dst ≡ some e
    → is_none (create_backup path stamp now f d).0.1 ≡ false
unfolding create_backup
create_backup_sync_error path stamp now f d content e h file opened created copied unsynced =
    let locked : is_done path (lock_for path d) ≡ false = is_done-lock_for path path d ∙ h in
    let found : lookup path (lock_for path d).files ≡ some content =
      ap (lookup path) (files-lock_for path d) ∙ file in
    rw locked (ground arith)

-- A backup whose file could not be synced is refused with an error and yet counts as done: the next
-- call succeeds without writing anything.
pub create_backup_unsynced :
    (path stamp now stamp' now' : Text) (f f' : Faults) (d : Disk) (content : Text) (e : Err)
    → is_done path d ≡ false
    → lookup path d.files ≡ some content
    → f.open_src ≡ none
    → f.create_dst ≡ none
    → f.copy ≡ none
    → f.sync_dst ≡ some e
    → let (r, d') = create_backup path stamp now f d in
      (is_none r.1 ≡ false)
      × ((create_backup path stamp' now' f' d').0 ≡ (no_info, none))
      × ((create_backup path stamp' now' f' d').1.files ≡ d'.files)
create_backup_unsynced path stamp now stamp' now' f f' d content e h file opened created copied
      unsynced =
    let (flagged, _) = is_done-create_backup path stamp now f d content h file in
    let (quiet, same, _) =
      create_backup_done path stamp' now' f' (create_backup path stamp now f d).1 (ground arith) in
    (
      create_backup_sync_error path stamp now f d content e h file opened created copied unsynced,
      quiet,
      same,
    )

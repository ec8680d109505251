-- ===== src/Services/Stable.antt =====
-- What all ports preserve the use cases preserve.
use ankiced.Base.{
  ℕ, zero, suc, ℤ, Bool, true, false, ◌||◌, Option, none, some, List, [], ◌∷◌, take, drop, length,
  Bool-cases, inl, inr,
}
use ankiced.Text.{Text, is_empty, trim_space}
use ankiced.Errors.{sentinel, domain, application, deck_not_found, operation_cancelled}
use ankiced.Domain.{
  Note, NoteField, FilterSet, Pagination, DiffRecord, DryRunSummary, deck_name_conflict,
  validate_deck_rename, map_fields, join_field_values,
}
use ankiced.Config.{Settings}
use ankiced.Backup.{BackupInfo}
use ankiced.Action.{Action, pure, Preserves, chain, seq, lifted}
use ankiced.Services.Ports.{
  Services, Template, BackupStore, clock, template, cleanup_backups, clean_after, backed_up,
  ensure_backup, backup_first, current_cfg,
}
use ankiced.Services.Pool.{Processed, Pool}
use ankiced.Services.Decks.{validated, need, deny, list_decks, search_decks, rename_deck}
use ankiced.Services.Notes.{
  counted, records_of, clean_fields, with_fields, written_note, list_notes, get_note, backup_if,
  update_note_with, update_note, preview_cleaner,
}
use ankiced.Services.Cleaner.{
  Cleaning, batch_size, within, confirmed, prompt, report, report_to, write_all, write_batches,
  run_cleaner,
}
use ankiced.Services.Cleaner.Rule.{run_cleaner_rule}

module _ {W : Type 0} (P : W → Type 0) where
  abbrev StableBackups : Option (BackupStore W) → Type 0
  StableBackups none = Unit
  StableBackups (some b) =
      ((path : Text) (t : ℤ) → Preserves P (b.create_backup path t))
      × ((path : Text) (n : ℤ) → Preserves P (b.cleanup_backups path n))

  abbrev StableReports :
      Option (Text → List DiffRecord → DryRunSummary → Action W (Unit {0})) → Type 0
  StableReports none = Unit
  StableReports (some write) =
      (path : Text) (rs : List DiffRecord) (m : DryRunSummary) → Preserves P (write path rs m)

  pub record IsStable (s : Services W) : Type 0 where
    pub list_decks : Preserves P s.decks.list_decks
    pub search_decks : (text : Text) → Preserves P (s.decks.search_decks text)
    pub deck_exists : (id : ℤ) → Preserves P (s.decks.deck_exists id)
    pub deck_name_exists : (name : Text) (id : ℤ) → Preserves P (s.decks.deck_name_exists name id)
    pub rename_deck : (id : ℤ) (name : Text) → Preserves P (s.decks.rename_deck id name)
    pub list_notes : (f : FilterSet) (p : Pagination) → Preserves P (s.notes.list_notes f p)
    pub get_note : (id : ℤ) → Preserves P (s.notes.get_note id)
    pub update_note : (n : Note) → Preserves P (s.notes.update_note n)
    pub list_note_ids_by_deck : (id : ℤ) → Preserves P (s.notes.list_note_ids_by_deck id)
    pub get_model_by_id : (id : ℤ) → Preserves P (s.get_model_by_id id)
    pub confirm : (text : Text) → Preserves P (s.confirm text)
    pub now : (w : W) → P w → P (s.now w).1
    pub with_tx : (f : Action W (Unit {0})) → Preserves P f → Preserves P (s.with_tx f)
    pub backups : StableBackups s.backups
    pub reports : StableReports s.write_report

  module _ (s : Services W) (h : IsStable s) where
    cleanup_with :
        (o : Option (BackupStore W)) (path : Text) (n : ℤ)
        → StableBackups o
        → Preserves P (elim o [ none ↦ pure tt | some b ↦ b.cleanup_backups path n ])
    cleanup_with none path n k w p = p
    cleanup_with (some b) path n k w p = k.1 path n w p

    clean_after-Preserves :
        (cfg : Settings) (info : BackupInfo) → Preserves P (clean_after s cfg info)
    unfolding clean_after cleanup_backups
    clean_after-Preserves cfg info w p = elim (Bool-cases (is_empty info.path)) [
      | inl e ↦ rw e p
      | inr e ↦ rw e (cleanup_with s.backups _ _ h.backups w p)
    ]

    backed_up_with :
        (o : Option (BackupStore W)) (cfg : Settings)
        → StableBackups o
        → Preserves P (elim o [ none ↦ pure tt | some b ↦ backed_up s cfg b ])
    unfolding backed_up
    backed_up_with none cfg k w p = p
    backed_up_with (some b) cfg k w p =
        (chain P (clock s, h.now)
            λ t.
              chain P (b.create_backup cfg.db_path t, k.0 cfg.db_path t)
                λ info. (clean_after s cfg info, clean_after-Preserves cfg info)).1
          w p

    ensure_backup-Preserves : (cfg : Settings) → Preserves P (ensure_backup s cfg)
    unfolding ensure_backup
    ensure_backup-Preserves cfg = backed_up_with s.backups cfg h.backups

    backup_first-Preserves : Preserves P (backup_first s)
    unfolding backup_first
    backup_first-Preserves w p = ensure_backup-Preserves (current_cfg s w) w p

    pub list_decks-Preserves : Preserves P (list_decks s)
    unfolding list_decks
    list_decks-Preserves = h.list_decks

    pub search_decks-Preserves : (text : Text) → Preserves P (search_decks s text)
    unfolding search_decks
    search_decks-Preserves text w p = elim (Bool-cases (is_empty (trim_space text))) [
      | inl e ↦ rw e p
      | inr e ↦ rw e (h.search_decks (trim_space text) w p)
    ]

    pub rename_deck-Preserves : (id : ℤ) (name : Text) → Preserves P (rename_deck s id name)
    unfolding rename_deck
    rename_deck-Preserves id name =
        (seq P (lifted P (validated (validate_deck_rename name))) (
          chain P (s.decks.deck_exists id, h.deck_exists id)
            λ found. seq P (lifted P (need found (sentinel (application deck_not_found)))) (
              chain P
                (
                  s.decks.deck_name_exists (trim_space name) id,
                  h.deck_name_exists (trim_space name) id,
                )
                λ taken. seq P (lifted P (deny taken (sentinel (domain deck_name_conflict)))) (
                  seq P (backup_first s, backup_first-Preserves)
                    (
                      s.decks.rename_deck id (trim_space name),
                      h.rename_deck id (trim_space name),
                    ))))).1

    pub list_notes-Preserves : (f : FilterSet) (p : Pagination) → Preserves P (list_notes s f p)
    unfolding list_notes
    list_notes-Preserves f p = h.list_notes f p

    pub get_note-Preserves : (id : ℤ) → Preserves P (get_note s id)
    unfolding get_note
    get_note-Preserves id =
        (chain P (s.notes.get_note id, h.get_note id)
          λ note.
            chain P (s.get_model_by_id note.model_id, h.get_model_by_id note.model_id)
              λ model. lifted P (with_fields s note model)).1

    backup_if-Preserves : (b : Bool) → Preserves P (backup_if s b)
    unfolding backup_if
    backup_if-Preserves true w p = backup_first-Preserves w p
    backup_if-Preserves false w p = p

    update_note_with-Preserves :
        (id : ℤ) (fields : List NoteField) (b : Bool) → Preserves P (update_note_with s id fields b)
    unfolding update_note_with
    update_note_with-Preserves id fields b =
        (chain P (s.notes.get_note id, h.get_note id)
          λ note.
            chain P (s.get_model_by_id note.model_id, h.get_model_by_id note.model_id)
              λ model. seq P (lifted P (counted (map_fields (join_field_values fields) model))) (
                seq P (backup_if s b, backup_if-Preserves b)
                  (chain P (clock s, h.now)
                    λ t. (
                      s.notes.update_note (written_note s note fields t),
                      h.update_note (written_note s note fields t),
                    )))).1

    pub update_note-Preserves :
        (id : ℤ) (fields : List NoteField) → Preserves P (update_note s id fields)
    unfolding update_note
    update_note-Preserves id fields = update_note_with-Preserves id fields true

    pub preview_cleaner-Preserves :
        (id : ℤ) (template_id : Text) → Preserves P (preview_cleaner s id template_id)
    unfolding preview_cleaner
    preview_cleaner-Preserves id template_id =
        (chain P (lifted P (template s template_id)) λ apply.
          chain P (get_note s id, get_note-Preserves id)
            λ note. lifted P (records_of (clean_fields apply id note.fields))).1

    -- The predicate on the state beside a run of the cleaner.
    abbrev OnWorld : Cleaning W → Type 0
    OnWorld c = P c.world

    within-Preserves : {A : Type 0} (m : Action W A) → Preserves P m → Preserves OnWorld (within m)
    within-Preserves m k c p = k c.world p

    confirmed-Preserves : (cfg : Settings) (dry_run : Bool) → Preserves P (confirmed s cfg dry_run)
    confirmed-Preserves cfg dry_run w p = elim (Bool-cases (dry_run || cfg.force_apply)) [
      | inl free ↦ rw free p
      | inr asks ↦ rw asks (
          (chain P (s.confirm (prompt s), h.confirm (prompt s))
              λ agreed. lifted P (need agreed (sentinel (application operation_cancelled)))).1
            w p)
    ]

    write_all-Preserves : (rs : List Processed) → Preserves P (write_all s rs)
    unfolding write_all
    write_all-Preserves [] w p = p
    write_all-Preserves (r ∷ rs) w p =
        (seq P
            (
              update_note_with s r.note_id r.fields false,
              update_note_with-Preserves r.note_id r.fields false,
            )
            (write_all s rs, write_all-Preserves rs)).1
          w p

    write_batches-Preserves :
        (fuel : ℕ) (rs : List Processed) → Preserves P (write_batches s fuel rs)
    unfolding write_batches
    write_batches-Preserves zero rs w p = p
    write_batches-Preserves (suc fuel) [] w p = p
    write_batches-Preserves (suc fuel) (r ∷ rs) w p =
        let batch = take batch_size (r ∷ rs) in
        (seq P
            (
              s.with_tx (write_all s batch),
              h.with_tx (write_all s batch) (write_all-Preserves batch),
            )
            (
              write_batches s fuel (drop batch_size (r ∷ rs)),
              write_batches-Preserves fuel (drop batch_size (r ∷ rs)),
            )).1
          w p

    report_with :
        (o : Option (Text → List DiffRecord → DryRunSummary → Action W (Unit {0}))) (path : Text)
        (rs : List DiffRecord) (m : DryRunSummary)
        → StableReports o
        → Preserves P (report_to s o path rs m)
    report_with none path rs m k w p = p
    report_with (some write) path rs m k w p = elim (Bool-cases (is_empty path)) [
      | inl e ↦ rw e p
      | inr e ↦ rw e (k path rs m w p)
    ]

    pub run_cleaner-Preserves :
        (cfg : Settings) (deck_id : ℤ) (dry_run : Bool) (template_id : Text)
        (schedule : Template → List ℤ → W → Pool W)
        → ((apply : Template) (ids : List ℤ) (w : W) → P w → P (schedule apply ids w).world)
        → (w : W) → P w
        → P (run_cleaner s cfg deck_id dry_run template_id schedule w).1.world
    run_cleaner-Preserves cfg deck_id dry_run template_id schedule k w p =
        run_cleaner_rule OnWorld s cfg dry_run schedule
          (record {
            report = λ total stage c q. unfold report in q;
            tally = λ r c q. q;
            error = λ c q. q;
            ids = λ id.
                within-Preserves (s.notes.list_note_ids_by_deck id) (h.list_note_ids_by_deck id);
            confirmed =
                within-Preserves (confirmed s cfg dry_run) (confirmed-Preserves cfg dry_run);
            workers = λ apply ids c q. k apply ids c.world q;
            backup = λ _. within-Preserves (ensure_backup s cfg) (ensure_backup-Preserves cfg);
            batches = λ _ items.
                within-Preserves (write_batches s (length items) items)
                  (write_batches-Preserves (length items) items);
            reports = λ path rs m.
                within-Preserves (report_to s s.write_report path rs m)
                  (report_with s.write_report path rs m h.reports);
          })
          deck_id template_id w p

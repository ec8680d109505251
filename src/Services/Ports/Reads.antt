-- ===== src/Services/Ports/Reads.antt =====
-- Ports that read and ports that keep backups, as seen by the collection.
use ankiced.Base.{◌≡◌, refl, ℤ, Option, none, some, List, Bool-cases, inl, inr}
use ankiced.Errors.{Err}
use ankiced.Text.{Text, is_empty}
use ankiced.Domain.{DiffRecord, DryRunSummary}
use ankiced.Config.{Settings}
use ankiced.Action.{Outcome, fail, Action, pure, ◌>>=◌, Keeps, bind-Keeps}
use ankiced.Services.Ports.{
  Services, BackupStore, clock, cleanup_backups, clean_after, backed_up, ensure_backup,
  backup_first, current_cfg,
}

module _ {W V : Type 0} (view : W → V) where
  -- A call that stops with an error and shows no change.
  abbrev pub IsRefused : Outcome (Unit {0}) × W → W → Type 0
  IsRefused r w = ((e : Err) × (r.0 ≡ fail e)) × (view r.1 ≡ view w)

  abbrev KeepsBackups : Option (BackupStore W) → Type 0
  KeepsBackups none = Unit
  KeepsBackups (some b) =
      ((path : Text) (t : ℤ) → Keeps view (b.create_backup path t))
      × ((path : Text) (n : ℤ) → Keeps view (b.cleanup_backups path n))

  abbrev pub KeepsReports :
      Option (Text → List DiffRecord → DryRunSummary → Action W (Unit {0})) → Type 0
  KeepsReports none = Unit
  KeepsReports (some write) =
      (path : Text) (rs : List DiffRecord) (m : DryRunSummary) → Keeps view (write path rs m)

  -- What `view` shows of the state is touched by no query, no question to the user, no report, no
  -- backup and no look at the clock.
  pub record IsReadOnly (s : Services W) : Type 0 where
    pub now : (w : W) → view (s.now w).1 ≡ view w
    pub deck_exists : (id : ℤ) → Keeps view (s.decks.deck_exists id)
    pub deck_name_exists : (name : Text) (id : ℤ) → Keeps view (s.decks.deck_name_exists name id)
    pub get_note : (id : ℤ) → Keeps view (s.notes.get_note id)
    pub list_note_ids_by_deck : (id : ℤ) → Keeps view (s.notes.list_note_ids_by_deck id)
    pub get_model_by_id : (id : ℤ) → Keeps view (s.get_model_by_id id)
    pub confirm : (prompt : Text) → Keeps view (s.confirm prompt)
    pub backups : KeepsBackups s.backups
    pub reports : KeepsReports s.write_report

  module _ (s : Services W) (h : IsReadOnly s) where
    cleanup_with :
        (o : Option (BackupStore W)) (path : Text) (n : ℤ)
        → KeepsBackups o
        → Keeps view (elim o [ none ↦ pure tt | some b ↦ b.cleanup_backups path n ])
    cleanup_with none path n k w = refl
    cleanup_with (some b) path n k w = k.1 path n w

    cleanup_backups-Keeps : (cfg : Settings) → Keeps view (cleanup_backups s cfg)
    unfolding cleanup_backups
    cleanup_backups-Keeps cfg = cleanup_with s.backups _ _ h.backups

    clean_after-Keeps : (cfg : Settings) (info : _) → Keeps view (clean_after s cfg info)
    unfolding clean_after
    clean_after-Keeps cfg info w = elim (Bool-cases (is_empty info.path)) [
      | inl e ↦ rw e refl
      | inr e ↦ rw e (cleanup_backups-Keeps cfg w)
    ]

    backed_up_with :
        (o : Option (BackupStore W)) (cfg : Settings)
        → KeepsBackups o
        → Keeps view (elim o [ none ↦ pure tt | some b ↦ backed_up s cfg b ])
    unfolding backed_up
    backed_up_with none cfg k = λ w. refl
    backed_up_with (some b) cfg k =
        bind-Keeps view (clock s) (λ t. b.create_backup cfg.db_path t >>= clean_after s cfg) h.now
          λ t.
            bind-Keeps view (b.create_backup cfg.db_path t) (clean_after s cfg) (k.0 cfg.db_path t)
              (clean_after-Keeps cfg)

    pub ensure_backup-Keeps : (cfg : Settings) → Keeps view (ensure_backup s cfg)
    unfolding ensure_backup
    ensure_backup-Keeps cfg = backed_up_with s.backups cfg h.backups

    pub backup_first-Keeps : Keeps view (backup_first s)
    unfolding backup_first
    backup_first-Keeps w = ensure_backup-Keeps (current_cfg s w) w

-- ===== src/Services/Ports.antt =====
-- The ports of internal/application/ports.go and the struct Services. `W` is the state of all that
-- stands behind the ports; a port is an action on it. A port that may be nil is an Option. A time is
-- the seconds since the epoch: no finer part of the clock is used.
pub mod Reads
use ankiced.Base.{ℕ, ℤ, pos, leb_ℤ, Bool, Option, none, some, List, [], ◌∷◌, ◌++◌, if◌then◌else◌}
use ankiced.Text.{Text, codes, is_empty, trim_space}
use ankiced.Errors.{Err, sentinel, application, template_not_found, fmt_wrap, error_text}
use ankiced.Domain.{Deck, Pagination, FilterSet, Note, Model, DiffRecord, DryRunSummary}
use ankiced.Backup.{BackupInfo}
use ankiced.Config.{Settings}
use ankiced.Action.{Outcome, ok, fail, Action, pure, ◌>>=◌}

pub record DeckRepository (W : Type 0) : Type 0 where
  pub list_decks : Action W (List Deck)
  pub search_decks : Text → Action W (List Deck)
  pub deck_exists : ℤ → Action W Bool
  pub deck_name_exists : Text → ℤ → Action W Bool
  pub rename_deck : ℤ → Text → Action W (Unit {0})

pub record NoteRepository (W : Type 0) : Type 0 where
  pub list_notes : FilterSet → Pagination → Action W (List Note)
  pub count_notes : FilterSet → Action W ℤ
  pub get_note : ℤ → Action W Note
  pub update_note : Note → Action W (Unit {0})
  pub list_note_ids_by_deck : ℤ → Action W (List ℤ)

pub record BackupStore (W : Type 0) : Type 0 where
  pub create_backup : Text → ℤ → Action W BackupInfo
  pub cleanup_backups : Text → ℤ → Action W (Unit {0})

-- domain.ActionTemplate: its Apply.
abbrev pub Template : Type 0
Template = Text → Outcome Text

pub record TemplateRegistry : Type 0 where
  pub get : Text → Outcome Template
  pub default_template : Outcome Template

pub record Services (W : Type 0) : Type 0 where
  pub cfg : Settings
  pub cfg_provider : Option (W → Settings)
  pub decks : DeckRepository W
  pub notes : NoteRepository W
  pub get_model_by_id : ℤ → Action W Model
  pub backups : Option (BackupStore W)
  pub confirm : Text → Action W Bool
  pub render : List DiffRecord → DryRunSummary → Bool → Text
  pub write_report : Option (Text → List DiffRecord → DryRunSummary → Action W (Unit {0}))
  pub with_tx : Action W (Unit {0}) → Action W (Unit {0})
  pub templates : Option TemplateRegistry
  pub now : W → ℤ × W

module _ {W : Type 0} (s : Services W) where
  abbrev pub clock : Action W ℤ
  clock w = let (t, w') = s.now w in (ok t, w')

  abbrev pub current_cfg : W → Settings
  current_cfg w = elim s.cfg_provider [ none ↦ s.cfg | some provider ↦ provider w ]

  abbrev keep_number : ℤ → ℤ
  keep_number n = if leb_ℤ n (pos 0) then pos 3 else n

  unfoldable pub cleanup_backups : Settings → Action W (Unit {0})
  cleanup_backups cfg = elim s.backups [
    | none ↦ pure tt
    | some b ↦ b.cleanup_backups cfg.db_path (keep_number cfg.backup_keep_last_n)
  ]

  -- `_ = s.CleanupBackups(ctx, cfg)`: the error is dropped.
  unfoldable pub clean_after : Settings → BackupInfo → Action W (Unit {0})
  unfolding cleanup_backups
  clean_after cfg info w =
      if is_empty info.path then (ok tt, w) else (ok tt, (cleanup_backups cfg w).1)

  unfoldable pub backed_up : Settings → BackupStore W → Action W (Unit {0})
  unfolding clean_after
  backed_up cfg b = clock >>= λ t. b.create_backup cfg.db_path t >>= clean_after cfg

  unfoldable pub ensure_backup : Settings → Action W (Unit {0})
  unfolding backed_up clean_after
  ensure_backup cfg = elim s.backups [ none ↦ pure tt | some b ↦ backed_up cfg b ]

  -- s.EnsureBackup(ctx, s.currentCfg())
  unfoldable pub backup_first : Action W (Unit {0})
  unfolding ensure_backup
  backup_first w = ensure_backup (current_cfg w) w

  abbrev not_found : Outcome Template → Outcome Template
  not_found (ok t) = ok t
  not_found (fail e) =
      fail (fmt_wrap [] (sentinel (application template_not_found)) (codes ": " ++ error_text e))

  unfoldable pub template : Text → Outcome Template
  unfolding error_text trim_space
  template id = elim s.templates [
    | none ↦ fail (sentinel (application template_not_found))
    | some r ↦
        not_found (if is_empty (trim_space id) then r.default_template else r.get (trim_space id))
  ]

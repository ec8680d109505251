-- ===== src/Cli/Menu.antt =====
-- Run of internal/interfaces/cli/app.go, with shouldExitOnError and constants.go: the menu.
pub mod Ends
use ankiced.Base.{
  ℕ, zero, suc, ◌+◌, Bool, true, false, Option, none, some, List, [], ◌∷◌, ◌++◌, if◌then◌else◌,
}
use ankiced.Text.{Text, codes, eq_text, trim_space}
use ankiced.Errors.{Err, sentinel, eof, canceled, is}
use ankiced.Presentation.{switch, format_error, format_debug_error}
use ankiced.Config.{Settings}
use ankiced.Action.{Outcome, ok, fail, Action, pure, lift, ◌>>=◌, ◌>>◌}
use ankiced.Services.Ports.{Services}
use ankiced.Cli.Terminal.{Term, write, writeln, read_string, confirm}
use ankiced.Cli.Reading.{Env, write_lines}
use ankiced.Cli.App.{
  list_decks_action, rename_deck_action, search_decks_action, list_notes_action, find_note_by_id,
  search_notes_all_decks, edit_note, preview_cleaner_action, run_cleaner_action,
}

abbrev menu : List Text
menu =
    codes "== Ankiced ==\n"
    ∷ codes "1) List decks\n"
    ∷ codes "2) Rename deck\n"
    ∷ codes "10) Search decks by text\n"
    ∷ codes "3) List notes\n"
    ∷ codes "4) Edit note\n"
    ∷ codes "5) Preview cleaner\n"
    ∷ codes "6) Dry run cleaner\n"
    ∷ codes "7) Apply cleaner\n"
    ∷ codes "8) Find note by id\n"
    ∷ codes "9) Search notes (all decks)\n"
    ∷ codes "0) Exit\n"
    ∷ codes "> "
    ∷ []

-- What a line of the user asks for.
pub data Choice : Type 0 where
  listing renaming deck_search notes editing preview dry_run applying by_id note_search : Choice
  exit unknown : Choice

unfoldable pub choice_of : Text → Choice
unfolding eq_text
choice_of line =
    switch
      ((eq_text line (codes "1"), listing)
        ∷ (eq_text line (codes "2"), renaming)
        ∷ (eq_text line (codes "10"), deck_search)
        ∷ (eq_text line (codes "3"), notes)
        ∷ (eq_text line (codes "4"), editing)
        ∷ (eq_text line (codes "5"), preview)
        ∷ (eq_text line (codes "6"), dry_run)
        ∷ (eq_text line (codes "7"), applying)
        ∷ (eq_text line (codes "8"), by_id)
        ∷ (eq_text line (codes "9"), note_search)
        ∷ (eq_text line (codes "0"), exit)
        ∷ [])
      unknown

module _ {W : Type 0} (s : Services (Term W)) (env : Env W) (cfg : Settings) where
  unfoldable pub message : Err → Text
  unfolding format_error format_debug_error
  message e =
      codes "error: "
      ++ ((if cfg.verbose then format_debug_error e else format_error e) ++ codes "\n")

  -- What follows an action: an error other than io.EOF is shown, and the loop goes on.
  unfoldable pub settled : Outcome (Unit {0}) → Action (Term W) Bool
  unfolding message write is
  settled (ok a) t = (ok true, t)
  settled (fail e) t = if is e eof then (fail e, t) else (write (message e) >> pure true) t

  abbrev settle : Action (Term W) (Unit {0}) → Action (Term W) Bool
  unfolding settled
  settle act t = settled (act t).0 (act t).1

  -- The switch of Run: whether the loop goes on.
  unfoldable pub act_on : Choice → Action (Term W) Bool
  unfolding settle list_decks_action rename_deck_action search_decks_action list_notes_action
      edit_note preview_cleaner_action run_cleaner_action find_note_by_id search_notes_all_decks
      write
  act_on listing = settle (list_decks_action s env cfg)
  act_on renaming = settle (rename_deck_action s env cfg)
  act_on deck_search = settle (search_decks_action s env cfg)
  act_on notes = settle (list_notes_action s env cfg)
  act_on editing = settle (edit_note s env cfg)
  act_on preview = settle (preview_cleaner_action s env cfg)
  act_on dry_run = settle (run_cleaner_action s env cfg true)
  act_on applying = settle (run_cleaner_action s env cfg false)
  act_on by_id = settle (find_note_by_id s env cfg)
  act_on note_search = settle (search_notes_all_decks s env cfg)
  act_on exit = pure false
  act_on unknown = writeln (codes "Unknown option") >> pure true

  -- One round of the loop.
  unfoldable pub round : Action (Term W) Bool
  unfolding act_on write_lines read_string choice_of trim_space
  round t =
      if env.is_done t
      then (fail (sentinel canceled), t)
      else (write_lines menu >> (read_string >>= λ line. act_on (choice_of (trim_space line)))) t

  -- Run; none means that the fuel ran out.
  unfoldable pub run : ℕ → Term W → Option (Outcome (Unit {0}) × Term W)
  unfolding round
  run zero t = none
  run (suc fuel) t = elim (round t).0 [
    | fail e ↦ some (fail e, (round t).1)
    | ok false ↦ some (ok tt, (round t).1)
    | ok true ↦ run fuel (round t).1
  ]

-- The use cases of the command line: the question to the user is asked on its terminal.
abbrev pub with_prompter : {W : Type 0} → (ℕ → ℕ) → Services (Term W) → Services (Term W)
with_prompter lower s = record s { confirm = confirm lower }

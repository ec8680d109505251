-- ===== src/Cli/App.antt =====
-- internal/interfaces/cli/app.go, on a terminal. `s` are the use cases, whose question to the user is
-- that of the Prompter.
pub mod Input
use ankiced.Base.{
  ℕ, zero, suc, ◌+◌, ℤ, pos, leb_ℤ, Bool, true, false, ◌||◌, Option, none, some, List, [], ◌∷◌,
  ◌++◌, map, length, take, ltb, ◌==◌, if◌then◌else◌,
}
use ankiced.Text.{Text, codes, is_empty, eq_text, trim_space, trim_right, split, join}
use ankiced.Text.Number.{parse_int, show_int}
use ankiced.Errors.{Err, sentinel, domain, eof, canceled, external, is}
use ankiced.Domain.{
  Deck, Note, NoteField, FilterSet, Pagination, DiffRecord, field_separator, invalid_note_id,
  invalid_note_list_filters, default_action_template_id,
}
use ankiced.Presentation.{format_error, format_debug_error}
use ankiced.Config.{Settings}
use ankiced.Action.{Outcome, ok, fail, Action, pure, lift, ◌>>=◌, ◌>>◌}
use ankiced.Sanitize.{Nodes, strip_all_tags}
use ankiced.Services.Ports.{Services, Template}
use ankiced.Services.Pool.{Pool}
use ankiced.Services.Cleaner.{run_cleaner}
use ankiced.Services.Decks.{list_decks, search_decks, rename_deck}
use ankiced.Services.Notes.{list_notes, get_note, update_note, preview_cleaner}
use ankiced.Cli.Terminal.{Term, line_count, write, writeln, read_string}
use ankiced.Cli.Escapes.{Piece, decode_escapes}
use ankiced.Cli.Reading.{
  Env, terminator, preview_max_runes, clip_preview, preview_text, number_of, or_zero, is_line_end,
  deck_line, note_line, record_line, read_int64, ask_int64, read_multiline, read_value, write_lines,
}

-- What readPaginationAndSearch returns.
pub record Asked : Type 0 where
  pub limit : ℤ
  pub offset : ℤ
  pub mod_from : ℤ
  pub mod_to : ℤ
  pub search : Text

module _ {W : Type 0} (s : Services (Term W)) (env : Env W) (cfg : Settings) where
  abbrev ask : Text → Action (Term W) ℤ
  unfolding read_int64 write
  ask prompt = ask_int64 env.num_error prompt

  unfoldable pub list_decks_action : Action (Term W) (Unit {0})
  unfolding list_decks write_lines
  list_decks_action = list_decks s >>= λ decks. write_lines (map deck_line decks)

  unfoldable pub rename_deck_action : Action (Term W) (Unit {0})
  unfolding ask write read_string rename_deck trim_space
  rename_deck_action = do
    id ← ask (codes "deck id: ")
    write (codes "new name: ")
    name ← read_string
    rename_deck s id (trim_space name)

  unfoldable pub search_decks_action : Action (Term W) (Unit {0})
  unfolding write read_string search_decks write_lines
  search_decks_action = do
    write (codes "search text: ")
    search ← read_string
    decks ← search_decks s search
    write_lines (map deck_line decks)

  abbrev default_limit : ℤ
  default_limit = if leb_ℤ cfg.default_page_size (pos 0) then pos 10 else cfg.default_page_size

  unfoldable pub read_pagination_and_search : Text → Action (Term W) Asked
  unfolding ask write read_string trim_space show_int
  read_pagination_and_search search_prompt = do
    limit ← ask (codes "limit (default " ++ (show_int default_limit ++ codes "): "))
    offset ← ask (codes "offset (default 0): ")
    mod_from ← ask (codes "mod from unix (optional): ")
    mod_to ← ask (codes "mod to unix (optional): ")
    write search_prompt
    line ← read_string
    pure (record {
      limit = if leb_ℤ limit (pos 0) then default_limit else limit;
      offset = offset;
      mod_from = mod_from;
      mod_to = mod_to;
      search = trim_space line;
    })

  abbrev write_notes : List Note → Action (Term W) (Unit {0})
  unfolding write_lines
  write_notes notes = write_lines (map (note_line env.parse) notes)

  abbrev filters : ℤ → Asked → FilterSet
  filters deck a = record {
    deck_id = deck;
    note_id = pos 0;
    search_text = a.search;
    mod_from_unix = a.mod_from;
    mod_to_unix = a.mod_to;
  }

  abbrev page : Asked → Pagination
  page a = record { limit = a.limit; offset = a.offset }

  unfoldable pub list_notes_action : Action (Term W) (Unit {0})
  unfolding ask read_pagination_and_search list_notes write_notes
  list_notes_action = do
    deck ← ask (codes "deck id: ")
    a ← read_pagination_and_search (codes "search text (optional): ")
    notes ← list_notes s (filters deck a) (page a)
    write_notes notes

  abbrev refuse_if : Bool → Err → Action (Term W) (Unit {0})
  refuse_if test e = lift (if test then fail e else ok tt)

  unfoldable pub find_note_by_id : Action (Term W) (Unit {0})
  unfolding ask list_notes write_notes
  find_note_by_id = do
    id ← ask (codes "note id: ")
    refuse_if (leb_ℤ id (pos 0)) (sentinel (domain invalid_note_id))
    notes ←
        list_notes s
          (record {
            deck_id = pos 0;
            note_id = id;
            search_text = [];
            mod_from_unix = pos 0;
            mod_to_unix = pos 0;
          })
          (record { limit = pos 1; offset = pos 0 })
    write_notes notes

  unfoldable pub search_notes_all_decks : Action (Term W) (Unit {0})
  unfolding read_pagination_and_search list_notes write_notes trim_space
  search_notes_all_decks = do
    a ← read_pagination_and_search (codes "search text (required): ")
    refuse_if (is_empty (trim_space a.search)) (sentinel (domain invalid_note_list_filters))
    notes ← list_notes s (filters (pos 0) (record a { search = trim_space a.search })) (page a)
    write_notes notes

  -- The loop of editNote.
  unfoldable pub edit_fields : List NoteField → Action (Term W) (List NoteField)
  unfolding write read_value
  edit_fields [] = pure []
  edit_fields (f ∷ fs) = do
    write (f.name ++ (codes " current:\n" ++ (f.value ++ codes "\n")))
    write (
        codes "new value for "
        ++ (f.name ++ (codes " (finish with single line " ++ (terminator ++ codes "):\n"))))
    value ← read_value env.assemble
    rest ← edit_fields fs
    pure (record { name = f.name; value = value } ∷ rest)

  unfoldable pub edit_note : Action (Term W) (Unit {0})
  unfolding ask get_note edit_fields update_note
  edit_note = do
    id ← ask (codes "note id: ")
    note ← get_note s id
    fields ← edit_fields note.fields
    update_note s id fields

  unfoldable pub preview_cleaner_action : Action (Term W) (Unit {0})
  unfolding ask preview_cleaner write_lines
  preview_cleaner_action = do
    id ← ask (codes "note id: ")
    records ← preview_cleaner s id default_action_template_id
    write_lines (map record_line records)

  abbrev clean : ℤ → Bool → Action (Term W) Text
  unfolding run_cleaner
  clean deck dry_run t =
      let (o, c) = run_cleaner s cfg deck dry_run default_action_template_id env.schedule t in
      (o, c.world)

  unfoldable pub run_cleaner_action : Bool → Action (Term W) (Unit {0})
  unfolding ask clean write
  run_cleaner_action dry_run = do
    deck ← ask (codes "deck id: ")
    out ← clean deck dry_run
    writeln out

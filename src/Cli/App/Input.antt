-- ===== src/Cli/App/Input.antt =====
-- No action of the menu adds to the input, where nothing behind the ports does.
use ankiced.Base.{
  ℕ, zero, suc, ℤ, pos, Bool, List, [], ◌∷◌, ◌++◌, map, leb_ℤ, inl, inr, Bool-cases, if◌then◌else◌,
}
use ankiced.Text.Number.{show_int}
use ankiced.Text.{Text, codes, is_empty, eq_text, trim_space, trim_right}
use ankiced.Errors.{sentinel, domain}
use ankiced.Domain.{
  NoteField, FilterSet, Pagination, invalid_note_id, invalid_note_list_filters,
  default_action_template_id,
}
use ankiced.Config.{Settings}
use ankiced.Action.{ok, fail, lift, Preserves, Kept, chain, seq, lifted, bind-Preserves}
use ankiced.Services.Ports.{Services, Template}
use ankiced.Services.Decks.{list_decks, search_decks, rename_deck}
use ankiced.Services.Notes.{list_notes, get_note, update_note, preview_cleaner}
use ankiced.Services.Stable.{
  IsStable, list_decks-Preserves, search_decks-Preserves, rename_deck-Preserves,
  list_notes-Preserves, get_note-Preserves, update_note-Preserves, preview_cleaner-Preserves,
  run_cleaner-Preserves,
}
use ankiced.Cli.Terminal.{Term, line_count, write, read_string}
use ankiced.Cli.Terminal.Lines.{AtMost, write-AtMost, read_string-AtMost}
use ankiced.Cli.Escapes.{Piece, decode_escapes}
use ankiced.Cli.Reading.{
  Env, terminator, is_line_end, or_zero, read_int64, read_multiline, read_value, write_lines,
  deck_line, note_line, record_line,
}
use ankiced.Cli.App.{
  Asked, list_decks_action, rename_deck_action, search_decks_action, default_limit,
  read_pagination_and_search, list_notes_action, find_note_by_id, search_notes_all_decks,
  edit_fields, edit_note, preview_cleaner_action, run_cleaner_action, filters, page, clean,
}

module _ {W : Type 0} (n : ℕ) where
  abbrev P : Term W → Type 0
  P = AtMost n

  abbrev writing : Text → Kept P (Unit {0})
  writing text = (write text, write-AtMost n text)

  abbrev reading : Kept P Text
  reading = (read_string, read_string-AtMost n)

  pub write_lines-AtMost : (ls : List Text) → Preserves P (write_lines ls)
  unfolding write_lines
  write_lines-AtMost [] t h = h
  write_lines-AtMost (l ∷ ls) t h =
      (seq P (writing l) (write_lines ls, write_lines-AtMost ls)).1 t h

  abbrev all_of : List Text → Kept P (Unit {0})
  all_of ls = (write_lines ls, write_lines-AtMost ls)

  ask-AtMost : (num_error : Text → Text) → Preserves P (read_int64 num_error)
  unfolding read_int64
  ask-AtMost num_error = (chain P reading λ line. lifted P (or_zero num_error (trim_space line))).1

  abbrev asking : (Text → Text) → Text → Kept P ℤ
  asking num_error prompt = seq P (writing prompt) (read_int64 num_error, ask-AtMost num_error)

  -- What follows a line of a field.
  multiline-AtMost :
      (assemble : List Piece → Text) (fuel : ℕ) (lines : List Text)
      → Preserves P (read_multiline assemble fuel lines)
  unfolding read_multiline
  multiline-AtMost assemble zero lines t h = h
  multiline-AtMost assemble (suc fuel) lines u k =
      bind-Preserves P read_string _ (read_string-AtMost n)
        (λ line t h. elim (Bool-cases (eq_text (trim_right is_line_end line) terminator)) [
          | inl ends ↦ rw ends h
          | inr more ↦ rw more (
              bind-Preserves P (lift (decode_escapes assemble (trim_right is_line_end line))) _
                (λ v p. p) (λ decoded. multiline-AtMost assemble fuel (lines ++ decoded ∷ [])) t h)
        ])
        u k

  read_value-AtMost : (assemble : List Piece → Text) → Preserves P (read_value assemble)
  unfolding read_value
  read_value-AtMost assemble t = multiline-AtMost assemble (suc (line_count t)) [] t

  module _ (s : Services (Term W)) (h : IsStable P s) (env : Env W) (cfg : Settings) where
    pub list_decks_action-AtMost : Preserves P (list_decks_action s env cfg)
    unfolding list_decks_action
    list_decks_action-AtMost =
        (chain P (list_decks s, list_decks-Preserves P s h) λ decks. all_of (map deck_line decks)).1

    pub rename_deck_action-AtMost : Preserves P (rename_deck_action s env cfg)
    unfolding rename_deck_action
    rename_deck_action-AtMost =
        (chain P (asking env.num_error (codes "deck id: ")) λ id.
          seq P (writing (codes "new name: ")) (
            chain P reading λ name. (
              rename_deck s id (trim_space name),
              rename_deck-Preserves P s h id (trim_space name),
            ))).1

    pub search_decks_action-AtMost : Preserves P (search_decks_action s env cfg)
    unfolding search_decks_action
    search_decks_action-AtMost =
        (seq P (writing (codes "search text: ")) (
          chain P reading λ search.
            chain P (search_decks s search, search_decks-Preserves P s h search)
              λ decks. all_of (map deck_line decks))).1

    asks : (prompt : Text) → Preserves P (read_pagination_and_search s env cfg prompt)
    unfolding read_pagination_and_search
    asks prompt =
        (chain P
          (asking env.num_error
            (codes "limit (default " ++ (show_int (default_limit s env cfg) ++ codes "): ")))
          λ limit. chain P (asking env.num_error (codes "offset (default 0): ")) λ offset.
            chain P (asking env.num_error (codes "mod from unix (optional): ")) λ mod_from.
              chain P (asking env.num_error (codes "mod to unix (optional): ")) λ mod_to.
                seq P (writing prompt) (
                  chain P reading λ line. lifted P (
                    ok (record {
                      limit = if leb_ℤ limit (pos 0) then default_limit s env cfg else limit;
                      offset = offset;
                      mod_from = mod_from;
                      mod_to = mod_to;
                      search = trim_space line;
                    })))).1

    abbrev searching : Text → Kept P Asked
    searching prompt = (read_pagination_and_search s env cfg prompt, asks prompt)

    -- Notes that are looked up and shown.
    abbrev showing : FilterSet → Pagination → Kept P (Unit {0})
    showing f p =
        chain P (list_notes s f p, list_notes-Preserves P s h f p)
          λ notes. all_of (map (note_line env.parse) notes)

    pub list_notes_action-AtMost : Preserves P (list_notes_action s env cfg)
    unfolding list_notes_action
    list_notes_action-AtMost =
        (chain P (asking env.num_error (codes "deck id: ")) λ deck.
          chain P (searching (codes "search text (optional): "))
            λ a. showing (filters s env cfg deck a) (page s env cfg a)).1

    pub find_note_by_id-AtMost : Preserves P (find_note_by_id s env cfg)
    unfolding find_note_by_id
    find_note_by_id-AtMost =
        (chain P (asking env.num_error (codes "note id: ")) λ id.
          seq P
            (lifted P
              (if leb_ℤ id (pos 0) then fail (sentinel (domain invalid_note_id)) else ok tt))
            (showing
              (record {
                deck_id = pos 0;
                note_id = id;
                search_text = [];
                mod_from_unix = pos 0;
                mod_to_unix = pos 0;
              })
              (record { limit = pos 1; offset = pos 0 }))).1

    pub search_notes_all_decks-AtMost : Preserves P (search_notes_all_decks s env cfg)
    unfolding search_notes_all_decks
    search_notes_all_decks-AtMost =
        (chain P (searching (codes "search text (required): ")) λ a.
          seq P
            (lifted P (
              if is_empty (trim_space a.search)
              then fail (sentinel (domain invalid_note_list_filters))
              else ok tt))
            (showing (filters s env cfg (pos 0) (record a { search = trim_space a.search }))
              (page s env cfg a))).1

    edit_fields-AtMost : (fs : List NoteField) → Preserves P (edit_fields s env cfg fs)
    unfolding edit_fields
    edit_fields-AtMost [] t k = k
    edit_fields-AtMost (f ∷ fs) t k =
        (seq P (writing (f.name ++ (codes " current:\n" ++ (f.value ++ codes "\n")))) (
            seq P
              (writing (
                codes "new value for "
                ++ (f.name
                    ++ (codes " (finish with single line " ++ (terminator ++ codes "):\n")))))
              (chain P (read_value env.assemble, read_value-AtMost env.assemble)
                λ value.
                  chain P (edit_fields s env cfg fs, edit_fields-AtMost fs)
                    λ rest. lifted P (ok (record { name = f.name; value = value } ∷ rest))))).1
          t k

    pub edit_note-AtMost : Preserves P (edit_note s env cfg)
    unfolding edit_note
    edit_note-AtMost =
        (chain P (asking env.num_error (codes "note id: ")) λ id.
          chain P (get_note s id, get_note-Preserves P s h id)
            λ note.
              chain P (edit_fields s env cfg note.fields, edit_fields-AtMost note.fields)
                λ fields. (update_note s id fields, update_note-Preserves P s h id fields)).1

    pub preview_cleaner_action-AtMost : Preserves P (preview_cleaner_action s env cfg)
    unfolding preview_cleaner_action
    preview_cleaner_action-AtMost =
        (chain P (asking env.num_error (codes "note id: ")) λ id.
          chain P
            (
              preview_cleaner s id default_action_template_id,
              preview_cleaner-Preserves P s h id default_action_template_id,
            )
            λ records. all_of (map record_line records)).1

    -- What the run of the workers preserves.
    abbrev pub IsStableRun : Type 0
    IsStableRun =
        (apply : Template) (ids : List ℤ) (t : Term W) → P t → P (env.schedule apply ids t).world

    pub run_cleaner_action-AtMost :
        IsStableRun → (dry_run : Bool) → Preserves P (run_cleaner_action s env cfg dry_run)
    unfolding run_cleaner_action
    run_cleaner_action-AtMost k dry_run =
        (chain P (asking env.num_error (codes "deck id: ")) λ deck.
          chain P
            (
              clean s env cfg deck dry_run,
              run_cleaner-Preserves P s h cfg deck dry_run default_action_template_id env.schedule
                  k,
            )
            λ out. writing (out ++ codes "\n")).1

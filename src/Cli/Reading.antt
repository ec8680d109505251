-- ===== src/Cli/Reading.antt =====
-- What app.go reads and shows: readInt64, readMultiline, previewText and the lines of the lists.
pub mod Multiline
pub mod Preview
use ankiced.Base.{
  ℕ, zero, suc, ◌+◌, ℤ, pos, leb_ℤ, Bool, true, false, ◌||◌, Option, none, some, List, [], ◌∷◌,
  ◌++◌, map, length, take, ltb, ◌==◌, if◌then◌else◌,
}
use ankiced.Text.{Text, codes, is_empty, eq_text, trim_space, trim_right, split, join}
use ankiced.Text.Number.{parse_int, show_int}
use ankiced.Errors.{Err, sentinel, domain, eof, canceled, external, is}
use ankiced.Domain.{
  Deck, Note, NoteField, FilterSet, Pagination, DiffRecord, field_separator, invalid_note_id,
  invalid_note_list_filters, default_action_template_id,
}
use ankiced.Presentation.{format_error, format_debug_error}
use ankiced.Config.{Settings}
use ankiced.Action.{Outcome, ok, fail, Action, pure, lift, ◌>>=◌, ◌>>◌}
use ankiced.Sanitize.{Nodes, strip_all_tags}
use ankiced.Services.Ports.{Services, Template}
use ankiced.Services.Pool.{Pool}
use ankiced.Services.Cleaner.{run_cleaner}
use ankiced.Services.Decks.{list_decks, search_decks, rename_deck}
use ankiced.Services.Notes.{list_notes, get_note, update_note, preview_cleaner}
use ankiced.Cli.Terminal.{Term, line_count, write, writeln, read_string}
use ankiced.Cli.Escapes.{Piece, decode_escapes}

-- What app.go uses of other packages: how bytes make a text, the parser of HTML, the text of an error
-- of strconv.ParseInt, whether the context is done, and the run of the workers that the machine makes.
pub record Env (W : Type 0) : Type 0 where
  pub assemble : List Piece → Text
  pub parse : Text → Outcome Nodes
  pub num_error : Text → Text
  pub is_done : Term W → Bool
  pub schedule : Template → List ℤ → Term W → Pool (Term W)

abbrev pub terminator : Text
terminator = codes ".end"

-- previewText, with previewMaxRunes.
abbrev pub preview_max_runes : ℕ
preview_max_runes = 80

abbrev pub clip_preview : Text → Text
clip_preview value =
    if ltb preview_max_runes (length value)
    then take preview_max_runes value ++ codes "..."
    else value

unfoldable pub preview_text : (Text → Outcome Nodes) → Text → Text
unfolding split join strip_all_tags
preview_text parse raw =
    clip_preview (join (map (strip_all_tags parse) (split field_separator raw)) (codes " | "))

abbrev pub number_of : (Text → Text) → Text → Outcome ℤ
number_of num_error line = elim (parse_int line) [
  | none ↦ fail (external (num_error line))
  | some n ↦ ok n
]

abbrev pub or_zero : (Text → Text) → Text → Outcome ℤ
or_zero num_error line = if is_empty line then ok (pos 0) else number_of num_error line

abbrev pub is_line_end : ℕ → Bool
is_line_end c = c == b'\r' || c == b'\n'

abbrev pub deck_line : Deck → Text
unfolding show_int
deck_line d =
    codes "id="
    ++ (show_int d.id
        ++ (codes " name="
            ++ (d.name ++ (codes " cards=" ++ (show_int d.card_count ++ codes "\n")))))

abbrev pub note_line : (Text → Outcome Nodes) → Note → Text
unfolding show_int preview_text
note_line parse n =
    codes "note="
    ++ (show_int n.id
        ++ (codes " mod="
            ++ (show_int n.modified
                ++ (codes " preview=" ++ (preview_text parse n.raw_flds ++ codes "\n")))))

abbrev pub record_line : DiffRecord → Text
record_line r =
    codes "field="
    ++ (r.field_name ++ (codes "\n- " ++ (r.before ++ (codes "\n+ " ++ (r.after ++ codes "\n")))))

module _ {W : Type 0} where
  -- readInt64
  unfoldable pub read_int64 : (Text → Text) → Action (Term W) ℤ
  unfolding read_string trim_space parse_int
  read_int64 num_error = read_string >>= λ line. lift (or_zero num_error (trim_space line))

  -- A prompt and the number that is typed behind it.
  abbrev pub ask_int64 : (Text → Text) → Text → Action (Term W) ℤ
  ask_int64 num_error prompt = write prompt >> read_int64 num_error

  -- The loop of readMultiline; each round takes a line off the input.
  unfoldable pub read_multiline : (List Piece → Text) → ℕ → List Text → Action (Term W) Text
  unfolding read_string trim_right eq_text decode_escapes join
  read_multiline assemble zero lines = lift (fail (sentinel eof))
  read_multiline assemble (suc fuel) lines = read_string >>= λ line.
      let trim = trim_right is_line_end line in
      if eq_text trim terminator
      then pure (join lines (codes "\n"))
      else (lift (decode_escapes assemble trim) >>= λ decoded.
          read_multiline assemble fuel (lines ++ decoded ∷ []))

  unfoldable pub read_value : (List Piece → Text) → Action (Term W) Text
  unfolding read_multiline
  read_value assemble t = read_multiline assemble (suc (line_count t)) [] t

  unfoldable pub write_lines : List Text → Action (Term W) (Unit {0})
  unfolding write
  write_lines [] = pure tt
  write_lines (l ∷ ls) = write l >> write_lines ls

-- ===== src/Domain.antt =====
-- internal/domain: types.go and policies.go. A Go `int` or `int64` is an integer, a count that
-- starts at 0 and only grows a natural number.
pub mod Laws
mod Tests
use ankiced.Base.{
  ℕ, ℤ, Bool, true, false, Option, none, some, List, [], ◌∷◌, map, length, any, ltb, ◌==◌,
  if◌then◌else◌,
}
use ankiced.Text.{Text, codes, is_empty, is_control, trim_space}

-- The rune U+001F between the fields of a note.
abbrev pub field_separator : ℕ
field_separator = 0x1f

abbrev pub default_action_template_id : Text
default_action_template_id = codes "html_cleaner"

pub record Deck : Type 0 where
  pub id : ℤ
  pub name : Text
  pub card_count : ℤ

pub record Pagination : Type 0 where
  pub limit : ℤ
  pub offset : ℤ

pub record FilterSet : Type 0 where
  pub deck_id : ℤ
  pub note_id : ℤ
  pub search_text : Text
  pub mod_from_unix : ℤ
  pub mod_to_unix : ℤ

pub record NoteField : Type 0 where
  pub name : Text
  pub value : Text

pub record Note : Type 0 where
  pub id : ℤ
  pub guid : Text
  pub model_id : ℤ
  pub raw_flds : Text
  pub fields : List NoteField
  pub modified : ℤ
  pub usn : ℤ

pub record Model : Type 0 where
  pub id : ℤ
  pub field_names : List Text

pub record DiffRecord : Type 0 where
  pub note_id : ℤ
  pub field_name : Text
  pub before : Text
  pub after : Text

pub record DryRunSummary : Type 0 where
  pub processed : ℕ
  pub changed : ℕ
  pub skipped : ℕ
  pub errors : ℕ

abbrev pub no_summary : DryRunSummary
no_summary = record { processed = 0; changed = 0; skipped = 0; errors = 0 }

pub record CleanerProgress : Type 0 where
  pub total : ℕ
  pub processed : ℕ
  pub changed : ℕ
  pub skipped : ℕ
  pub errors : ℕ
  pub stage : Text
  pub summary : DryRunSummary

-- The sentinel errors of policies.go.
pub data DomainError : Type 0 where
  empty_deck_name deck_name_conflict field_count_invalid deck_name_too_long : DomainError
  deck_name_invalid deck_search_empty invalid_note_list_filters invalid_note_id : DomainError

abbrev pub max_deck_name_length : ℕ
max_deck_name_length = 200

-- ValidateDeckRename; `none` is the nil error.
unfoldable pub validate_deck_rename : Text → Option DomainError
validate_deck_rename name =
    let trimmed = trim_space name in
    if is_empty trimmed
    then some empty_deck_name
    else if ltb max_deck_name_length (length trimmed)
    then some deck_name_too_long
    else if any is_control trimmed
    then some deck_name_invalid
    else none

abbrev zip_fields : List Text → List Text → List NoteField
zip_fields (v ∷ vs) (n ∷ ns) = record { name = n; value = v } ∷ zip_fields vs ns
zip_fields _ _ = []

-- MapFields; the only error is ErrFieldCountInvalid.
unfoldable pub map_fields : List Text → Model → Option (List NoteField)
map_fields values model =
    if length values == length model.field_names
    then some (zip_fields values model.field_names)
    else none

unfoldable pub join_field_values : List NoteField → List Text
join_field_values fields = map (λ f. f.value) fields

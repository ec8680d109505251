-- ===== src/Presentation.antt =====
-- internal/presentation/errors.go.
use ankiced.Base.{Bool, ◌||◌, List, [], ◌∷◌, ◌++◌, if◌then◌else◌}
use ankiced.Text.{Text, codes, join}
use ankiced.Domain.{
  empty_deck_name, deck_name_conflict, field_count_invalid, deck_name_too_long, deck_name_invalid,
  deck_search_empty, invalid_note_list_filters, invalid_note_id,
}
use ankiced.Errors.{
  Err, eof, domain, application, operation_cancelled, report_write_failed, template_not_found,
  deck_not_found, note_not_found, model_not_found, code_operation_cancelled, code_invalid_escape,
  code_database_path_empty, code_deck_not_found, code_note_not_found, code_model_not_found,
  code_report_write_failed, code_template_not_found, error_text, is, has_code, unwrap_chain,
}

-- A Go `switch` over tests: the first case whose test holds, or the default.
abbrev pub switch {ℓ} : {A : Type ℓ} → List (Bool × A) → A → A
switch [] other = other
switch ((test, answer) ∷ cases) other =
    let rest = switch cases other in if test then answer else rest

-- The cases of the switch of FormatError, in its order.
abbrev pub format_cases : Err → List (Bool × Text)
format_cases err =
    (is err eof, codes "input stream closed")
    ∷ (
      is err (application operation_cancelled) || has_code err code_operation_cancelled,
      codes "operation cancelled by user",
    )
    ∷ (is err (domain empty_deck_name), codes "deck name cannot be empty")
    ∷ (is err (domain deck_name_conflict), codes "deck name is already used")
    ∷ (is err (domain deck_name_too_long), codes "deck name is too long")
    ∷ (is err (domain deck_name_invalid), codes "deck name contains control characters")
    ∷ (is err (domain deck_search_empty), codes "deck search text cannot be empty")
    ∷ (
      is err (domain invalid_note_list_filters),
      codes
          "invalid note list query: need a deck id, a note id, or search text for all-decks search",
    )
    ∷ (is err (domain invalid_note_id), codes "note id must be a positive integer")
    ∷ (is err (domain field_count_invalid), codes "note fields do not match model")
    ∷ (has_code err code_invalid_escape, codes "invalid escape sequence in multiline input")
    ∷ (has_code err code_database_path_empty, codes "database path is empty")
    ∷ (
      is err (application deck_not_found) || has_code err code_deck_not_found,
      codes "deck not found",
    )
    ∷ (
      is err (application note_not_found) || has_code err code_note_not_found,
      codes "note not found",
    )
    ∷ (
      is err (application model_not_found) || has_code err code_model_not_found,
      codes "model not found",
    )
    ∷ (
      is err (application template_not_found) || has_code err code_template_not_found,
      codes "action template not found",
    )
    ∷ (
      is err (application report_write_failed) || has_code err code_report_write_failed,
      codes "failed to write report",
    )
    ∷ []

-- FormatError of an error that is not nil.
unfoldable pub format_error : Err → Text
unfolding is has_code error_text
format_error err = switch (format_cases err) (error_text err)

-- FormatDebugError of an error that is not nil.
abbrev with_chain : Text → List Text → Text
with_chain base [] = base
with_chain base (e ∷ es) = base ++ (codes " | cause: " ++ join (e ∷ es) (codes " -> "))

unfoldable pub format_debug_error : Err → Text
unfolding format_error unwrap_chain join
format_debug_error err = with_chain (format_error err) (unwrap_chain err)

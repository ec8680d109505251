-- ===== src/Api/Errors.antt =====
-- internal/interfaces/httpapi/errors.go: the codes of the API's error payloads, and the hints.
pub mod Laws
mod Tests
use ankiced.Base.{Bool, List, [], ◌∷◌, Option, none, some, if◌then◌else◌}
use ankiced.Text.{Text, codes, eq_text}
use ankiced.Domain.{
  empty_deck_name, deck_name_conflict, field_count_invalid, deck_name_too_long, deck_name_invalid,
  deck_search_empty, invalid_note_list_filters, invalid_note_id,
}
use ankiced.Errors.{
  Err, domain, application, template_not_found, deck_not_found, note_not_found, model_not_found, is,
}
use ankiced.Presentation.{switch, format_error, format_debug_error}

-- apiErrorPayload
pub record ApiError : Type 0 where
  pub message : Text
  pub recommended_action : Text
  pub code : Text
  pub details : Text
  pub correlation_id : Text

abbrev code_cases : Err → List (Bool × Text)
code_cases err =
    (is err (domain empty_deck_name), codes "DECK_NAME_EMPTY")
    ∷ (is err (domain deck_name_conflict), codes "DECK_NAME_CONFLICT")
    ∷ (is err (domain deck_name_too_long), codes "DECK_NAME_TOO_LONG")
    ∷ (is err (domain deck_name_invalid), codes "DECK_NAME_INVALID")
    ∷ (is err (application deck_not_found), codes "DECK_NOT_FOUND")
    ∷ (is err (application note_not_found), codes "NOTE_NOT_FOUND")
    ∷ (is err (application model_not_found), codes "MODEL_NOT_FOUND")
    ∷ (is err (domain deck_search_empty), codes "DECK_SEARCH_EMPTY")
    ∷ (is err (domain invalid_note_list_filters), codes "NOTE_LIST_FILTERS_INVALID")
    ∷ (is err (domain invalid_note_id), codes "NOTE_ID_INVALID")
    ∷ (is err (domain field_count_invalid), codes "NOTE_FIELD_COUNT_INVALID")
    ∷ (is err (application template_not_found), codes "TEMPLATE_NOT_FOUND")
    ∷ []

-- mapErrorCode
unfoldable pub map_error_code : Err → Text
unfolding is
map_error_code err = switch (code_cases err) (codes "INTERNAL_ERROR")

-- Three codes share a hint, and two others.
abbrev deck_name_hint : Text
deck_name_hint =
    codes "Use a non-empty deck name without control characters and keep it reasonably short."

abbrev operation_hint : Text
operation_hint = codes "Check the operation id returned by the cleaner request."

-- recommendedActions
abbrev recommended_actions : List (Text × Text)
recommended_actions =
    (codes "DECK_NAME_EMPTY", deck_name_hint)
    ∷ (codes "DECK_NAME_INVALID", deck_name_hint)
    ∷ (codes "DECK_NAME_TOO_LONG", deck_name_hint)
    ∷ (
      codes "DECK_NAME_CONFLICT",
      codes "Choose a deck name that is not already used by another deck.",
    )
    ∷ (codes "DECK_NOT_FOUND", codes "Refresh the deck list and choose an existing deck.")
    ∷ (codes "NOTE_NOT_FOUND", codes "Refresh the note list and select an existing note id.")
    ∷ (codes "MODEL_NOT_FOUND", codes "Verify the note model still exists in the Anki collection.")
    ∷ (codes "DECK_SEARCH_EMPTY", codes "Enter search text before running deck search.")
    ∷ (
      codes "NOTE_LIST_FILTERS_INVALID",
      codes "Select a deck, enter a note id, or provide global search text.",
    )
    ∷ (codes "NOTE_ID_INVALID", codes "Enter a positive numeric note id.")
    ∷ (
      codes "NOTE_FIELD_COUNT_INVALID",
      codes "Reload the note and save all fields returned by the editor.",
    )
    ∷ (
      codes "TEMPLATE_NOT_FOUND",
      codes "Use an available action template or omit template_id to use the default cleaner.",
    )
    ∷ (codes "INVALID_JSON", codes "Check the request body format and use valid JSON.")
    ∷ (codes "DECK_ID_INVALID", codes "Enter a positive numeric deck id.")
    ∷ (codes "CONFIRM_REQUIRED", codes "Review the dry run result and explicitly confirm apply.")
    ∷ (codes "OPERATION_ID_INVALID", operation_hint)
    ∷ (codes "OPERATION_NOT_FOUND", operation_hint)
    ∷ (codes "METHOD_NOT_ALLOWED", codes "Use the HTTP method documented for this endpoint.")
    ∷ (codes "NOT_FOUND", codes "Check the API path and version.")
    ∷ (
      codes "APP_EXIT_DISABLED",
      codes "Run ankiced-web through the normal application entrypoint to enable exit.",
    )
    ∷ (
      codes "STREAMING_UNSUPPORTED",
      codes
          "Use a client that supports HTTP/1.1 streaming or fall back to the polling logs endpoint (?since=).",
    )
    ∷ (
      codes "REQUEST_BODY_TOO_LARGE",
      codes "Reduce the size of the request body or split it into smaller chunks.",
    )
    ∷ []

abbrev default_recommended_action : Text
default_recommended_action = codes "Check the technical details and retry the operation."

abbrev find_action : Text → List (Text × Text) → Text
find_action code [] = default_recommended_action
find_action code ((c, action) ∷ rest) = if eq_text c code then action else find_action code rest

-- recommendedAction
unfoldable pub recommended_action : Text → Text
unfolding eq_text
recommended_action code = find_action code recommended_actions

-- The payload of writeError, and of a failed operation.
unfoldable pub error_payload : Err → Text → ApiError
unfolding map_error_code recommended_action
error_payload err cid = record {
  message = format_error err;
  recommended_action = recommended_action (map_error_code err);
  code = map_error_code err;
  details = format_debug_error err;
  correlation_id = cid;
}

-- The payload of writeMessageError.
unfoldable pub message_payload : Text → Text → Text → Text → ApiError
unfolding recommended_action
message_payload message code details cid = record {
  message = message;
  recommended_action = recommended_action code;
  code = code;
  details = details;
  correlation_id = cid;
}

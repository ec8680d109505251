-- ===== src/Errors.antt =====
-- Go error values: internal/apperrors/errors.go, the sentinels of internal/application/errors.go,
-- internal/infrastructure/{config,sqlite} and internal/interfaces/cli, and what the program uses of
-- the packages errors and fmt. A sentinel is a pointer: it equals itself alone.
pub mod Chain
mod Tests
use ankiced.Base.{Bool, true, false, ◌||◌, Option, none, some, List, [], ◌∷◌, ◌++◌, if◌then◌else◌}
use ankiced.Text.{Text, codes, is_empty}
use ankiced.Domain.{
  DomainError, empty_deck_name, deck_name_conflict, field_count_invalid, deck_name_too_long,
  deck_name_invalid, deck_search_empty, invalid_note_list_filters, invalid_note_id,
}

-- apperrors.Code
pub data Code : Type 0 where
  code_operation_cancelled code_invalid_escape code_database_path_empty : Code
  code_deck_not_found code_note_not_found code_model_not_found : Code
  code_report_write_failed code_template_not_found : Code

abbrev pub code_text : Code → Text
code_text code_operation_cancelled = codes "OPERATION_CANCELLED"
code_text code_invalid_escape = codes "INVALID_ESCAPE_SEQUENCE"
code_text code_database_path_empty = codes "DATABASE_PATH_EMPTY"
code_text code_deck_not_found = codes "DECK_NOT_FOUND"
code_text code_note_not_found = codes "NOTE_NOT_FOUND"
code_text code_model_not_found = codes "MODEL_NOT_FOUND"
code_text code_report_write_failed = codes "REPORT_WRITE_FAILED"
code_text code_template_not_found = codes "TEMPLATE_NOT_FOUND"

-- The package-level values made by apperrors.New.
pub data AppSentinel : Type 0 where
  operation_cancelled report_write_failed template_not_found : AppSentinel
  deck_not_found note_not_found model_not_found : AppSentinel
  invalid_escape_sequence database_path_empty : AppSentinel

pub data SqliteError : Type 0 where
  invalid_journal_mode invalid_synchronous old_conn_close_failed : SqliteError

pub data Sentinel : Type 0 where
  eof canceled : Sentinel
  domain : DomainError → Sentinel
  application : AppSentinel → Sentinel
  sqlite : SqliteError → Sentinel

pub Code-discrete : Discrete Code
Code-discrete = hlevel

pub Sentinel-discrete : Discrete Sentinel
Sentinel-discrete = hlevel

-- `new` and `wrap` are apperrors.New and Wrap, `fmt_wrap` is fmt.Errorf with one %w, and the text
-- before and behind it; `join` is errors.Join of two errors and `alone` of one that is not nil;
-- `external` is an error of other code.
pub data Err : Type 0 where
  sentinel : Sentinel → Err
  new : Code → Text → Err
  wrap : Code → Text → Err → Err
  fmt_wrap : Text → Err → Text → Err
  join : Err → Err → Err
  alone : Err → Err
  external : Text → Err

abbrev pub app_code : AppSentinel → Code
app_code operation_cancelled = code_operation_cancelled
app_code report_write_failed = code_report_write_failed
app_code template_not_found = code_template_not_found
app_code deck_not_found = code_deck_not_found
app_code note_not_found = code_note_not_found
app_code model_not_found = code_model_not_found
app_code invalid_escape_sequence = code_invalid_escape
app_code database_path_empty = code_database_path_empty

abbrev app_message : AppSentinel → Text
app_message operation_cancelled = codes "operation cancelled"
app_message report_write_failed = codes "failed to write report"
app_message template_not_found = codes "action template not found"
app_message deck_not_found = codes "deck not found"
app_message note_not_found = codes "note not found"
app_message model_not_found = codes "model not found"
app_message invalid_escape_sequence = codes "invalid escape sequence"
app_message database_path_empty = codes "database path is empty"

abbrev domain_message : DomainError → Text
domain_message empty_deck_name = codes "deck name is empty"
domain_message deck_name_conflict = codes "deck name conflict"
domain_message field_count_invalid = codes "note field count does not match model"
domain_message deck_name_too_long = codes "deck name is too long"
domain_message deck_name_invalid = codes "deck name contains invalid characters"
domain_message deck_search_empty = codes "deck search text cannot be empty"
domain_message invalid_note_list_filters =
    codes
      "specify a positive deck id, a positive note id, or non-empty search text for collection-wide search"
domain_message invalid_note_id = codes "note id must be a positive integer"

abbrev sqlite_message : SqliteError → Text
sqlite_message invalid_journal_mode = codes "invalid journal_mode pragma"
sqlite_message invalid_synchronous = codes "invalid synchronous pragma"
sqlite_message old_conn_close_failed = codes "close previous db connection failed"

abbrev sentinel_message : Sentinel → Text
sentinel_message eof = codes "EOF"
sentinel_message canceled = codes "context canceled"
sentinel_message (domain d) = domain_message d
sentinel_message (application a) = app_message a
sentinel_message (sqlite s) = sqlite_message s

-- (*AppError).Error with no cause, and with the text of one.
abbrev app_text : Code → Text → Text
app_text code message = if is_empty message then code_text code else message

abbrev app_text_caused : Text → Text → Text
app_text_caused message cause = if is_empty message then cause else message ++ (codes ": " ++ cause)

unfoldable pub error_text : Err → Text
error_text (sentinel s) = sentinel_message s
error_text (new code message) = app_text code message
error_text (wrap code message cause) = app_text_caused message (error_text cause)
error_text (fmt_wrap before e after) = before ++ (error_text e ++ after)
error_text (join a b) = error_text a ++ (codes "\n" ++ error_text b)
error_text (alone e) = error_text e
error_text (external text) = text

abbrev pub same_sentinel : Sentinel → Sentinel → Bool
same_sentinel a b = elim (Sentinel-discrete a b) [ yes _ ↦ true | no _ ↦ false ]

abbrev pub same_code : Code → Code → Bool
same_code a b = elim (Code-discrete a b) [ yes _ ↦ true | no _ ↦ false ]

-- errors.Is for a sentinel.
unfoldable pub is : Err → Sentinel → Bool
unfolding Sentinel-discrete
is (sentinel s) t = same_sentinel s t
is (new _ _) t = false
is (wrap _ _ cause) t = is cause t
is (fmt_wrap _ e _) t = is e t
is (join a b) t = is a t || is b t
is (alone e) t = is e t
is (external _) t = false

abbrev sentinel_code : Sentinel → Option Code
sentinel_code (application a) = some (app_code a)
sentinel_code _ = none

abbrev or_else : Option Code → Option Code → Option Code
or_else (some c) _ = some c
or_else none o = o

-- errors.As for *AppError: the code of the first one, depth first.
unfoldable pub as_app_error : Err → Option Code
as_app_error (sentinel s) = sentinel_code s
as_app_error (new code _) = some code
as_app_error (wrap code _ _) = some code
as_app_error (fmt_wrap _ e _) = as_app_error e
as_app_error (join a b) = or_else (as_app_error a) (as_app_error b)
as_app_error (alone e) = as_app_error e
as_app_error (external _) = none

-- errors.Join(err, e) where `err` may be nil.
abbrev pub join_to : Option Err → Err → Err
join_to none e = alone e
join_to (some err) e = join err e

-- apperrors.HasCode
unfoldable pub has_code : Err → Code → Bool
unfolding as_app_error Code-discrete
has_code err code = elim (as_app_error err) [ none ↦ false | some c ↦ same_code c code ]

-- unwrapChain of presentation/errors.go: errors.Unwrap until it returns nil, which it does on a join.
unfoldable pub unwrap_chain : Err → List Text
unfolding error_text
unwrap_chain (wrap _ _ cause) = error_text cause ∷ unwrap_chain cause
unwrap_chain (fmt_wrap _ e _) = error_text e ∷ unwrap_chain e
unwrap_chain _ = []

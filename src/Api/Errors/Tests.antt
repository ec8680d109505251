-- ===== src/Api/Errors/Tests.antt =====
-- Codes, messages and hints of a wrapped and of a foreign error.
use ankiced.Base.{◌≡◌, refl, []}
use ankiced.Text.{codes}
use ankiced.Errors.{Err, sentinel, fmt_wrap, external, application, note_not_found}
use ankiced.Presentation.{format_error, format_debug_error}
use ankiced.Api.Errors.{map_error_code}

abbrev missing : Err
missing = fmt_wrap [] (sentinel (application note_not_found)) (codes ": 7")

texts :
    (map_error_code missing ≡ codes "NOTE_NOT_FOUND")
    × (format_error missing ≡ codes "note not found")
    × (format_debug_error missing ≡ codes "note not found | cause: note not found")
    × (map_error_code (external (codes "x")) ≡ codes "INTERNAL_ERROR")
unfolding map_error_code format_debug_error
texts = (refl, refl, refl, refl)

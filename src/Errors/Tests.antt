-- ===== src/Errors/Tests.antt =====
-- Wrapped errors, as the program builds them.
use ankiced.Base.{◌≡◌, refl, true, false, [], ◌∷◌}
use ankiced.Text.{codes}
use ankiced.Errors.{
  Err, sentinel, wrap, fmt_wrap, application, note_not_found, code_note_not_found,
  code_deck_not_found, error_text, is, has_code, unwrap_chain,
}

-- fmt.Errorf("%w: %d", ErrNoteNotFound, 7)
abbrev missing : Err
missing = fmt_wrap [] (sentinel (application note_not_found)) (codes ": 7")

runs :
    (error_text missing ≡ codes "note not found: 7")
    × (is missing (application note_not_found) ≡ true)
    × (has_code missing code_note_not_found ≡ true)
    × (unwrap_chain missing ≡ codes "note not found" ∷ [])
    × (has_code (wrap code_deck_not_found [] missing) code_note_not_found ≡ false)
unfolding error_text is has_code unwrap_chain
runs = (refl, refl, refl, refl, refl)

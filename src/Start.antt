-- ===== src/Start.antt =====
-- internal/bootstrap/bootstrap.go: the flags that are looked at before the settings are loaded, and the
-- errors that a program ends with.
pub mod Programs
mod Tests
use ankiced.Base.{ℕ, Bool, true, false, ◌||◌, List, [], ◌∷◌, ◌++◌, if◌then◌else◌}
use ankiced.Text.{Text, codes, eq_text, to_lower, has_prefix, drop_prefix}
use ankiced.Errors.{Err, external}
use ankiced.Presentation.{format_error, format_debug_error}
use ankiced.Action.{Outcome, ok, fail, Action}

-- The values that turn a switch on; `lower` is unicode.ToLower, which on these letters is the folding
-- of strings.EqualFold.
abbrev pub is_on : (ℕ → ℕ) → Text → Bool
unfolding to_lower eq_text
is_on lower value = eq_text (to_lower lower value) (codes "true") || eq_text value (codes "1")

-- VerboseRequested
unfoldable pub verbose_requested : (ℕ → ℕ) → List Text → Bool
unfolding is_on has_prefix drop_prefix
verbose_requested lower [] = false
verbose_requested lower (arg ∷ args) =
    let rest = verbose_requested lower args in
    if eq_text arg (codes "--verbose")
    then true
    else if has_prefix arg (codes "--verbose=")
    then is_on lower (drop_prefix arg (codes "--verbose="))
    else rest

-- FormatErrorForMode
unfoldable pub format_error_for_mode : Err → Bool → Text
unfolding format_error format_debug_error
format_error_for_mode e true = format_debug_error e
format_error_for_mode e false = format_error e

-- Fail; what the logger is told is output.
unfoldable pub failed : Text → Err → Bool → Err
unfolding format_error_for_mode
failed prefix e verbose = external (prefix ++ (codes ": " ++ format_error_for_mode e verbose))

module _ {W A : Type 0} where
  abbrev pub failing_at : Text → Bool → Outcome A → Action W A
  unfolding failed
  failing_at prefix verbose (ok a) w = (ok a, w)
  failing_at prefix verbose (fail e) w = (fail (failed prefix e verbose), w)

  -- An error of the action ends the program with this prefix.
  unfoldable pub failing : Text → Bool → Action W A → Action W A
  unfolding failing_at
  failing prefix verbose act w = failing_at prefix verbose (act w).0 (act w).1

  -- defer: the last action is run however the first one ends, and its own error is only logged.
  unfoldable pub deferring : Action W (Unit {0}) → Action W A → Action W A
  deferring last act w = ((act w).0, (last (act w).1).1)

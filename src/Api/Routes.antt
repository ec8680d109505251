-- ===== src/Api/Routes.antt =====
-- routes and withJSONContentType, with what http.ServeMux makes of the patterns for a path that it
-- need not clean: the longest pattern that fits, where a pattern that ends in a slash fits all paths
-- below it; a path that lacks such a slash, and has no pattern of its own, is redirected.
use ankiced.Base.{Bool, not, ◌&&◌, List, [], ◌∷◌, ◌++◌, length, any, ltb, if◌then◌else◌}
use ankiced.Text.{Text, codes, eq_text, has_prefix, has_suffix}

pub data Route : Type 0 where
  index health log_stream logs config config_save decks deck_search deck_by_id notes : Route
  note_by_id cleaner_preview cleaner_dry_run cleaner_apply operation_by_id app_exit : Route

-- The patterns of routes.
abbrev pub patterns : List (Text × Route)
patterns =
    (codes "/", index)
    ∷ (codes "/healthz", health)
    ∷ (codes "/api/v1/logs/stream", log_stream)
    ∷ (codes "/api/v1/logs", logs)
    ∷ (codes "/api/v1/config", config)
    ∷ (codes "/api/v1/config/save", config_save)
    ∷ (codes "/api/v1/decks", decks)
    ∷ (codes "/api/v1/decks/search", deck_search)
    ∷ (codes "/api/v1/decks/", deck_by_id)
    ∷ (codes "/api/v1/notes", notes)
    ∷ (codes "/api/v1/notes/", note_by_id)
    ∷ (codes "/api/v1/cleaner/preview", cleaner_preview)
    ∷ (codes "/api/v1/cleaner/dry-run", cleaner_dry_run)
    ∷ (codes "/api/v1/cleaner/apply", cleaner_apply)
    ∷ (codes "/api/v1/operations/", operation_by_id)
    ∷ (codes "/api/v1/app/exit", app_exit)
    ∷ []

unfoldable pub fits : Text → Text → Bool
unfolding has_prefix has_suffix eq_text
fits path pattern_ =
    if has_suffix pattern_ (codes "/") then has_prefix path pattern_ else eq_text path pattern_

-- The longest pattern that fits, or the one so far.
unfoldable pub longest : Text → List (Text × Route) → Text × Route → Text × Route
unfolding fits
longest path [] best = best
longest path ((p, r) ∷ ps) best =
    longest path ps (if fits path p && ltb (length best.0) (length p) then (p, r) else best)

abbrev is_pattern : Text → Bool
unfolding eq_text
is_pattern path = any (λ p. eq_text p.0 path) patterns

pub data Target : Type 0 where
  to : Route → Target
  moved_to : Text → Target

unfoldable pub route : Text → Target
unfolding longest eq_text
route path =
    if not (is_pattern path) && is_pattern (path ++ codes "/")
    then moved_to (path ++ codes "/")
    else to (longest path patterns ([], index)).1

-- The content type that withJSONContentType sets; none for the other paths.
unfoldable pub json_content_type : Text → Text
unfolding has_prefix
json_content_type path =
    if has_prefix path (codes "/api/") then codes "application/json; charset=utf-8" else []

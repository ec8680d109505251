-- ===== src/Sqlite/Queries.antt =====
-- internal/infrastructure/sqlite/repositories.go: the patterns and statements that are built from what
-- the user asks for. The statements are run by SQLite.
pub mod Patterns
use ankiced.Base.{
  ℕ, ℤ, pos, ltb_ℤ, leb_ℤ, eq_ℤ, Bool, true, false, not, ◌&&◌, ◌==◌, Option, none, some, List, [],
  ◌∷◌, ◌++◌, if◌then◌else◌,
}
use ankiced.Text.{Text, codes, is_empty, trim_space}
use ankiced.Domain.{FilterSet, invalid_note_list_filters}
use ankiced.Action.{Outcome, ok, fail}
use ankiced.Services.Decks.{refused}

abbrev escape_like_rune : ℕ → Text
escape_like_rune c =
    if c == b'\\'
    then b'\\' ∷ b'\\' ∷ []
    else if c == b'%'
    then b'\\' ∷ b'%' ∷ []
    else if c == b'_'
    then b'\\' ∷ b'_' ∷ []
    else c ∷ []

-- escapeLike
unfoldable pub escape_like : Text → Text
escape_like [] = []
escape_like (c ∷ s) = escape_like_rune c ++ escape_like s

-- The pattern of a search for a text anywhere.
abbrev pub contains_pattern : Text → Text
unfolding escape_like
contains_pattern s = codes "%" ++ (escape_like s ++ codes "%")

-- An argument that is bound to a placeholder.
pub data Arg : Type 0 where
  number : ℤ → Arg
  text : Text → Arg

-- `if test { fromWhere += sql; args = append(args, arg) }`
abbrev add_if : Bool → Text → Arg → Text × List Arg → Text × List Arg
add_if true sql arg (where_, args) = (where_ ++ sql, args ++ arg ∷ [])
add_if false sql arg q = q

abbrev mod_filters : FilterSet → Text × List Arg → Text × List Arg
mod_filters f q =
    add_if (ltb_ℤ (pos 0) f.mod_to_unix) (codes " AND n.mod <= ?") (number f.mod_to_unix)
      (add_if (ltb_ℤ (pos 0) f.mod_from_unix) (codes " AND n.mod >= ?") (number f.mod_from_unix) q)

abbrev global_query : FilterSet → Text × List Arg
unfolding contains_pattern
global_query f = mod_filters f (
  codes " FROM notes n WHERE n.flds LIKE ? ESCAPE '\\' COLLATE NOCASE",
  text (contains_pattern f.search_text) ∷ [],
)

abbrev deck_query : FilterSet → Text × List Arg
unfolding contains_pattern
deck_query f =
    add_if (not (is_empty f.search_text)) (codes " AND n.flds LIKE ? ESCAPE '\\' COLLATE NOCASE")
      (text (contains_pattern f.search_text))
      (mod_filters f (
        codes "\nFROM notes n\nJOIN cards c ON c.nid = n.id\nWHERE c.did = ?",
        number f.deck_id ∷ [],
      ))

-- buildNotesQuery
unfoldable pub build_notes_query : FilterSet → Outcome (Text × List Arg)
unfolding trim_space global_query deck_query
build_notes_query f =
    if eq_ℤ f.deck_id (pos 0) && not (is_empty (trim_space f.search_text))
    then ok (global_query f)
    else if leb_ℤ f.deck_id (pos 0)
    then refused invalid_note_list_filters
    else ok (deck_query f)

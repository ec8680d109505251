-- ===== src/Sqlite/Repositories.antt =====
-- internal/infrastructure/sqlite/repositories.go: the repositories over an engine that runs statements.
-- The rows of an answer come with the error of closing them; a query for one row answers `none` where
-- there is none (sql.ErrNoRows).
use ankiced.Base.{
  ℕ, ℤ, pos, ltb_ℤ, leb_ℤ, eq_ℤ, Bool, true, false, Option, none, some, List, [], ◌∷◌, ◌++◌,
  if◌then◌else◌,
}
use ankiced.Text.{Text, codes, trim_space}
use ankiced.Errors.{
  Err, sentinel, application, deck_not_found, note_not_found, fmt_wrap, join, alone, external,
}
use ankiced.Domain.{Deck, Note, FilterSet, Pagination}
use ankiced.Action.{Outcome, ok, fail, Action, pure, lift, ◌>>=◌}
use ankiced.Sqlite.Queries.{Arg, number, text, contains_pattern, build_notes_query}

-- What came of reading the rows, and the error of closing them.
pub record Rows (A : Type 0) : Type 0 where
  pub read : Outcome (List A)
  pub closing : Option Err

pub record Engine (W : Type 0) : Type 0 where
  pub query_decks : Text → List Arg → Action W (Rows Deck)
  pub query_notes : Text → List Arg → Action W (Rows Note)
  pub query_ids : Text → List Arg → Action W (Rows ℤ)
  pub query_names : Text → List Arg → Action W (Rows Text)
  pub query_note : Text → List Arg → Action W (Option Note)
  pub query_number : Text → List Arg → Action W (Option ℤ)
  pub query_text : Text → List Arg → Action W (Option Text)
  pub exec : Text → List Arg → Action W ℤ
  -- encoding/json: the names of a list of fields, the texts of an object by key, the entry `flds`.
  pub unmarshal_names : Text → Outcome (List Text)
  pub unmarshal_object : Text → Outcome (Text → Option Text)
  pub unmarshal_flds : Text → Outcome Text
  -- The verb %d, and unicode.ToLower beyond ASCII.
  pub show : ℤ → Text
  pub lower : ℕ → ℕ

-- A deferred call that joins its error to the one that is returned.
abbrev pub joined : {A : Type 0} → (Err → Err) → Option Err → Outcome A → Outcome A
joined wrapped none o = o
joined wrapped (some c) (ok a) = fail (alone (wrapped c))
joined wrapped (some c) (fail e) = fail (join e (wrapped c))

abbrev closed : {A : Type 0} → (Err → Err) → Rows A → Outcome (List A)
closed wrapped rows = joined wrapped rows.closing rows.read

abbrev as_found : Option ℤ → Outcome Bool
as_found none = ok false
as_found (some n) = ok true

-- A statement that must have changed a row.
abbrev changed_row : Err → ℤ → Outcome (Unit {0})
changed_row missing n = if eq_ℤ n (pos 0) then fail missing else ok tt

module _ {W : Type 0} (db : Engine W) where
  abbrev pub with_id : Err → ℤ → Err
  with_id e id = fmt_wrap [] e (codes ": " ++ db.show id)

  abbrev decks_select : Text
  decks_select =
      codes
        "\nSELECT d.id, d.name, COALESCE(c.card_count, 0)\nFROM decks d\nLEFT JOIN (\n\tSELECT did, COUNT(*) AS card_count\n\tFROM cards\n\tGROUP BY did\n) c ON c.did = d.id\n"

  unfoldable pub list_decks : Action W (List Deck)
  list_decks = db.query_decks (decks_select ++ codes "ORDER BY d.id") [] >>= λ rows. lift rows.read

  unfoldable pub search_decks : Text → Action W (List Deck)
  unfolding trim_space
  search_decks search =
      db.query_decks
        (decks_select ++ codes "WHERE d.name LIKE ? ESCAPE '\\' COLLATE NOCASE\nORDER BY d.id")
        (text (contains_pattern (trim_space search)) ∷ [])
      >>= λ rows. lift rows.read

  unfoldable pub deck_name_exists : Text → ℤ → Action W Bool
  unfolding trim_space
  deck_name_exists name exclude_id =
      db.query_number
        (codes "SELECT 1 FROM decks WHERE id != ? AND name = ? COLLATE NOCASE LIMIT 1")
        (number exclude_id ∷ text (trim_space name) ∷ [])
      >>= λ found. lift (as_found found)

  unfoldable pub deck_exists : ℤ → Action W Bool
  deck_exists id =
      db.query_number (codes "SELECT 1 FROM decks WHERE id = ? LIMIT 1") (number id ∷ [])
      >>= λ found. lift (as_found found)

  unfoldable pub rename_deck : ℤ → Text → Action W (Unit {0})
  rename_deck id name =
      db.exec (codes "UPDATE decks SET name = ? WHERE id = ?") (text name ∷ number id ∷ [])
      >>= λ affected.
          lift (changed_row (with_id (sentinel (application deck_not_found)) id) affected)

  abbrev notes_query_shape : Text
  notes_query_shape = codes "SELECT DISTINCT n.id, n.guid, n.mid, n.flds, n.mod, n.usn"

  abbrev optional_note : Option Note → List Note
  optional_note none = []
  optional_note (some n) = n ∷ []

  unfoldable pub query_notes_rows : Text → List Arg → Action W (List Note)
  query_notes_rows base args = db.query_notes base args >>= λ rows.
      lift (closed (λ e. fmt_wrap (codes "close notes rows: ") e []) rows)

  abbrev page_limit : ℤ → ℤ
  page_limit limit = if leb_ℤ limit (pos 0) then pos 10 else limit

  unfoldable pub list_notes : FilterSet → Pagination → Action W (List Note)
  unfolding build_notes_query query_notes_rows
  list_notes filters page =
      if ltb_ℤ (pos 0) filters.note_id
      then (db.query_note (codes "SELECT id, guid, mid, flds, mod, usn FROM notes WHERE id = ?")
            (number filters.note_id ∷ [])
          >>= λ n. pure (optional_note n))
      else (lift (build_notes_query filters) >>= λ q.
          query_notes_rows (notes_query_shape ++ (q.0 ++ codes " ORDER BY n.id LIMIT ? OFFSET ?"))
            (q.1 ++ (number (page_limit page.limit) ∷ number page.offset ∷ [])))

  -- A query for a number that always has a row.
  abbrev some_number : Option ℤ → Outcome ℤ
  some_number (some n) = ok n
  some_number none = fail (external (codes "sql: no rows in result set"))

  unfoldable pub count_notes : FilterSet → Action W ℤ
  unfolding build_notes_query
  count_notes filters =
      if ltb_ℤ (pos 0) filters.note_id
      then (db.query_number (codes "SELECT COUNT(*) FROM notes WHERE id = ?")
            (number filters.note_id ∷ [])
          >>= λ n. lift (some_number n))
      else (lift (build_notes_query filters) >>= λ q.
          db.query_number
            (codes "SELECT COUNT(*) FROM (" ++ (notes_query_shape ++ (q.0 ++ codes ")"))) q.1
          >>= λ n. lift (some_number n))

  abbrev found_note : ℤ → Option Note → Outcome Note
  found_note id (some n) = ok n
  found_note id none = fail (with_id (sentinel (application note_not_found)) id)

  unfoldable pub get_note : ℤ → Action W Note
  get_note id =
      db.query_note (codes "SELECT id, guid, mid, flds, mod, usn FROM notes WHERE id = ?")
        (number id ∷ [])
      >>= λ n. lift (found_note id n)

  unfoldable pub update_note : Note → Action W (Unit {0})
  update_note note =
      db.exec (codes "UPDATE notes SET flds = ?, mod = ?, usn = ? WHERE id = ?")
        (text note.raw_flds ∷ number note.modified ∷ number note.usn ∷ number note.id ∷ [])
      >>= λ affected.
          lift (changed_row (with_id (sentinel (application note_not_found)) note.id) affected)

  unfoldable pub list_note_ids_by_deck : ℤ → Action W (List ℤ)
  list_note_ids_by_deck deck_id =
      db.query_ids (codes "SELECT DISTINCT nid FROM cards WHERE did = ? ORDER BY nid")
        (number deck_id ∷ [])
      >>= λ rows. lift (closed (λ e. fmt_wrap (codes "close note ids rows: ") e []) rows)

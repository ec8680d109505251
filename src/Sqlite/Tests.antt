-- ===== src/Sqlite/Tests.antt =====
-- The database on concrete calls.
use ankiced.Base.{◌≡◌, ◌≢◌, ◌⊎◌, refl, [], ℤ, pos, negsuc, false, List, ◌∷◌, map, none, some, ◌++◌}
use ankiced.Text.{Text, codes}
use ankiced.Errors.{external}
use ankiced.Action.{ok, fail, Action}
use ankiced.Services.Memory.{Memory}
use ankiced.Sqlite.Pragmas.{Pragmas, normalize}
use ankiced.Sqlite.Connection.{Faults, reconnect, IsFailed, IsSwapped, IsSingle}
use ankiced.Sqlite.Connection.Session.{no_handle, open_db, close_db, reconnects, session_cases}
use ankiced.Domain.{FilterSet}
use ankiced.Sqlite.Queries.{Arg, number, text, contains_pattern, build_notes_query}
use ankiced.Sqlite.Queries.Patterns.{literal, many, tokens, tokens-contains_pattern}
use ankiced.Sqlite.Repositories.{Engine}
use ankiced.Sqlite.Transaction.{with_tx, no_faults}

abbrev configured : Pragmas
configured = record {
  busy_timeout_ms = negsuc 0;
  journal_mode = codes " WAL ";
  synchronous = codes "FULL";
}

abbrev normalized : Pragmas
normalized = record {
  busy_timeout_ms = pos 5000;
  journal_mode = codes "WAL";
  synchronous = codes "FULL";
}

normal : normalize (λ c. c) (λ s. s) configured ≡ ok normalized
unfolding normalize
normal = refl

abbrev show : ℤ → Text
show z = codes "5000"

abbrev stuck_close : Faults
stuck_close = record {
  open_new = none;
  ping_new = none;
  close_new = none;
  close_old = some (external (codes "busy"));
}

session_cases_example :
    (((open_db (ok normalized) stuck_close (no_handle 1)).0 ≢ none)
      × ((open_db (ok normalized) stuck_close (no_handle 1)).1.opened ≡ []))
    ⊎ (let d =
          reconnects (stuck_close ∷ []) (open_db (ok normalized) stuck_close (no_handle 1)).1 in
        IsSingle d
        × (IsFailed d (reconnect stuck_close d) ⊎ IsSwapped stuck_close d (reconnect stuck_close d))
        × ((close_db none d).1.opened ≡ []))
session_cases_example =
    session_cases (ok normalized) stuck_close stuck_close (stuck_close ∷ []) none 1

abbrev failing : Action Memory (Unit {0})
failing w = (fail (external (codes "no")), record w { usn = pos 9 })

abbrev state : Memory
state = record { deck_name = []; raw_flds = []; modified = pos 0; usn = pos 0 }

undone : (with_tx no_faults failing state).0 ≡ fail (external (codes "no"))
unfolding with_tx
undone = refl

tokens-contains_pattern_example :
    tokens false (contains_pattern (codes "5%")) ≡ many ∷ (map literal (codes "5%") ++ many ∷ [])
tokens-contains_pattern_example = tokens-contains_pattern (codes "5%")

abbrev filters : FilterSet
filters = record {
  deck_id = pos 1;
  note_id = pos 0;
  search_text = codes "a";
  mod_from_unix = pos 2;
  mod_to_unix = pos 0;
}

abbrev query : Text × List Arg
query = (
  codes
      "\nFROM notes n\nJOIN cards c ON c.nid = n.id\nWHERE c.did = ? AND n.mod >= ? AND n.flds LIKE ? ESCAPE '\\' COLLATE NOCASE",
  number (pos 1) ∷ number (pos 2) ∷ text (codes "%a%") ∷ [],
)

built : build_notes_query filters ≡ ok query
unfolding build_notes_query
built = refl

-- The table of fields is locked, and the other places do not have the model.
abbrev locked : Engine (Unit {0})
locked = record {
  query_decks = λ q args w. (fail (external []), w);
  query_notes = λ q args w. (fail (external []), w);
  query_ids = λ q args w. (fail (external []), w);
  query_names = λ q args w. (fail (external (codes "locked")), w);
  query_note = λ q args w. (ok none, w);
  query_number = λ q args w. (ok none, w);
  query_text = λ q args w. (ok none, w);
  exec = λ q args w. (ok (pos 0), w);
  unmarshal_names = λ json. ok [];
  unmarshal_object = λ json. fail (external []);
  unmarshal_flds = λ json. fail (external []);
  show = show;
  lower = λ c. c;
}

-- ===== src/Lib.antt =====
-- Ankiced edits Anki collections: it renames decks, edits notes, and cleans the HTML of the notes of a
-- deck, from a command line and from an HTTP server. This library models the program's own code, part
-- by part, and states what is proved of it in the list at the end of this comment.
--
-- How the parts interact. The use cases (internal/application/services.go) work through ports
-- (internal/application/ports.go): repositories of decks, notes and models, the store of backups, a
-- question to the user, a registry of templates, a writer of reports, transactions. The packages under
-- internal/infrastructure implement the ports, those under internal/interfaces call the use cases.
-- Before a write the use cases ensure a backup, of which a session makes one for each path.
-- RunCleaner hands the notes of a deck to workers, collects what they send, and writes the changed
-- notes in batches. The HTTP server runs it beside the requests and keeps what it reports in a store
-- of operations, which clients poll; it numbers its log and passes it on to subscribers.
--
-- Which file models which part:
-- - Domain: internal/domain/types.go and policies.go, the shared records, ValidateDeckRename,
--   MapFields and JoinFieldValues.
-- - Errors: internal/apperrors/errors.go and the sentinels of all packages. An error value is a tree of
--   the ways to wrap (`Err`); `is`, `has_code` and `unwrap_chain` walk it. Presentation:
--   internal/presentation/errors.go.
-- - Config, Config.Loader: internal/config/settings.go and internal/infrastructure/config/loader.go,
--   Load over a record `System` of what it asks the machine.
-- - Services.Ports: the ports, the struct Services, EnsureBackup, CleanupBackups and template.
--   Services.Decks and Services.Notes: the use cases of decks and of notes. `W` is the state of all
--   that stands behind the ports, a port an `Action W`: a function from the state to an outcome and
--   the next state (Action). Services.Ports.Reads says which ports leave alone what `view` shows.
-- - Services.Pool: the goroutines of RunCleaner. `Pool` holds the ids that are not handed out, those
--   that a worker has, the results, the first error, and whether the context is cancelled; `Step` has
--   a constructor for each event: an id is handed out, the feeder ends or stops, a worker sends a
--   result, meets an error, panics or is interrupted, the caller cancels. Every interleaving is a
--   sequence of steps. Services.Cleaner: RunCleaner itself, for an arbitrary such run.
--   Services.Memory: a collection in memory for which all promises of the ports hold.
-- - Backup: internal/infrastructure/fs/backup_store.go. CreateBackup works on a map of files, with the
--   errors of the system as arguments; Backup.Cleanup has CleanupBackups over the names of a
--   directory, Backup.Stamp the time in a backup's name.
-- - Sanitize: internal/infrastructure/sanitize, the cleaner over the tree that the parser makes.
-- - Sqlite: internal/infrastructure/sqlite. db.go is in Sqlite.Pragmas, Sqlite.Connection and
--   Sqlite.Transaction; repositories.go in Sqlite.Queries, Sqlite.Repositories and Sqlite.Models, over an
--   engine that runs the statements.
-- - Render: internal/infrastructure/render/diff.go.
-- - Api.Operations, Api.Logs, Api.Errors, Api.Helpers: operations.go, logs.go, errors.go and helpers.go
--   of internal/interfaces/httpapi.
-- - Api.Site: apiHandler of server.go as a state `Site`, with what stands behind the ports, the settings,
--   the two counters, the hub of the log, the store of operations, the goroutines that were started and
--   the responses; a handler is a `Serve`, a function of that state that may stop early. Api.Handlers has
--   the handlers: Decks, Notes, Settings, Pages, Cleaning (with the events of the goroutine that runs
--   the cleaner) and Stream (the stream of the log, as turns of its loop). Api.Routes has the
--   patterns and the choice of ServeMux, Api.Server the whole handler: `serve` answers one request.
-- - Cli.Terminal, Cli.Escapes, Cli.Reading, Cli.App, Cli.Menu: internal/interfaces/cli, the terminal with the reader
--   and the Prompter, decodeEscapes, the actions of app.go, and the loop Run. Services.Stable has what the
--   use cases leave alone if all ports do.
-- - Start, Start.Programs: internal/bootstrap, and the function run of the programs in cmd with
--   resolveHTTPAddr, over a record `Machine` of what they ask the system.
-- - Base, Text, Assoc: lists, integers, texts as lists of code points with the functions of the
--   packages strings, unicode and strconv that the program calls, and maps.
--
-- Fuel and bounds. evictExcess drops an operation in each round, so that as many rounds as there
-- are operations are enough; a value of several lines is read with one round more than there are
-- line feeds in the input, of which each round takes one, and the menu likewise; the loop over
-- batches takes at least one note in each, so that the number of notes is enough, and the theorem
-- on the writer is stated for any such fuel. The workers have no fuel: the number of steps of a run
-- is bounded by a theorem. A Go int has 64 bits; counts that start at 0 and only grow are natural
-- numbers without a bound. Strings are valid UTF-8.
--
-- Requests are served one after the other, in any order and with calls to the stores in between;
-- what two handlers do to the shared stores at the same time is the order of their calls. Paths of
-- requests are clean, as ServeMux makes them, and are redirected with status 301 where only the path
-- with a slash behind it is known.
--
-- What is not modelled. The driver of SQLite, the HTML and YAML and JSON parsers, flags, files and the
-- clock are parameters, with what the code relies on as named hypotheses (`IsReadOnly`, `StoresNotes`,
-- `IsTransactional`, `IsQueries`, `IsClock`, `IsStable`, `IsTidy`, the rune test of the escaper). What
-- SQLite makes of a statement is not modelled. The listening and the shutdown of the server, the window
-- of the desktop program, and the browser are left out: they call the system. The HTTP connection and
-- the process logger are pure input and output.
pub mod Base
pub mod Text
pub mod Assoc
pub mod Domain
pub mod Errors
pub mod Presentation
pub mod Api
pub mod Cli
pub mod Backup
pub mod Action
pub mod Config
pub mod Services
pub mod Sanitize
pub mod Sqlite
pub mod Render
pub mod Start

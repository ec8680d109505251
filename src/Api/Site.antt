-- ===== src/Api/Site.antt =====
-- The state of internal/interfaces/httpapi/server.go and how a handler works on it: apiHandler, the
-- writer of the response, correlation ids and the log. A handler is a chain of actions on the site
-- that may end early; the responses that it writes are kept in order, the latest first.
-- Requests are handled one after another; only the goroutines of the cleaner run beside them.
pub mod Replies
pub mod Effects
pub mod Ids
use ankiced.Base.{
  ℕ, ◌+◌, ℤ, Bool, true, false, not, Option, none, some, List, [], ◌∷◌, ◌++◌, if◌then◌else◌,
}
use ankiced.Text.{Text, codes}
use ankiced.Text.Number.{show_nat, show_int}
use ankiced.Errors.{Err}
use ankiced.Domain.{Deck, Note, NoteField, DiffRecord}
use ankiced.Presentation.{format_debug_error}
use ankiced.Config.{Settings}
use ankiced.Action.{Outcome, ok, fail, Action}
use ankiced.Api.Errors.{ApiError, error_payload, message_payload}
use ankiced.Api.Logs.{LogEvent, Logger, next_seq}
use ankiced.Api.Logs as Logs
use ankiced.Api.Operations.{Status, Operation, Store}

pub data Method : Type 0 where
  get post patch : Method
  other_method : Text → Method

-- What the handlers read of an http.Request: `query` is r.URL.Query().Get.
pub record Request : Type 0 where
  pub method : Method
  pub path : Text
  pub query : Text → Text
  pub last_event_id : Text
  pub body : Text

-- configSnapshot
pub record ConfigSnapshot : Type 0 where
  pub db_path : Text
  pub anki_account : Text
  pub http_addr : Text
  pub backup_keep_last_n : ℤ
  pub workers : ℤ
  pub force_apply : Bool
  pub verbose : Bool
  pub full_diff : Bool
  pub report_file : Text
  pub default_page_size : ℤ
  pub pragma_busy_timeout : ℤ
  pub pragma_journal_mode : Text
  pub pragma_synchronous : Text

-- The bodies of the responses, before they are encoded.
pub data Payload : Type 0 where
  done health : Payload
  configured : ConfigSnapshot → Payload
  saved : (path : Text) → ConfigSnapshot → Payload
  deck_page : List Deck → (total limit offset : ℤ) → Payload
  deck_list : List Deck → Payload
  note_page : List Note → (total limit offset : ℤ) → Payload
  one_note : Note → Payload
  diff : List DiffRecord → Payload
  accepted : (id : Text) → Status → (dry_run : Bool) → (url : Text) → Payload
  polled : Operation → Payload
  replayed : Option (List LogEvent) → Payload
  failure : ApiError → Payload
  index_page : (db_path : Text) → (page_size : ℤ) → Payload
  plain moved : Text → Payload
  streaming : (sub : ℕ) → (since : ℤ) → Payload

pub record Response : Type 0 where
  pub status : ℕ
  pub content_type : Text
  pub payload : Payload

-- What a goroutine of handleCleanerRun has captured.
pub record Job : Type 0 where
  pub id : Text
  pub kind : Text
  pub cfg : Settings
  pub deck_id : ℤ
  pub dry_run : Bool
  pub template_id : Text

-- The settings that the use cases see too, and what stands behind their ports.
pub record Shared (W : Type 0) : Type 0 where
  pub cfg : Settings
  pub behind : W

-- `jobs` are the goroutines that were started, `exits` the calls of onExit.
pub record Site (W : Type 0) : Type 0 where
  pub shared : Shared W
  pub seq : ℕ
  pub logger : Logger
  pub ops : Store
  pub jobs : List Job
  pub exits : ℕ
  pub content_type : Text
  pub replies : List Response

-- What encoding/json makes of a body: the value, an error of http.MaxBytesReader, or another error.
pub data BodyError : Type 0 where
  too_large malformed : Text → BodyError

pub data Decoded (A : Type 0) : Type 0 where
  decoded : A → Decoded A
  undecoded : BodyError → Decoded A

-- The body of a request to the cleaner.
pub record CleanerRequest : Type 0 where
  pub deck_id : ℤ
  pub full_diff : Bool
  pub confirm : Bool
  pub workers : ℤ
  pub report : Text
  pub template : Text

-- The decoder of bodies, the clock, the path of the executable and its parts, files, and whether
-- the transaction manager can reconnect, onExit is wired and a response can be flushed. `stamp` is the time of a log
-- event, `num_error` the text of an error of strconv.ParseInt.
pub record Machine (W : Type 0) : Type 0 where
  pub decode_path : Text → Decoded Text
  pub decode_name : Text → Decoded Text
  pub decode_fields : Text → Decoded (List NoteField)
  pub decode_preview : Text → Decoded (ℤ × Text)
  pub decode_run : Text → Decoded CleanerRequest
  pub stamp : W → Text × W
  pub millis : W → ℤ × W
  pub executable : Outcome Text
  pub dir : Text → Text
  pub join_path : Text → Text → Text
  pub marshal : ConfigSnapshot → Outcome Text
  pub write_file : Text → Text → Action W (Unit {0})
  pub reconnect : Option (Text → Action W (Unit {0}))
  pub has_exit : Bool
  pub can_flush : Bool
  pub num_error : Text → Text

-- A part of a handler; `none` when the handler has returned.
abbrev pub Serve : Type 0 → Type 0 → Type 0
Serve W A = Site W → Option A × Site W

module _ {W : Type 0} where
  unfoldable pub next : {A B : Type 0} → Option A → (A → Serve W B) → Serve W B
  next none f σ = (none, σ)
  next (some a) f σ = f a σ

  infixl 5 ◌>>=◌ ◌>>◌
  unfoldable pub ◌>>=◌ : {A B : Type 0} → Serve W A → (A → Serve W B) → Serve W B
  unfolding next
  ◌>>=◌ m f σ = next (m σ).0 f (m σ).1

  abbrev pub ◌>>◌ : {A B : Type 0} → Serve W A → Serve W B → Serve W B
  m >> n = m >>= λ _. n

  unfoldable pub pure : {A : Type 0} → A → Serve W A
  pure a σ = (some a, σ)

  -- return
  unfoldable pub stop : {A : Type 0} → Serve W A
  stop σ = (none, σ)

  -- A call that changes what is shared.
  unfoldable pub call : {A : Type 0} → Action (Shared W) A → Serve W (Outcome A)
  call act σ = let (o, w) = act σ.shared in (some o, record σ { shared = w })

  -- currentCfg
  unfoldable pub current_cfg : Serve W Settings
  current_cfg σ = (some σ.shared.cfg, σ)

  -- setDBPath
  unfoldable pub set_db_path : Text → Serve W (Unit {0})
  set_db_path path σ = (
    some tt,
    record σ { shared = record σ.shared { cfg = record σ.shared.cfg { db_path = path } } },
  )

  -- writeJSON
  unfoldable pub write_json : ℕ → Payload → Serve W (Unit {0})
  write_json status payload σ = (
    some tt,
    record σ {
      replies =
          record { status = status; content_type = σ.content_type; payload = payload } ∷ σ.replies;
    },
  )

module _ {W : Type 0} (m : Machine W) where
  -- correlationID
  unfoldable pub correlation_id : Serve W Text
  correlation_id σ =
      let n = next_seq σ.seq in
      let (t, w) = m.millis σ.shared.behind in
      (
        some (codes "req-" ++ (show_int t ++ (codes "-" ++ show_nat n))),
        record σ { seq = n; shared = record σ.shared { behind = w } },
      )

  -- log
  unfoldable pub log :
      (level operation cid message : Text) → List (Text × Text) → Serve W (Unit {0})
  log level operation cid message details σ =
      let (t, w) = m.stamp σ.shared.behind in
      (
        some tt,
        record σ {
          shared = record σ.shared { behind = w };
          logger = Logs.log level operation cid message details t σ.logger;
        },
      )

  -- writeError
  unfoldable pub write_error : ℕ → Err → (operation cid : Text) → Serve W (Unit {0})
  unfolding log write_json format_debug_error
  write_error status err operation cid =
      log (codes "error") operation cid (codes "request failed")
        ((codes "error", format_debug_error err) ∷ [])
      >> write_json status (failure (error_payload err cid))

  -- writeMessageError
  unfoldable pub write_message_error :
      ℕ → (message code details operation cid : Text) → Serve W (Unit {0})
  unfolding log write_json
  write_message_error status message code details operation cid =
      log (codes "error") operation cid (codes "request failed") ((codes "error", details) ∷ [])
      >> write_json status (failure (message_payload message code details cid))

  -- writeMethodNotAllowed
  unfoldable pub write_method_not_allowed : Text → Serve W (Unit {0})
  unfolding correlation_id write_message_error
  write_method_not_allowed operation =
      correlation_id
      >>= write_message_error 405 (codes "method not allowed") (codes "METHOD_NOT_ALLOWED")
          (codes "request method is not supported for this endpoint") operation

  -- writeDecodeError
  unfoldable pub write_decode_error : BodyError → Text → Serve W (Unit {0})
  unfolding correlation_id write_message_error
  write_decode_error (too_large text) operation =
      correlation_id
      >>= write_message_error 413 (codes "request body too large") (codes "REQUEST_BODY_TOO_LARGE")
          text operation
  write_decode_error (malformed text) operation =
      correlation_id
      >>= write_message_error 400 (codes "invalid json body") (codes "INVALID_JSON") text operation

module _ {W : Type 0} where
  -- `if err != nil { answer; return }`
  unfoldable pub or_stop : {A : Type 0} → Outcome A → (Err → Serve W (Unit {0})) → Serve W A
  or_stop (ok a) answer = pure a
  or_stop (fail e) answer = answer e >> stop

  -- `if test { answer; return }`
  unfoldable pub stop_if : Bool → Serve W (Unit {0}) → Serve W (Unit {0})
  stop_if true answer = answer >> stop
  stop_if false answer = pure tt

module _ {W : Type 0} (m : Machine W) where
  -- `if err := decodeJSON(r, &req); err != nil { h.writeDecodeError; return }`
  unfoldable pub body_or_stop : {A : Type 0} → Decoded A → Text → Serve W A
  body_or_stop (decoded a) operation = pure a
  body_or_stop (undecoded e) operation = write_decode_error m e operation >> stop

  abbrev pub same_method : Method → Method → Bool
  same_method get get = true
  same_method post post = true
  same_method patch patch = true
  same_method _ _ = false

  -- The test of the method that a handler starts with.
  unfoldable pub need_method : Method → Request → Text → Serve W (Unit {0})
  unfolding stop_if write_method_not_allowed
  need_method wanted r operation =
      stop_if (not (same_method r.method wanted)) (write_method_not_allowed m operation)

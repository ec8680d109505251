-- ===== src/Api/Logs.antt =====
-- internal/interfaces/httpapi/logs.go: the hub of log events, and the call that feeds it.
-- A subscriber's channel is its queue, which holds 64 events. The map `subs` is a list; a `publish`
-- visits each subscriber once, so the order does not matter.
pub mod Buffer
pub mod Subscribers
mod Tests
use ankiced.Base.{
  ℕ, suc, ◌+◌, ◌-◌, ℤ, pos, negsuc, Bool, true, false, Option, none, some, List, [], ◌∷◌, ◌++◌, map,
  length, drop, keep, ltb, ltb_ℤ, ◌==◌, if◌then◌else◌, not,
}
use Prim.Native.Nat.{◌%◌, ◌^◌}
use ankiced.Text.{Text}

-- LogEvent. `details` is carried along and never read.
pub record LogEvent : Type 0 where
  pub id : ℤ
  pub timestamp : Text
  pub level : Text
  pub operation : Text
  pub message : Text
  pub details : List (Text × Text)
  pub correlation_id : Text

pub record Subscriber : Type 0 where
  pub id : ℕ
  pub queue : List LogEvent

pub record Hub : Type 0 where
  pub next_id : ℕ
  pub subs : List Subscriber
  pub buf : List LogEvent

abbrev pub queue_capacity : ℕ
queue_capacity = 64

abbrev pub buffer_limit : ℕ
buffer_limit = 1000

-- newLogHub
abbrev pub new_hub : Hub
new_hub = record { next_id = 0; subs = []; buf = [] }

-- Subscribe: the id is the key that the returned function cancels.
unfoldable pub subscribe : Hub → ℕ × Hub
subscribe h = (
  h.next_id,
  record h { next_id = h.next_id + 1; subs = record { id = h.next_id; queue = [] } ∷ h.subs },
)

-- The function that Subscribe returns.
unfoldable pub cancel : ℕ → Hub → Hub
cancel id h = record h { subs = keep (λ s. not (s.id == id)) h.subs }

-- The select with a default: a full channel drops the event.
abbrev pub offer : LogEvent → Subscriber → Subscriber
offer e s =
    if ltb (length s.queue) queue_capacity then record s { queue = s.queue ++ e ∷ [] } else s

abbrev pub push : LogEvent → List LogEvent → List LogEvent
push e buf =
    let all = buf ++ e ∷ [] in
    if ltb buffer_limit (length all) then drop (length all - buffer_limit) all else all

unfoldable pub publish : LogEvent → Hub → Hub
publish e h = record h { buf = push e h.buf; subs = map (offer e) h.subs }

-- Since; `none` is the nil slice of an empty buffer.
unfoldable pub since : ℤ → Hub → Option (List LogEvent)
since id h = elim h.buf [ [] ↦ none | e ∷ es ↦ some (keep (λ x. ltb_ℤ id x.id) (e ∷ es)) ]

-- The counter of the handler, a uint64 that wraps around, and its conversion to int64.
abbrev pub next_seq : ℕ → ℕ
next_seq n = (n + 1) % 2 ^ 64

abbrev pub to_int64 : ℕ → ℤ
to_int64 n = if ltb n (2 ^ 63) then pos n else negsuc (2 ^ 64 - 1 - n)

pub record Logger : Type 0 where
  pub log_seq : ℕ
  pub hub : Hub

-- log, without the copy to the process's own logger. The clock's reading is an argument.
unfoldable pub log :
    (level operation cid message : Text) → List (Text × Text) → (now : Text) → Logger → Logger
unfolding publish
log level operation cid message details now l =
    let id = next_seq l.log_seq in
    record {
      log_seq = id;
      hub =
          publish
            (record {
              id = to_int64 id;
              timestamp = now;
              level = level;
              operation = operation;
              message = message;
              details = details;
              correlation_id = cid;
            })
            l.hub;
    }

unfoldable pub publish_all : List LogEvent → Hub → Hub
unfolding publish
publish_all [] h = h
publish_all (e ∷ es) h = publish_all es (publish e h)

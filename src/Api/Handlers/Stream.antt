-- ===== src/Api/Handlers/Stream.antt =====
-- handleLogStream and writeSSEEvent. `encode` is encoding/json, which takes every log event. Once the
-- stream is open its loop runs beside the rest of the program: a turn of it, an event that is
-- published meanwhile, a tick of the ping. A client that stops reading ends the stream.
pub mod Complete
use ankiced.Base.{
  ℕ, suc, ◌==◌, ℤ, pos, ltb_ℤ, eq_ℤ, not, Bool, true, false, Option, none, some, List, [], ◌∷◌,
  ◌++◌, map, if◌then◌else◌,
}
use ankiced.Text.{Text, codes}
use ankiced.Text.Number.{show_int}
use ankiced.Api.Helpers.{parse_int64_default}
use ankiced.Api.Logs.{LogEvent, Subscriber, Hub, subscribe, publish, since}
use ankiced.Api.Site.{
  get, Request, streaming, Site, Machine, Serve, ◌>>=◌, ◌>>◌, pure, stop, write_json,
  correlation_id, write_message_error, stop_if, need_method,
}
use ankiced.Api.Handlers.Pages.{set_content_type}

-- The last event that the client has: of the header, or else of the query.
unfoldable pub start_after : Request → ℤ
unfolding parse_int64_default
start_after r =
    let header : ℤ = parse_int64_default r.last_event_id (pos 0) in
    let id : ℤ =
      (if eq_ℤ header (pos 0)
        then parse_int64_default (r.query (codes "since_id")) (pos 0)
        else header) in
    if ltb_ℤ id (pos 0) then pos 0 else id

module _ {W : Type 0} where
  -- h.logs.Subscribe()
  unfoldable pub subscribe_site : Serve W ℕ
  unfolding subscribe
  subscribe_site σ =
      let (id, hub) = subscribe σ.logger.hub in
      (some id, record σ { logger = record σ.logger { hub = hub } })

  -- handleLogStream up to the subscription.
  unfoldable pub handle_log_stream : Machine W → Request → Serve W (Unit {0})
  unfolding need_method stop_if correlation_id write_message_error set_content_type subscribe_site
      write_json start_after
  handle_log_stream m r = do
    need_method m get r (codes "logs_stream")
    stop_if (not m.can_flush) (
        correlation_id m
        >>= write_message_error m 500 (codes "streaming unsupported")
            (codes "STREAMING_UNSUPPORTED")
            (codes "response writer does not implement http.Flusher") (codes "logs_stream"))
    set_content_type (codes "text/event-stream")
    sub ← subscribe_site
    write_json 200 (streaming sub (start_after r))

-- writeSSEEvent
unfoldable pub frame : (LogEvent → Text) → LogEvent → Text
frame encode e =
    codes "id: " ++ (show_int e.id ++ (codes "\nevent: log\ndata: " ++ (encode e ++ codes "\n\n")))

-- An open stream: its subscription, and what was written, the pings but counted.
pub record Stream : Type 0 where
  pub sub : ℕ
  pub written : List Text
  pub pings : ℕ

abbrev pub frames_of : (LogEvent → Text) → Option (List LogEvent) → List Text
unfolding frame
frames_of encode none = []
frames_of encode (some es) = map (frame encode) es

-- The replay of what the client missed.
unfoldable pub replay : (LogEvent → Text) → ℕ → ℤ → Hub → Stream
unfolding since frame
replay encode sub after hub = record {
  sub = sub;
  written = if ltb_ℤ (pos 0) after then frames_of encode (since after hub) else [];
  pings = 0;
}

-- The first event in the channel of a subscriber, and the subscribers without it.
unfoldable pub receive : ℕ → List Subscriber → Option LogEvent × List Subscriber
receive id [] = (none, [])
receive id (s ∷ ss) =
    let (e, rest) = receive id ss in
    if s.id == id
    then elim s.queue [ [] ↦ (none, s ∷ ss) | x ∷ xs ↦ (some x, record s { queue = xs } ∷ ss) ]
    else (e, s ∷ rest)

abbrev pub write_received : (LogEvent → Text) → Option LogEvent → Stream → Stream
unfolding frame
write_received encode none c = c
write_received encode (some e) c = record c { written = c.written ++ frame encode e ∷ [] }

-- What happens while the stream is open.
pub data Turn : Type 0 where
  published : LogEvent → Turn
  pulled pinged : Turn

unfoldable pub turn : (LogEvent → Text) → Turn → Stream × Hub → Stream × Hub
unfolding publish receive
turn encode (published e) (c, h) = (c, publish e h)
turn encode pulled (c, h) =
    let (e, subs) = receive c.sub h.subs in (write_received encode e c, record h { subs = subs })
turn encode pinged (c, h) = (record c { pings = suc c.pings }, h)

unfoldable pub run_stream : (LogEvent → Text) → List Turn → Stream × Hub → Stream × Hub
unfolding turn
run_stream encode [] p = p
run_stream encode (t ∷ ts) p = run_stream encode ts (turn encode t p)

-- ===== src/Api/Handlers/Stream/Complete.antt =====
-- What a client of the log stream is sent.
use ankiced.Base.{ℕ, ◌+◌, ◌-◌, ◌<◌, ◌≡◌, Option, some, List, [], ◌∷◌, ◌++◌, map}
use mathlib.Core.Option
use ankiced.Text.{Text}
use ankiced.Api.Logs.{LogEvent, Hub, queue_capacity}
use ankiced.Api.Logs.Subscribers.{queue_of}
use ankiced.Api.Handlers.Stream.{frame, Stream, Turn, published, pulled, pinged}

-- The events that are published in these turns.
abbrev pub events_of : List Turn → List LogEvent
events_of [] = []
events_of (published e ∷ ts) = e ∷ events_of ts
events_of (pulled ∷ ts) = events_of ts
events_of (pinged ∷ ts) = events_of ts

-- The channel, with `n` events in it at first, has room for each event when it is published.
abbrev pub HasRoom : ℕ → List Turn → Type 0
HasRoom n [] = Unit
HasRoom n (published e ∷ ts) = (n < queue_capacity) × HasRoom (n + 1) ts
HasRoom n (pulled ∷ ts) = HasRoom (n - 1) ts
HasRoom n (pinged ∷ ts) = HasRoom n ts

module _ (encode : LogEvent → Text) where
  abbrev frames : List LogEvent → List Text
  frames es = map (frame encode) es

  -- After the turns: the channel holds what was published and not written yet, and all that was
  -- published is written or in the channel, in its order.
  abbrev pub IsSent : List Text → Stream × Hub → Type 0
  IsSent texts (c, h) =
      (q : List LogEvent) × (queue_of c.sub h ≡ some q) × (c.written ++ frames q ≡ texts)

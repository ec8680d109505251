-- ===== src/Api/Logs/Subscribers.antt =====
-- What a subscriber's channel holds, and that subscribers do not disturb each other.
use ankiced.Base.{
  ℕ, ◌≤◌, ◌≡◌, refl, ap, sym, ◌∙◌, not, Option, none, some, List, [], ◌∷◌, ◌++◌, map, length, take,
  keep, length-append, append_assoc, append-nil, take-append_take, take_all, take-append_length,
  length-take, ltb→lt, arith, Bool-cases, inl, inr, ltb, ◌==◌, ==_refl, if◌then◌else◌,
}
use mathlib.Core.Option
use ankiced.Api.Logs.{
  LogEvent, Subscriber, Hub, offer, queue_capacity, subscribe, cancel, publish, publish_all,
}

-- The channel of a subscriber.
abbrev pub queue_in : ℕ → List Subscriber → Option (List LogEvent)
queue_in id [] = none
queue_in id (s ∷ ss) = if s.id == id then some s.queue else queue_in id ss

abbrev pub queue_of : ℕ → Hub → Option (List LogEvent)
queue_of id h = queue_in id h.subs

abbrev pub added : LogEvent → List LogEvent → List LogEvent
added e q = if ltb (length q) queue_capacity then q ++ e ∷ [] else q

added-eq-take :
    (e : LogEvent) (q : List LogEvent)
    → length q ≤ queue_capacity
    → added e q ≡ take queue_capacity (q ++ e ∷ [])
added-eq-take e q h = elim (Bool-cases (ltb (length q) queue_capacity)) [
  | inl room ↦
      let fits : length (q ++ e ∷ []) ≤ queue_capacity =
        omega (arith, length-append q (e ∷ []), ltb→lt (length q) queue_capacity room) in
      rw room (sym (take_all queue_capacity _ fits))
  | inr full ↦ rw full (sym (take-append_length queue_capacity q _ (ground arith)))
]

pub queue_in-map :
    (id : ℕ) (e : LogEvent) (ss : List Subscriber)
    → queue_in id (map (offer e) ss) ≡ Option.map (added e) (queue_in id ss)
queue_in-map id e [] = refl
queue_in-map id e (s ∷ ss) = ground (arith, queue_in-map id e ss)

queue_of-publish_all :
    (id : ℕ) (es q : List LogEvent) (h : Hub)
    → length q ≤ queue_capacity
    → queue_of id h ≡ some q
    → queue_of id (publish_all es h) ≡ some (take queue_capacity (q ++ es))
unfolding publish_all
queue_of-publish_all id [] q h fits e =
    e ∙ ap some (sym (ap (take queue_capacity) (append-nil q) ∙ take_all queue_capacity q fits))
queue_of-publish_all id (x ∷ es) q h fits e =
    let next = take queue_capacity (q ++ x ∷ []) in
    let here : queue_of id (publish x h) ≡ some next =
      queue_in-map id x h.subs ∙ ap (Option.map (added x)) e ∙ ap some (added-eq-take x q fits) in
    let short : length next ≤ queue_capacity =
      omega (arith, length-take queue_capacity (q ++ x ∷ [])) in
    queue_of-publish_all id es next (publish x h) short here
    ∙ ap some (
        take-append_take queue_capacity (q ++ x ∷ []) es
        ∙ ap (take queue_capacity) (append_assoc q (x ∷ []) es))

-- A new subscriber's channel holds the events published since, in their order, up to the 64 that
-- it has room for: later ones are dropped, and what is published before or to others does not show.
pub queue_of-subscribe :
    (es : List LogEvent) (h : Hub)
    → queue_of (subscribe h).0 (publish_all es (subscribe h).1) ≡ some (take queue_capacity es)
unfolding subscribe
queue_of-subscribe es h =
    queue_of-publish_all h.next_id es [] _ (omega arith) (rw (==_refl h.next_id))

-- Cancelling a subscription removes its channel and no other.
pub queue_of-cancel :
    (j id : ℕ) (h : Hub) → queue_of id (cancel j h) ≡ (if j == id then none else queue_of id h)
unfolding cancel
queue_of-cancel j id h = queue_in-keep h.subs
  where
    queue_in-keep :
        (ss : List Subscriber)
        → queue_in id (keep (λ s. not (s.id == j)) ss) ≡ (if j == id then none else queue_in id ss)
    queue_in-keep [] = ground arith
    queue_in-keep (s ∷ ss) = ground (arith, queue_in-keep ss)

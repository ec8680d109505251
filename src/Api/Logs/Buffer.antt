-- ===== src/Api/Logs/Buffer.antt =====
-- The replay buffer against the list of all that was published.
use ankiced.Base.{
  ◌-◌, ◌≤◌, ◌≡◌, refl, ap, sym, ◌∙◌, ℤ, true, false, some, List, [], ◌∷◌, ◌++◌, length, drop, last,
  keep, All, All-drop, keep-append, keep-All, keep-All_not, drop-append, ap₂, ◌≢◌, last-append_last,
  length-append, append_assoc, append-nil, arith, Bool-cases, inl, inr, ltb, ltb_ℤ,
}
use ankiced.Api.Logs.{LogEvent, Hub, new_hub, push, buffer_limit, publish, publish_all, since}

push-eq-last : (e : LogEvent) (buf : List LogEvent) → push e buf ≡ last buffer_limit (buf ++ e ∷ [])
push-eq-last e buf = elim (Bool-cases (ltb buffer_limit (length (buf ++ e ∷ [])))) [
  | inl over ↦ rw over
  | inr fits ↦
      let none_dropped : 0 ≡ length (buf ++ e ∷ []) - buffer_limit = ground arith in
      rw fits (ap (λ n. drop n (buf ++ e ∷ [])) none_dropped)
]

buf-publish_all :
    (es all : List LogEvent) (h : Hub)
    → h.buf ≡ last buffer_limit all
    → (publish_all es h).buf ≡ last buffer_limit (all ++ es)
unfolding publish_all
buf-publish_all [] all h e = e ∙ ap (last buffer_limit) (sym (append-nil all))
buf-publish_all (x ∷ es) all h e =
    buf-publish_all es (all ++ x ∷ []) (publish x h)
      (ap (push x) e ∙ push-eq-last x (last buffer_limit all) ∙ last-append_last buffer_limit all x)
    ∙ ap (last buffer_limit) (append_assoc all (x ∷ []) es)

-- After any events the buffer holds the last thousand of them, in their order.
pub buf-publish_all_new : (es : List LogEvent) → (publish_all es new_hub).buf ≡ last buffer_limit es
buf-publish_all_new es = buf-publish_all es [] new_hub refl

keep-last :
    (id : ℤ) (seen missed : List LogEvent)
    → All (λ e. ltb_ℤ id e.id ≡ false) seen
    → All (λ e. ltb_ℤ id e.id ≡ true) missed
    → length missed ≤ buffer_limit
    → keep (λ e. ltb_ℤ id e.id) (last buffer_limit (seen ++ missed)) ≡ missed
keep-last id seen missed old fresh few =
    let m = length (seen ++ missed) - buffer_limit in
    let below : m ≤ length seen = omega (arith, length-append seen missed) in
    let newer = λ (e : LogEvent). ltb_ℤ id e.id in
    ap (keep newer) (drop-append m seen missed below)
    ∙ keep-append newer (drop m seen) missed
    ∙ ap₂ ◌++◌ (keep-All_not newer (drop m seen) (All-drop (λ e. newer e ≡ false) m seen old))
        (keep-All newer missed fresh)

since-eq-keep :
    (id : ℤ) (h : Hub) → h.buf ≢ [] → since id h ≡ some (keep (λ e. ltb_ℤ id e.id) h.buf)
unfolding since
since-eq-keep id h n = ground arith

-- A client that has seen the events up to an id gets from Since exactly those that it missed, in
-- their order, if no more than a thousand were published meanwhile.
pub since-publish_all :
    (id : ℤ) (seen missed : List LogEvent)
    → All (λ e. ltb_ℤ id e.id ≡ false) seen
    → All (λ e. ltb_ℤ id e.id ≡ true) missed
    → length missed ≤ buffer_limit
    → missed ≢ []
    → since id (publish_all (seen ++ missed) new_hub) ≡ some missed
since-publish_all id seen missed old fresh few some_missed =
    let kept = keep-last id seen missed old fresh few in
    let buffer = buf-publish_all_new (seen ++ missed) in
    let filled : (publish_all (seen ++ missed) new_hub).buf ≢ [] =
      λ empty. some_missed (sym kept ∙ ap (keep (λ e. ltb_ℤ id e.id)) (sym buffer ∙ empty)) in
    since-eq-keep id _ filled ∙ ap some (ap (keep (λ e. ltb_ℤ id e.id)) buffer ∙ kept)

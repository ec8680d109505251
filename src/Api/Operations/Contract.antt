-- ===== src/Api/Operations/Contract.antt =====
-- What clients and the cleaner's goroutines see of the store.
use ankiced.Base.{
  ℕ, zero, suc, ◌≤◌, ◌≡◌, ◌≢◌, refl, ap, sym, ◌∙◌, true, false, some, List, [], ◌∷◌, length, arith,
  Bool-cases, inl, inr, All, if◌then◌else◌,
}
use mathlib.Core.Option
use ankiced.Text.{Text, eq_text}
use ankiced.Text.Equal.{eq_text_refl, eq_text_ne}
use ankiced.Domain.{DryRunSummary, CleanerProgress}
use ankiced.Errors.{Err}
use ankiced.Api.Operations.{
  Operation, Store, running, is_running, has, find, remove, started, finished, broken, reported,
  new_store, create, get, succeed, fail, progress, evict_loop, evict_excess,
}
use ankiced.Api.Operations.Order.{
  find-update, find-remove_ne, find-remove_self, find-append, length-update,
}
use ankiced.Api.Operations.Evict.{IsSynced, evict_excess-IsSynced, evict_excess_running}
use ankiced.Api.Operations.Invariant.{
  IsValid, new_store-IsValid, changed, changed-IsSynced, moved, moved-IsSynced, pushed,
  pushed-IsSynced, create-IsValid, succeed-IsValid, fail-IsValid, progress-IsValid,
}

-- The calls that change the store, with the clock's reading.
pub data Request : Type 0 where
  creates : (id kind now : Text) → Request
  succeeds : (id output : Text) → DryRunSummary → (now : Text) → Request
  fails : (id : Text) → Err → (now : Text) → Request
  reports : (id : Text) → CleanerProgress → Request

abbrev pub target : Request → Text
target (creates id _ _) = id
target (succeeds id _ _ _) = id
target (fails id _ _) = id
target (reports id _) = id

unfoldable pub apply : Request → Store → Store
unfolding create succeed fail progress
apply (creates id kind now) s = create id kind now s
apply (succeeds id output summary now) s = succeed id output summary now s
apply (fails id err now) s = fail id err now s
apply (reports id p) s = progress id p s

unfoldable pub run : List Request → Store → Store
unfolding apply
run [] s = s
run (r ∷ rs) s = run rs (apply r s)

pub apply-IsValid : (r : Request) (s : Store) → IsValid s → IsValid (apply r s)
unfolding apply
apply-IsValid (creates id kind now) s v = create-IsValid s v id kind now
apply-IsValid (succeeds id output summary now) s v = succeed-IsValid s v id output now summary
apply-IsValid (fails id err now) s v = fail-IsValid s v id now err
apply-IsValid (reports id p) s v = progress-IsValid s v id p

pub run-IsValid_from : (rs : List Request) (s : Store) → IsValid s → IsValid (run rs s)
unfolding run
run-IsValid_from [] s v = v
run-IsValid_from (r ∷ rs) s v = run-IsValid_from rs (apply r s) (apply-IsValid r s v)

-- After any calls the map and the list of a new store agree, no id occurs twice, and more than the
-- capacity of operations is held only where all of them are running.
pub run-IsValid : (rs : List Request) → IsValid (run rs new_store)
run-IsValid rs = run-IsValid_from rs new_store new_store-IsValid

get-eq-find : (j : Text) (s : Store) → IsSynced s → get j s ≡ find j s.order
unfolding get
get-eq-find j s h = elim (Bool-cases (has j s.items)) [
  | inl here ↦ rw here
  | inr gone ↦ ground (arith, h.keys j)
]

module _ (s : Store) (v : IsValid s) (j : Text) (op : Operation)
    (busy : is_running op.status ≡ true) where
  evicted_running :
      (t : Store) → IsSynced t → find j t.order ≡ some op → get j (evict_excess t) ≡ some op
  evicted_running t h f =
      get-eq-find j (evict_excess t) (evict_excess-IsSynced t h)
      ∙ evict_excess_running t h j op f busy

  changed_other :
      (id : Text) (f : Operation → Operation)
      → ((o : Operation) → (f o).id ≡ o.id)
      → eq_text id j ≡ false
      → find j s.order ≡ some op
      → find j (changed s v.synced id f).order ≡ some op
  changed_other id f k n e = ground (arith, find-update id j f s.order k)

  evicted_change :
      (id : Text) (f : Operation → Operation)
      → ((o : Operation) → (f o).id ≡ o.id)
      → eq_text id j ≡ false
      → get j s ≡ some op
      → get j (if has id s.items then evict_excess (changed s v.synced id f) else s) ≡ some op
  evicted_change id f k n g = elim (Bool-cases (has id s.items)) [
    | inr gone ↦ rw gone g
    | inl here ↦ rw here (
        evicted_running (changed s v.synced id f) (changed-IsSynced s v.synced id f k)
          (changed_other id f k n (sym (get-eq-find j s v.synced) ∙ g)))
  ]

  create_other :
      (id kind now : Text)
      → eq_text id j ≡ false
      → get j s ≡ some op
      → get j (create id kind now s) ≡ some op
  unfolding create
  create_other id kind now n g =
      let new : Operation = started id kind now in
      let f : find j s.order ≡ some op = sym (get-eq-find j s v.synced) ∙ g in
      elim (Bool-cases (has id s.items)) [
        | inl old ↦ rw old (
            get-eq-find j (moved s v.synced new) (moved-IsSynced s v.synced new old)
            ∙ ground (arith, find-append j (remove id s.order) new, find-remove_ne id j s.order n))
        | inr fresh ↦ rw fresh (
            evicted_running (pushed s v.synced new) (pushed-IsSynced s v.synced new fresh)
              (ground (arith, find-append j s.order new)))
      ]

  progress_other :
      (id : Text) (p : CleanerProgress)
      → eq_text id j ≡ false
      → get j s ≡ some op
      → get j (progress id p s) ≡ some op
  unfolding progress
  progress_other id p n g = elim (Bool-cases (has id s.items)) [
    | inr gone ↦ rw gone g
    | inl here ↦
        let f : Operation → Operation = reported p in
        rw here (
          get-eq-find j (changed s v.synced id f) (changed-IsSynced s v.synced id f (λ o. refl))
          ∙ changed_other id f (λ o. refl) n (sym (get-eq-find j s v.synced) ∙ g))
  ]

  -- A call about another id leaves a running operation as it is, evictions included.
  pub get-apply_running :
      (r : Request) → get j s ≡ some op → target r ≢ j → get j (apply r s) ≡ some op
  unfolding apply
  get-apply_running (creates id kind now) g n = create_other id kind now (eq_text_ne id j n) g
  get-apply_running (succeeds id output summary now) g n =
      evicted_change id (finished now output summary) (λ o. refl) (eq_text_ne id j n) g
  get-apply_running (fails id err now) g n =
      evicted_change id (broken id now err) (λ o. refl) (eq_text_ne id j n) g
  get-apply_running (reports id p) g n = progress_other id p (eq_text_ne id j n) g

-- Until a call about its own id is made a running operation can be polled, however many
-- operations start, finish and are evicted meanwhile.
pub get-run_running :
    (rs : List Request) (s : Store) (j : Text) (op : Operation)
    → IsValid s
    → get j s ≡ some op
    → op.status ≡ running
    → All (λ r. target r ≢ j) rs
    → get j (run rs s) ≡ some op
unfolding run
get-run_running [] s j op v g b n = g
get-run_running (r ∷ rs) s j op v g b (n, ns) =
    get-run_running rs (apply r s) j op (apply-IsValid r s v)
      (get-apply_running s v j op (ap is_running b) r g n) b ns

-- An operation can be polled as soon as it is created, whether or not its id was used before and
-- whatever had to be evicted.
pub get-create_self :
    (s : Store) (id kind now : Text)
    → IsValid s
    → get id (create id kind now s) ≡ some (started id kind now)
unfolding create
get-create_self s id kind now v =
    let new : Operation = started id kind now in
    elim (Bool-cases (has id s.items)) [
      | inl old ↦ rw old (
          get-eq-find id (moved s v.synced new) (moved-IsSynced s v.synced new old)
          ∙ ground (
            arith,
            find-append id (remove id s.order) new,
            find-remove_self id s.order v.synced.distinct,
            eq_text_refl id,
          ))
      | inr fresh ↦ rw fresh (
          evicted_running s v id new refl (pushed s v.synced new)
            (pushed-IsSynced s v.synced new fresh)
            (ground (arith, find-append id s.order new, v.synced.keys id, eq_text_refl id)))
    ]

evict_loop_within : (fuel : ℕ) (s : Store) → length s.order ≤ s.capacity → evict_loop fuel s ≡ s
unfolding evict_loop
evict_loop_within zero s h = refl
evict_loop_within (suc fuel) s h = ground arith

evict_excess_within : (s : Store) → length s.order ≤ s.capacity → evict_excess s ≡ s
unfolding evict_excess
evict_excess_within s h = ground (arith, evict_loop_within (length s.order) s h)

pub changed_self :
    (s : Store) (h : IsSynced s) (id : Text) (f : Operation → Operation)
    → ((o : Operation) → (f o).id ≡ o.id)
    → get id (if has id s.items then changed s h id f else s) ≡ Option.map f (get id s)
changed_self s h id f k = elim (Bool-cases (has id s.items)) [
  | inl here ↦ rw here (
      get-eq-find id (changed s h id f) (changed-IsSynced s h id f k)
      ∙ ground (arith, find-update id id f s.order k, eq_text_refl id, get-eq-find id s h))
  | inr gone ↦ rw (gone, get-eq-find id s h) (ground (arith, h.keys id))
]

changed_within :
    (s : Store) (h : IsSynced s) (id : Text) (f : Operation → Operation)
    → ((o : Operation) → (f o).id ≡ o.id)
    → length s.order ≤ s.capacity
    → get id (if has id s.items then evict_excess (changed s h id f) else s)
      ≡ Option.map f (get id s)
changed_within s h id f k fits =
    rw (evict_excess_within (changed s h id f) (omega (arith, length-update id f s.order)))
      (changed_self s h id f k)

-- In a store within its capacity, progress replaces the progress of an operation, and succeed and
-- fail finish it with their results; of an id that is not there a poll still finds nothing.
pub get_changed :
    (s : Store) (id output now : Text) (summary : DryRunSummary) (err : Err) (p : CleanerProgress)
    → IsValid s
    → length s.order ≤ s.capacity
    → (get id (progress id p s) ≡ Option.map (reported p) (get id s))
      × (get id (succeed id output summary now s)
          ≡ Option.map (finished now output summary) (get id s))
      × (get id (fail id err now s) ≡ Option.map (broken id now err) (get id s))
unfolding progress succeed fail
get_changed s id output now summary err p v fits = (
  changed_self s v.synced id (reported p) (λ o. refl),
  changed_within s v.synced id (finished now output summary) (λ o. refl) fits,
  changed_within s v.synced id (broken id now err) (λ o. refl) fits,
)

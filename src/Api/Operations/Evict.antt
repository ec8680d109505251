-- ===== src/Api/Operations/Evict.antt =====
-- The eviction loop: what it brings about, and what it keeps.
use ankiced.Base.{
  ℕ, zero, suc, ◌≤◌, ◌≡◌, refl, ap, sym, ◌<◌, subst, some_eq, false≢true, ◌∙◌, Bool, true, false,
  Option, none, some, List, [], ◌∷◌, length, arith, Bool-cases, Option-cases, inl, inr, ◌⊎◌, ltb,
  leb, if◌then◌else◌,
}
use ankiced.Text.{Text, eq_text}
use ankiced.Text.Equal.{eq_text_iff}
use ankiced.Api.Operations.{
  Operation, Store, is_running, has, delete, find, remove, find_evictable, drop_operation,
  evict_loop, evict_excess,
}
use ankiced.Api.Operations.Order.{
  Distinct, AllRunning, find-remove_ne, find-remove_self, Distinct-remove, length-remove,
  find_evictable-some, find_evictable-none,
}

abbrev pub is_some {ℓ} : {A : Type ℓ} → Option A → Bool
is_some none = false
is_some (some a) = true

-- The map and the list agree, and no id occurs twice in the list.
pub record IsSynced (s : Store) : Type 0 where
  pub keys : (id : Text) → has id s.items ≡ is_some (find id s.order)
  pub distinct : Distinct s.order

has-delete :
    (i j : Text) (ks : List Text) → has j (delete i ks) ≡ (if eq_text i j then false else has j ks)
has-delete i j [] = ground arith
has-delete i j (k ∷ ks) =
    ground (arith, has-delete i j ks, eq_text_iff k i, eq_text_iff k j, eq_text_iff i j)

drop_operation-IsSynced : (s : Store) (v : Operation) → IsSynced s → IsSynced (drop_operation s v)
drop_operation-IsSynced s v h = record {
  keys = λ id. elim (Bool-cases (eq_text v.id id)) [
    | inl e ↦
        let same : v.id ≡ id = (eq_text_iff v.id id).0 e in
        let gone : find id (remove v.id s.order) ≡ none =
          subst (λ k. find k (remove v.id s.order) ≡ none) same
            (find-remove_self v.id s.order h.distinct) in
        ground (arith, has-delete v.id id s.items, gone)
    | inr e ↦
        ground (arith, has-delete v.id id s.items, find-remove_ne v.id id s.order e, h.keys id)
  ];
  distinct = Distinct-remove v.id s.order h.distinct;
}

-- What one round keeps, the loop keeps.
module _ {ℓ} (P : Store → Type ℓ)
    (step : (s : Store) (v : Operation)
      → find_evictable s.order ≡ some v
      → P s
      → P (drop_operation s v)) where
  evict_loop_induction : (fuel : ℕ) (s : Store) → P s → P (evict_loop fuel s)
  unfolding evict_loop
  evict_loop_induction zero s h = h
  evict_loop_induction (suc fuel) s h = elim (Bool-cases (ltb s.capacity (length s.order))) [
    | inr full ↦ rw (full, evict_loop) h
    | inl over ↦ elim (Option-cases (find_evictable s.order)) [
      | inl all ↦ rw (over, all, evict_loop) h
      | inr (v, found) ↦
          rw (over, found, evict_loop)
            (evict_loop_induction fuel (drop_operation s v) (step s v found h))
    ]
  ]

evict_loop-IsSynced : (fuel : ℕ) (s : Store) → IsSynced s → IsSynced (evict_loop fuel s)
evict_loop-IsSynced = evict_loop_induction IsSynced (λ s v _ h. drop_operation-IsSynced s v h)

-- The operation with the id `j` is running, and is `op`.
record Runs (j : Text) (op : Operation) (s : Store) : Type 0 where
  synced : IsSynced s
  found : find j s.order ≡ some op
  busy : is_running op.status ≡ true

drop_operation-Runs :
    (j : Text) (op : Operation) (s : Store) (v : Operation)
    → find_evictable s.order ≡ some v
    → Runs j op s
    → Runs j op (drop_operation s v)
drop_operation-Runs j op s v e r =
    let (place, stopped) = find_evictable-some s.order v r.synced.distinct e in
    let other : eq_text v.id j ≡ false = elim (Bool-cases (eq_text v.id j)) [
      | inr n ↦ n
      | inl h ↦
          let same : v ≡ op =
            some_eq (sym place ∙ ap (λ k. find k s.order) ((eq_text_iff v.id j).0 h) ∙ r.found) in
          absurd (false≢true (sym stopped ∙ ap (λ o. is_running o.status) same ∙ r.busy))
    ] in
    record {
      synced = drop_operation-IsSynced s v r.synced;
      found = find-remove_ne v.id j s.order other ∙ r.found;
      busy = r.busy;
    }

capacity-evict_loop : (fuel : ℕ) (s : Store) → (evict_loop fuel s).capacity ≡ s.capacity
capacity-evict_loop fuel s =
    evict_loop_induction (λ t. t.capacity ≡ s.capacity) (λ t v _ h. h) fuel s refl

abbrev pub InBounds : Store → Type 0
InBounds s = (length s.order ≤ s.capacity) ⊎ AllRunning s.order

evict_loop-InBounds :
    (fuel : ℕ) (s : Store) → length s.order ≤ fuel → IsSynced s → InBounds (evict_loop fuel s)
unfolding evict_loop
evict_loop-InBounds zero s f h = inl (omega arith)
evict_loop-InBounds (suc fuel) s f h = elim (Bool-cases (ltb s.capacity (length s.order))) [
  | inr full ↦ rw (full, evict_loop) (inl (ground arith))
  | inl over ↦ elim (Option-cases (find_evictable s.order)) [
    | inl all ↦ rw (over, all, evict_loop) (inr (find_evictable-none s.order all))
    | inr (v, found) ↦
        let place = (find_evictable-some s.order v h.distinct found).0 in
        rw (over, found, evict_loop)
          (evict_loop-InBounds fuel (drop_operation s v)
            (omega (arith, length-remove v.id s.order v place)) (drop_operation-IsSynced s v h))
  ]
]

module _ (s : Store) (h : IsSynced s) where
  pub evict_excess-IsSynced : IsSynced (evict_excess s)
  unfolding evict_excess
  evict_excess-IsSynced = elim (Bool-cases (leb s.capacity 0)) [
    | inl off ↦ rw off h
    | inr on ↦ rw on (evict_loop-IsSynced (length s.order) s h)
  ]

  pub capacity-evict_excess : (evict_excess s).capacity ≡ s.capacity
  unfolding evict_excess
  capacity-evict_excess = ground (arith, capacity-evict_loop (length s.order) s)

  -- Where the capacity is positive, eviction ends within it or with running operations only.
  pub evict_excess-InBounds : 0 < s.capacity → InBounds (evict_excess s)
  unfolding evict_excess
  evict_excess-InBounds c = elim (Bool-cases (leb s.capacity 0)) [
    | inl off ↦ absurd (ground arith)
    | inr on ↦ rw on (evict_loop-InBounds (length s.order) s (omega arith) h)
  ]

  -- A running operation is not evicted.
  pub evict_excess_running :
      (j : Text) (op : Operation)
      → find j s.order ≡ some op
      → is_running op.status ≡ true
      → find j (evict_excess s).order ≡ some op
  unfolding evict_excess
  evict_excess_running j op f b =
      let start : Runs j op s = record { synced = h; found = f; busy = b } in
      elim (Bool-cases (leb s.capacity 0)) [
        | inl off ↦ rw off f
        | inr on ↦
            rw on
              (evict_loop_induction (Runs j op) (drop_operation-Runs j op) (length s.order) s
                start).found
      ]

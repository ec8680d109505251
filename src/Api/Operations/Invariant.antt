-- ===== src/Api/Operations/Invariant.antt =====
-- What every operation of the store keeps.
use ankiced.Base.{
  ◌<◌, ◌≡◌, refl, ap, sym, ◌∙◌, subst, true, false, none, some, List, [], ◌∷◌, ◌++◌, length,
  length-append, arith, Bool-cases, Option-cases, false≢true, inl, inr, All-append,
}
use ankiced.Text.{Text, eq_text}
use ankiced.Text.Equal.{eq_text_iff}
use ankiced.Domain.{DryRunSummary, CleanerProgress}
use ankiced.Errors.{Err}
use ankiced.Api.Operations.{
  Operation, Store, has, find, update, remove, started, finished, broken, reported, new_store,
  create, succeed, fail, progress, evict_excess,
}
use ankiced.Api.Operations.Order.{
  AllRunning, KeepsId, find-update, find-remove_ne, find-remove_self, find-append, Distinct-remove,
  Distinct-append, Distinct-update, length-update, length-remove,
}
use ankiced.Api.Operations.Evict.{
  is_some, IsSynced, InBounds, evict_excess-IsSynced, evict_excess-InBounds, capacity-evict_excess,
}

-- A store that the program has built: consistent, of positive capacity, and within it unless every
-- operation that it holds is still running.
pub record IsValid (s : Store) : Type 0 where
  pub synced : IsSynced s
  pub room : 0 < s.capacity
  pub bounded : InBounds s

pub new_store-IsValid : IsValid new_store
unfolding new_store
new_store-IsValid = record {
  synced = record { keys = λ id. unfold find in refl; distinct = tt };
  room = omega arith;
  bounded = inl (omega arith);
}

module _ (s : Store) (h : IsSynced s) where
  abbrev pub changed : Text → (Operation → Operation) → Store
  changed id f = record s { order = update id f s.order }

  pub changed-IsSynced :
      (id : Text) (f : Operation → Operation) → KeepsId f → IsSynced (changed id f)
  changed-IsSynced id f k = record {
    keys = λ j. ground (arith, h.keys j, find-update id j f s.order k);
    distinct = Distinct-update id f s.order k h.distinct;
  }

  abbrev pub moved : Operation → Store
  moved op = record s { order = remove op.id s.order ++ op ∷ [] }

  pub moved-IsSynced : (op : Operation) → has op.id s.items ≡ true → IsSynced (moved op)
  moved-IsSynced op old = record {
    keys = λ j. elim (Bool-cases (eq_text op.id j)) [
      | inl e ↦
          let same : op.id ≡ j = (eq_text_iff op.id j).0 e in
          let gone : find j (remove op.id s.order) ≡ none =
            subst (λ k. find k (remove op.id s.order) ≡ none) same
              (find-remove_self op.id s.order h.distinct) in
          let there : has j s.items ≡ true = subst (λ k. has k s.items ≡ true) same old in
          ground (arith, find-append j (remove op.id s.order) op)
      | inr n ↦ ground (
        arith,
        h.keys j,
        find-append j (remove op.id s.order) op,
        find-remove_ne op.id j s.order n,
      )
    ];
    distinct =
        Distinct-append (remove op.id s.order) op (Distinct-remove op.id s.order h.distinct)
          (find-remove_self op.id s.order h.distinct);
  }

  abbrev pub pushed : Operation → Store
  pushed op = record s { items = op.id ∷ s.items; order = s.order ++ op ∷ [] }

  pub pushed-IsSynced : (op : Operation) → has op.id s.items ≡ false → IsSynced (pushed op)
  pushed-IsSynced op fresh = record {
    keys = λ j. ground (arith, h.keys j, find-append j s.order op, eq_text_iff op.id j);
    distinct = Distinct-append s.order op h.distinct (ground (arith, h.keys op.id));
  }

  length-moved :
      (op : Operation) (old : Operation)
      → find op.id s.order ≡ some old
      → length (moved op).order ≡ length s.order
  length-moved op old f =
      omega (
        arith,
        length-append {0} (remove op.id s.order) (op ∷ []),
        length-remove op.id s.order old f,
      )

AllRunning-remove : (id : Text) (ops : List Operation) → AllRunning ops → AllRunning (remove id ops)
unfolding remove
AllRunning-remove id [] h = tt
AllRunning-remove id (op ∷ ops) (h, hs) = elim (Bool-cases (eq_text op.id id)) [
  | inl e ↦ rw e hs
  | inr n ↦ rw n (h, AllRunning-remove id ops hs)
]

AllRunning-update :
    (id : Text) (f : Operation → Operation) (ops : List Operation)
    → ((op : Operation) → (f op).status ≡ op.status)
    → AllRunning ops
    → AllRunning (update id f ops)
unfolding update
AllRunning-update id f [] k h = tt
AllRunning-update id f (op ∷ ops) k (h, hs) = elim (Bool-cases (eq_text op.id id)) [
  | inl e ↦ rw e (rw (k op) h, hs)
  | inr n ↦ rw n (h, AllRunning-update id f ops k hs)
]

-- Eviction makes a consistent store of positive capacity valid.
evicted-IsValid : (s : Store) → IsSynced s → 0 < s.capacity → IsValid (evict_excess s)
evicted-IsValid s h c = record {
  synced = evict_excess-IsSynced s h;
  room = rw (capacity-evict_excess s h) c;
  bounded = evict_excess-InBounds s h c;
}

module _ (s : Store) (v : IsValid s) where
  found_of_key :
      (id : Text) → has id s.items ≡ true → (op : Operation) × (find id s.order ≡ some op)
  found_of_key id here = elim (Option-cases (find id s.order)) [
    | inl none_there ↦
        absurd (false≢true (ap is_some (sym none_there) ∙ sym (v.synced.keys id) ∙ here))
    | inr found ↦ found
  ]

  pub create-IsValid : (id kind now : Text) → IsValid (create id kind now s)
  unfolding create
  create-IsValid id kind now =
      let op : Operation = started id kind now in
      elim (Bool-cases (has id s.items)) [
        | inl old ↦ rw old (record {
          synced = moved-IsSynced s v.synced op old;
          room = v.room;
          bounded = elim v.bounded [
            | inl fits ↦
                let (prior, f) = found_of_key id old in
                inl (omega (arith, length-moved s v.synced op prior f))
            | inr all ↦ inr (All-append _ _ _ (AllRunning-remove id s.order all) (refl, tt))
          ];
        })
        | inr fresh ↦
            rw fresh
              (evicted-IsValid (pushed s v.synced op) (pushed-IsSynced s v.synced op fresh) v.room)
      ]

  pub succeed-IsValid :
      (id output now : Text) (summary : DryRunSummary) → IsValid (succeed id output summary now s)
  unfolding succeed
  succeed-IsValid id output now summary = elim (Bool-cases (has id s.items)) [
    | inl here ↦ rw here (
        evicted-IsValid (changed s v.synced id (finished now output summary))
          (changed-IsSynced s v.synced id _ (λ op. refl)) v.room)
    | inr gone ↦ rw gone v
  ]

  pub fail-IsValid : (id now : Text) (err : Err) → IsValid (fail id err now s)
  unfolding fail
  fail-IsValid id now err = elim (Bool-cases (has id s.items)) [
    | inl here ↦ rw here (
        evicted-IsValid (changed s v.synced id (broken id now err))
          (changed-IsSynced s v.synced id _ (λ op. refl)) v.room)
    | inr gone ↦ rw gone v
  ]

  pub progress-IsValid : (id : Text) (p : CleanerProgress) → IsValid (progress id p s)
  unfolding progress
  progress-IsValid id p = elim (Bool-cases (has id s.items)) [
    | inl here ↦ rw here (record {
      synced = changed-IsSynced s v.synced id _ (λ op. refl);
      room = v.room;
      bounded = elim v.bounded [
        | inl fits ↦ inl (omega (arith, length-update id (reported p) s.order))
        | inr all ↦ inr (AllRunning-update id _ s.order (λ op. refl) all)
      ];
    })
    | inr gone ↦ rw gone v
  ]

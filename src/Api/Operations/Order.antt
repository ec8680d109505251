-- ===== src/Api/Operations/Order.antt =====
-- Looking up, changing and removing members of the list of operations.
use ankiced.Base.{
  suc, ◌≡◌, refl, ◌∙◌, true, false, none, some, List, [], ◌∷◌, ◌++◌, length, arith, All, Bool-cases,
  inl, inr, if◌then◌else◌,
}
use mathlib.Core.Option
use ankiced.Text.{Text, eq_text}
use ankiced.Text.Equal.{eq_text_iff, eq_text_refl, eq_text_sym}
use ankiced.Api.Operations.{Operation, is_running, find, update, remove, find_evictable}

-- No two operations have the same id.
abbrev pub Distinct : List Operation → Type 0
Distinct [] = Unit
Distinct (op ∷ ops) = (find op.id ops ≡ none) × Distinct ops

abbrev pub KeepsId : (Operation → Operation) → Type 0
KeepsId f = (op : Operation) → (f op).id ≡ op.id

pub find-update :
    (i j : Text) (f : Operation → Operation) (ops : List Operation)
    → KeepsId f
    → find j (update i f ops) ≡ (if eq_text i j then Option.map f (find j ops) else find j ops)
unfolding find update
find-update i j f [] k = ground arith
find-update i j f (op ∷ ops) k = ground (
  arith,
  k op,
  find-update i j f ops k,
  eq_text_iff op.id i,
  eq_text_iff op.id j,
  eq_text_iff i j,
)

pub find-remove_ne :
    (i j : Text) (ops : List Operation) → eq_text i j ≡ false → find j (remove i ops) ≡ find j ops
unfolding find remove
find-remove_ne i j [] h = refl
find-remove_ne i j (op ∷ ops) h =
    ground
      (arith, find-remove_ne i j ops h, eq_text_iff op.id i, eq_text_iff op.id j, eq_text_iff i j)

pub find-remove_self :
    (i : Text) (ops : List Operation) → Distinct ops → find i (remove i ops) ≡ none
unfolding find remove
find-remove_self i [] d = refl
find-remove_self i (op ∷ ops) (d, ds) =
    ground (arith, find-remove_self i ops ds, eq_text_iff op.id i)

pub find-append :
    (j : Text) (ops : List Operation) (op : Operation)
    → find j (ops ++ op ∷ [])
      ≡ elim (find j ops) [ some o ↦ some o | none ↦ if eq_text op.id j then some op else none ]
unfolding find
find-append j [] op = refl
find-append j (o ∷ ops) op = ground (arith, find-append j ops op)

pub Distinct-remove : (i : Text) (ops : List Operation) → Distinct ops → Distinct (remove i ops)
unfolding remove
Distinct-remove i [] d = tt
Distinct-remove i (op ∷ ops) (d, ds) = elim (Bool-cases (eq_text op.id i)) [
  | inl h ↦ rw h ds
  | inr h ↦
      rw h (find-remove_ne i op.id ops (eq_text_sym i op.id ∙ h) ∙ d, Distinct-remove i ops ds)
]

pub Distinct-append :
    (ops : List Operation) (op : Operation)
    → Distinct ops
    → find op.id ops ≡ none
    → Distinct (ops ++ op ∷ [])
unfolding find
Distinct-append [] op d n = (refl, tt)
Distinct-append (o ∷ ops) op (d, ds) n = (
  ground (arith, find-append o.id ops op, eq_text_sym o.id op.id),
  Distinct-append ops op ds (ground arith),
)

pub Distinct-update :
    (i : Text) (f : Operation → Operation) (ops : List Operation)
    → KeepsId f
    → Distinct ops
    → Distinct (update i f ops)
unfolding update
Distinct-update i f [] k d = tt
Distinct-update i f (op ∷ ops) k (d, ds) = elim (Bool-cases (eq_text op.id i)) [
  | inl h ↦ rw h (rw (k op) d, ds)
  | inr h ↦ rw h (ground (arith, find-update i op.id f ops k), Distinct-update i f ops k ds)
]

pub length-update :
    (i : Text) (f : Operation → Operation) (ops : List Operation)
    → length (update i f ops) ≡ length ops
unfolding update
length-update i f [] = refl
length-update i f (op ∷ ops) = ground (arith, length-update i f ops)

pub length-remove :
    (i : Text) (ops : List Operation) (op : Operation)
    → find i ops ≡ some op
    → suc (length (remove i ops)) ≡ length ops
unfolding find remove
length-remove i [] op h = cc
length-remove i (o ∷ ops) op h = ground (arith, length-remove i ops op)

pub id-find : (i : Text) (ops : List Operation) (op : Operation) → find i ops ≡ some op → op.id ≡ i
unfolding find
id-find i [] op h = cc
id-find i (o ∷ ops) op h = ground (arith, id-find i ops op, eq_text_iff o.id i)

abbrev pub AllRunning : List Operation → Type 0
AllRunning = All (λ op. is_running op.status ≡ true)

-- The operation that is found to be evicted has finished and is the one of its id; where none is
-- found, all are running.
pub find_evictable-some :
    (ops : List Operation) (victim : Operation)
    → Distinct ops
    → find_evictable ops ≡ some victim
    → (find victim.id ops ≡ some victim) × (is_running victim.status ≡ false)
unfolding find find_evictable
find_evictable-some [] v d h = cc
find_evictable-some (op ∷ ops) v (d, ds) h = elim (Bool-cases (is_running op.status)) [
  | inl r ↦
      let (found, stopped) = find_evictable-some ops v ds (ground arith) in
      (ground (arith, eq_text_iff op.id v.id), stopped)
  | inr r ↦ let same : op ≡ v = ground arith in rw (← same) (ground (arith, eq_text_refl op.id), r)
]

pub find_evictable-none : (ops : List Operation) → find_evictable ops ≡ none → AllRunning ops
unfolding find_evictable
find_evictable-none [] h = tt
find_evictable-none (op ∷ ops) h = (ground arith, find_evictable-none ops (ground arith))

-- ===== src/Api/Operations.antt =====
-- internal/interfaces/httpapi/operations.go: the store of cleaner operations that clients poll.
-- The map from ids to list elements is the set of its keys, `items`; the element of a key is the
-- member of `order` with that id. The clock's reading is an argument.
pub mod Order
pub mod Evict
pub mod Invariant
pub mod Contract
mod Tests
use ankiced.Base.{
  ℕ, zero, suc, ◌+◌, Bool, true, false, not, Option, none, some, List, [], ◌∷◌, ◌++◌, length, leb,
  ltb, keep, any, if◌then◌else◌,
}
use ankiced.Text.{Text, codes, eq_text}
use ankiced.Domain.{DryRunSummary, no_summary, CleanerProgress}
use ankiced.Errors.{Err}
use ankiced.Api.Errors.{ApiError, error_payload}

pub data Status : Type 0 where
  running succeeded failed : Status

pub record Operation : Type 0 where
  pub id : Text
  pub kind : Text
  pub status : Status
  pub started_at : Text
  pub finished_at : Text
  pub progress : CleanerProgress
  pub summary : DryRunSummary
  pub output : Text
  pub error : Option ApiError

abbrev pub no_progress : CleanerProgress
no_progress = record {
  total = 0;
  processed = 0;
  changed = 0;
  skipped = 0;
  errors = 0;
  stage = [];
  summary = no_summary;
}

pub record Store : Type 0 where
  pub items : List Text
  pub order : List Operation
  pub capacity : ℕ

-- newOperationStore
unfoldable pub new_store : Store
new_store = record { items = []; order = []; capacity = 256 }

abbrev pub is_running : Status → Bool
is_running running = true
is_running _ = false

abbrev pub has : Text → List Text → Bool
has id = any (λ k. eq_text k id)

abbrev delete : Text → List Text → List Text
delete id = keep (λ k. not (eq_text k id))

-- The element of an id.
unfoldable pub find : Text → List Operation → Option Operation
unfolding eq_text
find id [] = none
find id (op ∷ ops) = if eq_text op.id id then some op else find id ops

-- el.Value = f el.Value
unfoldable pub update : Text → (Operation → Operation) → List Operation → List Operation
unfolding eq_text
update id f [] = []
update id f (op ∷ ops) =
    let rest = update id f ops in if eq_text op.id id then f op ∷ ops else op ∷ rest

-- order.Remove
unfoldable pub remove : Text → List Operation → List Operation
unfolding eq_text
remove id [] = []
remove id (op ∷ ops) = let rest = remove id ops in if eq_text op.id id then ops else op ∷ rest

unfoldable pub find_evictable : List Operation → Option Operation
find_evictable [] = none
find_evictable (op ∷ ops) = if not (is_running op.status) then some op else find_evictable ops

abbrev drop_operation : Store → Operation → Store
drop_operation s victim = record s {
  items = delete victim.id s.items;
  order = remove victim.id s.order;
}

-- The loop of evictExcess. Each round drops one operation, so `length order` rounds are enough.
unfoldable pub evict_loop : ℕ → Store → Store
unfolding find_evictable remove
evict_loop zero s = s
evict_loop (suc fuel) s = elim (ltb s.capacity (length s.order)) [
  | false ↦ s
  | true ↦ elim (find_evictable s.order) [
    | none ↦ s
    | some victim ↦ evict_loop fuel (drop_operation s victim)
  ]
]

unfoldable pub evict_excess : Store → Store
unfolding evict_loop
evict_excess s = if leb s.capacity 0 then s else evict_loop (length s.order) s

abbrev pub started : Text → Text → Text → Operation
started id kind now = record {
  id = id;
  kind = kind;
  status = running;
  started_at = now;
  finished_at = [];
  progress = no_progress;
  summary = no_summary;
  output = [];
  error = none;
}

unfoldable pub create : Text → Text → Text → Store → Store
unfolding evict_excess remove
create id kind now s =
    let op = started id kind now in
    if has id s.items
    then record s { order = remove id s.order ++ op ∷ [] }
    else evict_excess (record s { items = id ∷ s.items; order = s.order ++ op ∷ [] })

unfoldable pub get : Text → Store → Option Operation
unfolding find
get id s = if has id s.items then find id s.order else none

abbrev pub finished : Text → Text → DryRunSummary → Operation → Operation
finished now output summary op = record op {
  status = succeeded;
  finished_at = now;
  output = output;
  summary = summary;
  progress = record {
    total = op.progress.total;
    processed = summary.processed;
    changed = summary.changed;
    skipped = summary.skipped;
    errors = summary.errors;
    stage = codes "finished";
    summary = summary;
  };
}

unfoldable pub succeed : Text → Text → DryRunSummary → Text → Store → Store
unfolding evict_excess update
succeed id output summary now s =
    if has id s.items
    then evict_excess (record s { order = update id (finished now output summary) s.order })
    else s

abbrev pub broken : Text → Text → Err → Operation → Operation
broken id now err op =
    let p : CleanerProgress = op.progress in
    record op {
      status = failed;
      finished_at = now;
      progress = record p { stage = codes "failed"; errors = p.errors + 1 };
      error = some (error_payload err id);
    }

unfoldable pub fail : Text → Err → Text → Store → Store
unfolding evict_excess update
fail id err now s =
    if has id s.items
    then evict_excess (record s { order = update id (broken id now err) s.order })
    else s

abbrev pub reported : CleanerProgress → Operation → Operation
reported p op = record op { progress = p }

unfoldable pub progress : Text → CleanerProgress → Store → Store
unfolding update
progress id p s = if has id s.items then record s { order = update id (reported p) s.order } else s

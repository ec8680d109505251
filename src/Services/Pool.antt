-- ===== src/Services/Pool.antt =====
-- The workers of RunCleaner: a feeder hands the note ids one by one to the idle workers, each of
-- which reads and cleans a note and sends the result to the consumer. A step is one event of the
-- goroutines; which events come when is open. A note is read in one step. The channel of results and
-- its consumer are one list: the consumer takes whatever comes until the channel is closed, so that
-- no worker waits for ever.
pub mod Progress
pub mod Complete
pub mod OneWorker
use ankiced.Base.{
  ◌≡◌, ℕ, suc, ℤ, leb_ℤ, pos, negsuc, Bool, true, false, Option, none, some, List, [], ◌∷◌, ◌++◌,
}
use ankiced.Text.{Text, codes, eq_text}
use ankiced.Errors.{Err, external}
use ankiced.Domain.{Note, NoteField, DiffRecord}
use ankiced.Action.{Outcome, ok, fail, Action, lift, ◌>>=◌}
use ankiced.Services.Ports.{Services, Template}
use ankiced.Services.Notes.{get_note, clean_fields}

-- processedNote
pub record Processed : Type 0 where
  pub note_id : ℤ
  pub fields : List NoteField
  pub records : List DiffRecord

-- What a worker sends: of a note without a change only the id.
abbrev pub processed : ℤ → List NoteField × List DiffRecord → Processed
processed id (fields, []) = record { note_id = id; fields = []; records = [] }
processed id (fields, r ∷ rs) = record { note_id = id; fields = fields; records = r ∷ rs }

abbrev pub sent : ℤ → Outcome (List NoteField × List DiffRecord) → Outcome Processed
sent id (ok r) = ok (processed id r)
sent id (fail e) = fail e

-- `workers`, at least one.
abbrev pub worker_count : ℤ → ℕ
worker_count (pos (suc n)) = suc n
worker_count _ = 1

-- The channel errCh has room for one error: a later one is dropped.
abbrev first_error : Option Err → Err → Option Err
first_error none e = some e
first_error (some e') e = some e'

module _ {W : Type 0} (s : Services W) (apply : Template) where
  -- One turn of a worker's loop.
  unfoldable pub transform : ℤ → Action W Processed
  unfolding get_note clean_fields
  transform id = get_note s id >>= λ note. lift (sent id (clean_fields apply note.id note.fields))

-- `waiting` are the ids that are not handed out, `taken` those that a worker has, `idle` the
-- workers that wait for an id.
pub record Pool (W : Type 0) : Type 0 where
  pub waiting : List ℤ
  pub feeding : Bool
  pub idle : ℕ
  pub taken : List ℤ
  pub results : List Processed
  pub error : Option Err
  pub cancelled : Bool
  pub world : W

abbrev pub new_pool : {W : Type 0} → ℕ → List ℤ → W → Pool W
new_pool workers ids w = record {
  waiting = ids;
  feeding = true;
  idle = workers;
  taken = [];
  results = [];
  error = none;
  cancelled = false;
  world = w;
}

-- The results channel is closed: the feeder and all workers have ended.
abbrev pub IsFinal : {W : Type 0} → Pool W → Type 0
IsFinal p = (p.feeding ≡ false) × (p.taken ≡ [])

-- reportErr
abbrev pub report_err : {W : Type 0} → Err → Pool W → Pool W
report_err e p = record p { error = first_error p.error e; cancelled = true }

module _ {W : Type 0} (s : Services W) (apply : Template) where
  pub data Step (p : Pool W) : Pool W → Type 0 where
    feed :
        (id : ℤ) (rest : List ℤ) (n : ℕ)
        → p.feeding ≡ true
        → p.waiting ≡ id ∷ rest
        → p.idle ≡ suc n
        → Step p (record p { waiting = rest; idle = n; taken = id ∷ p.taken })
    feed_end : p.feeding ≡ true → p.waiting ≡ [] → Step p (record p { feeding = false })
    feed_stop : p.feeding ≡ true → p.cancelled ≡ true → Step p (record p { feeding = false })
    finish :
        (before after : List ℤ) (id : ℤ) (r : Processed)
        → p.taken ≡ before ++ id ∷ after
        → (transform s apply id p.world).0 ≡ ok r
        → Step p (record p {
          taken = before ++ after;
          idle = suc p.idle;
          results = p.results ++ r ∷ [];
          world = (transform s apply id p.world).1;
        })
    break :
        (before after : List ℤ) (id : ℤ) (e : Err)
        → p.taken ≡ before ++ id ∷ after
        → (transform s apply id p.world).0 ≡ fail e
        → Step p (
            report_err e
              (record p { taken = before ++ after; world = (transform s apply id p.world).1 }))
    -- The template panics with a value of this text.
    panic :
        (before after : List ℤ) (id : ℤ) (text : Text)
        → p.taken ≡ before ++ id ∷ after
        → Step p (
            report_err
              (external (codes "cleaner worker panicked: " ++ text))
              (record p { taken = before ++ after; world = (get_note s id p.world).1 }))
    -- The read of a note fails because the context was cancelled.
    interrupt :
        (before after : List ℤ) (id : ℤ) (e : Err)
        → p.taken ≡ before ++ id ∷ after
        → p.cancelled ≡ true
        → Step p (report_err e (record p { taken = before ++ after }))
    -- The caller cancels the context.
    cancel : p.cancelled ≡ false → Step p (record p { cancelled = true })

  pub data Steps : Pool W → Pool W → Type 0 where
    done : {p : Pool W} → Steps p p
    next : {p q r : Pool W} → Step p q → Steps q r → Steps p r

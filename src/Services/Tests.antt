-- ===== src/Services/Tests.antt =====
-- The use cases on the collection in memory.
use ankiced.Base.{
  ◌≡◌, ◌≤◌, ◌*◌, ◌+◌, ◌⊎◌, refl, ℤ, pos, negsuc, true, false, none, List, [], ◌∷◌, length, All,
  arith,
}
use ankiced.Text.{Text, codes}
use ankiced.Errors.{sentinel, application, operation_cancelled}
use ankiced.Domain.{Note, NoteField, field_count_invalid, field_separator, join_field_values}
use ankiced.Action.{ok, fail}
use ankiced.Services.Ports.{Template, template}
use ankiced.Services.Ports.Reads.{IsRefused}
use ankiced.Services.Decks.{rename_deck, refused}
use ankiced.Services.Decks.Laws.{IsRenaming, rename_deck_cases}
use ankiced.Services.Notes.{get_note, update_note, clean_fields}
use ankiced.Services.Notes.RoundTrip.{answers, get_note-update_note, get_note-update_note_separator}
use ankiced.Services.Pool.{Processed, Pool, IsFinal, transform}
use ankiced.Services.Pool.OneWorker.{one_worker, one_worker_run, one_worker_over}
use ankiced.Services.Pool.Progress.{count_steps, count_steps-le-ids}
use ankiced.Services.Pool.Complete.{count, ids_of, run_complete}
use ankiced.Services.Cleaner.{
  run_cleaner, write_batches, consume, write_stage, report_stage, check_error,
}
use ankiced.Services.Cleaner.Counts.{HasCounts, run_cleaner-HasCounts}
use ankiced.Services.Cleaner.Effects.{run_cleaner-dry_run, run_cleaner-declined}
use ankiced.Services.Cleaner.Finished.{run_cleaner-processed}
use ankiced.Services.Cleaner.Batches.{IsStored, write_batches-IsStored}
use ankiced.Services.Memory.{
  Memory, settings, drop_first, memory, memory-IsReadOnly, memory-IsTransactional,
  memory-StoresNotes,
}

abbrev start : Memory
start = record {
  deck_name = codes "Default";
  raw_flds = 32 ∷ 97 ∷ field_separator ∷ 98 ∷ [];
  modified = pos 1;
  usn = pos 0;
}

abbrev raw : Memory → Text
raw w = w.raw_flds

abbrev fields : List NoteField
fields =
    record { name = codes "Front"; value = codes "x" }
    ∷ record { name = codes "Back"; value = [] }
    ∷ []

abbrev bad_fields : List NoteField
bad_fields =
    record { name = codes "Front"; value = field_separator ∷ [] }
    ∷ record { name = codes "Back"; value = [] }
    ∷ []

updated : (update_note memory (pos 1) fields start).0 ≡ ok tt
unfolding update_note
updated = refl

updated_bad : (update_note memory (pos 1) bad_fields start).0 ≡ ok tt
unfolding update_note
updated_bad = refl

rename_deck_cases_example :
    IsRefused raw (rename_deck memory (pos 1) (codes " A ") start) start
    ⊎ IsRenaming raw memory
        (memory-IsReadOnly raw)
        (pos 1)
        (codes " A ")
        (rename_deck memory (pos 1) (codes " A ") start)
        start
rename_deck_cases_example =
    rename_deck_cases raw memory (memory-IsReadOnly raw) (pos 1) (codes " A ") start

get_note-update_note_example :
    (n : Note) × ((get_note memory (pos 1) (update_note memory (pos 1) fields start).1).0 ≡ ok n)
    × (join_field_values n.fields ≡ join_field_values fields)
    × (n.usn ≡ negsuc 0)
get_note-update_note_example =
    get_note-update_note memory (memory-IsReadOnly (answers memory)) memory-StoresNotes (pos 1)
      fields start (λ e. cc) ((omega arith, tt), (tt, tt)) updated

get_note-update_note_separator_example :
    (get_note memory (pos 1) (update_note memory (pos 1) bad_fields start).1).0
    ≡ refused field_count_invalid
get_note-update_note_separator_example =
    get_note-update_note_separator memory (memory-IsReadOnly (answers memory)) memory-StoresNotes
      (pos 1) bad_fields start (unfold join_field_values in omega arith) updated_bad

abbrev ids : List ℤ
ids = pos 1 ∷ pos 1 ∷ []

abbrev ended : Pool Memory
ended = one_worker memory drop_first ids start

one_worker_ended : IsFinal ended × (ended.cancelled ≡ false)
unfolding one_worker transform get_note clean_fields
one_worker_ended = ((refl, refl), refl)

run_complete_example :
    (ended.error ≡ none)
    × All (λ r. (transform memory drop_first r.note_id start).0 ≡ ok r) ended.results
    × ((x : ℤ) → count x (ids_of ended.results) ≡ count x ids)
run_complete_example =
    run_complete memory drop_first (memory-IsReadOnly (answers memory)) 1 ids start ended
      (one_worker_run memory drop_first ids start) one_worker_ended.0 one_worker_ended.1

count_steps-le-ids_example :
    count_steps memory drop_first (one_worker_run memory drop_first ids start) ≤ 2 * length ids + 2
count_steps-le-ids_example =
    count_steps-le-ids memory drop_first 1 ids start ended
      (one_worker_run memory drop_first ids start)

abbrev schedule : Template → List ℤ → Memory → Pool Memory
schedule apply ids w = one_worker memory apply ids w

run_cleaner-HasCounts_example :
    HasCounts (run_cleaner memory settings (pos 1) true [] schedule start).1
run_cleaner-HasCounts_example = run_cleaner-HasCounts memory settings (pos 1) true [] schedule start

run_cleaner-dry_run_example :
    (run_cleaner memory settings (pos 1) true [] schedule start).1.world ≡ start
run_cleaner-dry_run_example =
    run_cleaner-dry_run (λ w. w) memory (memory-IsReadOnly (λ w. w)) settings (pos 1) [] schedule
      start (λ apply ids w. one_worker_run memory apply ids w)

run_cleaner-declined_example :
    let (o, c) = run_cleaner memory settings (pos 1) false [] schedule start in
    (o ≡ fail (sentinel (application operation_cancelled)))
    × (c.world ≡ start)
    × (raw c.world ≡ raw start)
unfolding template
run_cleaner-declined_example =
    run_cleaner-declined raw memory (memory-IsReadOnly raw) settings (pos 1) [] schedule start
      drop_first (pos 1 ∷ []) refl refl refl refl

abbrev items : List Processed
items = record { note_id = pos 1; fields = fields; records = [] } ∷ []

write_batches-IsStored_example : IsStored memory items start (write_batches memory 1 items start)
write_batches-IsStored_example =
    write_batches-IsStored memory 1 items start memory-IsTransactional (omega arith)

-- A run of one worker on the note is over, and nobody cancels it.
abbrev answer : Text
answer = []

dry_out : (run_cleaner memory settings (pos 1) true [] schedule start).0 ≡ ok answer
unfolding run_cleaner template one_worker transform get_note clean_fields consume write_stage
    report_stage check_error
dry_out = refl

run_cleaner-processed_example :
    (ids : List ℤ) × ((memory.notes.list_note_ids_by_deck (pos 1) start).0 ≡ ok ids)
    × ((run_cleaner memory settings (pos 1) true [] schedule start).1.summary.processed
        ≡ length ids)
run_cleaner-processed_example =
    run_cleaner-processed memory settings (pos 1) true [] schedule start answer
      (memory-IsReadOnly (answers memory))
      (λ apply ids w.
        let (over, calm) = one_worker_over memory apply ids w in
        (one_worker_run memory apply ids w, over, calm))
      dry_out

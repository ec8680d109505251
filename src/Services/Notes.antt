-- ===== src/Services/Notes.antt =====
-- The use cases of notes.
pub mod Laws
pub mod RoundTrip
use ankiced.Base.{
  ◌+◌, ℤ, pos, negsuc, Bool, true, false, Option, none, some, List, [], ◌∷◌, ◌++◌, map,
  if◌then◌else◌,
}
use ankiced.Text.{Text, split, join, eq_text}
use ankiced.Domain.{
  Note, NoteField, Model, FilterSet, Pagination, DiffRecord, field_count_invalid, field_separator,
  map_fields, join_field_values,
}
use ankiced.Action.{Outcome, ok, fail, Action, pure, lift, ◌>>=◌, ◌>>◌}
use ankiced.Services.Ports.{Services, Template, clock, template, backup_first}
use ankiced.Services.Decks.{refused}

abbrev pub counted : Option (List NoteField) → Outcome (List NoteField)
counted none = refused field_count_invalid
counted (some fields) = ok fields

-- The loop of PreviewCleaner, and of a worker: the fields with the cleaned values, and a record for
-- each value that the template changes.
abbrev pub put_field :
    ℤ → NoteField → Text → List NoteField × List DiffRecord → List NoteField × List DiffRecord
unfolding eq_text
put_field id f cleaned (fields, records) = (
  record { name = f.name; value = cleaned } ∷ fields,
  if eq_text cleaned f.value
      then records
      else record { note_id = id; field_name = f.name; before = f.value; after = cleaned }
        ∷ records,
)

abbrev pub then_put :
    ℤ
    → NoteField
    → Text
    → Outcome (List NoteField × List DiffRecord)
    → Outcome (List NoteField × List DiffRecord)
then_put id f cleaned (ok r) = ok (put_field id f cleaned r)
then_put id f cleaned (fail e) = fail e

abbrev pub next_field :
    ℤ
    → NoteField
    → Outcome Text
    → Outcome (List NoteField × List DiffRecord)
    → Outcome (List NoteField × List DiffRecord)
next_field id f (ok cleaned) rest = then_put id f cleaned rest
next_field id f (fail e) rest = fail e

unfoldable pub clean_fields :
    Template → ℤ → List NoteField → Outcome (List NoteField × List DiffRecord)
unfolding eq_text
clean_fields apply id [] = ok ([], [])
clean_fields apply id (f ∷ fs) = next_field id f (apply f.value) (clean_fields apply id fs)

abbrev pub records_of : Outcome (List NoteField × List DiffRecord) → Outcome (List DiffRecord)
records_of (ok (fields, records)) = ok records
records_of (fail e) = fail e

abbrev pub made : Note → Option (List NoteField) → Outcome Note
made note none = refused field_count_invalid
made note (some fields) = ok (record note { fields = fields })

module _ {W : Type 0} (s : Services W) where
  unfoldable pub list_notes : FilterSet → Pagination → Action W (List Note)
  list_notes = s.notes.list_notes

  unfoldable pub count_notes : FilterSet → Action W ℤ
  count_notes = s.notes.count_notes

  abbrev pub with_fields : Note → Model → Outcome Note
  unfolding map_fields split
  with_fields note model = made note (map_fields (split field_separator note.raw_flds) model)

  unfoldable pub get_note : ℤ → Action W Note
  unfolding map_fields split
  get_note id = do
    note ← s.notes.get_note id
    model ← s.get_model_by_id note.model_id
    lift (with_fields note model)

  abbrev pub written_note : Note → List NoteField → ℤ → Note
  unfolding join join_field_values
  written_note note fields t = record note {
    fields = fields;
    raw_flds = join (join_field_values fields) (field_separator ∷ []);
    modified = t;
    usn = negsuc 0;
  }

  unfoldable pub backup_if : Bool → Action W (Unit {0})
  unfolding backup_first
  backup_if true = backup_first s
  backup_if false = pure tt

  -- updateNote
  unfoldable pub update_note_with : ℤ → List NoteField → Bool → Action W (Unit {0})
  unfolding map_fields join_field_values join backup_if
  update_note_with id fields create_backup = do
    note ← s.notes.get_note id
    model ← s.get_model_by_id note.model_id
    lift (counted (map_fields (join_field_values fields) model))
    backup_if create_backup
    t ← clock s
    s.notes.update_note (written_note note fields t)

  unfoldable pub update_note : ℤ → List NoteField → Action W (Unit {0})
  unfolding update_note_with
  update_note id fields = update_note_with id fields true

  unfoldable pub preview_cleaner : ℤ → Text → Action W (List DiffRecord)
  unfolding template get_note clean_fields
  preview_cleaner id template_id = do
    apply ← lift (template s template_id)
    note ← get_note id
    lift (records_of (clean_fields apply id note.fields))

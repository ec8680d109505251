-- ===== src/Services/Notes/RoundTrip.antt =====
-- A note that is read after it was written.
use ankiced.Base.{
  ◌≡◌, ◌≢◌, ◌<◌, ◌+◌, refl, sym, ap, ◌∙◌, inl, inr, ℤ, negsuc, true, some, List, [], ◌∷◌, length,
  All, arith,
}
use ankiced.Text.{Text, split}
use ankiced.Text.Parts.{Lacks, count_all, split-join, length-split-join}
use ankiced.Domain.{
  Note, NoteField, Model, field_count_invalid, field_separator, map_fields, join_field_values,
}
use ankiced.Domain.Laws.{map_fields_sound, map_fields-eq-none_iff}
use ankiced.Action.{Outcome, ok}
use ankiced.Services.Ports.{Services}
use ankiced.Services.Ports.Reads.{IsReadOnly}
use ankiced.Services.Decks.{refused}
use ankiced.Services.Notes.{made, with_fields, written_note, get_note, update_note}
use ankiced.Services.Notes.Laws.{IsWriting, update_note_cases}

values-ne-nil : (fields : List NoteField) → fields ≢ [] → join_field_values fields ≢ []
unfolding join_field_values
values-ne-nil [] h = absurd (h refl)
values-ne-nil (f ∷ fs) h = λ e. cc

values-All :
    (fields : List NoteField)
    → All (λ f. Lacks field_separator f.value) fields
    → All (Lacks field_separator) (join_field_values fields)
unfolding join_field_values
values-All [] h = tt
values-All (f ∷ fs) (h, hs) = (h, values-All fs hs)

counted-ne-nil : (vs : List Text) → 0 < count_all field_separator vs → vs ≢ []
counted-ne-nil [] h = absurd (omega arith)
counted-ne-nil (v ∷ vs) h = λ e. cc

map_fields-length :
    (vs : List Text) (model : Model) (mapped : List NoteField)
    → map_fields vs model ≡ some mapped
    → length vs ≡ length model.field_names
unfolding map_fields
map_fields-length vs model mapped h = ground arith

module _ {W : Type 0} (s : Services W) where
  -- What the queries for notes and models answer.
  abbrev pub answers : W → (ℤ → Outcome Note) × (ℤ → Outcome Model)
  answers w = ((λ id. (s.notes.get_note id w).0), (λ id. (s.get_model_by_id id w).0))

  -- What the repository of notes promises: an update that reports no error is read back, as far as
  -- the note's row goes, and leaves the models as they are.
  pub record StoresNotes : Type 0 where
    pub own_id : (id : ℤ) (n : Note) (w : W) → (s.notes.get_note id w).0 ≡ ok n → n.id ≡ id
    pub stored :
        (old note : Note) (w : W)
        → (s.notes.get_note note.id w).0 ≡ ok old
        → old.guid ≡ note.guid
        → old.model_id ≡ note.model_id
        → (s.notes.update_note note w).0 ≡ ok tt
        → (s.notes.get_note note.id (s.notes.update_note note w).1).0
          ≡ ok (record note { fields = [] })
    pub models :
        (id : ℤ) (note : Note) (w : W)
        → (s.get_model_by_id id (s.notes.update_note note w).1).0 ≡ (s.get_model_by_id id w).0

  module _ (h : IsReadOnly answers s) (k : StoresNotes) where
    read_note :
        (id : ℤ) (w : W) (n : Note) (model : Model)
        → (s.notes.get_note id w).0 ≡ ok n
        → (s.get_model_by_id n.model_id w).0 ≡ ok model
        → (get_note s id w).0 ≡ with_fields s n model
    unfolding get_note
    read_note id w n model found typed =
        let typed' : (s.get_model_by_id n.model_id (s.notes.get_note id w).1).0 ≡ ok model =
          ap (λ v. v.1 n.model_id) (h.get_note id w) ∙ typed in
        rw (found, typed') refl

    -- The note that GetNote makes of what an update has stored.
    read_written :
        (id : ℤ) (fields : List NoteField) (w : W) (r : Outcome (Unit {0}) × W)
        → (v : IsWriting answers s h id fields r w) → r.0 ≡ ok tt
        → (get_note s id r.1).0 ≡ with_fields s (written_note s v.old fields v.time) v.model
    unfolding written_note with_fields
    read_written id fields w r v done =
        let note = written_note s v.old fields v.time in
        let own : v.old.id ≡ id = k.own_id id v.old w v.found in
        let there : (s.notes.get_note v.old.id v.before).0 ≡ ok v.old =
          ap (λ a. a.0 v.old.id) v.same ∙ ap (λ i. (s.notes.get_note i w).0) own ∙ v.found in
        let wrote : (s.notes.update_note note v.before).0 ≡ ok tt =
          ap (λ p. p.0) (sym v.written) ∙ done in
        let at : (s.notes.get_note v.old.id (s.notes.update_note note v.before).1).0
            ≡ ok (record note { fields = [] }) =
          k.stored v.old note v.before there refl refl wrote in
        let model : (s.get_model_by_id v.old.model_id (s.notes.update_note note v.before).1).0
            ≡ ok v.model =
          k.models v.old.model_id note v.before
          ∙ ap (λ a. a.1 v.old.model_id) (v.same ∙ sym (h.get_note id w))
          ∙ v.typed in
        rw (v.written, ← own) (read_note v.old.id _ _ _ at model)

    parts_mapped :
        (n : Note) (vs : List Text) (model : Model) (mapped : List NoteField)
        → split field_separator n.raw_flds ≡ vs
        → map_fields vs model ≡ some mapped
        → with_fields s n model ≡ ok (record n { fields = mapped })
    unfolding with_fields
    parts_mapped n vs model mapped parts fits =
        ap (λ l. made n (map_fields l model)) parts ∙ ap (made n) fits

    parts_uneven :
        (n : Note) (model : Model)
        → length (split field_separator n.raw_flds) ≢ length model.field_names
        → with_fields s n model ≡ refused field_count_invalid
    unfolding with_fields
    parts_uneven n model h =
        ap (made n) ((map_fields-eq-none_iff (split field_separator n.raw_flds) model).1 h)

    -- If the reading ports and the backups change nothing that the queries answer, the repository
    -- keeps its promises, there is a field, and no value has the separator in it, then a note that
    -- UpdateNote has written without an error is read back by GetNote with these values and with
    -- the update sequence number -1.
    pub get_note-update_note :
        (id : ℤ) (fields : List NoteField) (w : W)
        → fields ≢ []
        → All (λ f. Lacks field_separator f.value) fields
        → (update_note s id fields w).0 ≡ ok tt
        → (n : Note) × ((get_note s id (update_note s id fields w).1).0 ≡ ok n)
          × (join_field_values n.fields ≡ join_field_values fields)
          × (n.usn ≡ negsuc 0)
    unfolding update_note written_note
    get_note-update_note id fields w filled clean done =
        elim (update_note_cases answers s h id fields true w) [
          | inl ((e, bad), _) ↦ cc
          | inr v ↦
              let parts : split field_separator (written_note s v.old fields v.time).raw_flds
                  ≡ join_field_values fields =
                split-join field_separator (join_field_values fields) (values-ne-nil fields filled)
                  (values-All fields clean) in
              (
                record (written_note s v.old fields v.time) { fields = v.mapped },
                read_written id fields w _ v done
                    ∙ parts_mapped (written_note s v.old fields v.time) (join_field_values fields)
                        v.model v.mapped parts v.fits,
                (map_fields_sound (join_field_values fields) v.model v.mapped v.fits).0,
                refl,
              )
        ]

    -- If the reading ports and the backups change nothing that the queries answer, the repository
    -- keeps its promises, and a value has the separator in it, then the note that UpdateNote has
    -- written without an error is refused by GetNote with ErrFieldCountInvalid.
    pub get_note-update_note_separator :
        (id : ℤ) (fields : List NoteField) (w : W)
        → 0 < count_all field_separator (join_field_values fields)
        → (update_note s id fields w).0 ≡ ok tt
        → (get_note s id (update_note s id fields w).1).0 ≡ refused field_count_invalid
    unfolding update_note written_note
    get_note-update_note_separator id fields w bad done =
        elim (update_note_cases answers s h id fields true w) [
          | inl ((e, e'), _) ↦ cc
          | inr v ↦
              let values = join_field_values fields in
              let more : length
                    (split field_separator (written_note s v.old fields v.time).raw_flds)
                  ≡ count_all field_separator values + length values =
                length-split-join field_separator values (counted-ne-nil values bad) in
              let few : length values ≡ length v.model.field_names =
                map_fields-length values v.model v.mapped v.fits in
              read_written id fields w _ v done
              ∙ parts_uneven (written_note s v.old fields v.time) v.model (λ e. omega arith)
        ]

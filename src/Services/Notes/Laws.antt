-- ===== src/Services/Notes/Laws.antt =====
-- What is written to a note, and what is read back of it.
use ankiced.Base.{◌≡◌, refl, ◌∙◌, ◌⊎◌, inl, inr, ℤ, Bool, true, false, some, List, Option-cases}
use ankiced.Domain.{Note, NoteField, Model, map_fields, join_field_values}
use ankiced.Action.{Outcome, ok, lift, ◌>>=◌, Keeps, bind-Keeps, Outcome-cases}
use ankiced.Services.Ports.{Services}
use ankiced.Services.Ports.Reads.{IsReadOnly, IsRefused, backup_first-Keeps}
use ankiced.Services.Notes.{with_fields, written_note, backup_if, get_note, update_note_with}

module _ {W V : Type 0} (view : W → V) (s : Services W) (h : IsReadOnly view s) where
  backup_if-Keeps : (b : Bool) → Keeps view (backup_if s b)
  unfolding backup_if
  backup_if-Keeps true w = backup_first-Keeps view s h w
  backup_if-Keeps false w = refl

  pub get_note-Keeps : (id : ℤ) → Keeps view (get_note s id)
  unfolding get_note
  get_note-Keeps id =
      bind-Keeps view (s.notes.get_note id)
        (λ n. s.get_model_by_id n.model_id >>= λ m. lift (with_fields s n m)) (h.get_note id)
        λ n.
          bind-Keeps view (s.get_model_by_id n.model_id) (λ m. lift (with_fields s n m))
            (h.get_model_by_id n.model_id) (λ m w. refl)

  -- The call went through to the repository: the note and its model were found, the fields are as
  -- many as the model has, and what follows is the repository's own update, in a state that shows
  -- no change.
  pub record IsWriting (id : ℤ) (fields : List NoteField) (r : Outcome (Unit {0}) × W) (w : W)
      : Type 0 where
    pub old : Note
    pub model : Model
    pub found : (s.notes.get_note id w).0 ≡ ok old
    pub typed : (s.get_model_by_id old.model_id (s.notes.get_note id w).1).0 ≡ ok model
    pub mapped : List NoteField
    pub fits : map_fields (join_field_values fields) model ≡ some mapped
    pub time : ℤ
    pub before : W
    pub same : view before ≡ view w
    pub written : r ≡ s.notes.update_note (written_note s old fields time) before

  pub update_note_cases :
      (id : ℤ) (fields : List NoteField) (b : Bool) (w : W)
      → IsRefused view (update_note_with s id fields b w) w
        ⊎ IsWriting id fields (update_note_with s id fields b w) w
  unfolding update_note_with
  update_note_cases id fields b w =
      let w1 = (s.notes.get_note id w).1 in
      let e1 : view w1 ≡ view w = h.get_note id w in
      elim (Outcome-cases (s.notes.get_note id w).0) [
        | inr (e, bad) ↦ inl (rw bad ((e, refl), e1))
        | inl (old, found) ↦ rw found (
            let w2 = (s.get_model_by_id old.model_id w1).1 in
            let e2 : view w2 ≡ view w = h.get_model_by_id old.model_id w1 ∙ e1 in
            elim (Outcome-cases (s.get_model_by_id old.model_id w1).0) [
              | inr (e, bad) ↦ inl (rw bad ((e, refl), e2))
              | inl (model, typed) ↦
                  rw typed (elim (Option-cases (map_fields (join_field_values fields) model)) [
                    | inl bad ↦ inl (rw bad ((_, refl), e2))
                    | inr (mapped, fits) ↦ rw fits (
                        let w3 = (backup_if s b w2).1 in
                        let e3 : view w3 ≡ view w = backup_if-Keeps b w2 ∙ e2 in
                        elim (Outcome-cases (backup_if s b w2).0) [
                          | inr (e, bad) ↦ inl (rw bad ((e, refl), e3))
                          | inl (tt, done) ↦ inr (
                              rw done record {
                                old = old;
                                model = model;
                                found = found;
                                typed = typed;
                                mapped = mapped;
                                fits = fits;
                                time = (s.now w3).0;
                                before = (s.now w3).1;
                                same = h.now w3 ∙ e3;
                                written = refl;
                              })
                        ])
                  ])
            ])
      ]

-- ===== src/Domain/Laws.antt =====
-- What the policies accept, and how the fields of a note are paired with the names of a model.
use ankiced.Base.{
  ◌≡◌, ◌≢◌, ◌↔◌, ◌≤◌, ◌<◌, ℕ, suc, refl, ap, Bool, true, false, none, some, List, [], ◌∷◌, map,
  length, any, arith, All, ==_iff, Bool-cases, inl, inr, ◌==◌,
}
use ankiced.Text.{Text, is_empty, is_control, trim_space}
use ankiced.Text.Trim.{trim_space_idem}
use ankiced.Domain.{
  NoteField, Model, empty_deck_name, deck_name_too_long, deck_name_invalid, max_deck_name_length,
  validate_deck_rename, zip_fields, map_fields, join_field_values,
}

any-eq-false_iff : (p : ℕ → Bool) (s : Text) → (any p s ≡ false) ↔ All (λ c. p c ≡ false) s
any-eq-false_iff p [] = ((λ _. tt), (λ _. refl))
any-eq-false_iff p (c ∷ s) = ground (arith, any-eq-false_iff p s)

-- The name that is stored: trimmed, not empty, of at most 200 runes, none of them a control.
pub record IsDeckName (name : Text) : Type 0 where
  pub filled : name ≢ []
  pub short : length name ≤ max_deck_name_length
  pub printable : All (λ c. is_control c ≡ false) name

is_empty_iff : (s : Text) → (is_empty s ≡ true) ↔ (s ≡ [])
is_empty_iff [] = ((λ _. refl), (λ _. refl))
is_empty_iff (c ∷ s) = ((λ h. cc), (λ h. cc))

is_empty_of_long : (s : Text) → 0 < length s → is_empty s ≡ false
is_empty_of_long [] h = absurd (omega arith)
is_empty_of_long (c ∷ s) h = refl

-- A name passes exactly when what is left of it after trimming is a proper deck name.
pub validate_deck_rename-eq-none_iff :
    (name : Text) → (validate_deck_rename name ≡ none) ↔ IsDeckName (trim_space name)
unfolding validate_deck_rename
validate_deck_rename-eq-none_iff name = (
  (λ h. record {
    filled = λ e. ground (arith, is_empty_iff (trim_space name));
    short = ground arith;
    printable = (any-eq-false_iff is_control (trim_space name)).0 (ground arith);
  }),
  (λ k.
      let printable = (any-eq-false_iff is_control (trim_space name)).1 k.printable in
      let short = k.short in
      let filled = k.filled in ground (arith, is_empty_iff (trim_space name))),
)

-- Which error is reported when several apply: emptiness first, then the length, then controls.
pub validate_deck_rename_errors :
    (name : Text)
    → ((validate_deck_rename name ≡ some empty_deck_name) ↔ (trim_space name ≡ []))
      × ((validate_deck_rename name ≡ some deck_name_too_long)
          ↔ (suc max_deck_name_length ≤ length (trim_space name)))
      × ((validate_deck_rename name ≡ some deck_name_invalid) ↔ (
          (trim_space name ≢ [])
          × (length (trim_space name) ≤ max_deck_name_length)
          × (any is_control (trim_space name) ≡ true)))
unfolding validate_deck_rename
validate_deck_rename_errors name = (
  (
    (λ h. ground (arith, is_empty_iff (trim_space name))),
    (λ h. ground (arith, is_empty_iff (trim_space name))),
  ),
  ((λ h. ground arith), (λ h. ground (arith, is_empty_of_long (trim_space name)))),
  (
    (λ h. ((λ e. ground (arith, is_empty_iff (trim_space name))), ground arith, ground arith)),
    (λ (filled, short, bad). ground (arith, is_empty_iff (trim_space name))),
  ),
)

-- Trimming a name before it is validated changes nothing.
pub validate_deck_rename-trim_space :
    (name : Text) → validate_deck_rename (trim_space name) ≡ validate_deck_rename name
unfolding validate_deck_rename
validate_deck_rename-trim_space name = rw trim_space_idem

zip_fields_values :
    (vs ns : List Text) → length vs ≡ length ns → map (λ f. f.value) (zip_fields vs ns) ≡ vs
zip_fields_values [] [] h = refl
zip_fields_values [] (n ∷ ns) h = absurd (omega arith)
zip_fields_values (v ∷ vs) [] h = absurd (omega arith)
zip_fields_values (v ∷ vs) (n ∷ ns) h = ap (λ l. v ∷ l) (zip_fields_values vs ns (omega arith))

zip_fields_names :
    (vs ns : List Text) → length vs ≡ length ns → map (λ f. f.name) (zip_fields vs ns) ≡ ns
zip_fields_names [] [] h = refl
zip_fields_names [] (n ∷ ns) h = absurd (omega arith)
zip_fields_names (v ∷ vs) [] h = absurd (omega arith)
zip_fields_names (v ∷ vs) (n ∷ ns) h = ap (λ l. n ∷ l) (zip_fields_names vs ns (omega arith))

-- Mapped fields carry the model's names in order, and JoinFieldValues gives the values back.
pub map_fields_sound :
    (values : List Text) (model : Model) (fields : List NoteField)
    → map_fields values model ≡ some fields
    → (join_field_values fields ≡ values) × (map (λ f. f.name) fields ≡ model.field_names)
unfolding map_fields join_field_values
map_fields_sound values model fields h =
    elim (Bool-cases (length values == length model.field_names)) [
      | inl same ↦
          let e : length values ≡ length model.field_names = (==_iff _ _).0 same in
          let built : zip_fields values model.field_names ≡ fields = ground arith in
          rw (← built) (
            zip_fields_values values model.field_names e,
            zip_fields_names values model.field_names e,
          )
      | inr other ↦ cc
    ]

-- The mapping fails exactly when the numbers of values and of names differ.
pub map_fields-eq-none_iff :
    (values : List Text) (model : Model)
    → (map_fields values model ≡ none) ↔ (length values ≢ length model.field_names)
unfolding map_fields
map_fields-eq-none_iff values model = ground arith

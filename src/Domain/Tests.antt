-- ===== src/Domain/Tests.antt =====
-- The policies on concrete names and fields.
use ankiced.Base.{◌≡◌, ◌≢◌, ◌↔◌, refl, none, some, List, [], ◌∷◌, length, pos}
use ankiced.Text.{codes, trim_space, is_control}
use ankiced.Domain.{
  NoteField, Model, empty_deck_name, deck_name_invalid, validate_deck_rename, map_fields,
}
use ankiced.Domain.Laws.{
  IsDeckName, validate_deck_rename-eq-none_iff, validate_deck_rename-trim_space,
  map_fields-eq-none_iff,
}

names :
    (validate_deck_rename (codes " Deutsch ") ≡ none)
    × (validate_deck_rename (codes " \t ") ≡ some empty_deck_name)
    × (validate_deck_rename (b'a' ∷ 0x85 ∷ b'b' ∷ []) ≡ some deck_name_invalid)
unfolding validate_deck_rename trim_space is_control
names = (refl, refl, refl)

validate_deck_rename-eq-none_iff_example :
    (validate_deck_rename (codes " a ") ≡ none) ↔ IsDeckName (trim_space (codes " a "))
validate_deck_rename-eq-none_iff_example = validate_deck_rename-eq-none_iff (codes " a ")

validate_deck_rename-trim_space_example :
    validate_deck_rename (trim_space (codes " a ")) ≡ validate_deck_rename (codes " a ")
validate_deck_rename-trim_space_example = validate_deck_rename-trim_space (codes " a ")

abbrev basic : Model
basic = record { id = pos 1; field_names = codes "Front" ∷ codes "Back" ∷ [] }

abbrev card : List NoteField
card =
    record { name = codes "Front"; value = codes "Hund" }
    ∷ record { name = codes "Back"; value = codes "dog" }
    ∷ []

mapped : map_fields (codes "Hund" ∷ codes "dog" ∷ []) basic ≡ some card
unfolding map_fields
mapped = refl

map_fields-eq-none_iff_example :
    (map_fields (codes "Hund" ∷ []) basic ≡ none)
    ↔ (length (codes "Hund" ∷ []) ≢ length basic.field_names)
map_fields-eq-none_iff_example = map_fields-eq-none_iff (codes "Hund" ∷ []) basic

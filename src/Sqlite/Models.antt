-- ===== src/Sqlite/Models.antt =====
-- GetModelByID of internal/infrastructure/sqlite/repositories.go: the table of fields, then the table of
-- models, then the JSON in col.
use ankiced.Base.{ℤ, Option, none, some, List, [], ◌∷◌, ◌++◌, if◌then◌else◌}
use ankiced.Text.{Text, codes, is_empty, trim_space, to_lower, contains}
use ankiced.Errors.{
  Err, sentinel, application, model_not_found, fmt_wrap, join, external, error_text, is,
}
use ankiced.Domain.{Model}
use ankiced.Action.{Outcome, ok, fail, Action, lift}
use ankiced.Sqlite.Queries.{number}
use ankiced.Sqlite.Repositories.{Engine, joined, with_id}

abbrev pub no_model : Err
no_model = sentinel (application model_not_found)

abbrev no_names : List Text → Outcome (List Text)
no_names [] = fail (external (codes "no fields found"))
no_names (n ∷ ns) = ok (n ∷ ns)

module _ {W : Type 0} (db : Engine W) where
  -- An error for a missing table is the one for a missing model.
  abbrev table_error : Err → Err
  unfolding contains to_lower error_text
  table_error e =
      if contains (to_lower db.lower (error_text e)) (codes "no such table") then no_model else e

  abbrev handled : {A B : Type 0} → (Err → Err) → (A → Action W B) → Outcome A → Action W B
  handled change f (ok a) w = f a w
  handled change f (fail e) w = (fail (change e), w)

  -- A statement whose error is changed before it is returned.
  abbrev querying : {A B : Type 0} → Action W A → (A → Action W B) → Action W B
  unfolding handled table_error
  querying m f w = handled table_error f (m w).0 (m w).1

  abbrev model_of : ℤ → List Text → Outcome Model
  model_of id [] = fail no_model
  model_of id (n ∷ ns) = ok (record { id = id; field_names = n ∷ ns })

  abbrev model_of_rows : ℤ → Outcome (List Text) → Outcome Model
  model_of_rows id (ok names) = model_of id names
  model_of_rows id (fail e) = fail e

  -- getModelFromFieldsTable
  unfoldable pub get_model_from_fields_table : ℤ → Action W Model
  unfolding querying
  get_model_from_fields_table id =
      querying
        (db.query_names (codes "SELECT name FROM fields WHERE ntid = ? ORDER BY ord")
          (number id ∷ []))
        λ rows. lift (joined (λ e. e) rows.closing (model_of_rows id rows.read))

  abbrev checked_names : Outcome (List Text) → Outcome (List Text)
  checked_names (ok names) = no_names names
  checked_names (fail e) = fail e

  -- parseFieldNamesFromFieldsArray
  unfoldable pub parse_field_names_from_fields_array : Text → Outcome (List Text)
  unfolding trim_space
  parse_field_names_from_fields_array json =
      if is_empty (trim_space json)
      then fail (external (codes "empty fields JSON"))
      else checked_names (db.unmarshal_names json)

  abbrev named : Text → ℤ → Outcome (List Text) → Outcome Model
  named what id (ok names) = ok (record { id = id; field_names = names })
  named what id (fail e) = fail (fmt_wrap (what ++ (db.show id ++ codes ": ")) e [])

  abbrev model_of_text : ℤ → Option Text → Outcome Model
  unfolding parse_field_names_from_fields_array
  model_of_text id none = fail no_model
  model_of_text id (some json) =
      named (codes "invalid models.flds JSON for model ") id
        (parse_field_names_from_fields_array json)

  -- getModelFromModelsTable
  unfoldable pub get_model_from_models_table : ℤ → Action W Model
  unfolding querying model_of_text
  get_model_from_models_table id =
      querying (db.query_text (codes "SELECT flds FROM models WHERE id = ?") (number id ∷ []))
        λ row. lift (model_of_text id row)

  abbrev of_flds : ℤ → Outcome Text → Outcome Model
  unfolding parse_field_names_from_fields_array
  of_flds id (ok flds) =
      named (codes "invalid col.models.flds for model ") id
        (parse_field_names_from_fields_array flds)
  of_flds id (fail e) =
      fail
        (fmt_wrap (codes "invalid col.models entry for model " ++ (db.show id ++ codes ": ")) e [])

  abbrev of_entry : ℤ → Option Text → Outcome Model
  unfolding of_flds
  of_entry id none = fail no_model
  of_entry id (some meta) = of_flds id (db.unmarshal_flds meta)

  abbrev of_object : ℤ → Outcome (Text → Option Text) → Outcome Model
  unfolding of_entry
  of_object id (ok entries) = of_entry id (entries (db.show id))
  of_object id (fail e) = fail (fmt_wrap (codes "invalid col.models JSON: ") e [])

  abbrev of_col : ℤ → Option Text → Outcome Model
  unfolding trim_space of_object
  of_col id none = fail no_model
  of_col id (some json) =
      if is_empty (trim_space json) then fail no_model else of_object id (db.unmarshal_object json)

  -- getModelFromCol
  unfoldable pub get_model_from_col : ℤ → Action W Model
  unfolding querying of_col
  get_model_from_col id =
      querying (db.query_text (codes "SELECT models FROM col LIMIT 1") [])
        λ row. lift (of_col id row)

  -- The error where all three attempts fail.
  abbrev pub combined : ℤ → Err → Err → Err → Err
  unfolding is
  combined id a b c =
      if is (join (join a b) c) (application model_not_found)
      then with_id db no_model id
      else join (join a b) c

  abbrev attempt : {A : Type 0} → Outcome A → (Err → Action W A) → Action W A
  attempt (ok a) f w = (ok a, w)
  attempt (fail e) f w = f e w

  abbrev or_else : {A : Type 0} → Action W A → (Err → Action W A) → Action W A
  unfolding attempt
  or_else m f w = attempt (m w).0 f (m w).1

  -- GetModelByID
  unfoldable pub get_model_by_id : ℤ → Action W Model
  unfolding combined
  get_model_by_id id = or_else (get_model_from_fields_table id) λ a.
      or_else (get_model_from_models_table id)
        λ b. or_else (get_model_from_col id) λ c. lift (fail (combined id a b c))

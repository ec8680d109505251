-- ===== src/Api/Handlers/Notes.antt =====
-- handleNotes, handleNoteByID, handleGetNote, handlePatchNote and handleCleanerPreview.
use ankiced.Base.{ℕ, ℤ, pos, ◌||◌, List, [], ◌∷◌, length, if◌then◌else◌}
use ankiced.Text.{Text, codes, trim_space}
use ankiced.Text.Number.{show_nat, show_int}
use ankiced.Errors.{
  Err, domain, application, note_not_found, model_not_found, template_not_found, is, error_text,
}
use ankiced.Domain.{
  Note, FilterSet, Pagination, invalid_note_list_filters, invalid_note_id, field_count_invalid,
}
use ankiced.Presentation.{switch, format_debug_error}
use ankiced.Config.{Settings}
use ankiced.Action.{Outcome, ok, fail}
use ankiced.Services.Ports.{Services}
use ankiced.Services.Notes.{list_notes, count_notes, get_note, update_note, preview_cleaner}
use ankiced.Api.Helpers.{clamp_pagination, parse_path_id, parse_int64_default}
use ankiced.Api.Handlers.Decks.{id_or_stop}
use ankiced.Api.Site.{
  get, post, patch, other_method, Request, Method, note_page, one_note, diff, done, Shared, Machine,
  Serve, ◌>>=◌, ◌>>◌, pure, call, current_cfg, write_json, correlation_id, log, write_error,
  write_message_error, write_method_not_allowed, or_stop, body_or_stop, need_method,
}

module _ (r : Request) where
  -- The filters and the page that a list of notes is asked for.
  abbrev pub filters_of : FilterSet
  unfolding parse_int64_default trim_space
  filters_of = record {
    deck_id = parse_int64_default (r.query (codes "deck_id")) (pos 0);
    note_id = parse_int64_default (r.query (codes "note_id")) (pos 0);
    search_text = trim_space (r.query (codes "search_text"));
    mod_from_unix = parse_int64_default (r.query (codes "mod_from")) (pos 0);
    mod_to_unix = parse_int64_default (r.query (codes "mod_to")) (pos 0);
  }

  abbrev pub page_of : Settings → Pagination
  unfolding parse_int64_default clamp_pagination
  page_of cfg =
      clamp_pagination (parse_int64_default (r.query (codes "limit")) cfg.default_page_size)
        (parse_int64_default (r.query (codes "offset")) (pos 0)) cfg.default_page_size

module _ {W : Type 0} (s : Services (Shared W)) (m : Machine W) where
  -- The total that is reported: where counting fails, the length of the page.
  unfoldable pub total_or_length : Text → Outcome ℤ → List Note → Serve W ℤ
  unfolding log format_debug_error
  total_or_length cid (ok total) notes = pure total
  total_or_length cid (fail e) notes =
      log m (codes "warn") (codes "list_notes") cid (codes "count failed")
        ((codes "error", format_debug_error e) ∷ [])
      >> pure (pos (length notes))

  abbrev list_status : Err → ℕ
  list_status e =
      if is e (domain invalid_note_list_filters) || is e (domain invalid_note_id) then 400 else 500

  unfoldable pub handle_notes : Request → Serve W (Unit {0})
  unfolding need_method correlation_id log call or_stop write_error write_json list_notes
      count_notes parse_int64_default clamp_pagination trim_space is current_cfg format_debug_error
      total_or_length
  handle_notes r = do
    need_method m get r (codes "list_notes")
    cfg ← current_cfg
    let filters = filters_of r
    let pg = page_of r cfg
    cid ← correlation_id m
    log m (codes "info") (codes "list_notes") cid (codes "request started") (
        (codes "deck_id", show_int filters.deck_id)
        ∷ (codes "note_id", show_int filters.note_id)
        ∷ (codes "search_text", filters.search_text)
        ∷ [])
    answer ← call (list_notes s filters pg)
    notes ← or_stop answer (λ e. write_error m (list_status e) e (codes "list_notes") cid)
    count ← call (count_notes s filters)
    total ← total_or_length cid count notes
    write_json 200 (note_page notes total pg.limit pg.offset)
    log m (codes "info") (codes "list_notes") cid (codes "request finished")
        ((codes "count", show_nat (length notes)) ∷ (codes "total", show_int total) ∷ [])

  abbrev get_status : Err → ℕ
  get_status e =
      if is e (application note_not_found)
      then 404
      else (if is e (application model_not_found) then 404 else 500)

  unfoldable pub handle_get_note : ℤ → Serve W (Unit {0})
  unfolding correlation_id log call or_stop write_error write_json get_note is
  handle_get_note id = do
    cid ← correlation_id m
    log m (codes "info") (codes "get_note") cid (codes "request started")
        ((codes "note_id", show_int id) ∷ [])
    answer ← call (get_note s id)
    note ← or_stop answer (λ e. write_error m (get_status e) e (codes "get_note") cid)
    write_json 200 (one_note note)
    log m (codes "info") (codes "get_note") cid (codes "request finished") []

  abbrev patch_status : Err → ℕ
  patch_status e =
      switch
        ((is e (domain field_count_invalid), 400)
          ∷ (is e (application note_not_found) || is e (application model_not_found), 404)
          ∷ [])
        500

  unfoldable pub handle_patch_note : Request → ℤ → Serve W (Unit {0})
  unfolding correlation_id log call or_stop body_or_stop write_error write_json update_note is
  handle_patch_note r id = do
    fields ← body_or_stop m (m.decode_fields r.body) (codes "update_note")
    cid ← correlation_id m
    log m (codes "info") (codes "update_note") cid (codes "request started")
        ((codes "note_id", show_int id) ∷ [])
    answer ← call (update_note s id fields)
    or_stop answer (λ e. write_error m (patch_status e) e (codes "update_note") cid)
    write_json 200 done
    log m (codes "info") (codes "update_note") cid (codes "request finished") []

  -- The switch on the method.
  unfoldable pub by_method : Method → Request → ℤ → Serve W (Unit {0})
  unfolding handle_get_note handle_patch_note write_method_not_allowed
  by_method get r id = handle_get_note id
  by_method patch r id = handle_patch_note r id
  by_method post r id = write_method_not_allowed m (codes "note_by_id")
  by_method (other_method _) r id = write_method_not_allowed m (codes "note_by_id")

  unfoldable pub handle_note_by_id : Request → Serve W (Unit {0})
  unfolding id_or_stop by_method parse_path_id correlation_id or_stop write_message_error error_text
  handle_note_by_id r = do
    id ←
        id_or_stop m r.path (codes "/api/v1/notes/") (codes "invalid note id")
          (codes "NOTE_ID_INVALID") (codes "note_by_id")
    by_method r.method r id

  abbrev preview_status : Err → ℕ
  preview_status e =
      switch
        ((is e (application note_not_found) || is e (application model_not_found), 404)
          ∷ (is e (application template_not_found), 400)
          ∷ [])
        500

  unfoldable pub handle_cleaner_preview : Request → Serve W (Unit {0})
  unfolding need_method correlation_id log call or_stop body_or_stop write_error write_json
      preview_cleaner is
  handle_cleaner_preview r = do
    need_method m post r (codes "cleaner_preview")
    (id, template) ← body_or_stop m (m.decode_preview r.body) (codes "cleaner_preview")
    cid ← correlation_id m
    log m (codes "info") (codes "cleaner_preview") cid (codes "request started")
        ((codes "note_id", show_int id) ∷ [])
    answer ← call (preview_cleaner s id template)
    records ← or_stop answer (λ e. write_error m (preview_status e) e (codes "cleaner_preview") cid)
    write_json 200 (diff records)
    log m (codes "info") (codes "cleaner_preview") cid (codes "request finished")
        ((codes "changed_fields", show_nat (length records)) ∷ [])

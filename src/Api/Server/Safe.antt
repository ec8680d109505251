-- ===== src/Api/Server/Safe.antt =====
-- What a GET request leaves alone.
use ankiced.Base.{◌≡◌, refl, ap, ◌∙◌, ℤ, false, Option, none, some, List}
use ankiced.Base.{Bool-cases, inl, inr}
use ankiced.Text.{Text, is_empty, trim_space}
use ankiced.Domain.{Note, FilterSet, Pagination}
use ankiced.Action.{Outcome, ok, fail, Keeps, bind-Keeps}
use ankiced.Services.Ports.{Services}
use ankiced.Services.Decks.{list_decks, search_decks}
use ankiced.Services.Notes.{list_notes, count_notes, get_note}
use ankiced.Api.Operations.{Operation}
use ankiced.Api.Routes.{
  Route, index, health, log_stream, logs, config, config_save, decks, deck_search, deck_by_id,
  notes, note_by_id, cleaner_preview, cleaner_dry_run, cleaner_apply, operation_by_id, app_exit,
  Target, to, moved_to, route,
}
use ankiced.Api.Site.{
  get, post, patch, Method, Request, Shared, Site, Machine, same_method, write_json,
}
use ankiced.Api.Site.Effects.{
  shown, seen, IsQuiet, IsClock, bind-IsQuiet, pure-IsQuiet, call-IsQuiet, current_cfg-IsQuiet,
  write_json-IsQuiet, or_stop-IsQuiet, stop_if-IsQuiet, correlation_id-IsQuiet, log-IsQuiet,
  write_error-IsQuiet, write_message_error-IsQuiet, write_method_not_allowed-IsQuiet,
  need_method-IsQuiet, wrong_method-IsQuiet,
}
use ankiced.Api.Handlers.Decks.{id_or_stop, handle_decks, handle_deck_search, handle_deck_by_id}
use ankiced.Api.Handlers.Notes.{
  total_or_length, handle_notes, handle_get_note, by_method, handle_note_by_id,
  handle_cleaner_preview,
}
use ankiced.Api.Handlers.Cleaning.{handle_cleaner_run}
use ankiced.Api.Handlers.Settings.{handle_config, handle_config_save}
use ankiced.Api.Handlers.Pages.{
  set_content_type, get_operation, replay_since, answer_poll, handle_index, handle_health,
  handle_app_exit, handle_operation_by_id, handle_logs,
}
use ankiced.Api.Handlers.Stream.{subscribe_site, handle_log_stream}
use ankiced.Api.Server.{wired, handle, dispatch, serve}

module _ {W V : Type 0} (look : W → V) where
  -- The queries of the repositories change neither the settings nor what `look` shows.
  pub record IsQueries (s : Services (Shared W)) : Type 0 where
    pub list_decks : Keeps (shown look) s.decks.list_decks
    pub search_decks : (text : Text) → Keeps (shown look) (s.decks.search_decks text)
    pub list_notes : (f : FilterSet) (p : Pagination) → Keeps (shown look) (s.notes.list_notes f p)
    pub count_notes : (f : FilterSet) → Keeps (shown look) (s.notes.count_notes f)
    pub get_note : (id : ℤ) → Keeps (shown look) (s.notes.get_note id)
    pub get_model_by_id : (id : ℤ) → Keeps (shown look) (s.get_model_by_id id)

module _ {W V : Type 0} {look : W → V} where
  set_content_type-IsQuiet : (value : Text) → IsQuiet look (set_content_type {W = W} value)
  unfolding set_content_type
  set_content_type-IsQuiet value = record { keeps = λ σ. refl }

  get_operation-IsQuiet : (id : Text) → IsQuiet look (get_operation {W = W} id)
  unfolding get_operation
  get_operation-IsQuiet id = record { keeps = λ σ. refl }

  replay_since-IsQuiet : (id : ℤ) → IsQuiet look (replay_since {W = W} id)
  unfolding replay_since write_json
  replay_since-IsQuiet id = record { keeps = λ σ. refl }

  subscribe_site-IsQuiet : IsQuiet look (subscribe_site {W = W})
  unfolding subscribe_site
  subscribe_site-IsQuiet = record { keeps = λ σ. refl }

ruleset quiet = (
  bind-IsQuiet, pure-IsQuiet, call-IsQuiet, current_cfg-IsQuiet, write_json-IsQuiet,
  or_stop-IsQuiet, stop_if-IsQuiet, correlation_id-IsQuiet, log-IsQuiet, write_error-IsQuiet,
  write_message_error-IsQuiet, write_method_not_allowed-IsQuiet, need_method-IsQuiet,
  set_content_type-IsQuiet, get_operation-IsQuiet, replay_since-IsQuiet, subscribe_site-IsQuiet,
)

module _ {W V : Type 0} (look : W → V) (m : Machine W) (clock : IsClock look m) where
  answer_poll-IsQuiet : (o : Option Operation) → IsQuiet look (answer_poll m o)
  unfolding answer_poll
  answer_poll-IsQuiet none = search quiet depth 20
  answer_poll-IsQuiet (some op) = search quiet depth 20

module _ {W V : Type 0} (look : W → V) (m : Machine W) (clock : IsClock look m)
    (s : Services (Shared W)) (h : IsQueries look s) where
  total_or_length-IsQuiet :
      (cid : Text) (o : Outcome ℤ) (ns : List Note) → IsQuiet look (total_or_length s m cid o ns)
  unfolding total_or_length
  total_or_length-IsQuiet cid (ok n) ns = search quiet depth 20
  total_or_length-IsQuiet cid (fail e) ns = search quiet depth 20

  search_decks-Keeps : (text : Text) → Keeps (shown look) (search_decks s text)
  unfolding search_decks
  search_decks-Keeps text w = elim (Bool-cases (is_empty (trim_space text))) [
    | inl blank ↦ rw blank refl
    | inr some_text ↦ rw some_text (h.search_decks (trim_space text) w)
  ]

  get_note-Keeps : (id : ℤ) → Keeps (shown look) (get_note s id)
  unfolding get_note
  get_note-Keeps id = bind-Keeps (shown look) (s.notes.get_note id) _ (h.get_note id) (λ n.
      bind-Keeps (shown look) (s.get_model_by_id n.model_id) _ (h.get_model_by_id n.model_id)
        (λ model w. refl))

  handle_get_note-IsQuiet : (id : ℤ) → IsQuiet look (handle_get_note s m id)
  unfolding handle_get_note
  handle_get_note-IsQuiet id = search (quiet, get_note-Keeps) depth 20

  handle_decks-IsQuiet : (r : Request) → IsQuiet look (handle_decks s m r)
  unfolding handle_decks list_decks
  handle_decks-IsQuiet r = search (quiet, h.list_decks) depth 20

  handle_deck_search-IsQuiet : (r : Request) → IsQuiet look (handle_deck_search s m r)
  unfolding handle_deck_search
  handle_deck_search-IsQuiet r = search (quiet, search_decks-Keeps) depth 20

  handle_notes-IsQuiet : (r : Request) → IsQuiet look (handle_notes s m r)
  unfolding handle_notes list_notes count_notes
  handle_notes-IsQuiet r =
      search (quiet, h.list_notes, h.count_notes, total_or_length-IsQuiet) depth 25

  by_method-IsQuiet : (r : Request) (id : ℤ) → IsQuiet look (by_method s m get r id)
  unfolding by_method
  by_method-IsQuiet r id = handle_get_note-IsQuiet id

module _ {W V : Type 0} (look : W → V) (m : Machine W) (clock : IsClock look m)
    (s : Services (Shared W)) (h : IsQueries look s) where
  IsQueries-wired : IsQueries look (wired s)
  IsQueries-wired = record {
    list_decks = h.list_decks;
    search_decks = h.search_decks;
    list_notes = h.list_notes;
    count_notes = h.count_notes;
    get_note = h.get_note;
    get_model_by_id = h.get_model_by_id;
  }

  module _ (r : Request) (is_get : r.method ≡ get) where
    wrong :
        (wanted : Method) → same_method m get wanted ≡ false → same_method m r.method wanted ≡ false
    wrong wanted e = ap (λ k. same_method m k wanted) is_get ∙ e

    handle_note_by_id-IsQuiet : IsQuiet look (handle_note_by_id (wired s) m r)
    unfolding handle_note_by_id id_or_stop
    handle_note_by_id-IsQuiet =
        rw is_get
          (search (quiet, by_method-IsQuiet look m clock (wired s) IsQueries-wired) depth 20)

    handle-IsQuiet : (t : Route) → IsQuiet look (handle s m t r)
    unfolding handle handle_index handle_health handle_log_stream handle_logs handle_config
        handle_config_save handle_deck_by_id handle_cleaner_preview handle_cleaner_run
        handle_operation_by_id handle_app_exit
    handle-IsQuiet index = search quiet depth 20
    handle-IsQuiet health = search quiet depth 20
    handle-IsQuiet log_stream = search quiet depth 20
    handle-IsQuiet logs = search quiet depth 20
    handle-IsQuiet config = search quiet depth 20
    handle-IsQuiet config_save = wrong_method-IsQuiet m clock post r _ _ (wrong post refl)
    handle-IsQuiet decks = handle_decks-IsQuiet look m clock (wired s) IsQueries-wired r
    handle-IsQuiet deck_search = handle_deck_search-IsQuiet look m clock (wired s) IsQueries-wired r
    handle-IsQuiet deck_by_id = wrong_method-IsQuiet m clock patch r _ _ (wrong patch refl)
    handle-IsQuiet notes = handle_notes-IsQuiet look m clock (wired s) IsQueries-wired r
    handle-IsQuiet note_by_id = handle_note_by_id-IsQuiet
    handle-IsQuiet cleaner_preview = wrong_method-IsQuiet m clock post r _ _ (wrong post refl)
    handle-IsQuiet cleaner_dry_run = wrong_method-IsQuiet m clock post r _ _ (wrong post refl)
    handle-IsQuiet cleaner_apply = wrong_method-IsQuiet m clock post r _ _ (wrong post refl)
    handle-IsQuiet operation_by_id = search (quiet, answer_poll-IsQuiet) depth 20
    handle-IsQuiet app_exit = wrong_method-IsQuiet m clock post r _ _ (wrong post refl)

    dispatch-IsQuiet : (t : Target) → IsQuiet look (dispatch s m t r)
    unfolding dispatch
    dispatch-IsQuiet (to t) = handle-IsQuiet t
    dispatch-IsQuiet (moved_to url) = write_json-IsQuiet _ _

-- If the queries and the clock change nothing that `look` shows, a GET request leaves it, the
-- settings, the store of operations, the goroutines and the calls of onExit as they are, whatever
-- its path is and whatever fails.
pub serve-get :
    {W V : Type 0} (look : W → V) (s : Services (Shared W)) (m : Machine W)
    → IsClock look m
    → IsQueries look s
    → (r : Request) (σ : Site W) → r.method ≡ get
    → seen look (serve s m r σ) ≡ seen look σ
unfolding serve
serve-get look s m clock h r σ is_get =
    (dispatch-IsQuiet look m clock s h r is_get (route r.path)).keeps _

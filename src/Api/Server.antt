-- ===== src/Api/Server.antt =====
-- The HTTP handler of internal/interfaces/httpapi/server.go as a whole: newAPIHandler and routes.
pub mod Single
pub mod Safe
pub mod Polling
mod Tests
use ankiced.Base.{ℕ, Bool, true, false, Option, none, some, List, [], ◌∷◌}
use ankiced.Text.{Text}
use ankiced.Services.Ports.{Services}
use ankiced.Api.Routes.{
  Route, index, health, log_stream, logs, config, config_save, decks, deck_search, deck_by_id,
  notes, note_by_id, cleaner_preview, cleaner_dry_run, cleaner_apply, operation_by_id, app_exit,
  Target, to, moved_to, route, json_content_type,
}
use ankiced.Config.{Settings}
use ankiced.Api.Logs.{new_hub}
use ankiced.Api.Operations.{new_store}
use ankiced.Api.Site.{Request, Shared, Site, Machine, Serve, moved, write_json}
use ankiced.Api.Handlers.Decks.{handle_decks, handle_deck_search, handle_deck_by_id}
use ankiced.Api.Handlers.Notes.{handle_notes, handle_note_by_id, handle_cleaner_preview}
use ankiced.Api.Handlers.Cleaning.{handle_cleaner_run}
use ankiced.Api.Handlers.Settings.{handle_config, handle_config_save}
use ankiced.Api.Handlers.Pages.{
  handle_index, handle_health, handle_app_exit, handle_operation_by_id, handle_logs,
}
use ankiced.Api.Handlers.Stream.{handle_log_stream}

-- newAPIHandler
unfoldable pub new_site : {W : Type 0} → Settings → W → Site W
unfolding new_store
new_site cfg w = record {
  shared = record { cfg = cfg; behind = w };
  seq = 0;
  logger = record { log_seq = 0; hub = new_hub };
  ops = new_store;
  jobs = [];
  exits = 0;
  content_type = [];
  replies = [];
}

-- h.svc.CfgProvider = h.currentCfg
abbrev pub wired : {W : Type 0} → Services (Shared W) → Services (Shared W)
wired s = record s { cfg_provider = some (λ w. w.cfg) }

module _ {W : Type 0} (s : Services (Shared W)) (m : Machine W) where
  unfoldable pub handle : Route → Request → Serve W (Unit {0})
  unfolding handle_index handle_health handle_log_stream handle_logs handle_config
      handle_config_save handle_decks handle_deck_search handle_deck_by_id handle_notes
      handle_note_by_id handle_cleaner_preview handle_cleaner_run handle_operation_by_id
      handle_app_exit
  handle index r = handle_index m r
  handle health r = handle_health r
  handle log_stream r = handle_log_stream m r
  handle logs r = handle_logs m r
  handle config r = handle_config m r
  handle config_save r = handle_config_save m r
  handle decks r = handle_decks (wired s) m r
  handle deck_search r = handle_deck_search (wired s) m r
  handle deck_by_id r = handle_deck_by_id (wired s) m r
  handle notes r = handle_notes (wired s) m r
  handle note_by_id r = handle_note_by_id (wired s) m r
  handle cleaner_preview r = handle_cleaner_preview (wired s) m r
  handle cleaner_dry_run r = handle_cleaner_run m r true
  handle cleaner_apply r = handle_cleaner_run m r false
  handle operation_by_id r = handle_operation_by_id m r
  handle app_exit r = handle_app_exit m r

  unfoldable pub dispatch : Target → Request → Serve W (Unit {0})
  unfolding handle write_json
  dispatch (to t) r = handle t r
  dispatch (moved_to url) r = write_json 301 (moved url)

  -- A request to the server.
  unfoldable pub serve : Request → Site W → Site W
  unfolding dispatch route json_content_type
  serve r σ = (dispatch (route r.path) r (record σ { content_type = json_content_type r.path })).1

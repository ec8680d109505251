-- ===== src/Api/Server/Single.antt =====
-- Every request gets one response.
use ankiced.Base.{◌≡◌, refl, ℤ, Option, none, some, List, ◌∷◌}
use ankiced.Text.{Text}
use ankiced.Action.{Outcome, ok, fail, Action}
use ankiced.Services.Ports.{Services}
use ankiced.Api.Site.{Request, Response, Shared, Site, Machine}
use ankiced.Api.Site.Replies.{
  IsSilent, IsGuard, IsAnswer, IsGuard-of_silent, bind-IsSilent, bind-IsGuard, bind-IsAnswer,
  after-IsAnswer, pure-IsSilent, call-IsSilent, current_cfg-IsSilent, set_db_path-IsSilent,
  write_json-IsAnswer, or_stop-IsGuard, stop_if-IsGuard, correlation_id-IsSilent, log-IsSilent,
  write_error-IsAnswer, write_message_error-IsAnswer, write_method_not_allowed-IsAnswer,
  body_or_stop-IsGuard, need_method-IsGuard, stop-IsGuard,
}
use ankiced.Config.{Settings}
use ankiced.Base.{Bool-cases, inl, inr}
use ankiced.Errors.{sqlite, old_conn_close_failed, is}
use ankiced.Domain.{Note}
use ankiced.Api.Operations.{Operation}
use ankiced.Api.Routes.{
  Route, index, health, log_stream, logs, config, config_save, decks, deck_search, deck_by_id,
  notes, note_by_id, cleaner_preview, cleaner_dry_run, cleaner_apply, operation_by_id, app_exit,
  Target, to, moved_to, route,
}
use ankiced.Api.Server.{handle, dispatch, serve}
use ankiced.Api.Site.{get, post, patch, other_method, Method, Decoded, decoded, undecoded, Job}
use ankiced.Api.Handlers.Notes.{
  total_or_length, handle_notes, handle_get_note, handle_patch_note, by_method, handle_note_by_id,
  handle_cleaner_preview,
}
use ankiced.Api.Handlers.Cleaning.{create_operation, start_job, handle_cleaner_run}
use ankiced.Api.Handlers.Settings.{
  accept_close_error, reconnect_by, is_new_path, take_path, handle_config, handle_config_save,
}
use ankiced.Api.Handlers.Pages.{
  set_content_type, get_operation, start_exit, replay_since, answer_poll, handle_index,
  handle_health, handle_app_exit, handle_operation_by_id, handle_logs,
}
use ankiced.Api.Handlers.Stream.{subscribe_site, handle_log_stream}
use ankiced.Api.Site.{write_json}
use ankiced.Api.Handlers.Decks.{id_or_stop, handle_decks, handle_deck_search, handle_deck_by_id}

ruleset replies = (
  bind-IsAnswer, after-IsAnswer, write_json-IsAnswer, write_error-IsAnswer,
  write_message_error-IsAnswer, write_method_not_allowed-IsAnswer, need_method-IsGuard,
  body_or_stop-IsGuard, or_stop-IsGuard, stop_if-IsGuard, IsGuard-of_silent,
  correlation_id-IsSilent, log-IsSilent, call-IsSilent, current_cfg-IsSilent, set_db_path-IsSilent,
  pure-IsSilent,
)

module _ {W : Type 0} where
  set_content_type-IsSilent : (value : Text) → IsSilent (set_content_type {W = W} value)
  unfolding set_content_type
  set_content_type-IsSilent value = record { runs = λ σ. (tt, refl, refl) }

  get_operation-IsSilent : (id : Text) → IsSilent (get_operation {W = W} id)
  unfolding get_operation
  get_operation-IsSilent id = record { runs = λ σ. (_, refl, refl) }

  start_exit-IsSilent : IsSilent (start_exit {W = W})
  unfolding start_exit
  start_exit-IsSilent = record { runs = λ σ. (tt, refl, refl) }

  replay_since-IsAnswer : (id : ℤ) → IsAnswer (replay_since {W = W} id)
  unfolding replay_since write_json
  replay_since-IsAnswer id = record { runs = λ σ. (_, refl) }

  subscribe_site-IsSilent : IsSilent (subscribe_site {W = W})
  unfolding subscribe_site
  subscribe_site-IsSilent = record { runs = λ σ. (_, refl, refl) }

  start_job-IsSilent : (m : Machine W) (j : Job) → IsSilent (start_job m j)
  unfolding start_job
  start_job-IsSilent m j = record { runs = λ σ. (tt, refl, refl) }

  create_operation-IsSilent :
      (m : Machine W) (id kind : Text) → IsSilent (create_operation m id kind)
  unfolding create_operation
  create_operation-IsSilent m id kind = record { runs = λ σ. (tt, refl, refl) }

ruleset more_replies = (
  replies, set_content_type-IsSilent, get_operation-IsSilent, start_exit-IsSilent,
  replay_since-IsAnswer, subscribe_site-IsSilent, start_job-IsSilent, create_operation-IsSilent,
)

module _ {W : Type 0} (m : Machine W) where
  accept_close_error-IsGuard :
      (cid : Text) (o : Outcome (Unit {0})) → IsGuard (accept_close_error m cid o)
  unfolding accept_close_error
  accept_close_error-IsGuard cid (ok a) = search replies depth 20
  accept_close_error-IsGuard cid (fail e) =
      elim (Bool-cases (is e (sqlite old_conn_close_failed))) [
        | inl closed ↦ rw closed (search replies depth 20)
        | inr other ↦ rw other (stop-IsGuard _ (write_error-IsAnswer m _ _ _ _))
      ]

  reconnect_by-IsGuard :
      (o : Option (Text → Action W (Unit {0}))) (cid path : Text)
      → IsGuard (reconnect_by m o cid path)
  unfolding reconnect_by
  reconnect_by-IsGuard none cid path = search replies depth 20
  reconnect_by-IsGuard (some reconnect) cid path =
      search (replies, bind-IsGuard, accept_close_error-IsGuard) depth 20

  take_path-IsGuard :
      (cid : Text) (d : Decoded Text) (cfg : Settings) → IsGuard (take_path m cid d cfg)
  unfolding take_path
  take_path-IsGuard cid (undecoded e) cfg = search replies depth 20
  take_path-IsGuard cid (decoded path) cfg = elim (Bool-cases (is_new_path m path cfg)) [
    | inl new ↦ rw new (search (replies, bind-IsGuard, reconnect_by-IsGuard) depth 20)
    | inr old ↦ rw old (search replies depth 20)
  ]

  answer_poll-IsAnswer : (o : Option Operation) → IsAnswer (answer_poll m o)
  unfolding answer_poll
  answer_poll-IsAnswer none = search replies depth 20
  answer_poll-IsAnswer (some op) = search replies depth 20

module _ {W : Type 0} (s : Services (Shared W)) (m : Machine W) where
  total_or_length-IsSilent :
      (cid : Text) (o : Outcome ℤ) (ns : List Note) → IsSilent (total_or_length s m cid o ns)
  unfolding total_or_length
  total_or_length-IsSilent cid (ok n) ns = search replies depth 20
  total_or_length-IsSilent cid (fail e) ns = search (replies, bind-IsSilent) depth 20

  handle_get_note-IsAnswer : (id : ℤ) → IsAnswer (handle_get_note s m id)
  unfolding handle_get_note
  handle_get_note-IsAnswer id = search replies depth 20

  handle_patch_note-IsAnswer : (r : Request) (id : ℤ) → IsAnswer (handle_patch_note s m r id)
  unfolding handle_patch_note
  handle_patch_note-IsAnswer r id = search replies depth 20

  by_method-IsAnswer :
      (method : Method) (r : Request) (id : ℤ) → IsAnswer (by_method s m method r id)
  unfolding by_method
  by_method-IsAnswer get r id = handle_get_note-IsAnswer id
  by_method-IsAnswer patch r id = handle_patch_note-IsAnswer r id
  by_method-IsAnswer post r id = write_method_not_allowed-IsAnswer m _
  by_method-IsAnswer (other_method _) r id = write_method_not_allowed-IsAnswer m _

module _ {W : Type 0} (s : Services (Shared W)) (m : Machine W) where
  handle-IsAnswer : (t : Route) (r : Request) → IsAnswer (handle s m t r)
  unfolding handle handle_index handle_health handle_log_stream handle_logs handle_config
      handle_config_save handle_decks handle_deck_search handle_deck_by_id handle_notes
      handle_note_by_id id_or_stop handle_cleaner_preview handle_cleaner_run handle_operation_by_id
      handle_app_exit
  handle-IsAnswer index r = search more_replies depth 20
  handle-IsAnswer health r = search more_replies depth 20
  handle-IsAnswer log_stream r = search more_replies depth 20
  handle-IsAnswer logs r = search more_replies depth 20
  handle-IsAnswer config r = search more_replies depth 20
  handle-IsAnswer config_save r = search (more_replies, take_path-IsGuard) depth 25
  handle-IsAnswer decks r = search more_replies depth 20
  handle-IsAnswer deck_search r = search more_replies depth 20
  handle-IsAnswer deck_by_id r = search more_replies depth 20
  handle-IsAnswer notes r = search (more_replies, total_or_length-IsSilent) depth 25
  handle-IsAnswer note_by_id r = search (more_replies, by_method-IsAnswer) depth 20
  handle-IsAnswer cleaner_preview r = search more_replies depth 20
  handle-IsAnswer cleaner_dry_run r = search more_replies depth 20
  handle-IsAnswer cleaner_apply r = search more_replies depth 20
  handle-IsAnswer operation_by_id r = search (more_replies, answer_poll-IsAnswer) depth 20
  handle-IsAnswer app_exit r = search more_replies depth 20

  dispatch-IsAnswer : (t : Target) (r : Request) → IsAnswer (dispatch s m t r)
  unfolding dispatch
  dispatch-IsAnswer (to t) r = handle-IsAnswer t r
  dispatch-IsAnswer (moved_to url) r = write_json-IsAnswer _ _

  -- Whatever a request asks for and whatever fails, it gets exactly one response.
  pub serve-replies :
      (r : Request) (σ : Site W)
      → (reply : Response) × ((serve s m r σ).replies ≡ reply ∷ σ.replies)
  unfolding serve
  serve-replies r σ = (dispatch-IsAnswer (route r.path) r).runs _

-- ===== src/Api/Handlers/Pages.antt =====
-- handleIndex, handleHealth, handleAppExit, handleOperationByID and handleLogs.
use ankiced.Base.{suc, ℤ, pos, ltb_ℤ, leb_ℤ, not, ◌&&◌, ◌||◌, Option, none, some, if◌then◌else◌}
use ankiced.Text.{Text, codes, is_empty, eq_text, has_prefix, drop_prefix, has_rune}
use ankiced.Config.{Settings}
use ankiced.Api.Helpers.{parse_int64_default}
use ankiced.Api.Logs.{since}
use ankiced.Api.Operations as Operations
use ankiced.Api.Operations.{Operation}
use ankiced.Api.Site.{
  get, post, Request, done, health, polled, replayed, index_page, plain, Machine, Serve, ◌>>=◌,
  ◌>>◌, current_cfg, write_json, correlation_id, write_message_error, stop_if, need_method,
}

-- strings.TrimPrefix
abbrev pub trim_prefix : Text → Text → Text
unfolding has_prefix drop_prefix
trim_prefix s p = if has_prefix s p then drop_prefix s p else s

module _ {W : Type 0} where
  -- w.Header().Set("Content-Type", …)
  unfoldable pub set_content_type : Text → Serve W (Unit {0})
  set_content_type value σ = (some tt, record σ { content_type = value })

  -- h.ops.get
  unfoldable pub get_operation : Text → Serve W (Option Operation)
  get_operation id σ = (some (Operations.get id σ.ops), σ)

  -- go h.onExit()
  unfoldable pub start_exit : Serve W (Unit {0})
  start_exit σ = (some tt, record σ { exits = suc σ.exits })

  unfoldable pub replay_since : ℤ → Serve W (Unit {0})
  unfolding write_json
  replay_since id σ = write_json 200 (replayed (since id σ.logger.hub)) σ

  unfoldable pub handle_health : Request → Serve W (Unit {0})
  unfolding write_json
  handle_health r = write_json 200 health

module _ {W : Type 0} (m : Machine W) where
  abbrev page_size : Settings → ℤ
  page_size cfg = if leb_ℤ cfg.default_page_size (pos 0) then pos 10 else cfg.default_page_size

  unfoldable pub handle_index : Request → Serve W (Unit {0})
  unfolding correlation_id write_message_error current_cfg set_content_type write_json eq_text
      has_prefix stop_if
  handle_index r = do
    stop_if (not (eq_text r.path (codes "/")) && has_prefix r.path (codes "/api/")) (
        correlation_id m
        >>= write_message_error m 404 (codes "endpoint not found") (codes "NOT_FOUND")
            (codes "api endpoint was not found") (codes "not_found"))
    stop_if (not (eq_text r.path (codes "/"))) (
        set_content_type (codes "text/plain; charset=utf-8")
        >> write_json 404 (plain (codes "404 page not found\n")))
    cfg ← current_cfg
    set_content_type (codes "text/html; charset=utf-8")
    write_json 200 (index_page cfg.db_path (page_size cfg))

  unfoldable pub handle_app_exit : Request → Serve W (Unit {0})
  unfolding need_method correlation_id write_message_error stop_if write_json start_exit
  handle_app_exit r = do
    need_method m post r (codes "app_exit")
    stop_if (not m.has_exit) (
        correlation_id m
        >>= write_message_error m 501 (codes "exit action is not enabled")
            (codes "APP_EXIT_DISABLED") (codes "app exit action is not wired") (codes "app_exit"))
    write_json 200 done
    start_exit

  abbrev pub operation_id : Request → Text
  unfolding has_prefix drop_prefix
  operation_id r = trim_prefix r.path (codes "/api/v1/operations/")

  unfoldable pub answer_poll : Option Operation → Serve W (Unit {0})
  unfolding write_json correlation_id write_message_error
  answer_poll (some op) = write_json 200 (polled op)
  answer_poll none =
      correlation_id m
      >>= write_message_error m 404 (codes "operation not found") (codes "OPERATION_NOT_FOUND")
          (codes "operation id was not found") (codes "get_operation")

  unfoldable pub handle_operation_by_id : Request → Serve W (Unit {0})
  unfolding need_method correlation_id write_message_error stop_if get_operation has_rune
      answer_poll has_prefix drop_prefix
  handle_operation_by_id r = do
    need_method m get r (codes "get_operation")
    stop_if (is_empty (operation_id r) || has_rune b'/' (operation_id r)) (
        correlation_id m
        >>= write_message_error m 400 (codes "invalid operation id") (codes "OPERATION_ID_INVALID")
            (codes "operation id path segment is invalid") (codes "get_operation"))
    found ← get_operation (operation_id r)
    answer_poll found

  abbrev not_negative : ℤ → ℤ
  not_negative n = if ltb_ℤ n (pos 0) then pos 0 else n

  unfoldable pub handle_logs : Request → Serve W (Unit {0})
  unfolding need_method replay_since parse_int64_default
  handle_logs r = do
    need_method m get r (codes "logs_list")
    replay_since (not_negative (parse_int64_default (r.query (codes "since_id")) (pos 0)))

-- ===== src/Api/Handlers/Settings.antt =====
-- handleConfig and handleConfigSave, with appConfigPath and configSnapshot.
pub mod Saved
use ankiced.Base.{
  ℤ, Bool, true, false, not, ◌&&◌, ◌||◌, Option, none, some, List, [], ◌∷◌, ◌++◌, if◌then◌else◌,
}
use ankiced.Text.{Text, codes, is_empty, eq_text, trim_space}
use ankiced.Errors.{Err, external, fmt_wrap, sqlite, old_conn_close_failed, is}
use ankiced.Config.{Settings}
use ankiced.Action.{Outcome, ok, fail, Action}
use ankiced.Api.Site.{
  get, post, Request, ConfigSnapshot, configured, saved, Decoded, decoded, undecoded, Shared,
  Machine, Serve, ◌>>=◌, ◌>>◌, pure, stop, call, current_cfg, set_db_path, write_json,
  correlation_id, log, write_error, or_stop, need_method,
}

-- configSnapshot
abbrev pub snapshot_of : Settings → ConfigSnapshot
snapshot_of cfg = record {
  db_path = cfg.db_path;
  anki_account = cfg.anki_account;
  http_addr = cfg.http_addr;
  backup_keep_last_n = cfg.backup_keep_last_n;
  workers = cfg.workers;
  force_apply = cfg.force_apply;
  verbose = cfg.verbose;
  full_diff = cfg.full_diff;
  report_file = cfg.report_file;
  default_page_size = cfg.default_page_size;
  pragma_busy_timeout = cfg.pragma_busy_timeout;
  pragma_journal_mode = cfg.pragma_journal_mode;
  pragma_synchronous = cfg.pragma_synchronous;
}

-- An action on what stands behind the ports.
abbrev pub on_world : {W A : Type 0} → Action W A → Action (Shared W) A
on_world act w = let (o, b) = act w.behind in (o, record w { behind = b })

module _ {W : Type 0} (m : Machine W) where
  abbrev beside : Text → Outcome Text
  unfolding trim_space eq_text
  beside exe =
      if is_empty (trim_space (m.dir exe)) || eq_text (m.dir exe) (codes ".")
      then fail (external (codes "executable directory is not available"))
      else ok (m.join_path (m.dir exe) (codes "ankiced.config.json"))

  -- appConfigPath
  unfoldable pub app_config_path : Outcome Text
  unfolding beside
  app_config_path = elim m.executable [
    | fail e ↦ fail (fmt_wrap (codes "resolve executable path: ") e [])
    | ok exe ↦ beside exe
  ]

  unfoldable pub handle_config : Request → Serve W (Unit {0})
  unfolding need_method correlation_id log current_cfg write_json
  handle_config r = do
    need_method m get r (codes "get_config")
    cid ← correlation_id m
    log m (codes "info") (codes "get_config") cid (codes "request started") []
    cfg ← current_cfg
    write_json 200 (configured (snapshot_of cfg))
    log m (codes "info") (codes "get_config") cid (codes "request finished") []

  -- An error of Reconnect: it stops the handler, but for ErrOldConnCloseFailed.
  unfoldable pub accept_close_error : Text → Outcome (Unit {0}) → Serve W (Unit {0})
  unfolding write_error is
  accept_close_error cid (ok _) = pure tt
  accept_close_error cid (fail e) =
      if is e (sqlite old_conn_close_failed)
      then pure tt
      else write_error m 500 e (codes "save_config") cid >> stop

  -- The call of Reconnect, where the transaction manager has one.
  unfoldable pub reconnect_by :
      Option (Text → Action W (Unit {0})) → (cid path : Text) → Serve W (Unit {0})
  unfolding call accept_close_error
  reconnect_by none cid path = pure tt
  reconnect_by (some reconnect) cid path =
      call (on_world (reconnect path)) >>= accept_close_error cid

  abbrev pub is_new_path : Text → Settings → Bool
  is_new_path path cfg = not (is_empty path) && not (eq_text path cfg.db_path)

  -- What is done with the body of handleConfigSave; a body that is not decoded is passed over.
  unfoldable pub take_path : Text → Decoded Text → Settings → Serve W (Unit {0})
  unfolding reconnect_by set_db_path eq_text
  take_path cid (undecoded e) cfg = pure tt
  take_path cid (decoded path) cfg =
      if is_new_path path cfg
      then reconnect_by m.reconnect cid path >> set_db_path path
      else pure tt

  unfoldable pub handle_config_save : Request → Serve W (Unit {0})
  unfolding need_method correlation_id log call or_stop write_error current_cfg take_path write_json
      app_config_path
  handle_config_save r = do
    need_method m post r (codes "save_config")
    cid ← correlation_id m
    log m (codes "info") (codes "save_config") cid (codes "request started") []
    path ← or_stop (app_config_path) (λ e. write_error m 500 e (codes "save_config") cid)
    old ← current_cfg
    take_path cid (m.decode_path r.body) old
    cfg ← current_cfg
    text ←
        or_stop (m.marshal (snapshot_of cfg)) (λ e. write_error m 500 e (codes "save_config") cid)
    wrote ← call (on_world (m.write_file path (text ++ codes "\n")))
    or_stop wrote (λ e. write_error m 500 e (codes "save_config") cid)
    write_json 200 (saved path (snapshot_of cfg))
    log m (codes "info") (codes "save_config") cid (codes "request finished")
        ((codes "path", path) ∷ [])

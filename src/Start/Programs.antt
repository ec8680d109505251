-- ===== src/Start/Programs.antt =====
-- The functions run of cmd/ankiced/main.go, cmd/ankiced-web/main.go (with resolveHTTPAddr) and
-- cmd/ankiced-desktop/main.go.
pub mod Closed
pub mod Once
use ankiced.Base.{ℕ, Bool, true, false, not, ◌||◌, ◌&&◌, List, [], ◌∷◌, if◌then◌else◌}
use ankiced.Text.{Text, codes, eq_text, is_empty, trim_space, to_lower, contains}
use ankiced.Errors.{Err, canceled, is, error_text}
use ankiced.Config.{Settings}
use ankiced.Action.{Outcome, ok, fail, Action, pure, lift, ◌>>=◌, ◌>>◌}
use ankiced.Services.Ports.{Services, cleanup_backups}
use ankiced.Start.{is_on, verbose_requested, failed, failing, deferring}

-- What the programs ask of the machine and of other packages: the arguments, the variable
-- ANKICED_VERBOSE, Load, Open, Close, NewServices, and net.Listen with the address that it listens on.
pub record Machine (W : Type 0) : Type 0 where
  pub lower : ℕ → ℕ
  pub args : List Text
  pub verbose_env : Text
  pub load : Action W Settings
  pub open_db : Settings → Action W (Unit {0})
  pub close_db : Action W (Unit {0})
  pub new_services : Settings → Services W
  pub listen : Text → Action W Text
  pub close_listener : Action W (Unit {0})

abbrev pub default_addr : Text
default_addr = codes "127.0.0.1:8080"

module _ {W : Type 0} (m : Machine W) where
  -- What is known before the settings are loaded; EnvEnabled.
  abbrev bootstrap_verbose : Bool
  unfolding verbose_requested is_on
  bootstrap_verbose = verbose_requested m.lower m.args || is_on m.lower m.verbose_env

  abbrev is_busy : Err → Bool
  unfolding contains to_lower error_text
  is_busy e =
      let text = to_lower m.lower (error_text e) in
      contains text (codes "address already in use")
      || contains text (codes "only one usage of each socket address")

  -- What the listener is closed with decides.
  abbrev freed : Text → Action W Text
  freed addr = m.close_listener >> pure addr

  abbrev fall_back : Err → Outcome Text → Action W Text
  fall_back e (ok resolved) = freed resolved
  fall_back e (fail e') = lift (fail e)

  abbrev on_free_port : Err → Action W Text
  on_free_port e w =
      fall_back e (m.listen (codes "127.0.0.1:0") w).0 (m.listen (codes "127.0.0.1:0") w).1

  abbrev resolving : Text → Outcome Text → Action W Text
  unfolding is_busy eq_text
  resolving addr (ok _) = freed addr
  resolving addr (fail e) =
      if not (is_busy e) || not (eq_text addr default_addr) then lift (fail e) else on_free_port e

  unfoldable pub resolve_http_addr : Text → Action W Text
  unfolding resolving
  resolve_http_addr addr w = resolving addr (m.listen addr w).0 (m.listen addr w).1

  -- The end of run: a cancelled context is no error.
  abbrev ended : Bool → Outcome (Unit {0}) → Outcome (Unit {0})
  unfolding failed is
  ended verbose (ok _) = ok tt
  ended verbose (fail e) =
      if is e canceled then ok tt else fail (failed (codes "runtime") e verbose)

  abbrev looping : Bool → Action W (Unit {0}) → Action W (Unit {0})
  looping verbose loop w = (ended verbose (loop w).0, (loop w).1)

  -- From Open to the end. `loop` is the program proper.
  unfoldable pub run_opened :
      (Services W → Settings → Action W (Unit {0})) → Settings → Action W (Unit {0})
  unfolding failing deferring cleanup_backups ended
  run_opened loop cfg =
      let s = m.new_services cfg in
      failing (codes "open db") cfg.verbose (m.open_db cfg)
      >> deferring m.close_db (deferring (cleanup_backups s cfg) (looping cfg.verbose (loop s cfg)))

  -- run of cmd/ankiced; `loop` is cli.App.Run.
  unfoldable pub run_cli : (Services W → Settings → Action W (Unit {0})) → Action W (Unit {0})
  unfolding failing bootstrap_verbose run_opened
  run_cli loop = failing (codes "load config") bootstrap_verbose m.load >>= run_opened loop

  abbrev with_addr : Settings → Settings
  unfolding trim_space
  with_addr cfg = record cfg {
    http_addr = if is_empty (trim_space cfg.http_addr) then default_addr else cfg.http_addr;
  }

  -- run of cmd/ankiced-web; `loop` is httpapi.Server.Run.
  unfoldable pub run_web : (Services W → Settings → Action W (Unit {0})) → Action W (Unit {0})
  unfolding failing bootstrap_verbose with_addr resolve_http_addr run_opened
  run_web loop = do
    cfg ← failing (codes "load config") bootstrap_verbose m.load
    addr ← failing (codes "runtime") cfg.verbose (resolve_http_addr (with_addr cfg).http_addr)
    run_opened loop (record cfg { http_addr = addr })

-- What the desktop program holds beside the machine: whether dbCloseOnce has run.
pub record Desk (W : Type 0) : Type 0 where
  pub behind : W
  pub closed : Bool

module _ {W : Type 0} (m : Machine W) where
  abbrev pub beside : {A : Type 0} → Action W A → Action (Desk W) A
  beside act d = ((act d.behind).0, record d { behind = (act d.behind).1 })

  -- closeDB: sync.Once runs Close the first time; its error is only logged.
  unfoldable pub close_once : Action (Desk W) (Unit {0})
  close_once d =
      if d.closed
      then (ok tt, d)
      else (ok tt, record { behind = (m.close_db d.behind).1; closed = true })

  -- OnShutdown
  unfoldable pub on_shutdown : Services W → Settings → Action (Desk W) (Unit {0})
  unfolding cleanup_backups close_once
  on_shutdown s cfg d = close_once (beside (cleanup_backups s cfg) d).1

  -- From Open to the end; `wails` is wails.Run, which calls the callback for the shutdown.
  unfoldable pub run_window :
      (Action (Desk W) (Unit {0}) → Action (Desk W) (Unit {0})) → Settings → Action W (Unit {0})
  unfolding on_shutdown close_once deferring ended
  run_window wails cfg w =
      let (o, d) =
        deferring close_once
          (λ d.
            let (o, d') = wails (on_shutdown (m.new_services cfg) cfg) d in
            (ended m cfg.verbose o, d'))
          (record { behind = w; closed = false }) in
      (o, d.behind)

  -- run of cmd/ankiced-desktop.
  unfoldable pub run_desktop :
      (Action (Desk W) (Unit {0}) → Action (Desk W) (Unit {0})) → Action W (Unit {0})
  unfolding failing bootstrap_verbose run_window
  run_desktop wails = do
    cfg ← failing (codes "load config") (bootstrap_verbose m) m.load
    failing (codes "open db") cfg.verbose (m.open_db cfg)
    run_window wails cfg

-- ===== src/Start/Programs/Once.antt =====
-- The desktop program closes the collection once, though it does so in two places.
use ankiced.Base.{ℕ, suc, ◌≡◌, refl, ◌∙◌, true, false, Bool, if◌then◌else◌}
use ankiced.Text.{codes}
use ankiced.Config.{Settings}
use ankiced.Action.{Outcome, ok, fail, Action, ◌>>◌, Keeps, Preserves, bind-Keeps}
use ankiced.Services.Ports.{Services, cleanup_backups}
use ankiced.Start.{failing_at, failing, deferring}
use ankiced.Start.Programs.{
  Machine, bootstrap_verbose, Desk, close_once, on_shutdown, run_window, run_cli, run_web,
  run_desktop,
}
use ankiced.Start.Programs.Closed.{IsTidy, HasTaken, run_closed, failing-Keeps, cleanup-Keeps}

module _ {W : Type 0} (held : W → ℕ) where
  -- One more than `n` is held until the collection is closed.
  abbrev pub Left : ℕ → Desk W → Type 0
  Left n d = held d.behind ≡ (if d.closed then n else suc n)

  module _ (m : Machine W) (main : Services W → Settings → Action W (Unit {0}))
      (h : IsTidy held m main) where
    closed_at :
        (n : ℕ) (b : Bool) (w : W)
        → held w ≡ (if b then n else suc n)
        → held (close_once m (record { behind = w; closed = b })).1.behind ≡ n
    unfolding close_once
    closed_at n true w k = k
    closed_at n false w k = h.close_db w n k

    close_once-Left :
        (n : ℕ) (b : Bool) (w : W)
        → held w ≡ (if b then n else suc n)
        → Left n (close_once m (record { behind = w; closed = b })).1
    unfolding close_once
    close_once-Left n true w k = k
    close_once-Left n false w k = h.close_db w n k

    on_shutdown-Left :
        (n : ℕ) (cfg : Settings) → Preserves (Left n) (on_shutdown m (m.new_services cfg) cfg)
    unfolding on_shutdown
    on_shutdown-Left n cfg d k =
        let s = m.new_services cfg in
        close_once-Left n d.closed (cleanup_backups s cfg d.behind).1
          (cleanup-Keeps held m main h cfg d.behind ∙ k)

    module _ (wails : Action (Desk W) (Unit {0}) → Action (Desk W) (Unit {0}))
        (keeps : (n : ℕ) (hook : Action (Desk W) (Unit {0}))
          → Preserves (Left n) hook
          → Preserves (Left n) (wails hook)) where
      window_closed :
          (cfg : Settings) (w : W) (n : ℕ) → held w ≡ suc n → held (run_window m wails cfg w).1 ≡ n
      unfolding run_window deferring
      window_closed cfg w n k =
          let start : Desk W = record { behind = w; closed = false } in
          let hook = on_shutdown m (m.new_services cfg) cfg in
          let d = (wails hook start).1 in
          closed_at n d.closed d.behind (keeps n hook (on_shutdown-Left n cfg) start k)

      once_opened :
          (cfg : Settings) (o : Outcome (Unit {0})) (w w' : W)
          → HasTaken held m main h o w w'
          → held ((failing_at (codes "open db") cfg.verbose o >> run_window m wails cfg) w').1
            ≡ held w
      unfolding failing_at
      once_opened cfg (ok a) w w' taken = window_closed cfg w' (held w) (taken.0 a refl)
      once_opened cfg (fail e) w w' taken = taken.1 e refl

      opened-Keeps :
          (cfg : Settings)
          → Keeps held
              (failing (codes "open db") cfg.verbose (m.open_db cfg) >> run_window m wails cfg)
      unfolding failing
      opened-Keeps cfg w =
          once_opened cfg (m.open_db cfg w).0 w (m.open_db cfg w).1 (h.open_db cfg w)

      run_desktop_closed : (w : W) → held (run_desktop m wails w).1 ≡ held w
      unfolding run_desktop
      run_desktop_closed =
          bind-Keeps held (failing (codes "load config") (bootstrap_verbose m) m.load)
            (λ cfg. failing (codes "open db") cfg.verbose (m.open_db cfg) >> run_window m wails cfg)
            (failing-Keeps held (codes "load config") (bootstrap_verbose m) m.load h.load)
            opened-Keeps

      -- If Open and Listen take one handle or listener unless they fail, Close gives it back, be it
      -- with an error, nothing else changes how many there are, and wails keeps what its callback for
      -- the shutdown keeps, then the command line, the server and the desktop program have as many
      -- open at their end as at their start, whatever fails and however often the callback runs.
      pub programs_closed :
          (w : W)
          → (held (run_cli m main w).1 ≡ held w)
            × (held (run_web m main w).1 ≡ held w)
            × (held (run_desktop m wails w).1 ≡ held w)
      programs_closed w =
          let (cli, web) = run_closed held m main h w in (cli, web, run_desktop_closed w)

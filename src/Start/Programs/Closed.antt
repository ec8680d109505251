-- ===== src/Start/Programs/Closed.antt =====
-- The programs give back what they take of the machine.
use ankiced.Base.{
  ℕ, suc, ◌≡◌, refl, ap, ◌∙◌, inl, inr, Option, none, some, Bool, Bool-cases, not, ◌||◌,
}
use ankiced.Text.{Text, codes, eq_text}
use ankiced.Errors.{Err}
use ankiced.Config.{Settings}
use ankiced.Action.{Outcome, ok, fail, Action, ◌>>=◌, ◌>>◌, pure, Keeps, bind-Keeps, continue}
use ankiced.Services.Ports.{Services, BackupStore, cleanup_backups}
use ankiced.Start.{failing_at, failing, deferring}
use ankiced.Start.Programs.{
  Machine, is_busy, default_addr, freed, fall_back, resolving, resolve_http_addr, bootstrap_verbose,
  looping, run_opened, run_cli, with_addr, run_web,
}

module _ {W : Type 0} (held : W → ℕ) where
  -- An action takes one thing, unless it fails.
  abbrev pub Takes : {A : Type 0} → Action W A → Type 0
  Takes {A} act =
      (w : W)
      → ((a : A) → (act w).0 ≡ ok a → held (act w).1 ≡ suc (held w))
        × ((e : Err) → (act w).0 ≡ fail e → held (act w).1 ≡ held w)

  -- An action gives one thing back, with an error or without.
  abbrev pub Gives : {A : Type 0} → Action W A → Type 0
  Gives act = (w : W) (n : ℕ) → held w ≡ suc n → held (act w).1 ≡ n

  abbrev pub CleanupKeeps : Option (BackupStore W) → Type 0
  CleanupKeeps none = Unit
  CleanupKeeps (some b) = (path : Text) (n : _) → Keeps held (b.cleanup_backups path n)

  -- The handles and the listeners that the machine has open are `held`: Open and Listen take one,
  -- closing gives one back, and nothing else changes how many there are.
  pub record IsTidy (m : Machine W) (main : Services W → Settings → Action W (Unit {0}))
      : Type 0 where
    pub load : Keeps held m.load
    pub open_db : (cfg : Settings) → Takes (m.open_db cfg)
    pub close_db : Gives m.close_db
    pub listen : (addr : Text) → Takes (m.listen addr)
    pub close_listener : Gives m.close_listener
    pub cleanup : (cfg : Settings) → CleanupKeeps (m.new_services cfg).backups
    pub loop : (s : Services W) (cfg : Settings) → Keeps held (main s cfg)

  pub failing_at-Keeps :
      {A : Type 0} (prefix : Text) (v : Bool) (o : Outcome A) → Keeps held (failing_at prefix v o)
  unfolding failing_at
  failing_at-Keeps prefix v (ok a) w = refl
  failing_at-Keeps prefix v (fail e) w = refl

  pub failing-Keeps :
      {A : Type 0} (prefix : Text) (v : Bool) (act : Action W A)
      → Keeps held act
      → Keeps held (failing prefix v act)
  unfolding failing
  failing-Keeps prefix v act k w = failing_at-Keeps prefix v (act w).0 (act w).1 ∙ k w

  cleanup_with :
      (o : Option (BackupStore W)) (path : Text) (n : _)
      → CleanupKeeps o
      → Keeps held (elim o [ none ↦ pure tt | some b ↦ b.cleanup_backups path n ])
  cleanup_with none path n k w = refl
  cleanup_with (some b) path n k w = k path n w

  module _ (m : Machine W) (loop : Services W → Settings → Action W (Unit {0}))
      (h : IsTidy m loop) where
    pub cleanup-Keeps : (cfg : Settings) → Keeps held (cleanup_backups (m.new_services cfg) cfg)
    unfolding cleanup_backups
    cleanup-Keeps cfg = cleanup_with (m.new_services cfg).backups _ _ (h.cleanup cfg)

    -- The program proper with the cleanup behind it.
    working-Keeps :
        (cfg : Settings)
        → Keeps held (
            deferring
              (cleanup_backups (m.new_services cfg) cfg)
              (looping m cfg.verbose (loop (m.new_services cfg) cfg)))
    unfolding deferring
    working-Keeps cfg w =
        cleanup-Keeps cfg (loop (m.new_services cfg) cfg w).1 ∙ h.loop (m.new_services cfg) cfg w

    -- What an outcome says of the things held before and after.
    abbrev pub HasTaken : {A : Type 0} → Outcome A → W → W → Type 0
    HasTaken {A} o w w' =
        ((a : A) → o ≡ ok a → held w' ≡ suc (held w)) × ((e : Err) → o ≡ fail e → held w' ≡ held w)

    once_opened :
        (cfg : Settings) (o : Outcome (Unit {0})) (w w' : W)
        → HasTaken o w w'
        → held
            ((failing_at (codes "open db") cfg.verbose o
                >> deferring m.close_db (
                    deferring
                      (cleanup_backups (m.new_services cfg) cfg)
                      (looping m cfg.verbose (loop (m.new_services cfg) cfg))))
              w').1
          ≡ held w
    unfolding failing_at deferring
    once_opened cfg (ok a) w w' taken =
        h.close_db _ (held w) (working-Keeps cfg w' ∙ taken.0 a refl)
    once_opened cfg (fail e) w w' taken = taken.1 e refl

    run_opened-Keeps : (cfg : Settings) → Keeps held (run_opened m loop cfg)
    unfolding run_opened failing
    run_opened-Keeps cfg w =
        once_opened cfg (m.open_db cfg w).0 w (m.open_db cfg w).1 (h.open_db cfg w)

    then_pure :
        (addr : Text) (o : Outcome (Unit {0})) (w : W) → (continue o (λ _. pure addr) w).1 ≡ w
    then_pure addr (ok a) w = refl
    then_pure addr (fail e) w = refl

    freed_back : (addr : Text) (w : W) (n : ℕ) → held w ≡ suc n → held (freed m addr w).1 ≡ n
    freed_back addr w n k =
        ap held (then_pure addr (m.close_listener w).0 (m.close_listener w).1)
        ∙ h.close_listener w n k

    fallen_back :
        (e : Err) (o : Outcome Text) (w w' : W)
        → HasTaken o w w'
        → held (fall_back m e o w').1 ≡ held w
    fallen_back e (ok addr) w w' taken = freed_back addr w' (held w) (taken.0 addr refl)
    fallen_back e (fail e') w w' taken = taken.1 e' refl

    resolved :
        (addr : Text) (o : Outcome Text) (w w' : W)
        → HasTaken o w w'
        → held (resolving m addr o w').1 ≡ held w
    unfolding resolving
    resolved addr (ok a) w w' taken = freed_back addr w' (held w) (taken.0 a refl)
    resolved addr (fail e) w w' taken =
        elim (Bool-cases (not (is_busy m e) || not (eq_text addr default_addr))) [
          | inl final ↦ rw final (taken.1 e refl)
          | inr retried ↦
              let free = codes "127.0.0.1:0" in
              rw retried (
                fallen_back e (m.listen free w').0 w' (m.listen free w').1 (h.listen free w')
                ∙ taken.1 e refl)
        ]

    resolve_http_addr-Keeps : (addr : Text) → Keeps held (resolve_http_addr m addr)
    unfolding resolve_http_addr
    resolve_http_addr-Keeps addr w =
        resolved addr (m.listen addr w).0 w (m.listen addr w).1 (h.listen addr w)

    run_cli-Keeps : Keeps held (run_cli m loop)
    unfolding run_cli
    run_cli-Keeps =
        bind-Keeps held (failing (codes "load config") (bootstrap_verbose m) m.load)
          (run_opened m loop)
          (failing-Keeps (codes "load config") (bootstrap_verbose m) m.load h.load) run_opened-Keeps

    abbrev on_addr : Settings → Action W (Unit {0})
    on_addr cfg =
        failing (codes "runtime") cfg.verbose (resolve_http_addr m (with_addr m cfg).http_addr)
        >>= λ addr. run_opened m loop (record cfg { http_addr = addr })

    on_addr-Keeps : (cfg : Settings) → Keeps held (on_addr cfg)
    on_addr-Keeps cfg =
        bind-Keeps held
          (failing (codes "runtime") cfg.verbose (resolve_http_addr m (with_addr m cfg).http_addr))
          (λ addr. run_opened m loop (record cfg { http_addr = addr }))
          (failing-Keeps (codes "runtime") cfg.verbose _
            (resolve_http_addr-Keeps (with_addr m cfg).http_addr))
          (λ addr. run_opened-Keeps (record cfg { http_addr = addr }))

    run_web-Keeps : Keeps held (run_web m loop)
    unfolding run_web
    run_web-Keeps =
        bind-Keeps held (failing (codes "load config") (bootstrap_verbose m) m.load) on_addr
          (failing-Keeps (codes "load config") (bootstrap_verbose m) m.load h.load) on_addr-Keeps

    pub run_closed :
        (w : W) → (held (run_cli m loop w).1 ≡ held w) × (held (run_web m loop w).1 ≡ held w)
    run_closed w = (run_cli-Keeps w, run_web-Keeps w)

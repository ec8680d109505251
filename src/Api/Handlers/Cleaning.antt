-- ===== src/Api/Handlers/Cleaning.antt =====
-- handleCleanerRun and the goroutine that it starts. What the goroutine does to the store of
-- operations and to the log is a list of events, which come between those of other requests; the
-- run of the cleaner itself is one action on what is shared.
pub mod Accepted
pub mod Started
pub mod Life
use ankiced.Base.{
  ℕ, ℤ, pos, ltb_ℤ, leb_ℤ, Bool, true, false, not, ◌&&◌, ◌||◌, Option, none, some, List, [], ◌∷◌,
  ◌++◌, map, if◌then◌else◌,
}
use ankiced.Text.{Text, codes, is_empty, eq_text}
use ankiced.Text.Number.{show_nat, show_int}
use ankiced.Errors.{Err, external}
use ankiced.Domain.{DryRunSummary, CleanerProgress}
use ankiced.Presentation.{format_debug_error}
use ankiced.Config.{Settings}
use ankiced.Action.{Outcome, ok, fail}
use ankiced.Services.Ports.{Services, Template}
use ankiced.Services.Pool.{Pool}
use ankiced.Services.Cleaner.{Cleaning, run_cleaner}
use ankiced.Api.Operations as Operations
use ankiced.Api.Operations.{running}
use ankiced.Api.Site.{
  post, Request, CleanerRequest, accepted, Job, Shared, Site, Machine, Serve, ◌>>=◌, ◌>>◌, pure,
  current_cfg, write_json, correlation_id, log, write_message_error, stop_if, body_or_stop,
  need_method,
}

abbrev pub show_bool : Bool → Text
show_bool true = codes "true"
show_bool false = codes "false"

abbrev pub op_name : Bool → Text
op_name true = codes "cleaner_dry_run"
op_name false = codes "cleaner_apply"

-- The settings of a run.
abbrev pub run_settings : CleanerRequest → Settings → Settings
run_settings q cfg = record cfg {
  full_diff = q.full_diff;
  force_apply = q.confirm;
  workers = if ltb_ℤ (pos 0) q.workers then q.workers else cfg.workers;
  report_file = if is_empty q.report then cfg.report_file else q.report;
}

abbrev pub job_of : Text → Bool → CleanerRequest → Settings → Job
job_of id dry_run q cfg = record {
  id = id;
  kind = op_name dry_run;
  cfg = run_settings q cfg;
  deck_id = q.deck_id;
  dry_run = dry_run;
  template_id = q.template;
}

module _ {W : Type 0} (m : Machine W) where
  -- h.ops.create
  unfoldable pub create_operation : (id kind : Text) → Serve W (Unit {0})
  create_operation id kind σ =
      let (t, w) = m.stamp σ.shared.behind in
      (
        some tt,
        record σ {
          shared = record σ.shared { behind = w };
          ops = Operations.create id kind t σ.ops;
        },
      )

  -- go func() { … }()
  unfoldable pub start_job : Job → Serve W (Unit {0})
  start_job j σ = (some tt, record σ { jobs = σ.jobs ++ j ∷ [] })

  unfoldable pub handle_cleaner_run : Request → Bool → Serve W (Unit {0})
  unfolding need_method correlation_id log body_or_stop write_message_error stop_if write_json
      current_cfg create_operation start_job
  handle_cleaner_run r dry_run = do
    need_method m post r (op_name dry_run)
    q ← body_or_stop m (m.decode_run r.body) (op_name dry_run)
    stop_if (leb_ℤ q.deck_id (pos 0)) (
        correlation_id m
        >>= write_message_error m 400 (codes "deck_id must be positive") (codes "DECK_ID_INVALID")
            (codes "deck_id must be greater than zero") (op_name dry_run))
    stop_if (not dry_run && not q.confirm) (
        correlation_id m
        >>= write_message_error m 400 (codes "confirm=true is required for apply")
            (codes "CONFIRM_REQUIRED") (codes "apply requires explicit confirmation")
            (op_name dry_run))
    cid ← correlation_id m
    log m (codes "info") (op_name dry_run) cid (codes "request started")
        ((codes "deck_id", show_int q.deck_id) ∷ (codes "dry_run", show_bool dry_run) ∷ [])
    cfg ← current_cfg
    create_operation cid (op_name dry_run)
    start_job (job_of cid dry_run q cfg)
    write_json 202 (accepted cid running dry_run (codes "/api/v1/operations/" ++ cid))
    log m (codes "info") (op_name dry_run) cid (codes "request accepted")
        ((codes "operation_id", cid) ∷ [])

-- How RunCleaner ends in the goroutine: it returns, or it panics with a value that %v prints.
pub data Ending : Type 0 where
  returned : Outcome Text → DryRunSummary → Ending
  panicked : Text → Ending

-- What the goroutine does to the store and to the log.
pub data JobEvent : Type 0 where
  logs : (level message : Text) → List (Text × Text) → JobEvent
  progresses : CleanerProgress → JobEvent
  fails : Err → JobEvent
  succeeds : Text → DryRunSummary → JobEvent

abbrev is_logged_stage : Text → Bool
unfolding eq_text
is_logged_stage stage =
    eq_text stage (codes "started")
    || eq_text stage (codes "writing")
    || eq_text stage (codes "finished")
    || eq_text stage (codes "failed")

abbrev progress_details : CleanerProgress → List (Text × Text)
progress_details p =
    (codes "stage", p.stage)
    ∷ (codes "processed", show_nat p.processed)
    ∷ (codes "total", show_nat p.total)
    ∷ (codes "changed", show_nat p.changed)
    ∷ (codes "skipped", show_nat p.skipped)
    ∷ (codes "errors", show_nat p.errors)
    ∷ []

-- The callback that RunCleaner is given.
unfoldable pub progress_events : List CleanerProgress → List JobEvent
unfolding is_logged_stage
progress_events [] = []
progress_events (p ∷ ps) =
    let rest = progress_events ps in
    if is_logged_stage p.stage
    then progresses p ∷ logs (codes "info") (codes "operation progress") (progress_details p) ∷ rest
    else progresses p ∷ rest

unfoldable pub ending_events : Ending → List JobEvent
unfolding format_debug_error
ending_events (returned (ok out) summary) =
    succeeds out summary
    ∷ logs (codes "info") (codes "operation finished") (
        (codes "changed", show_nat summary.changed)
        ∷ (codes "errors", show_nat summary.errors)
        ∷ [])
    ∷ []
ending_events (returned (fail e) summary) =
    fails e
    ∷ logs (codes "error") (codes "operation failed") ((codes "error", format_debug_error e) ∷ [])
    ∷ []
ending_events (panicked value) =
    fails (external (codes "cleaner operation panicked: " ++ value))
    ∷ logs (codes "error") (codes "operation panicked") ((codes "panic", value) ∷ [])
    ∷ []

abbrev pub begin_event : Job → JobEvent
begin_event j =
    logs (codes "info") (codes "operation started")
      ((codes "deck_id", show_int j.deck_id) ∷ (codes "dry_run", show_bool j.dry_run) ∷ [])

-- All events of the goroutine.
unfoldable pub job_events : Job → List CleanerProgress → Ending → List JobEvent
unfolding progress_events ending_events
job_events j reports ending = begin_event j ∷ (progress_events reports ++ ending_events ending)

module _ {W : Type 0} (m : Machine W) where
  abbrev store_call : (Text → Operations.Store → Operations.Store) → Site W → Site W
  store_call f σ =
      let (t, w) = m.stamp σ.shared.behind in
      record σ { shared = record σ.shared { behind = w }; ops = f t σ.ops }

  unfoldable pub perform : Job → JobEvent → Site W → Site W
  unfolding log
  perform j (logs level message details) σ = (log m level j.kind j.id message details σ).1
  perform j (progresses p) σ = record σ { ops = Operations.progress j.id p σ.ops }
  perform j (fails e) σ = store_call (Operations.fail j.id e) σ
  perform j (succeeds out summary) σ = store_call (Operations.succeed j.id out summary) σ

  unfoldable pub perform_all : Job → List JobEvent → Site W → Site W
  unfolding perform
  perform_all j [] σ = σ
  perform_all j (e ∷ es) σ = perform_all j es (perform j e σ)

  -- The goroutine alone, without a panic: the run, then its events.
  unfoldable pub run_job :
      Services (Shared W) → (Template → List ℤ → Shared W → Pool (Shared W)) → Job → Site W → Site W
  unfolding run_cleaner job_events perform_all
  run_job s schedule j σ =
      let (o, c) = run_cleaner s j.cfg j.deck_id j.dry_run j.template_id schedule σ.shared in
      perform_all j (job_events j c.reports (returned o c.summary)) (record σ { shared = c.world })

-- ===== src/Services/Cleaner.antt =====
-- RunCleaner. `schedule` is the run of the workers that the machine makes, as the pool in its last
-- state. The local variable `summary` and the calls of `progress` are kept beside the state.
pub mod Rule
pub mod Counts
pub mod Batches
pub mod Effects
pub mod Finished
use ankiced.Base.{
  ℕ, zero, suc, ◌+◌, ℤ, Bool, true, false, not, ◌||◌, Option, none, some, List, [], ◌∷◌, ◌++◌,
  length, take, drop, keep, if◌then◌else◌, ◌==◌,
}
use ankiced.Text.{Text, codes, is_empty}
use ankiced.Errors.{
  Err, sentinel, application, operation_cancelled, report_write_failed, fmt_wrap, error_text,
}
use ankiced.Domain.{DiffRecord, DryRunSummary, no_summary, CleanerProgress}
use ankiced.Config.{Settings}
use ankiced.Action.{Outcome, ok, fail, Action, pure, lift, ◌>>=◌, ◌>>◌}
use ankiced.Services.Ports.{Services, Template, template, ensure_backup}
use ankiced.Services.Decks.{need}
use ankiced.Services.Notes.{update_note_with}
use ankiced.Services.Pool.{Processed, Pool}

-- progressFromSummary
unfoldable pub progress_from_summary : ℕ → Text → DryRunSummary → CleanerProgress
progress_from_summary total stage summary = record {
  total = total;
  processed = summary.processed;
  changed = summary.changed;
  skipped = summary.skipped;
  errors = summary.errors;
  stage = stage;
  summary = summary;
}

pub record Cleaning (W : Type 0) : Type 0 where
  pub world : W
  pub summary : DryRunSummary
  pub reports : List CleanerProgress

abbrev pub has_records : Processed → Bool
has_records r = elim r.records [ [] ↦ false | ◌∷◌ _ _ ↦ true ]

unfoldable pub all_records : List Processed → List DiffRecord
all_records [] = []
all_records (r ∷ rs) = r.records ++ all_records rs

-- The summary after a result.
unfoldable pub tally : Processed → DryRunSummary → DryRunSummary
tally r m =
    if has_records r
    then record m { processed = suc m.processed; changed = suc m.changed }
    else record m { processed = suc m.processed; skipped = suc m.skipped }

abbrev pub batch_size : ℕ
batch_size = 1000

-- reportProgress
unfoldable pub report : {W : Type 0} → ℕ → Text → Action (Cleaning W) (Unit {0})
unfolding progress_from_summary
report total stage c =
    (ok tt, record c { reports = c.reports ++ progress_from_summary total stage c.summary ∷ [] })

abbrev pub transformed_stage : ℕ → DryRunSummary → Text
transformed_stage total m =
    if m.processed == total then codes "transformed" else codes "transforming"

module _ {W : Type 0} where
  abbrev pub within : {A : Type 0} → Action W A → Action (Cleaning W) A
  within m c = let (o, w) = m c.world in (o, record c { world = w })

  -- An action whose error is reported before it is returned.
  unfoldable pub failing : {A : Type 0} → ℕ → Outcome A × Cleaning W → Outcome A × Cleaning W
  unfolding report
  failing total (ok a, c) = (ok a, c)
  failing total (fail e, c) = (fail e, (report total (codes "failed") c).1)

  unfoldable pub reporting : {A : Type 0} → ℕ → Action (Cleaning W) A → Action (Cleaning W) A
  unfolding failing
  reporting total m c = failing total (m c)

  -- The loop over the results.
  unfoldable pub collect : ℕ → List Processed → Action (Cleaning W) (Unit {0})
  unfolding tally report
  collect total [] c = (ok tt, c)
  collect total (r ∷ rs) c =
      collect total rs
        (report total (codes "transforming") (record c { summary = tally r c.summary })).1

  abbrev pub add_error : Cleaning W → Cleaning W
  add_error c = record c { summary = record c.summary { errors = suc c.summary.errors } }

  -- The select on errCh.
  unfoldable pub check_error : ℕ → Option Err → Action (Cleaning W) (Unit {0})
  unfolding report
  check_error total none c = (ok tt, c)
  check_error total (some e) c = (fail e, (report total (codes "failed") (add_error c)).1)

module _ {W : Type 0} (s : Services W) where
  -- The function that WithTx is given.
  unfoldable pub write_all : List Processed → Action W (Unit {0})
  unfolding update_note_with
  write_all [] = pure tt
  write_all (r ∷ rs) = update_note_with s r.note_id r.fields false >> write_all rs

  -- The loop over the batches; each takes a batch off `items`, so that their number is fuel enough.
  unfoldable pub write_batches : ℕ → List Processed → Action W (Unit {0})
  unfolding write_all
  write_batches (suc fuel) (r ∷ rs) =
      s.with_tx (write_all (take batch_size (r ∷ rs)))
      >> write_batches fuel (drop batch_size (r ∷ rs))
  write_batches _ _ = pure tt

  abbrev pub prompt : Text
  prompt = codes "Apply changes to database?"

  abbrev pub confirmed : Settings → Bool → Action W (Unit {0})
  confirmed cfg dry_run = if dry_run || cfg.force_apply then pure tt else do
    agreed ← s.confirm prompt
    lift (need agreed (sentinel (application operation_cancelled)))

  unfoldable pub write_stage : Settings → Bool → ℕ → List Processed → Action (Cleaning W) (Unit {0})
  unfolding report reporting ensure_backup write_batches
  write_stage cfg true total items = pure tt
  write_stage cfg false total items = do
    report total (codes "writing")
    reporting total (within (ensure_backup s cfg))
    reporting total (within (write_batches (length items) items))

  abbrev report_failed : Outcome (Unit {0}) → Outcome (Unit {0})
  report_failed (ok a) = ok a
  report_failed (fail e) =
      fail (fmt_wrap [] (sentinel (application report_write_failed)) (codes ": " ++ error_text e))

  abbrev pub report_to :
      Option (Text → List DiffRecord → DryRunSummary → Action W (Unit {0}))
      → Text
      → List DiffRecord
      → DryRunSummary
      → Action W (Unit {0})
  report_to none path records summary w = (ok tt, w)
  report_to (some write) path records summary w =
      if is_empty path
      then (ok tt, w)
      else (let (o, w') = write path records summary w in (report_failed o, w'))

  unfoldable pub report_stage : Settings → ℕ → List DiffRecord → Action (Cleaning W) (Unit {0})
  unfolding reporting
  report_stage cfg total records c =
      reporting total (within (report_to s.write_report cfg.report_file records c.summary)) c

  -- What follows once the workers are started.
  unfoldable pub consume : Settings → Bool → ℕ → Pool W → Action (Cleaning W) Text
  unfolding collect report all_records
  consume cfg dry_run total pool = do
    collect total pool.results
    λ c. report total (transformed_stage total c.summary) c
    check_error total pool.error
    write_stage cfg dry_run total (keep has_records pool.results)
    report_stage cfg total (all_records pool.results)
    report total (codes "finished")
    λ c. (ok (s.render (all_records pool.results) c.summary cfg.full_diff), c)

  abbrev pub start_pool : (List ℤ → W → Pool W) → List ℤ → Action (Cleaning W) (Pool W)
  start_pool schedule ids c = let p = schedule ids c.world in (ok p, record c { world = p.world })

  unfoldable pub run_cleaner :
      Settings → ℤ → Bool → Text → (Template → List ℤ → W → Pool W) → W → Outcome Text × Cleaning W
  unfolding template report consume
  run_cleaner cfg deck_id dry_run template_id schedule w =
      (do
        apply ← lift (template s template_id)
        ids ← within (s.notes.list_note_ids_by_deck deck_id)
        report (length ids) (codes "started")
        within (confirmed cfg dry_run)
        pool ← start_pool (schedule apply) ids
        consume cfg dry_run (length ids) pool)
        (record { world = w; summary = no_summary; reports = [] })

-- ===== src/Services/Cleaner/Counts.antt =====
-- The numbers in the summary and in the reports of progress.
use ankiced.Base.{◌≡◌, ◌+◌, ℕ, ℤ, Bool, List, length, All, All-append, arith}
use ankiced.Text.{Text}
use ankiced.Domain.{DryRunSummary}
use ankiced.Config.{Settings}
use ankiced.Action.{Action, Preserves}
use ankiced.Services.Ports.{Services, Template, ensure_backup}
use ankiced.Services.Pool.{Processed, Pool}
use ankiced.Services.Cleaner.Rule.{run_cleaner_rule}
use ankiced.Services.Cleaner.{
  Cleaning, progress_from_summary, report, within, tally, write_batches, confirmed, report_to,
  run_cleaner,
}

abbrev pub IsBalanced : DryRunSummary → Type 0
IsBalanced m = m.processed ≡ m.changed + m.skipped

-- The summary and all reports of a run on `total` notes so far are balanced.
pub record HasCounts {W : Type 0} (c : Cleaning W) : Type 0 where
  pub summary : IsBalanced c.summary
  pub reports : All (λ p. (p.processed ≡ p.changed + p.skipped) × IsBalanced p.summary) c.reports

tally-IsBalanced : (r : Processed) (m : DryRunSummary) → IsBalanced m → IsBalanced (tally r m)
unfolding tally
tally-IsBalanced r m h = ground arith

module _ {W : Type 0} where
  report-HasCounts : (total : ℕ) (stage : Text) → Preserves (HasCounts {W = W}) (report total stage)
  unfolding report progress_from_summary
  report-HasCounts total stage c h = record {
    summary = h.summary;
    reports = All-append _ c.reports _ h.reports ((h.summary, h.summary), tt);
  }

  within-HasCounts : {A : Type 0} (m : Action W A) → Preserves (HasCounts {W = W}) (within m)
  within-HasCounts m c h = record { summary = h.summary; reports = h.reports }

  -- Whatever fails and in whatever order the workers send their results, the notes processed are
  -- those changed and those skipped, in the summary of a run and in every report of its progress.
  pub run_cleaner-HasCounts :
      (s : Services W) (cfg : Settings) (deck_id : ℤ) (dry_run : Bool) (template_id : Text)
      (schedule : Template → List ℤ → W → Pool W) (w : W)
      → HasCounts (run_cleaner s cfg deck_id dry_run template_id schedule w).1
  run_cleaner-HasCounts s cfg deck_id dry_run template_id schedule w =
      run_cleaner_rule HasCounts s cfg dry_run schedule
        (record {
          report = report-HasCounts;
          tally = λ r c h. record {
            summary = tally-IsBalanced r c.summary h.summary;
            reports = h.reports;
          };
          error = λ c h. record { summary = h.summary; reports = h.reports };
          ids = λ id. within-HasCounts (s.notes.list_note_ids_by_deck id);
          confirmed = within-HasCounts (confirmed s cfg dry_run);
          workers = λ apply ids c h. record { summary = h.summary; reports = h.reports };
          backup = λ _. within-HasCounts (ensure_backup s cfg);
          batches = λ _ items. within-HasCounts (write_batches s (length items) items);
          reports = λ path rs m. within-HasCounts (report_to s s.write_report path rs m);
        })
        deck_id template_id w (record { summary = omega arith; reports = tt })

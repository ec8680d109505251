-- ===== src/Services/Cleaner/Rule.antt =====
-- A rule for RunCleaner: what each of its parts preserves holds at its end, whatever fails.
use ankiced.Base.{
  ◌≡◌, refl, ℕ, ℤ, Bool, true, false, Option, none, some, List, [], ◌∷◌, length, keep,
}
use ankiced.Text.{Text, codes}
use ankiced.Errors.{Err}
use ankiced.Domain.{DiffRecord, DryRunSummary, no_summary}
use ankiced.Config.{Settings}
use ankiced.Action.{Outcome, ok, fail, Action, lift, Preserves, chain, seq}
use ankiced.Services.Ports.{Services, Template, template, ensure_backup}
use ankiced.Services.Pool.{Processed, Pool}
use ankiced.Services.Cleaner.{
  Cleaning, report, within, failing, reporting, has_records, tally, collect, add_error,
  transformed_stage, check_error, all_records, write_batches, confirmed, write_stage, report_to,
  report_stage, consume, start_pool, run_cleaner,
}

module _ {W : Type 0} (P : Cleaning W → Type 0) where
  -- The parts of a run.
  pub record HasRule (s : Services W) (cfg : Settings) (dry_run : Bool)
      (schedule : Template → List ℤ → W → Pool W) : Type 0 where
    pub report : (total : ℕ) (stage : Text) → Preserves P (report total stage)
    pub tally :
        (r : Processed) (c : Cleaning W) → P c → P (record c { summary = tally r c.summary })
    pub error : (c : Cleaning W) → P c → P (add_error c)
    pub ids : (deck_id : ℤ) → Preserves P (within (s.notes.list_note_ids_by_deck deck_id))
    pub confirmed : Preserves P (within (confirmed s cfg dry_run))
    pub workers :
        (apply : Template) (ids : List ℤ) → Preserves P (start_pool s (schedule apply) ids)
    pub backup : dry_run ≡ false → Preserves P (within (ensure_backup s cfg))
    pub batches :
        dry_run ≡ false
        → (items : List Processed) → Preserves P (within (write_batches s (length items) items))
    pub reports :
        (path : Text) (rs : List DiffRecord) (m : DryRunSummary)
        → Preserves P (within (report_to s s.write_report path rs m))

  module _ (s : Services W) (cfg : Settings) (dry_run : Bool)
      (schedule : Template → List ℤ → W → Pool W) (h : HasRule s cfg dry_run schedule) where
    failing_rule :
        {A : Type 0} (total : ℕ) (o : Outcome A) (c : Cleaning W) → P c → P (failing total (o, c)).1
    unfolding failing
    failing_rule total (ok a) c k = k
    failing_rule total (fail e) c k = h.report total (codes "failed") c k

    reporting_rule :
        {A : Type 0} (total : ℕ) (m : Action (Cleaning W) A)
        → Preserves P m
        → Preserves P (reporting total m)
    unfolding reporting
    reporting_rule total m k c p = failing_rule total (m c).0 (m c).1 (k c p)

    collect_rule : (total : ℕ) (rs : List Processed) → Preserves P (collect total rs)
    unfolding collect
    collect_rule total [] c k = k
    collect_rule total (r ∷ rs) c k =
        collect_rule total rs _ (h.report total (codes "transforming") _ (h.tally r c k))

    check_error_rule : (total : ℕ) (e : Option Err) → Preserves P (check_error total e)
    unfolding check_error
    check_error_rule total none c k = k
    check_error_rule total (some e) c k = h.report total (codes "failed") _ (h.error c k)

    write_stage_rule :
        (dry : Bool)
        → dry_run ≡ dry
        → (total : ℕ) (items : List Processed) → Preserves P (write_stage s cfg dry total items)
    unfolding write_stage
    write_stage_rule true e total items = λ c k. k
    write_stage_rule false e total items =
        let backup : Action W (Unit {0}) = ensure_backup s cfg in
        let write : Action W (Unit {0}) = write_batches s (length items) items in
        (seq P (report total (codes "writing"), h.report total (codes "writing"))
          (seq P
            (reporting total (within backup), reporting_rule total (within backup) (h.backup e))
            (
              reporting total (within write),
              reporting_rule total (within write) (h.batches e items),
            ))).1

    report_stage_rule :
        (total : ℕ) (rs : List DiffRecord) → Preserves P (report_stage s cfg total rs)
    unfolding report_stage
    report_stage_rule total rs c =
        reporting_rule total (within (report_to s s.write_report cfg.report_file rs c.summary))
          (h.reports cfg.report_file rs c.summary) c

    consume_rule : (total : ℕ) (pool : Pool W) → Preserves P (consume s cfg dry_run total pool)
    unfolding consume
    consume_rule total pool =
        let written = keep has_records pool.results in
        let records = all_records pool.results in
        (seq P (collect total pool.results, collect_rule total pool.results)
          (seq P
            (
              (λ c. report total (transformed_stage total c.summary) c),
              (λ c. h.report total (transformed_stage total c.summary) c),
            )
            (seq P (check_error total pool.error, check_error_rule total pool.error)
              (seq P
                (
                  write_stage s cfg dry_run total written,
                  write_stage_rule dry_run refl total written,
                )
                (seq P (report_stage s cfg total records, report_stage_rule total records)
                  (seq P (report total (codes "finished"), h.report total (codes "finished"))
                    ((λ c. (ok (s.render records c.summary cfg.full_diff), c)), (λ c k. k)))))))).1

    pub run_cleaner_rule :
        (deck_id : ℤ) (template_id : Text) (w : W)
        → P (record { world = w; summary = no_summary; reports = [] })
        → P (run_cleaner s cfg deck_id dry_run template_id schedule w).1
    unfolding run_cleaner
    run_cleaner_rule deck_id template_id w =
        (chain P (lift (template s template_id), (λ c k. k))
            λ apply.
              chain P (within (s.notes.list_note_ids_by_deck deck_id), h.ids deck_id)
                λ ids.
                  seq P
                    (report (length ids) (codes "started"), h.report (length ids) (codes "started"))
                    (seq P (within (confirmed s cfg dry_run), h.confirmed)
                      (chain P (start_pool s (schedule apply) ids, h.workers apply ids)
                        λ pool. (
                          consume s cfg dry_run (length ids) pool,
                          consume_rule (length ids) pool,
                        )))).1
          _

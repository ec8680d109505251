-- ===== src/Services/Cleaner/Finished.antt =====
-- The summary of a run that ends well.
use ankiced.Base.{
  ◌≡◌, ◌<◌, ◌+◌, refl, sym, ap, ◌∙◌, ℕ, suc, ℤ, eq_ℤ, eq_ℤ_iff, Bool, true, false, none, List, [],
  ◌∷◌, length, length-map, keep, Bool-cases, Option-cases, inl, inr, if◌then◌else◌, arith,
}
use ankiced.Text.{Text, codes}
use ankiced.Domain.{DiffRecord, DryRunSummary, no_summary}
use ankiced.Config.{Settings}
use ankiced.Action.{Outcome, ok, fail, Action, ◌>>◌, Keeps, bind-Keeps, Outcome-cases}
use ankiced.Services.Ports.{Services, Template, template, ensure_backup}
use ankiced.Services.Ports.Reads.{IsReadOnly}
use ankiced.Services.Notes.RoundTrip.{answers}
use ankiced.Services.Pool.{Processed, Pool, new_pool, worker_count, IsFinal, Steps}
use ankiced.Services.Pool.Complete.{count, ids_of, run_complete}
use ankiced.Services.Cleaner.{
  Cleaning, report, within, failing, reporting, has_records, tally, collect, transformed_stage,
  check_error, all_records, write_batches, confirmed, write_stage, report_to, report_stage, consume,
  run_cleaner, progress_from_summary,
}

abbrev without : ℤ → List ℤ → List ℤ
without x [] = []
without x (y ∷ ys) = let rest = without x ys in if eq_ℤ x y then ys else y ∷ rest

count-without :
    (x z : ℤ) (ys : List ℤ)
    → 0 < count x ys
    → count z (without x ys) + count z (x ∷ []) ≡ count z ys
count-without x z [] h = absurd (omega arith)
count-without x z (y ∷ ys) h = elim (Bool-cases (eq_ℤ x y)) [
  | inl e ↦ rw e (let p : eq_ℤ z x ≡ eq_ℤ z y = ap (eq_ℤ z) ((eq_ℤ_iff x y).0 e) in ground arith)
  | inr e ↦
      let k : 0 < count x ys = ground arith in
      rw e (let ih = count-without x z ys k in ground arith)
]

length-without : (x : ℤ) (ys : List ℤ) → 0 < count x ys → suc (length (without x ys)) ≡ length ys
length-without x [] h = absurd (omega arith)
length-without x (y ∷ ys) h = ground (arith, length-without x ys)

-- Lists in which every id stands equally often are equally long.
length_of_counts : (xs ys : List ℤ) → ((x : ℤ) → count x xs ≡ count x ys) → length xs ≡ length ys
length_of_counts [] [] h = refl
length_of_counts [] (y ∷ ys) h = absurd (let k = h y in ground (arith, eq_ℤ_iff y y))
length_of_counts (x ∷ xs) ys h =
    let same : eq_ℤ x x ≡ true = (eq_ℤ_iff x x).1 refl in
    let own = h x in
    let k : 0 < count x ys = ground arith in
    let rest : (z : ℤ) → count z xs ≡ count z (without x ys) =
      λ z. let e = h z in let f = count-without x z ys k in ground arith in
    omega (arith, length-without x ys k, length_of_counts xs (without x ys) rest)

tally_processed : (r : Processed) (m : DryRunSummary) → (tally r m).processed ≡ suc m.processed
unfolding tally
tally_processed r m = ground arith

module _ {W : Type 0} where
  abbrev the_summary : Cleaning W → DryRunSummary
  the_summary c = c.summary

  failing-Keeps :
      {A : Type 0} (total : ℕ) (o : Outcome A) (c : Cleaning W)
      → the_summary (failing total (o, c)).1 ≡ c.summary
  unfolding failing report
  failing-Keeps total (ok a) c = refl
  failing-Keeps total (fail e) c = refl

  reporting-Keeps :
      {A : Type 0} (total : ℕ) (m : Action (Cleaning W) A)
      → Keeps the_summary m
      → Keeps the_summary (reporting total m)
  unfolding reporting
  reporting-Keeps total m k c = failing-Keeps total (m c).0 (m c).1 ∙ k c

  collect_ok : (total : ℕ) (rs : List Processed) (c : Cleaning W) → (collect total rs c).0 ≡ ok tt
  unfolding collect
  collect_ok total [] c = refl
  collect_ok total (r ∷ rs) c = collect_ok total rs _

  collect_processed :
      (total : ℕ) (rs : List Processed) (c : Cleaning W)
      → (collect total rs c).1.summary.processed ≡ c.summary.processed + length rs
  unfolding collect report
  collect_processed total [] c = omega arith
  collect_processed total (r ∷ rs) c =
      omega (arith, collect_processed total rs _, tally_processed r c.summary)

  module _ (s : Services W) where
    within-Keeps : {A : Type 0} (m : Action W A) → Keeps the_summary (within m)
    within-Keeps m c = refl

    report-Keeps : (total : ℕ) (stage : Text) → Keeps the_summary (report {W = W} total stage)
    unfolding report
    report-Keeps total stage c = refl

    write_stage-Keeps :
        (cfg : Settings) (dry : Bool) (total : ℕ) (items : List Processed)
        → Keeps the_summary (write_stage s cfg dry total items)
    unfolding write_stage
    write_stage-Keeps cfg true total items = λ c. refl
    write_stage-Keeps cfg false total items =
        let backup : Action W (Unit {0}) = ensure_backup s cfg in
        let write : Action W (Unit {0}) = write_batches s (length items) items in
        bind-Keeps the_summary (report total (codes "writing"))
          (λ _. reporting total (within backup) >> reporting total (within write))
          (report-Keeps total (codes "writing"))
          λ _.
            bind-Keeps the_summary (reporting total (within backup))
              (λ _. reporting total (within write))
              (reporting-Keeps total (within backup) (within-Keeps backup))
              λ _. reporting-Keeps total (within write) (within-Keeps write)

    report_stage-Keeps :
        (cfg : Settings) (total : ℕ) (rs : List DiffRecord)
        → Keeps the_summary (report_stage s cfg total rs)
    unfolding report_stage
    report_stage-Keeps cfg total rs c =
        reporting-Keeps total (within (report_to s s.write_report cfg.report_file rs c.summary))
          (within-Keeps (report_to s s.write_report cfg.report_file rs c.summary)) c

    -- What follows the select on errCh.
    abbrev tail : Settings → Bool → ℕ → Pool W → Action (Cleaning W) Text
    unfolding write_stage report_stage report
    tail cfg dry total pool =
        write_stage s cfg dry total (keep has_records pool.results)
        >> (report_stage s cfg total (all_records pool.results)
            >> (report total (codes "finished")
                >> (λ c. (ok (s.render (all_records pool.results) c.summary cfg.full_diff), c))))

    tail-Keeps :
        (cfg : Settings) (dry : Bool) (total : ℕ) (pool : Pool W)
        → Keeps the_summary (tail cfg dry total pool)
    unfolding tail
    tail-Keeps cfg dry total pool =
        let last : Action (Cleaning W) Text =
          λ c. (ok (s.render (all_records pool.results) c.summary cfg.full_diff), c) in
        let ending : Action (Cleaning W) Text = report total (codes "finished") >> last in
        let reported : Action (Cleaning W) Text =
          report_stage s cfg total (all_records pool.results) >> ending in
        bind-Keeps the_summary (write_stage s cfg dry total (keep has_records pool.results))
          (λ _. reported) (write_stage-Keeps cfg dry total (keep has_records pool.results))
          λ _.
            bind-Keeps the_summary (report_stage s cfg total (all_records pool.results))
              (λ _. ending) (report_stage-Keeps cfg total (all_records pool.results))
              λ _.
                bind-Keeps the_summary (report total (codes "finished")) (λ _. last)
                  (report-Keeps total (codes "finished")) (λ _ c. refl)

    consume_ok :
        (cfg : Settings) (dry : Bool) (total : ℕ) (pool : Pool W) (c : Cleaning W) (out : Text)
        → (consume s cfg dry total pool c).0 ≡ ok out
        → (pool.error ≡ none)
          × ((consume s cfg dry total pool c).1.summary ≡ (collect total pool.results c).1.summary)
    unfolding consume check_error report tail
    consume_ok cfg dry total pool c out h = elim (Option-cases pool.error) [
      | inr (e, k) ↦ absurd (let z = rw (collect_ok total pool.results c, k) at h in cc)
      | inl k ↦
          rw (collect_ok total pool.results c, k)
            (
              refl,
              tail-Keeps cfg dry total pool
                  (report total (transformed_stage total (collect total pool.results c).1.summary)
                    (collect total pool.results c).1).1,
            )
    ]

    -- If reading changes nothing that the queries answer and the caller does not cancel the context,
    -- so that the workers' run is over and cancelled by an error alone, then a run of the cleaner
    -- that returns no error has processed as many notes as were listed for the deck.
    pub run_cleaner-processed :
        (cfg : Settings) (deck_id : ℤ) (dry : Bool) (template_id : Text)
        (schedule : Template → List ℤ → W → Pool W) (w : W) (out : Text)
        → IsReadOnly (answers s) s
        → ((apply : Template) (ids : List ℤ) (w : W)
            → Steps s apply (new_pool (worker_count cfg.workers) ids w) (schedule apply ids w)
              × IsFinal (schedule apply ids w)
              × ((schedule apply ids w).error ≡ none → (schedule apply ids w).cancelled ≡ false))
        → (run_cleaner s cfg deck_id dry template_id schedule w).0 ≡ ok out
        → (ids : List ℤ) × ((s.notes.list_note_ids_by_deck deck_id w).0 ≡ ok ids)
          × ((run_cleaner s cfg deck_id dry template_id schedule w).1.summary.processed
              ≡ length ids)
    unfolding run_cleaner report
    run_cleaner-processed cfg deck_id dry template_id schedule w out h runs good =
        let w1 = (s.notes.list_note_ids_by_deck deck_id w).1 in
        let w2 = (confirmed s cfg dry w1).1 in
        elim (Outcome-cases (template s template_id)) [
          | inr (e, t) ↦ absurd (let z = rw t at good in cc)
          | inl (apply, t) ↦ elim (Outcome-cases (s.notes.list_note_ids_by_deck deck_id w).0) [
            | inr (e, l) ↦ absurd (let z = rw (t, l) at good in cc)
            | inl (ids, l) ↦ elim (Outcome-cases (confirmed s cfg dry w1).0) [
              | inr (e, k) ↦ absurd (let z = rw (t, l, k) at good in cc)
              | inl (tt, k) ↦
                  let pool = schedule apply ids w2 in
                  let (run, over, calm) = runs apply ids w2 in
                  let c0 : Cleaning W = record {
                    world = pool.world;
                    summary = no_summary;
                    reports = progress_from_summary (length ids) (codes "started") no_summary ∷ [];
                  } in
                  let z : (consume s cfg dry (length ids) pool c0).0 ≡ ok out =
                    rw (t, l, k) at good in
                  let (quiet, sum) = consume_ok cfg dry (length ids) pool c0 out z in
                  let all =
                    run_complete s apply h (worker_count cfg.workers) ids w2 pool run over
                      (calm quiet) in
                  let long : length pool.results ≡ length ids =
                    sym (length-map (λ r. r.note_id) pool.results)
                    ∙ length_of_counts (ids_of pool.results) ids all.2 in
                  let counted = collect_processed (length ids) pool.results c0 in
                  let every : (collect (length ids) pool.results c0).1.summary.processed
                      ≡ length ids =
                    omega (arith, counted, long) in
                  (ids, l, rw (t, l, k) (ap (λ m. m.processed) sum ∙ every))
            ]
          ]
        ]

-- ===== src/Services/Cleaner/Effects.antt =====
-- Runs that must not change the collection.
use ankiced.Base.{
  ◌≡◌, refl, ◌∙◌, ℕ, ℤ, Bool, true, false, ◌||◌, Option, none, some, List, Bool-cases, inl, inr,
}
use ankiced.Text.{Text, is_empty}
use ankiced.Errors.{sentinel, application, operation_cancelled}
use ankiced.Domain.{DiffRecord, DryRunSummary}
use ankiced.Config.{Settings}
use ankiced.Action.{ok, fail, Action, lift, Keeps, bind-Keeps}
use ankiced.Services.Ports.{Services, Template, template}
use ankiced.Services.Ports.Reads.{IsReadOnly, KeepsReports}
use ankiced.Services.Decks.{need}
use ankiced.Services.Notes.{get_note, clean_fields}
use ankiced.Services.Notes.Laws.{get_note-Keeps}
use ankiced.Services.Pool.{
  Pool, sent, Step, feed, feed_end, feed_stop, finish, break, panic, interrupt, cancel, Steps, done,
  next, new_pool, transform, worker_count,
}
use ankiced.Services.Cleaner.{prompt, confirmed, report, report_to, run_cleaner}
use ankiced.Services.Cleaner.Rule.{run_cleaner_rule}

module _ {W V : Type 0} (view : W → V) (s : Services W) (h : IsReadOnly view s) where
  transform-Keeps : (apply : Template) (id : ℤ) → Keeps view (transform s apply id)
  unfolding transform
  transform-Keeps apply id =
      bind-Keeps view (get_note s id) (λ n. lift (sent id (clean_fields apply n.id n.fields)))
        (get_note-Keeps view s h id) (λ n w. refl)

  Step-Keeps : (apply : Template) (p q : Pool W) → Step s apply p q → view q.world ≡ view p.world
  Step-Keeps apply p _ (feed id rest n f w i) = refl
  Step-Keeps apply p _ (feed_end f w) = refl
  Step-Keeps apply p _ (feed_stop f c) = refl
  Step-Keeps apply p _ (finish before after id r t e) = transform-Keeps apply id p.world
  Step-Keeps apply p _ (break before after id e t g) = transform-Keeps apply id p.world
  Step-Keeps apply p _ (panic before after id text t) = get_note-Keeps view s h id p.world
  Step-Keeps apply p _ (interrupt before after id e t g) = refl
  Step-Keeps apply p _ (cancel c) = refl

  Steps-Keeps : (apply : Template) (p q : Pool W) → Steps s apply p q → view q.world ≡ view p.world
  Steps-Keeps apply p _ done = refl
  Steps-Keeps apply p r (next {q = q} st rest) =
      Steps-Keeps apply q r rest ∙ Step-Keeps apply p q st

  confirmed-Keeps : (cfg : Settings) (dry_run : Bool) → Keeps view (confirmed s cfg dry_run)
  unfolding confirmed
  confirmed-Keeps cfg dry_run w = elim (Bool-cases (dry_run || cfg.force_apply)) [
    | inl e ↦ rw e refl
    | inr e ↦ rw e (
        bind-Keeps view (s.confirm (prompt s))
          (λ agreed. lift (need agreed (sentinel (application operation_cancelled))))
          (h.confirm (prompt s)) (λ a w. refl) w)
  ]

  report_to-Keeps :
      (o : Option (Text → List DiffRecord → DryRunSummary → Action W (Unit {0})))
      → KeepsReports view o
      → (path : Text) (rs : List DiffRecord) (m : DryRunSummary)
      → Keeps view (report_to s o path rs m)
  unfolding report_to
  report_to-Keeps none k path rs m w = refl
  report_to-Keeps (some write) k path rs m w = elim (Bool-cases (is_empty path)) [
    | inl e ↦ rw e refl
    | inr e ↦ rw e (k path rs m w)
  ]

  -- The schedule is a run of the workers from its beginning.
  abbrev pub IsRun : (workers : ℕ) → (Template → List ℤ → W → Pool W) → Type 0
  IsRun workers schedule =
      (apply : Template) (ids : List ℤ) (w : W)
      → Steps s apply (new_pool workers ids w) (schedule apply ids w)

  -- If the reading ports, the reports and the backups change nothing that `view` shows, a dry run
  -- changes nothing of it either, whatever the workers do and whatever fails.
  pub run_cleaner-dry_run :
      (cfg : Settings) (deck_id : ℤ) (template_id : Text)
      (schedule : Template → List ℤ → W → Pool W) (w : W)
      → IsRun (worker_count cfg.workers) schedule
      → view (run_cleaner s cfg deck_id true template_id schedule w).1.world ≡ view w
  run_cleaner-dry_run cfg deck_id template_id schedule w run =
      run_cleaner_rule (λ c. view c.world ≡ view w) s cfg true schedule
        (record {
          report = λ total stage c k. unfold report in k;
          tally = λ r c k. k;
          error = λ c k. k;
          ids = λ id c k. h.list_note_ids_by_deck id c.world ∙ k;
          confirmed = λ c k. confirmed-Keeps cfg true c.world ∙ k;
          workers = λ apply ids c k. Steps-Keeps apply _ _ (run apply ids c.world) ∙ k;
          backup = λ e. cc;
          batches = λ e. cc;
          reports = λ path rs m c k. report_to-Keeps s.write_report h.reports path rs m c.world ∙ k;
        })
        deck_id template_id w refl

  -- If the reading ports change nothing that `view` shows, then where the template and the notes are
  -- found and the user, who has to be asked, declines, the run ends with ErrOperationCancelled in
  -- the state that the question left, without a start of the workers or a change that shows.
  pub run_cleaner-declined :
      (cfg : Settings) (deck_id : ℤ) (template_id : Text)
      (schedule : Template → List ℤ → W → Pool W) (w : W) (apply : Template) (ids : List ℤ)
      → cfg.force_apply ≡ false
      → template s template_id ≡ ok apply
      → (s.notes.list_note_ids_by_deck deck_id w).0 ≡ ok ids
      → (s.confirm (prompt s) (s.notes.list_note_ids_by_deck deck_id w).1).0 ≡ ok false
      → let (o, c) = run_cleaner s cfg deck_id false template_id schedule w in
        (o ≡ fail (sentinel (application operation_cancelled)))
        × (c.world ≡ (s.confirm (prompt s) (s.notes.list_note_ids_by_deck deck_id w).1).1)
        × (view c.world ≡ view w)
  unfolding run_cleaner report confirmed
  run_cleaner-declined cfg deck_id template_id schedule w apply ids forced found listed declined =
      rw (found, listed, forced, declined)
        (
          refl,
          refl,
          h.confirm (prompt s) (s.notes.list_note_ids_by_deck deck_id w).1
              ∙ h.list_note_ids_by_deck deck_id w,
        )

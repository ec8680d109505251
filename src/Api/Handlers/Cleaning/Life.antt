-- ===== src/Api/Handlers/Cleaning/Life.antt =====
-- The life of a cleaner operation: what the goroutine does to it, with other calls in between.
use ankiced.Base.{◌≡◌, ◌≢◌, refl, ap, ◌∙◌, inl, inr, List, [], ◌∷◌, ◌++◌, map, Bool-cases}
use mathlib.Core.Option
use ankiced.Text.{Text, codes}
use ankiced.Errors.{external}
use ankiced.Domain.{CleanerProgress}
use ankiced.Action.{ok, fail}
use ankiced.Api.Operations.{Operation, finished, broken, reported}
use ankiced.Api.Operations.Contract.{Request, succeeds, fails, reports, target, apply, run}
use ankiced.Api.Site.{Site, Machine, Job}
use ankiced.Api.Handlers.Cleaning.{
  Ending, returned, panicked, JobEvent, is_logged_stage, progress_events, ending_events, job_events,
  begin_event, perform, perform_all,
}

-- Its last call.
abbrev pub last_call : Text → Text → Ending → Request
last_call id now (returned (ok out) summary) = succeeds id out summary now
last_call id now (returned (fail e) summary) = fails id e now
last_call id now (panicked value) =
    fails id (external (codes "cleaner operation panicked: " ++ value)) now

-- The calls `rs` on the store are the reports `ps` of an operation, in their order, with calls about
-- other ids between them.
pub data Reported (id : Text) : List CleanerProgress → List Request → Type 0 where
  all_reported : Reported id [] []
  own_report :
      {p : CleanerProgress} {ps : List CleanerProgress} {rs : List Request}
      → Reported id ps rs
      → Reported id (p ∷ ps) (reports id p ∷ rs)
  other_call :
      {r : Request} {ps : List CleanerProgress} {rs : List Request}
      → target r ≢ id
      → Reported id ps rs
      → Reported id ps (r ∷ rs)

-- How the operation looks after these reports.
abbrev pub after_reports : List CleanerProgress → Operation → Operation
after_reports [] op = op
after_reports (p ∷ ps) op = after_reports ps (reported p op)

-- How it looks at the end.
abbrev pub ended : Text → Text → Ending → Operation → Operation
ended id now (returned (ok out) summary) op = finished now out summary op
ended id now (returned (fail e) summary) op = broken id now e op
ended id now (panicked value) op =
    broken id now (external (codes "cleaner operation panicked: " ++ value)) op

module _ {W : Type 0} (m : Machine W) (j : Job) where
  perform_all-append :
      (es fs : List JobEvent) (σ : Site W)
      → perform_all m j (es ++ fs) σ ≡ perform_all m j fs (perform_all m j es σ)
  unfolding perform_all
  perform_all-append [] fs σ = refl
  perform_all-append (e ∷ es) fs σ = perform_all-append es fs (perform m j e σ)

  ops-progress_events :
      (ps : List CleanerProgress) (σ : Site W)
      → (perform_all m j (progress_events ps) σ).ops ≡ run (map (reports j.id) ps) σ.ops
  unfolding perform_all perform progress_events run apply
  ops-progress_events [] σ = refl
  ops-progress_events (p ∷ ps) σ = elim (Bool-cases (is_logged_stage p.stage)) [
    | inl shown ↦ rw shown (ops-progress_events ps _)
    | inr silent ↦ rw silent (ops-progress_events ps _)
  ]

  ops-ending_events :
      (ending : Ending) (σ : Site W)
      → (t : Text) × ((perform_all m j (ending_events ending) σ).ops
          ≡ apply (last_call j.id t ending) σ.ops)
  unfolding perform_all perform ending_events apply
  ops-ending_events (returned (ok out) summary) σ = (_, refl)
  ops-ending_events (returned (fail e) summary) σ = (_, refl)
  ops-ending_events (panicked value) σ = (_, refl)

  -- The goroutine of an operation makes one call on the store for each report of progress and one at
  -- its end, all with the id of the operation.
  pub ops-job_events :
      (ps : List CleanerProgress) (ending : Ending) (σ : Site W)
      → (t : Text) × ((perform_all m j (job_events j ps ending) σ).ops
          ≡ apply (last_call j.id t ending) (run (map (reports j.id) ps) σ.ops))
  unfolding job_events perform_all perform
  ops-job_events ps ending σ =
      let begun : Site W = perform m j (begin_event j) σ in
      let (t, e) = ops-ending_events ending (perform_all m j (progress_events ps) begun) in
      (
        t,
        ap (λ τ. τ.ops) (perform_all-append (progress_events ps) (ending_events ending) begun)
            ∙ e
            ∙ ap (apply (last_call j.id t ending)) (ops-progress_events ps begun),
      )

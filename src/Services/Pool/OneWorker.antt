-- ===== src/Services/Pool/OneWorker.antt =====
-- A run of the workers in which one worker does everything, in the order of the ids.
use ankiced.Base.{◌≡◌, none, refl, ℤ, false, List, [], ◌∷◌, ◌++◌, inl, inr}
use ankiced.Errors.{Err}
use ankiced.Action.{ok, fail, Outcome-cases}
use ankiced.Services.Ports.{Services, Template}
use ankiced.Services.Pool.{
  Processed, Pool, new_pool, IsFinal, report_err, transform, feed, feed_end, feed_stop, finish,
  break, Steps, done, next,
}

module _ {W : Type 0} (s : Services W) (apply : Template) where
  abbrev at : List ℤ → List Processed → W → Pool W
  at ids results w = record (new_pool 1 ids w) { results = results }

  abbrev failed : List ℤ → List Processed → W → Err → Pool W
  failed ids results w e = record (report_err e (at ids results w)) { idle = 0; feeding = false }

  unfoldable work : List ℤ → List Processed → W → Pool W
  unfolding transform
  work [] results w = record (at [] results w) { feeding = false }
  work (id ∷ ids) results w = elim (transform s apply id w).0 [
    | ok r ↦ work ids (results ++ r ∷ []) (transform s apply id w).1
    | fail e ↦ failed ids results (transform s apply id w).1 e
  ]

  work_run :
      (ids : List ℤ) (results : List Processed) (w : W)
      → Steps s apply (at ids results w) (work ids results w)
  unfolding work
  work_run [] results w = next (feed_end refl refl) done
  work_run (id ∷ ids) results w =
      next (feed id ids 0 refl refl refl) (elim (Outcome-cases (transform s apply id w).0) [
        | inl (r, e) ↦
            rw (e, work)
              (next (finish [] [] id r refl e)
                (work_run ids (results ++ r ∷ []) (transform s apply id w).1))
        | inr (x, e) ↦
            rw (e, work) (next (break [] [] id x refl e) (next (feed_stop refl refl) done))
      ])

  work_over :
      (ids : List ℤ) (results : List Processed) (w : W)
      → IsFinal (work ids results w)
        × ((work ids results w).error ≡ none → (work ids results w).cancelled ≡ false)
  unfolding work
  work_over [] results w = ((refl, refl), (λ _. refl))
  work_over (id ∷ ids) results w = elim (Outcome-cases (transform s apply id w).0) [
    | inl (r, e) ↦ rw (e, work) (work_over ids (results ++ r ∷ []) (transform s apply id w).1)
    | inr (x, e) ↦ rw (e, work) ((refl, refl), (λ h. cc))
  ]

  unfoldable pub one_worker : List ℤ → W → Pool W
  unfolding work
  one_worker ids w = work ids [] w

  pub one_worker_run : (ids : List ℤ) (w : W) → Steps s apply (new_pool 1 ids w) (one_worker ids w)
  unfolding one_worker
  one_worker_run ids w = work_run ids [] w

  pub one_worker_over :
      (ids : List ℤ) (w : W)
      → IsFinal (one_worker ids w)
        × ((one_worker ids w).error ≡ none → (one_worker ids w).cancelled ≡ false)
  unfolding one_worker
  one_worker_over ids w = work_over ids [] w

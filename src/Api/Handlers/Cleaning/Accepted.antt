-- ===== src/Api/Handlers/Cleaning/Accepted.antt =====
-- A request that starts a cleaner operation, and the poll that follows it.
use ankiced.Base.{◌≡◌, refl, pos, leb_ℤ, Bool, true, false, not, ◌&&◌, ◌||◌, [], ◌∷◌, ◌++◌, arith}
use ankiced.Text.{Text, codes}
use ankiced.Api.Operations as Operations
use ankiced.Api.Operations.{started, running}
use ankiced.Api.Site.{
  post, Request, accepted, CleanerRequest, decoded, Site, Machine, ◌>>=◌, next, stop_if,
  body_or_stop, pure,
}
use ankiced.Api.Site.Ids.{id_at}
use ankiced.Api.Handlers.Cleaning.{op_name, job_of, handle_cleaner_run}

module _ {W : Type 0} (m : Machine W) (r : Request) (dry_run : Bool) (q : CleanerRequest)
    (σ : Site W) where
  -- The site after an accepted request.
  pub record IsAccepted (τ : Site W) : Type 0 where
    pub time : Text
    pub reply :
        τ.replies
        ≡ record {
          status = 202;
          content_type = σ.content_type;
          payload = accepted (id_at m σ) running dry_run (codes "/api/v1/operations/" ++ id_at m σ);
        }
          ∷ σ.replies
    pub jobs : τ.jobs ≡ σ.jobs ++ job_of (id_at m σ) dry_run q σ.shared.cfg ∷ []
    pub ops : τ.ops ≡ Operations.create (id_at m σ) (op_name dry_run) time σ.ops

  pub handle_cleaner_run-IsAccepted :
      r.method ≡ post
      → m.decode_run r.body ≡ decoded q
      → leb_ℤ q.deck_id (pos 0) ≡ false
      → (dry_run || q.confirm) ≡ true
      → IsAccepted (handle_cleaner_run m r dry_run σ).1
  unfolding handle_cleaner_run ◌>>=◌ next stop_if body_or_stop pure
  handle_cleaner_run-IsAccepted is_post body positive confirmed =
      let may : (not dry_run && not q.confirm) ≡ false = ground arith in
      rw (is_post, body, positive, may, ◌>>=◌, next)
        (record { time = _; reply = refl; jobs = refl; ops = refl })

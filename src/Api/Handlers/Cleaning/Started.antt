-- ===== src/Api/Handlers/Cleaning/Started.antt =====
-- Which requests start a goroutine of the cleaner.
use ankiced.Base.{
  ◌≡◌, refl, ◌⊎◌, inl, inr, pos, leb_ℤ, Bool, true, false, not, ◌&&◌, ◌||◌, [], ◌∷◌, ◌++◌,
  Bool-cases, arith,
}
use ankiced.Api.Site.{
  get, post, patch, other_method, Method, Request, CleanerRequest, Decoded, decoded, undecoded,
  too_large, malformed, BodyError, Site, Machine, same_method, ◌>>=◌, next, stop, stop_if,
  body_or_stop, pure, write_decode_error,
}
use ankiced.Api.Site.Ids.{id_at}
use ankiced.Api.Handlers.Cleaning.{job_of, handle_cleaner_run}
use ankiced.Api.Handlers.Cleaning.Accepted.{handle_cleaner_run-IsAccepted}

module _ {W : Type 0} (m : Machine W) where
  same_post : (k : Method) → same_method m k post ≡ true → k ≡ post
  same_post get h = cc
  same_post post h = refl
  same_post patch h = cc
  same_post (other_method _) h = cc

module _ {W : Type 0} (m : Machine W) (r : Request) (dry_run : Bool) (σ : Site W) where
  -- Nothing was started.
  abbrev pub IsRejected : Site W → Type 0
  IsRejected τ = (τ.jobs ≡ σ.jobs) × (τ.ops ≡ σ.ops) × (τ.shared.cfg ≡ σ.shared.cfg)

  -- A goroutine was started for a request that passes all tests.
  pub record HasStarted (τ : Site W) : Type 0 where
    pub request : CleanerRequest
    pub method : r.method ≡ post
    pub body : m.decode_run r.body ≡ decoded request
    pub positive : leb_ℤ request.deck_id (pos 0) ≡ false
    pub confirmed : (dry_run || request.confirm) ≡ true
    pub jobs : τ.jobs ≡ σ.jobs ++ job_of (id_at m σ) dry_run request σ.shared.cfg ∷ []

  wrong_method :
      same_method m r.method post ≡ false → IsRejected (handle_cleaner_run m r dry_run σ).1
  unfolding handle_cleaner_run ◌>>=◌ next stop_if body_or_stop pure stop
  wrong_method e = rw (e, ◌>>=◌, next) (refl, refl, refl)

  bad_body :
      same_method m r.method post ≡ true
      → (e : BodyError) → m.decode_run r.body ≡ undecoded e
      → IsRejected (handle_cleaner_run m r dry_run σ).1
  unfolding handle_cleaner_run ◌>>=◌ next stop_if body_or_stop pure stop write_decode_error
  bad_body h (too_large text) e = rw (h, e, ◌>>=◌, next) (refl, refl, refl)
  bad_body h (malformed text) e = rw (h, e, ◌>>=◌, next) (refl, refl, refl)

  bad_deck :
      (q : CleanerRequest)
      → same_method m r.method post ≡ true
      → m.decode_run r.body ≡ decoded q
      → leb_ℤ q.deck_id (pos 0) ≡ true
      → IsRejected (handle_cleaner_run m r dry_run σ).1
  unfolding handle_cleaner_run ◌>>=◌ next stop_if body_or_stop pure stop
  bad_deck q h e k = rw (h, e, k, ◌>>=◌, next) (refl, refl, refl)

  unconfirmed :
      (q : CleanerRequest)
      → same_method m r.method post ≡ true
      → m.decode_run r.body ≡ decoded q
      → leb_ℤ q.deck_id (pos 0) ≡ false
      → (dry_run || q.confirm) ≡ false
      → IsRejected (handle_cleaner_run m r dry_run σ).1
  unfolding handle_cleaner_run ◌>>=◌ next stop_if body_or_stop pure stop
  unconfirmed q h e k c =
      let must : (not dry_run && not q.confirm) ≡ true = ground arith in
      rw (h, e, k, must, ◌>>=◌, next) (refl, refl, refl)

  with_body :
      same_method m r.method post ≡ true
      → (d : Decoded CleanerRequest) → m.decode_run r.body ≡ d
      → IsRejected (handle_cleaner_run m r dry_run σ).1
        ⊎ HasStarted (handle_cleaner_run m r dry_run σ).1
  with_body h (undecoded e) d = inl (bad_body h e d)
  with_body h (decoded q) d = elim (Bool-cases (leb_ℤ q.deck_id (pos 0))) [
    | inl k ↦ inl (bad_deck q h d k)
    | inr k ↦ elim (Bool-cases (dry_run || q.confirm)) [
      | inr c ↦ inl (unconfirmed q h d k c)
      | inl c ↦
          let is_post = same_post m r.method h in
          inr (record {
            request = q;
            method = is_post;
            body = d;
            positive = k;
            confirmed = c;
            jobs = (handle_cleaner_run-IsAccepted m r dry_run q σ is_post d k c).jobs;
          })
    ]
  ]

  -- A request to clean a deck either starts nothing and leaves the operations and the settings alone,
  -- or it is a POST whose body is decoded, of a positive deck, and a dry run or confirmed; then one
  -- goroutine is started with its settings.
  pub handle_cleaner_run_cases :
      IsRejected (handle_cleaner_run m r dry_run σ).1
      ⊎ HasStarted (handle_cleaner_run m r dry_run σ).1
  handle_cleaner_run_cases = elim (Bool-cases (same_method m r.method post)) [
    | inr other ↦ inl (wrong_method other)
    | inl h ↦ with_body h (m.decode_run r.body) refl
  ]

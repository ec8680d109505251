-- ===== src/Api/Server/Polling.antt =====
-- A cleaner operation over the API: its start and the polls that follow.
use ankiced.Base.{
  ◌≡◌, refl, ap, subst, sym, ◌∙◌, pos, leb_ℤ, Bool, true, false, ◌||◌, some, [], ◌∷◌, ◌++◌, any,
  ◌==◌,
}
use ankiced.Text.{Text, codes}
use ankiced.Services.Ports.{Services}
use ankiced.Api.Operations as Operations
use ankiced.Api.Operations.{Operation, started, running}
use ankiced.Api.Operations.Invariant.{IsValid}
use ankiced.Api.Operations.Contract.{get-create_self}
use ankiced.Api.Site.{
  get, post, Request, accepted, polled, CleanerRequest, decoded, Shared, Site, Machine, ◌>>=◌, next,
  stop_if, need_method, pure, write_json,
}
use ankiced.Api.Site.Ids.{id_at, rest_at, id_at-no_slash}
use ankiced.Api.Handlers.Pages.{get_operation, answer_poll, handle_operation_by_id}
use ankiced.Api.Handlers.Cleaning.{op_name, job_of, handle_cleaner_run}
use ankiced.Api.Handlers.Cleaning.Accepted.{IsAccepted, handle_cleaner_run-IsAccepted}
use ankiced.Api.Routes.{
  Route, to, operation_by_id, cleaner_dry_run, cleaner_apply, route, json_content_type,
}
use ankiced.Api.Server.{handle, dispatch, serve}

module _ {W : Type 0} (s : Services (Shared W)) (m : Machine W) where
  abbrev json : Text
  json = codes "application/json; charset=utf-8"

  -- A request whose path has the handler t, below /api/.
  serve_to :
      (r : Request) (σ : Site W) (p : Text) (t : Route)
      → r.path ≡ p
      → route p ≡ to t
      → json_content_type p ≡ json
      → serve s m r σ ≡ (handle s m t r (record σ { content_type = json })).1
  unfolding serve dispatch
  serve_to r σ p t path found typed =
      ap (λ x. (dispatch s m (route x) r (record σ { content_type = json_content_type x })).1) path
      ∙ ap (λ x. (dispatch s m x r (record σ { content_type = json_content_type p })).1) found
      ∙ ap (λ x. (handle s m t r (record σ { content_type = x })).1) typed

  poll_route : (rest : Text) → route (codes "/api/v1/operations/req-" ++ rest) ≡ to operation_by_id
  unfolding route
  poll_route rest = refl

  poll_typed : (rest : Text) → json_content_type (codes "/api/v1/operations/req-" ++ rest) ≡ json
  unfolding json_content_type
  poll_typed rest = refl

  poll_answer :
      (r : Request) (rest : Text) (op : Operation) (σ : Site W)
      → r.method ≡ get
      → r.path ≡ codes "/api/v1/operations/req-" ++ rest
      → any (λ c. c == b'/') (codes "req-" ++ rest) ≡ false
      → Operations.get (codes "req-" ++ rest) σ.ops ≡ some op
      → (handle_operation_by_id m r σ).1.replies
        ≡ record { status = 200; content_type = σ.content_type; payload = polled op } ∷ σ.replies
  unfolding handle_operation_by_id get_operation ◌>>=◌ next stop_if need_method pure answer_poll
      write_json
  poll_answer r rest op σ is_get path no_slash found =
      rw (is_get, path, no_slash, found, ◌>>=◌, next) refl

  poll_handled :
      (r : Request) (σ : Site W)
      → (handle s m operation_by_id r σ).1.replies ≡ (handle_operation_by_id m r σ).1.replies
  unfolding handle
  poll_handled r σ = refl

  poll_found :
      (r : Request) (rest : Text) (op : Operation) (σ : Site W)
      → r.method ≡ get
      → r.path ≡ codes "/api/v1/operations/req-" ++ rest
      → any (λ c. c == b'/') (codes "req-" ++ rest) ≡ false
      → Operations.get (codes "req-" ++ rest) σ.ops ≡ some op
      → (serve s m r σ).replies
        ≡ record { status = 200; content_type = json; payload = polled op } ∷ σ.replies
  poll_found r rest op σ is_get path no_slash found =
      ap (λ τ. τ.replies)
        (serve_to r σ (codes "/api/v1/operations/req-" ++ rest) operation_by_id path
          (poll_route rest) (poll_typed rest))
      ∙ poll_handled r (record σ { content_type = json })
      ∙ poll_answer r rest op (record σ { content_type = json }) is_get path no_slash found

  -- The endpoint of a dry run, and that of a run that writes.
  abbrev pub start_path : Bool → Text
  start_path true = codes "/api/v1/cleaner/dry-run"
  start_path false = codes "/api/v1/cleaner/apply"

  abbrev start_handler : Bool → Route
  start_handler true = cleaner_dry_run
  start_handler false = cleaner_apply

  start_route : (dry_run : Bool) → route (start_path dry_run) ≡ to (start_handler dry_run)
  unfolding route
  start_route true = refl
  start_route false = refl

  start_typed : (dry_run : Bool) → json_content_type (start_path dry_run) ≡ json
  unfolding json_content_type
  start_typed true = refl
  start_typed false = refl

  start_handled :
      (dry_run : Bool) (r : Request) (σ : Site W)
      → (handle s m (start_handler dry_run) r σ).1 ≡ (handle_cleaner_run m r dry_run σ).1
  unfolding handle
  start_handled true r σ = refl
  start_handled false r σ = refl

  serve_start_lem :
      (dry_run : Bool) (r : Request) (σ : Site W)
      → r.path ≡ start_path dry_run
      → serve s m r σ ≡ (handle_cleaner_run m r dry_run (record σ { content_type = json })).1
  serve_start_lem dry_run r σ path =
      serve_to r σ (start_path dry_run) (start_handler dry_run) path (start_route dry_run)
        (start_typed dry_run)
      ∙ start_handled dry_run r (record σ { content_type = json })

  -- A request to clean a deck, with a body that is decoded, a positive deck and, where it is no dry
  -- run, a confirmation.
  pub record IsStart (r : Request) (dry_run : Bool) (q : CleanerRequest) : Type 0 where
    pub method : r.method ≡ post
    pub path : r.path ≡ start_path dry_run
    pub body : m.decode_run r.body ≡ decoded q
    pub positive : leb_ℤ q.deck_id (pos 0) ≡ false
    pub confirmed : (dry_run || q.confirm) ≡ true

  serve_start :
      (r : Request) (dry_run : Bool) (q : CleanerRequest) (σ : Site W)
      → IsStart r dry_run q
      → IsAccepted m r dry_run q (record σ { content_type = json }) (serve s m r σ)
  serve_start r dry_run q σ h =
      subst (IsAccepted m r dry_run q (record σ { content_type = json }))
        (sym (serve_start_lem dry_run r σ h.path))
        (handle_cleaner_run-IsAccepted m r dry_run q (record σ { content_type = json }) h.method
          h.body h.positive h.confirmed)

  -- A request to clean a deck that passes the tests is accepted with an id, a goroutine with its
  -- settings is started, and a GET of the URL in the response gets the operation, running.
  pub serve_start-poll :
      (r : Request) (dry_run : Bool) (q : CleanerRequest) (p : Request) (σ : Site W)
      → IsValid σ.ops
      → IsStart r dry_run q
      → p.method ≡ get
      → p.path ≡ codes "/api/v1/operations/" ++ id_at m σ
      → ((serve s m r σ).replies
          ≡ record {
            status = 202;
            content_type = json;
            payload =
                accepted (id_at m σ) running dry_run (codes "/api/v1/operations/" ++ id_at m σ);
          }
            ∷ σ.replies)
        × ((serve s m r σ).jobs ≡ σ.jobs ++ job_of (id_at m σ) dry_run q σ.shared.cfg ∷ [])
        × ((t : Text) × ((serve s m p (serve s m r σ)).replies
              ≡ record {
                status = 200;
                content_type = json;
                payload = polled (started (id_at m σ) (op_name dry_run) t);
              }
                ∷ (serve s m r σ).replies))
  serve_start-poll r dry_run q p σ v h is_get path =
      let a = serve_start r dry_run q σ h in
      let there : Operations.get (id_at m σ) (serve s m r σ).ops
          ≡ some (started (id_at m σ) (op_name dry_run) a.time) =
        ap (Operations.get (id_at m σ)) a.ops
        ∙ get-create_self σ.ops (id_at m σ) (op_name dry_run) a.time v in
      (
        a.reply,
        a.jobs,
        (
          a.time,
          poll_found p (rest_at m σ) _ (serve s m r σ) is_get path (id_at-no_slash m σ) there,
        ),
      )

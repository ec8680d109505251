-- ===== src/Api/Site/Replies.antt =====
-- How many responses a part of a handler writes: none, one at the end, or one and then it returns.
use ankiced.Base.{◌≡◌, refl, ap, ◌∙◌, ◌⊎◌, inl, inr, ℕ, Bool, true, false, none, some, List, ◌∷◌}
use ankiced.Text.{Text}
use ankiced.Errors.{Err}
use ankiced.Action.{Outcome, ok, fail, Action}
use ankiced.Api.Site.{
  Payload, Response, Shared, Site, Decoded, decoded, undecoded, BodyError, too_large, malformed,
  Machine, Request, Method, Serve, next, ◌>>=◌, ◌>>◌, pure, stop, call, current_cfg, set_db_path,
  write_json, correlation_id, log, write_error, write_message_error, write_method_not_allowed,
  write_decode_error, or_stop, stop_if, body_or_stop, need_method,
}

module _ {W : Type 0} where
  -- One response was added.
  abbrev pub OneMore : Site W → Site W → Type 0
  OneMore σ τ = (r : Response) × (τ.replies ≡ r ∷ σ.replies)

  pub record IsSilent {A : Type 0} (m : Serve W A) : Type 0 where
    pub runs : (σ : Site W) → (a : A) × ((m σ).0 ≡ some a) × ((m σ).1.replies ≡ σ.replies)

  pub record IsGuard {A : Type 0} (m : Serve W A) : Type 0 where
    pub runs :
        (σ : Site W)
        → ((a : A) × ((m σ).0 ≡ some a) × ((m σ).1.replies ≡ σ.replies))
          ⊎ (((m σ).0 ≡ none) × OneMore σ (m σ).1)

  pub record IsAnswer {A : Type 0} (m : Serve W A) : Type 0 where
    pub runs : (σ : Site W) → OneMore σ (m σ).1

  pub IsGuard-of_silent : {A : Type 0} {m : Serve W A} → IsSilent m → IsGuard m
  IsGuard-of_silent h = record { runs = λ σ. inl (h.runs σ) }

  module _ {A B : Type 0} (m : Serve W A) (f : A → Serve W B) where
    pub bind-IsSilent : IsSilent m → ((a : A) → IsSilent (f a)) → IsSilent (m >>= f)
    unfolding ◌>>=◌
    bind-IsSilent h k = record {
      runs = λ σ.
          let (a, e, r) = h.runs σ in
          let (b, e', r') = (k a).runs (m σ).1 in (b, rw (e, next) e', rw (e, next) (r' ∙ r));
    }

    pub bind-IsGuard : IsGuard m → ((a : A) → IsGuard (f a)) → IsGuard (m >>= f)
    unfolding ◌>>=◌
    bind-IsGuard h k = record {
      runs = λ σ. elim (h.runs σ) [
        | inr (e, more) ↦ inr (rw (e, next) refl, rw (e, next) more)
        | inl (a, e, r) ↦ elim ((k a).runs (m σ).1) [
          | inl (b, e', r') ↦ inl (b, rw (e, next) e', rw (e, next) (r' ∙ r))
          | inr (e', (x, r')) ↦ inr (rw (e, next) e', (x, rw (e, next) (r' ∙ ap (λ l. x ∷ l) r)))
        ]
      ];
    }

    pub bind-IsAnswer : IsGuard m → ((a : A) → IsAnswer (f a)) → IsAnswer (m >>= f)
    unfolding ◌>>=◌
    bind-IsAnswer h k = record {
      runs = λ σ. elim (h.runs σ) [
        | inr (e, more) ↦ rw (e, next) more
        | inl (a, e, r) ↦
            let (x, r') = (k a).runs (m σ).1 in (x, rw (e, next) (r' ∙ ap (λ l. x ∷ l) r))
      ];
    }

    -- What follows the response writes none.
    next_after :
        (o : _) (σ τ : Site W) → OneMore σ τ → ((a : A) → IsSilent (f a)) → OneMore σ (next o f τ).1
    unfolding next
    next_after none σ τ more k = more
    next_after (some a) σ τ (x, r) k = let (b, e', r') = (k a).runs τ in (x, r' ∙ r)

    pub after-IsAnswer : IsAnswer m → ((a : A) → IsSilent (f a)) → IsAnswer (m >>= f)
    unfolding ◌>>=◌
    after-IsAnswer h k = record { runs = λ σ. next_after (m σ).0 σ (m σ).1 (h.runs σ) k }

  pub pure-IsSilent : {A : Type 0} (a : A) → IsSilent (pure {W = W} a)
  unfolding pure
  pure-IsSilent a = record { runs = λ σ. (a, refl, refl) }

  pub call-IsSilent : {A : Type 0} (act : Action (Shared W) A) → IsSilent (call act)
  unfolding call
  call-IsSilent act = record { runs = λ σ. ((act σ.shared).0, refl, refl) }

  pub current_cfg-IsSilent : IsSilent (current_cfg {W = W})
  unfolding current_cfg
  current_cfg-IsSilent = record { runs = λ σ. (σ.shared.cfg, refl, refl) }

  pub set_db_path-IsSilent : (path : Text) → IsSilent (set_db_path {W = W} path)
  unfolding set_db_path
  set_db_path-IsSilent path = record { runs = λ σ. (tt, refl, refl) }

  pub write_json-IsAnswer : (status : ℕ) (p : Payload) → IsAnswer (write_json {W = W} status p)
  unfolding write_json
  write_json-IsAnswer status p = record { runs = λ σ. (_, refl) }

  next_stop :
      {A B : Type 0} (o : _) (τ : Site W) → next {W = W} {A = A} {B = B} o (λ _. stop) τ ≡ (none, τ)
  unfolding next stop
  next_stop none τ = refl
  next_stop (some a) τ = refl

  pub stop-IsGuard :
      {A : Type 0} (m : Serve W (Unit {0})) → IsAnswer m → IsGuard (◌>>◌ {B = A} m stop)
  unfolding ◌>>=◌
  stop-IsGuard {A} m h = record {
    runs = λ σ. rw (next_stop {B = A} (m σ).0 (m σ).1) (inr (refl, h.runs σ));
  }

  pub or_stop-IsGuard :
      {A : Type 0} (o : Outcome A) (f : Err → Serve W (Unit {0}))
      → ((e : Err) → IsAnswer (f e))
      → IsGuard (or_stop o f)
  unfolding or_stop
  or_stop-IsGuard (ok a) f h = IsGuard-of_silent (pure-IsSilent a)
  or_stop-IsGuard (fail e) f h = stop-IsGuard (f e) (h e)

  pub stop_if-IsGuard : (b : Bool) (m : Serve W (Unit {0})) → IsAnswer m → IsGuard (stop_if b m)
  unfolding stop_if
  stop_if-IsGuard true m h = stop-IsGuard m h
  stop_if-IsGuard false m h = IsGuard-of_silent (pure-IsSilent tt)

module _ {W : Type 0} (m : Machine W) where
  pub correlation_id-IsSilent : IsSilent (correlation_id m)
  unfolding correlation_id
  correlation_id-IsSilent = record { runs = λ σ. (_, refl, refl) }

  pub log-IsSilent :
      (level operation cid message : Text) (details : List (Text × Text))
      → IsSilent (log m level operation cid message details)
  unfolding log
  log-IsSilent level operation cid message details = record { runs = λ σ. (tt, refl, refl) }

  pub write_error-IsAnswer :
      (status : ℕ) (e : Err) (operation cid : Text)
      → IsAnswer (write_error m status e operation cid)
  unfolding write_error
  write_error-IsAnswer status e operation cid =
      bind-IsAnswer _ _ (IsGuard-of_silent (log-IsSilent _ _ _ _ _)) (λ _. write_json-IsAnswer _ _)

  pub write_message_error-IsAnswer :
      (status : ℕ) (message code details operation cid : Text)
      → IsAnswer (write_message_error m status message code details operation cid)
  unfolding write_message_error
  write_message_error-IsAnswer status message code details operation cid =
      bind-IsAnswer _ _ (IsGuard-of_silent (log-IsSilent _ _ _ _ _)) (λ _. write_json-IsAnswer _ _)

  pub write_decode_error-IsAnswer :
      (e : BodyError) (operation : Text) → IsAnswer (write_decode_error m e operation)
  unfolding write_decode_error
  write_decode_error-IsAnswer (too_large text) operation =
      bind-IsAnswer _ _ (IsGuard-of_silent correlation_id-IsSilent)
        (λ cid. write_message_error-IsAnswer _ _ _ _ _ cid)
  write_decode_error-IsAnswer (malformed text) operation =
      bind-IsAnswer _ _ (IsGuard-of_silent correlation_id-IsSilent)
        (λ cid. write_message_error-IsAnswer _ _ _ _ _ cid)

  pub write_method_not_allowed-IsAnswer :
      (operation : Text) → IsAnswer (write_method_not_allowed m operation)
  unfolding write_method_not_allowed
  write_method_not_allowed-IsAnswer operation =
      bind-IsAnswer _ _ (IsGuard-of_silent correlation_id-IsSilent)
        (λ cid. write_message_error-IsAnswer _ _ _ _ _ cid)

  pub body_or_stop-IsGuard :
      {A : Type 0} (d : Decoded A) (operation : Text) → IsGuard (body_or_stop m d operation)
  unfolding body_or_stop
  body_or_stop-IsGuard (decoded a) operation = IsGuard-of_silent (pure-IsSilent a)
  body_or_stop-IsGuard (undecoded e) operation =
      stop-IsGuard _ (write_decode_error-IsAnswer e operation)

  pub need_method-IsGuard :
      (wanted : Method) (r : Request) (operation : Text)
      → IsGuard (need_method m wanted r operation)
  unfolding need_method
  need_method-IsGuard wanted r operation =
      stop_if-IsGuard _ _ (write_method_not_allowed-IsAnswer operation)

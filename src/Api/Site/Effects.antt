-- ===== src/Api/Site/Effects.antt =====
-- What a part of a handler leaves alone: the settings, the part of the world that `look` shows, the
-- store of operations, the goroutines and the calls of onExit.
use ankiced.Base.{◌≡◌, refl, ap, sym, subst, ◌∙◌, ℕ, Bool, true, false, Option, none, some, List}
use ankiced.Text.{Text}
use ankiced.Errors.{Err}
use ankiced.Config.{Settings}
use ankiced.Action.{Outcome, ok, fail, Action, Keeps}
use ankiced.Api.Operations.{Store}
use ankiced.Api.Site.{
  Payload, Shared, Site, Job, Decoded, decoded, undecoded, BodyError, too_large, malformed, Machine,
  Request, Method, Serve, next, ◌>>=◌, ◌>>◌, pure, stop, call, current_cfg, write_json,
  correlation_id, log, write_error, write_message_error, write_method_not_allowed,
  write_decode_error, or_stop, stop_if, body_or_stop, same_method, need_method,
}

module _ {W V : Type 0} (look : W → V) where
  -- The settings and the part of the world that is watched.
  abbrev pub shown : Shared W → Settings × V
  shown w = (w.cfg, look w.behind)

  -- What is watched of the site.
  pub record Seen : Type 0 where
    pub shared : Settings × V
    pub ops : Store
    pub jobs : List Job
    pub exits : ℕ

  abbrev pub seen : Site W → Seen
  seen σ = record { shared = shown σ.shared; ops = σ.ops; jobs = σ.jobs; exits = σ.exits }

  pub record IsQuiet {A : Type 0} (m : Serve W A) : Type 0 where
    pub keeps : (σ : Site W) → seen (m σ).1 ≡ seen σ

  pub record IsClock (m : Machine W) : Type 0 where
    pub stamp : (w : W) → look (m.stamp w).1 ≡ look w
    pub millis : (w : W) → look (m.millis w).1 ≡ look w

module _ {W : Type 0} where
  next_stop : {A B : Type 0} (o : Option A) (τ : Site W) → next {B = B} o (λ _. stop) τ ≡ (none, τ)
  unfolding next stop
  next_stop none τ = refl
  next_stop (some a) τ = refl

  need_method_wrong :
      (m : Machine W) (wanted : Method) (r : Request) (operation : Text)
      → same_method m r.method wanted ≡ false
      → need_method m wanted r operation ≡ (write_method_not_allowed m operation >> stop)
  unfolding need_method stop_if
  need_method_wrong m wanted r operation e = rw e refl

module _ {W V : Type 0} {look : W → V} where
  next_quiet :
      {A B : Type 0} (o : Option A) (f : A → Serve W B) (σ : Site W)
      → ((a : A) → IsQuiet look (f a))
      → seen look (next o f σ).1 ≡ seen look σ
  unfolding next
  next_quiet none f σ k = refl
  next_quiet (some a) f σ k = (k a).keeps σ

  pub bind-IsQuiet :
      {A B : Type 0} (m : Serve W A) (f : A → Serve W B)
      → IsQuiet look m
      → ((a : A) → IsQuiet look (f a))
      → IsQuiet look (m >>= f)
  unfolding ◌>>=◌
  bind-IsQuiet m f h k = record { keeps = λ σ. next_quiet (m σ).0 f (m σ).1 k ∙ h.keeps σ }

  pub pure-IsQuiet : {A : Type 0} (a : A) → IsQuiet look (pure {W = W} a)
  unfolding pure
  pure-IsQuiet a = record { keeps = λ σ. refl }

  pub stop-IsQuiet : {A : Type 0} → IsQuiet look (stop {W = W} {A = A})
  unfolding stop
  stop-IsQuiet = record { keeps = λ σ. refl }

  pub call-IsQuiet :
      {A : Type 0} (act : Action (Shared W) A) → Keeps (shown look) act → IsQuiet look (call act)
  unfolding call
  call-IsQuiet act h = record {
    keeps = λ σ.
        ap (λ s. record { shared = s; ops = σ.ops; jobs = σ.jobs; exits = σ.exits }) (h σ.shared);
  }

  pub current_cfg-IsQuiet : IsQuiet look (current_cfg {W = W})
  unfolding current_cfg
  current_cfg-IsQuiet = record { keeps = λ σ. refl }

  pub write_json-IsQuiet : (status : ℕ) (p : Payload) → IsQuiet look (write_json {W = W} status p)
  unfolding write_json
  write_json-IsQuiet status p = record { keeps = λ σ. refl }

  pub or_stop-IsQuiet :
      {A : Type 0} (o : Outcome A) (f : Err → Serve W (Unit {0}))
      → ((e : Err) → IsQuiet look (f e))
      → IsQuiet look (or_stop o f)
  unfolding or_stop
  or_stop-IsQuiet (ok a) f h = pure-IsQuiet a
  or_stop-IsQuiet (fail e) f h = bind-IsQuiet _ _ (h e) (λ _. stop-IsQuiet)

  pub stop_if-IsQuiet :
      (b : Bool) (m : Serve W (Unit {0})) → IsQuiet look m → IsQuiet look (stop_if b m)
  unfolding stop_if
  stop_if-IsQuiet true m h = bind-IsQuiet _ _ h (λ _. stop-IsQuiet)
  stop_if-IsQuiet false m h = pure-IsQuiet tt

  module _ (m : Machine W) (clock : IsClock look m) where
    pub correlation_id-IsQuiet : IsQuiet look (correlation_id m)
    unfolding correlation_id
    correlation_id-IsQuiet = record {
      keeps = λ σ.
          ap
            (λ v. record {
              shared = (σ.shared.cfg, v);
              ops = σ.ops;
              jobs = σ.jobs;
              exits = σ.exits;
            })
            (clock.millis σ.shared.behind);
    }

    pub log-IsQuiet :
        (level operation cid message : Text) (details : List (Text × Text))
        → IsQuiet look (log m level operation cid message details)
    unfolding log
    log-IsQuiet level operation cid message details = record {
      keeps = λ σ.
          ap
            (λ v. record {
              shared = (σ.shared.cfg, v);
              ops = σ.ops;
              jobs = σ.jobs;
              exits = σ.exits;
            })
            (clock.stamp σ.shared.behind);
    }

    pub write_error-IsQuiet :
        (status : ℕ) (e : Err) (operation cid : Text)
        → IsQuiet look (write_error m status e operation cid)
    unfolding write_error
    write_error-IsQuiet status e operation cid =
        bind-IsQuiet _ _ (log-IsQuiet _ _ _ _ _) (λ _. write_json-IsQuiet _ _)

    pub write_message_error-IsQuiet :
        (status : ℕ) (message code details operation cid : Text)
        → IsQuiet look (write_message_error m status message code details operation cid)
    unfolding write_message_error
    write_message_error-IsQuiet status message code details operation cid =
        bind-IsQuiet _ _ (log-IsQuiet _ _ _ _ _) (λ _. write_json-IsQuiet _ _)

    pub write_method_not_allowed-IsQuiet :
        (operation : Text) → IsQuiet look (write_method_not_allowed m operation)
    unfolding write_method_not_allowed
    write_method_not_allowed-IsQuiet operation =
        bind-IsQuiet _ _ correlation_id-IsQuiet (λ cid. write_message_error-IsQuiet _ _ _ _ _ cid)

    pub write_decode_error-IsQuiet :
        (e : BodyError) (operation : Text) → IsQuiet look (write_decode_error m e operation)
    unfolding write_decode_error
    write_decode_error-IsQuiet (too_large text) operation =
        bind-IsQuiet _ _ correlation_id-IsQuiet (λ cid. write_message_error-IsQuiet _ _ _ _ _ cid)
    write_decode_error-IsQuiet (malformed text) operation =
        bind-IsQuiet _ _ correlation_id-IsQuiet (λ cid. write_message_error-IsQuiet _ _ _ _ _ cid)

    pub body_or_stop-IsQuiet :
        {A : Type 0} (d : Decoded A) (operation : Text) → IsQuiet look (body_or_stop m d operation)
    unfolding body_or_stop
    body_or_stop-IsQuiet (decoded a) operation = pure-IsQuiet a
    body_or_stop-IsQuiet (undecoded e) operation =
        bind-IsQuiet _ _ (write_decode_error-IsQuiet e operation) (λ _. stop-IsQuiet)

    pub need_method-IsQuiet :
        (wanted : Method) (r : Request) (operation : Text)
        → IsQuiet look (need_method m wanted r operation)
    unfolding need_method
    need_method-IsQuiet wanted r operation =
        stop_if-IsQuiet _ _ (write_method_not_allowed-IsQuiet operation)

  -- What stands behind a return is not run.
  stopped-IsQuiet :
      {A B : Type 0} (m : Serve W (Unit {0})) (f : A → Serve W B)
      → IsQuiet look m
      → IsQuiet look ((m >> stop) >>= f)
  unfolding ◌>>=◌
  stopped-IsQuiet {A} {B} m f h = record {
    keeps = λ σ. rw (next_stop {B = A} (m σ).0 (m σ).1, next) (h.keeps σ);
  }

  -- A handler of another method goes no further than its first test.
  pub wrong_method-IsQuiet :
      {A : Type 0} (m : Machine W) (clock : IsClock look m) (wanted : Method) (r : Request)
      (operation : Text) (f : Unit {0} → Serve W A)
      → same_method m r.method wanted ≡ false
      → IsQuiet look (need_method m wanted r operation >>= f)
  wrong_method-IsQuiet m clock wanted r operation f e =
      subst (λ g. IsQuiet look (g >>= f)) (sym (need_method_wrong m wanted r operation e))
        (stopped-IsQuiet (write_method_not_allowed m operation) f
          (write_method_not_allowed-IsQuiet m clock operation))

-- ===== src/Api/Handlers/Settings/Saved.antt =====
-- When the path of the collection in the settings changes.
use ankiced.Base.{
  ◌≡◌, refl, ap, sym, subst, ◌⊎◌, inl, inr, true, false, Option, none, some, Bool-cases, arith,
}
use ankiced.Text.{Text, codes, is_empty}
use ankiced.Errors.{Err, sqlite, old_conn_close_failed, is}
use ankiced.Config.{Settings}
use ankiced.Action.{Outcome, ok, fail, Action, Outcome-cases}
use ankiced.Api.Site.{
  Request, Decoded, decoded, undecoded, Site, Machine, Serve, next, ◌>>=◌, pure, stop, call,
  set_db_path, write_error,
}
use ankiced.Api.Site.Effects.{
  IsQuiet, IsClock, bind-IsQuiet, pure-IsQuiet, call-IsQuiet, current_cfg-IsQuiet,
  write_json-IsQuiet, or_stop-IsQuiet, correlation_id-IsQuiet, log-IsQuiet, write_error-IsQuiet,
  need_method-IsQuiet, stop-IsQuiet,
}
use ankiced.Api.Handlers.Settings.{accept_close_error, reconnect_by, is_new_path, take_path}

-- Nothing of the world is watched, the settings are.
abbrev nothing : {W : Type 0} → W → Unit {0}
nothing _ = tt

no-IsClock : {W : Type 0} (m : Machine W) → IsClock nothing m
no-IsClock m = record { stamp = λ w. refl; millis = λ w. refl }

-- Reconnect took the path, at some state of the world, or swapped the handles and failed to close
-- the old one; or the transaction manager has no Reconnect.
abbrev pub Accepts : {W : Type 0} → Option (Text → Action W (Unit {0})) → Text → Type 0
Accepts none path = Unit
Accepts {W} (some reconnect) path =
    (w : W) × (((reconnect path w).0 ≡ ok tt)
      ⊎ ((e : Err) × ((reconnect path w).0 ≡ fail e)
          × (is e (sqlite old_conn_close_failed) ≡ true)))

module _ {W : Type 0} (m : Machine W) (r : Request) where
  -- The settings have the path of the body, which Reconnect took.
  pub record HasNewPath (old new : Settings) : Type 0 where
    pub path : Text
    pub body : m.decode_path r.body ≡ decoded path
    pub some_path : is_empty path ≡ false
    pub same_rest : new ≡ record old { db_path = path }
    pub taken : Accepts m.reconnect path

  abbrev pub IsChange : Settings → Settings → Type 0
  IsChange old new = (new ≡ old) ⊎ HasNewPath old new

  record Changes {A : Type 0} (f : Serve W A) : Type 0 where
    change : (σ : Site W) → IsChange σ.shared.cfg (f σ).1.shared.cfg

  quiet_cfg :
      {A : Type 0} (f : Serve W A)
      → IsQuiet nothing f
      → (σ : Site W) → (f σ).1.shared.cfg ≡ σ.shared.cfg
  quiet_cfg f h σ = ap (λ s. s.shared.0) (h.keeps σ)

  Changes-of_quiet : {A : Type 0} (f : Serve W A) → IsQuiet nothing f → Changes f
  Changes-of_quiet f h = record { change = λ σ. inl (quiet_cfg f h σ) }

  subst_old : (a b new : Settings) → a ≡ b → IsChange a new → IsChange b new
  subst_old a b new e h = subst (λ c. IsChange c new) e h

  next_change :
      {A B : Type 0} (o : Option A) (f : A → Serve W B) (σ : Site W)
      → ((a : A) → Changes (f a))
      → IsChange σ.shared.cfg (next o f σ).1.shared.cfg
  unfolding next
  next_change none f σ k = inl refl
  next_change (some a) f σ k = (k a).change σ

  before-Changes :
      {A B : Type 0} (g : Serve W A) (f : A → Serve W B)
      → IsQuiet nothing g
      → ((a : A) → Changes (f a))
      → Changes (g >>= f)
  unfolding ◌>>=◌
  before-Changes g f h k = record {
    change = λ σ. subst_old _ _ _ (quiet_cfg g h σ) (next_change (g σ).0 f (g σ).1 k);
  }

  next_quiet_cfg :
      {A B : Type 0} (o : Option A) (f : A → Serve W B) (σ : Site W)
      → ((a : A) → IsQuiet nothing (f a))
      → (next o f σ).1.shared.cfg ≡ σ.shared.cfg
  unfolding next
  next_quiet_cfg none f σ k = refl
  next_quiet_cfg (some a) f σ k = quiet_cfg (f a) (k a) σ

  after-Changes :
      {A B : Type 0} (g : Serve W A) (f : A → Serve W B)
      → Changes g
      → ((a : A) → IsQuiet nothing (f a))
      → Changes (g >>= f)
  unfolding ◌>>=◌
  after-Changes g f h k = record {
    change =
        λ σ. subst (IsChange σ.shared.cfg) (sym (next_quiet_cfg (g σ).0 f (g σ).1 k)) (h.change σ);
  }

  -- The call of Reconnect keeps the settings, and goes on only if the path was taken.
  record Tries (o : Option (Text → Action W (Unit {0}))) (path : Text) (f : Serve W (Unit {0}))
      : Type 0 where
    cfg : (σ : Site W) → (f σ).1.shared.cfg ≡ σ.shared.cfg
    taken : (σ : Site W) → ((f σ).0 ≡ none) ⊎ Accepts o path

  accept_close_error-IsQuiet :
      (cid : Text) (o : Outcome (Unit {0})) → IsQuiet nothing (accept_close_error m cid o)
  unfolding accept_close_error
  accept_close_error-IsQuiet cid (ok a) = pure-IsQuiet tt
  accept_close_error-IsQuiet cid (fail e) =
      elim (Bool-cases (is e (sqlite old_conn_close_failed))) [
        | inl closed ↦ rw closed (pure-IsQuiet tt)
        | inr other ↦
            rw other
              (bind-IsQuiet _ _ (write_error-IsQuiet m (no-IsClock m) _ _ _ _) (λ _. stop-IsQuiet))
      ]

  stopped : {A B : Type 0} (o : Option A) (τ : Site W) → (next {B = B} o (λ _. stop) τ).0 ≡ none
  unfolding next stop
  stopped none τ = refl
  stopped (some a) τ = refl

  accept-eq-none :
      (cid : Text) (e : Err) (τ : Site W)
      → is e (sqlite old_conn_close_failed) ≡ false
      → (accept_close_error m cid (fail e) τ).0 ≡ none
  unfolding accept_close_error ◌>>=◌
  accept-eq-none cid e τ other =
      rw other (stopped (write_error m 500 e (codes "save_config") cid τ).0 _)

  reconnect_by-Tries :
      (o : Option (Text → Action W (Unit {0}))) (cid path : Text)
      → Tries o path (reconnect_by m o cid path)
  unfolding reconnect_by pure call ◌>>=◌ next
  reconnect_by-Tries none cid path = record { cfg = λ σ. refl; taken = λ σ. inr tt }
  reconnect_by-Tries (some reconnect) cid path = record {
    cfg = λ σ. quiet_cfg _ (accept_close_error-IsQuiet cid (reconnect path σ.shared.behind).0) _;
    taken = λ σ. elim (Outcome-cases (reconnect path σ.shared.behind).0) [
      | inl (a, e) ↦ inr (σ.shared.behind, inl e)
      | inr (e, failed) ↦ elim (Bool-cases (is e (sqlite old_conn_close_failed))) [
        | inl closed ↦ inr (σ.shared.behind, inr (e, failed, closed))
        | inr other ↦ inl (rw failed (accept-eq-none cid e _ other))
      ]
    ];
  }

  committed :
      (path : Text) (old : Settings) (o : Option (Unit {0})) (τ : Site W)
      → m.decode_path r.body ≡ decoded path
      → is_empty path ≡ false
      → τ.shared.cfg ≡ old
      → (o ≡ none) ⊎ Accepts m.reconnect path
      → IsChange old (next o (λ _. set_db_path path) τ).1.shared.cfg
  unfolding next set_db_path
  committed path old none τ d filled e t = inl e
  committed path old (some a) τ d filled e (inl h) = absurd (let k : some a ≡ none = h in cc)
  committed path old (some a) τ d filled e (inr t) =
      let set : Settings → Settings = λ c. record c { db_path = path } in
      inr (record { path = path; body = d; some_path = filled; same_rest = ap set e; taken = t })

  take_path_change :
      (cid : Text) (d : Decoded Text) (cfg : Settings) (σ : Site W)
      → m.decode_path r.body ≡ d
      → IsChange σ.shared.cfg (take_path m cid d cfg σ).1.shared.cfg
  unfolding take_path ◌>>=◌ pure
  take_path_change cid (undecoded e) cfg σ d = inl refl
  take_path_change cid (decoded path) cfg σ d = elim (Bool-cases (is_new_path m path cfg)) [
    | inr old ↦ rw old (inl refl)
    | inl new ↦
        let t = reconnect_by-Tries m.reconnect cid path in
        let filled : is_empty path ≡ false = ground arith in
        rw new (
          committed path σ.shared.cfg (reconnect_by m m.reconnect cid path σ).0
            (reconnect_by m m.reconnect cid path σ).1 d filled (t.cfg σ) (t.taken σ))
  ]

  take_path-Changes :
      (cid : Text) (cfg : Settings) → Changes (take_path m cid (m.decode_path r.body) cfg)
  take_path-Changes cid cfg = record {
    change = λ σ. take_path_change cid (m.decode_path r.body) cfg σ refl;
  }

  ruleset saving = (
    bind-IsQuiet, pure-IsQuiet, call-IsQuiet, current_cfg-IsQuiet, write_json-IsQuiet,
    or_stop-IsQuiet, correlation_id-IsQuiet, log-IsQuiet, write_error-IsQuiet, need_method-IsQuiet,
    before-Changes, after-Changes, take_path-Changes,
  )

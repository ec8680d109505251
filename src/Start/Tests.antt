-- ===== src/Start/Tests.antt =====
-- The programs on a machine that counts what is open.
use ankiced.Base.{ℕ, ◌≡◌, refl, ◌+◌, ◌-◌, pos, true, false, none, some, [], ◌∷◌, arith}
use ankiced.Text.{codes}
use ankiced.Errors.{external}
use ankiced.Config.{Settings}
use ankiced.Action.{ok, fail, Action, pure, lift}
use ankiced.Services.Ports.{Services}
use ankiced.Services.Memory.{settings, drop_first}
use ankiced.Start.{verbose_requested}
use ankiced.Start.Programs.{Machine, Desk, run_cli, run_web, run_desktop}
use ankiced.Start.Programs.Closed.{IsTidy}
use ankiced.Start.Programs.Once.{programs_closed}

abbrev idle : Services ℕ
idle = record {
  cfg = settings;
  cfg_provider = none;
  decks = record {
    list_decks = pure [];
    search_decks = λ _. pure [];
    deck_exists = λ id. pure false;
    deck_name_exists = λ name id. pure false;
    rename_deck = λ id name. pure tt;
  };
  notes = record {
    list_notes = λ _ _. pure [];
    count_notes = λ _. pure (pos 0);
    get_note = λ id. lift (fail (external []));
    update_note = λ n. pure tt;
    list_note_ids_by_deck = λ id. pure [];
  };
  get_model_by_id = λ id. lift (fail (external []));
  backups = none;
  confirm = λ prompt. pure false;
  render = λ records summary full. [];
  write_report = none;
  with_tx = λ m. m;
  templates = some (record { get = λ id. ok drop_first; default_template = ok drop_first });
  now = λ w. (pos 1700000000, w);
}

abbrev taking : {A : Type 0} → A → Action ℕ A
taking a w = (ok a, w + 1)

abbrev giving : Action ℕ (Unit {0})
giving w = (ok tt, w - 1)

abbrev machine : Machine ℕ
machine = record {
  lower = λ c. c;
  args = codes "--verbose=1" ∷ [];
  verbose_env = [];
  load = pure settings;
  open_db = λ cfg. taking tt;
  close_db = giving;
  new_services = λ cfg. idle;
  listen = λ addr. taking addr;
  close_listener = giving;
}

abbrev breaking : Services ℕ → Settings → Action ℕ (Unit {0})
breaking s cfg = lift (fail (external (codes "broken")))

machine-IsTidy : IsTidy (λ n. n) machine breaking
machine-IsTidy = record {
  load = λ w. refl;
  open_db = λ cfg w. ((λ a h. omega arith), (λ e h. cc));
  close_db = λ w n h. omega (arith, h);
  listen = λ addr w. ((λ a h. omega arith), (λ e h. cc));
  close_listener = λ w n h. omega (arith, h);
  cleanup = λ cfg. tt;
  loop = λ s cfg w. refl;
}

-- A window whose callback runs twice.
abbrev closing_twice : Action (Desk ℕ) (Unit {0}) → Action (Desk ℕ) (Unit {0})
closing_twice hook d = hook (hook d).1

programs_closed_example :
    ((run_cli machine breaking 7).1 ≡ 7)
    × ((run_web machine breaking 7).1 ≡ 7)
    × ((run_desktop machine closing_twice 7).1 ≡ 7)
programs_closed_example =
    programs_closed (λ n. n) machine breaking machine-IsTidy closing_twice
      (λ n hook k d left. k (hook d).1 (k d left)) 7

verbose :
    (verbose_requested (λ c. c) (codes "-x" ∷ codes "--verbose=TRUE" ∷ []) ≡ true)
    × (verbose_requested (λ c. c) (codes "-x" ∷ codes "-verbose" ∷ []) ≡ false)
    × (verbose_requested (λ c. c) (codes "--verbose=0" ∷ codes "--verbose" ∷ []) ≡ false)
unfolding verbose_requested
verbose = (refl, refl, refl)

-- ===== src/Cli/Tests.antt =====
-- Runs of the command line on the collection in memory.
use ankiced.Base.{ℕ, ◌≡◌, refl, pos, false, Option, none, some, List, [], ◌∷◌, map, arith}
use ankiced.Text.{Text, codes}
use ankiced.Errors.{sentinel, eof}
use ankiced.Action.{Outcome, fail, Action, pure}
use ankiced.Services.Ports.{Services}
use ankiced.Services.Stable.{IsStable}
use ankiced.Services.Memory.{Memory, memory, settings}
use ankiced.Cli.Terminal.{Term}
use ankiced.Cli.Terminal.Lines.{AtMost}
use ankiced.Cli.Escapes.{Piece, rune, byte, decode_escapes}
use ankiced.Cli.Reading.{Env}
use ankiced.Cli.Menu.{run}
use ankiced.Cli.Menu.Ends.{IsClosed, run_ends}

abbrev code_of : Piece → ℕ
code_of (rune c) = c
code_of (byte c) = c

abbrev assemble : List Piece → Text
assemble ps = map code_of ps

-- An action on what stands behind the ports.
abbrev on_behind : {W A : Type 0} → Action W A → Action (Term W) A
on_behind m t = let (o, w) = m t.behind in (o, record t { behind = w })

abbrev desk : Services (Term Memory)
desk = record {
  cfg = settings;
  cfg_provider = none;
  decks = record {
    list_decks = on_behind memory.decks.list_decks;
    search_decks = λ text. on_behind (memory.decks.search_decks text);
    deck_exists = λ id. on_behind (memory.decks.deck_exists id);
    deck_name_exists = λ name id. on_behind (memory.decks.deck_name_exists name id);
    rename_deck = λ id name. on_behind (memory.decks.rename_deck id name);
  };
  notes = record {
    list_notes = λ f p. on_behind (memory.notes.list_notes f p);
    count_notes = λ f. on_behind (memory.notes.count_notes f);
    get_note = λ id. on_behind (memory.notes.get_note id);
    update_note = λ n. on_behind (memory.notes.update_note n);
    list_note_ids_by_deck = λ id. on_behind (memory.notes.list_note_ids_by_deck id);
  };
  get_model_by_id = λ id. on_behind (memory.get_model_by_id id);
  backups = none;
  confirm = λ prompt. pure false;
  render = memory.render;
  write_report = none;
  with_tx = λ m. m;
  templates = memory.templates;
  now = λ t. (pos 1700000000, t);
}

abbrev env : Env Memory
env = record {
  assemble = assemble;
  parse = λ s. fail (sentinel eof);
  num_error = λ s. codes "invalid syntax";
  is_done = λ t. false;
  schedule = λ apply ids t. record {
    waiting = [];
    feeding = false;
    idle = 1;
    taken = [];
    results = [];
    error = none;
    cancelled = false;
    world = t;
  };
}

desk-IsStable : (n : ℕ) → IsStable (AtMost n) desk
desk-IsStable n = record {
  list_decks = λ t h. h;
  search_decks = λ text t h. h;
  deck_exists = λ id t h. h;
  deck_name_exists = λ name id t h. h;
  rename_deck = λ id name t h. h;
  list_notes = λ f p t h. h;
  get_note = λ id t h. h;
  update_note = λ note t h. h;
  list_note_ids_by_deck = λ id t h. h;
  get_model_by_id = λ id t h. h;
  confirm = λ prompt t h. h;
  now = λ t h. h;
  with_tx = λ f k t h. k t h;
  backups = tt;
  reports = tt;
}

desk-IsClosed : IsClosed desk env settings
desk-IsClosed = (desk-IsStable, λ n h apply ids t k. k)

abbrev typed_in : Text → Term Memory
typed_in text = record {
  behind = record {
    deck_name = codes "Default";
    raw_flds = codes "a";
    modified = pos 1;
    usn = pos 0;
  };
  pending = text ∷ [];
  buffered = [];
  output = [];
  out_error = none;
}

abbrev session : Term Memory
session = typed_in (codes "2\n1\nFrench\n0\n")

run_ends_example :
    (r : Outcome (Unit {0}) × Term Memory) × (run desk env settings 5 session ≡ some r)
run_ends_example = run_ends desk env settings desk-IsClosed 5 session (omega arith)

-- A quote that was typed with a backslash is refused: the backslash is taken for one of its own.
escaped_mark : decode_escapes assemble (codes "\\\"") ≡ decode_escapes assemble (codes "\\q")
unfolding decode_escapes
escaped_mark = refl

renamed_to : Option (Outcome (Unit {0}) × Term Memory) → Text
renamed_to none = []
renamed_to (some (o, t)) = t.behind.deck_name

renamed : renamed_to (run desk env settings 5 session) ≡ codes "French"
unfolding renamed_to run ankiced.Text.is_control
renamed = refl

-- ===== src/Services/Memory.antt =====
-- A collection in memory, of one deck and one note: the promises of the ports can all be kept.
use ankiced.Base.{
  ◌≡◌, refl, sym, ap, ◌∙◌, ℤ, pos, eq_ℤ, eq_ℤ_iff, false, Bool-cases, none, some, [], ◌∷◌, inl, inr,
  if◌then◌else◌,
}
use ankiced.Text.{Text, codes}
use ankiced.Errors.{sentinel, application, note_not_found}
use ankiced.Domain.{Note}
use ankiced.Config.{Settings}
use ankiced.Action.{Outcome, ok, fail, pure}
use ankiced.Services.Ports.{Services, Template}
use ankiced.Services.Ports.Reads.{IsReadOnly}
use ankiced.Services.Notes.RoundTrip.{StoresNotes}
use ankiced.Services.Cleaner.Batches.{IsTransactional}

pub record Memory : Type 0 where
  pub deck_name : Text
  pub raw_flds : Text
  pub modified : ℤ
  pub usn : ℤ

abbrev one_note : Memory → Note
one_note w = record {
  id = pos 1;
  guid = [];
  model_id = pos 1;
  raw_flds = w.raw_flds;
  fields = [];
  modified = w.modified;
  usn = w.usn;
}

abbrev only : ℤ → Note → Outcome Note
only id n = if eq_ℤ id (pos 1) then ok n else fail (sentinel (application note_not_found))

abbrev pub settings : Settings
settings = record {
  db_path = codes "c.anki2";
  anki_account = [];
  http_addr = [];
  backup_keep_last_n = pos 3;
  workers = pos 1;
  force_apply = false;
  verbose = false;
  full_diff = false;
  report_file = [];
  config_path = [];
  default_page_size = pos 20;
  pragma_busy_timeout = pos 1;
  pragma_journal_mode = [];
  pragma_synchronous = [];
}

abbrev pub in_tx : Memory → Outcome (Unit {0}) × Memory → Outcome (Unit {0}) × Memory
in_tx w (ok _, w') = (ok tt, w')
in_tx w (fail e, w') = (fail e, w)

abbrev pub drop_first : Template
drop_first [] = ok []
drop_first (c ∷ s) = ok s

abbrev pub memory : Services Memory
memory = record {
  cfg = settings;
  cfg_provider = none;
  decks = record {
    list_decks = pure [];
    search_decks = λ _. pure [];
    deck_exists = λ id. pure (eq_ℤ id (pos 1));
    deck_name_exists = λ name id. pure false;
    rename_deck = λ id name w. (ok tt, record w { deck_name = name });
  };
  notes = record {
    list_notes = λ _ _. pure [];
    count_notes = λ _. pure (pos 1);
    get_note = λ id w. (only id (one_note w), w);
    update_note =
        λ n w. (ok tt, record w { raw_flds = n.raw_flds; modified = n.modified; usn = n.usn });
    list_note_ids_by_deck = λ id. pure (pos 1 ∷ []);
  };
  get_model_by_id =
      λ id. pure (record { id = id; field_names = codes "Front" ∷ codes "Back" ∷ [] });
  backups = some (record {
    create_backup = λ path t. pure (record { path = []; created_at = [] });
    cleanup_backups = λ path n. pure tt;
  });
  confirm = λ prompt. pure false;
  render = λ records summary full. [];
  write_report = none;
  with_tx = λ m w. in_tx w (m w);
  templates = some (record { get = λ id. ok drop_first; default_template = ok drop_first });
  now = λ w. (pos 1700000000, w);
}

pub memory-IsReadOnly : {V : Type 0} (view : Memory → V) → IsReadOnly view memory
memory-IsReadOnly view = record {
  now = λ w. refl;
  deck_exists = λ id w. refl;
  deck_name_exists = λ name id w. refl;
  get_note = λ id w. refl;
  list_note_ids_by_deck = λ id w. refl;
  get_model_by_id = λ id w. refl;
  confirm = λ p w. refl;
  backups = ((λ p t w. refl), (λ p n w. refl));
  reports = tt;
}

pub memory-IsTransactional : IsTransactional memory
memory-IsTransactional = record {
  committed = λ m w h. ap (λ o. in_tx w (o, (m w).1)) h ∙ ap (λ o. (o, (m w).1)) (sym h);
  undone = λ m w e h. ap (λ o. in_tx w (o, (m w).1)) h;
}

only-eq-ok : (id : ℤ) (n m : Note) → only id n ≡ ok m → (id ≡ pos 1) × (n ≡ m)
only-eq-ok id n m h = elim (Bool-cases (eq_ℤ id (pos 1))) [
  | inl e ↦ ((eq_ℤ_iff id (pos 1)).0 e, cc)
  | inr e ↦ absurd cc
]

only_one : (id : ℤ) (n : Note) → id ≡ pos 1 → only id n ≡ ok n
only_one id n e = rw ((eq_ℤ_iff id (pos 1)).1 e) refl

pub memory-StoresNotes : StoresNotes memory
memory-StoresNotes = record {
  own_id =
      λ id n w h. let (e, f) = only-eq-ok id (one_note w) n h in ap (λ k. k.id) (sym f) ∙ sym e;
  stored = λ old note w h g m d.
      let (e, f) = only-eq-ok note.id (one_note w) old h in
      only_one note.id _ e
      ∙ ap (λ i. ok (record note { id = i; guid = []; model_id = pos 1; fields = [] })) (sym e)
      ∙ ap (λ i. ok (record note { guid = i; model_id = pos 1; fields = [] }))
          (ap (λ k. k.guid) f ∙ g)
      ∙ ap (λ i. ok (record note { model_id = i; fields = [] })) (ap (λ k. k.model_id) f ∙ m);
  models = λ id note w. refl;
}

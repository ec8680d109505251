-- ===== src/Api/Server/Tests.antt =====
-- The server on the collection in memory.
use ankiced.Base.{◌≡◌, ◌⊎◌, refl, ℤ, pos, true, false, none, some, List, [], ◌∷◌, ◌++◌, arith}
use ankiced.Text.{Text, codes}
use ankiced.Domain.{Deck}
use ankiced.Action.{ok, pure}
use ankiced.Services.Ports.{Services}
use ankiced.Services.Memory.{Memory, memory, settings}
use ankiced.Api.Logs.{LogEvent}
use ankiced.Api.Operations as Operations
use ankiced.Api.Operations.{Store, started, running, no_progress, new_store}
use ankiced.Api.Operations.Invariant.{IsValid, new_store-IsValid}
use ankiced.Api.Operations.Contract.{run, creates, reports}
use ankiced.Api.Operations.Contract as Contract
use ankiced.Api.Routes.{route, to, moved_to, index, deck_search, deck_by_id}
use ankiced.Api.Site.{
  get, post, Request, Response, accepted, polled, CleanerRequest, decoded, Shared, Site, Machine,
  ◌>>=◌, next, stop_if, or_stop, pure as proceed,
}
use ankiced.Api.Site.Effects.{seen}
use ankiced.Api.Site.Ids.{id_at}
use ankiced.Api.Handlers.Settings.{on_world, handle_config_save}
use ankiced.Api.Handlers.Decks.Pages.{pages, pages-eq}
use ankiced.Api.Handlers.Cleaning.{job_of, op_name, handle_cleaner_run}
use ankiced.Api.Handlers.Cleaning.Started.{IsRejected, HasStarted, handle_cleaner_run_cases}
use ankiced.Api.Server.{new_site, serve}
use ankiced.Api.Server.Single.{serve-replies}
use ankiced.Api.Server.Safe.{serve-get}
use ankiced.Api.Server.Polling.{serve_start-poll}

search_route : route (codes "/api/v1/decks/search") ≡ to deck_search
unfolding route
search_route = refl

id_route : route (codes "/api/v1/decks/7") ≡ to deck_by_id
unfolding route
id_route = refl

subtree_route : route (codes "/api/v1/operations") ≡ moved_to (codes "/api/v1/operations/")
unfolding route
subtree_route = refl

unknown_route : route (codes "/api/v2/decks") ≡ to index
unfolding route
unknown_route = refl

-- The use cases on the collection in memory, beside the settings.
abbrev services : Services (Shared Memory)
services = record {
  cfg = settings;
  cfg_provider = none;
  decks = record {
    list_decks = on_world memory.decks.list_decks;
    search_decks = λ text. on_world (memory.decks.search_decks text);
    deck_exists = λ id. on_world (memory.decks.deck_exists id);
    deck_name_exists = λ name id. on_world (memory.decks.deck_name_exists name id);
    rename_deck = λ id name. on_world (memory.decks.rename_deck id name);
  };
  notes = record {
    list_notes = λ f p. on_world (memory.notes.list_notes f p);
    count_notes = λ f. on_world (memory.notes.count_notes f);
    get_note = λ id. on_world (memory.notes.get_note id);
    update_note = λ n. on_world (memory.notes.update_note n);
    list_note_ids_by_deck = λ id. on_world (memory.notes.list_note_ids_by_deck id);
  };
  get_model_by_id = λ id. on_world (memory.get_model_by_id id);
  backups = none;
  confirm = λ prompt. on_world (memory.confirm prompt);
  render = memory.render;
  write_report = none;
  with_tx = λ f. f;
  templates = memory.templates;
  now = λ w. (pos 1, w);
}

abbrev apply_deck : CleanerRequest
apply_deck = record {
  deck_id = pos 1;
  full_diff = false;
  confirm = true;
  workers = pos 0;
  report = [];
  template = [];
}

abbrev machine : Machine Memory
machine = record {
  decode_path = λ body. decoded body;
  decode_name = λ body. decoded body;
  decode_fields = λ body. decoded [];
  decode_preview = λ body. decoded (pos 1, []);
  decode_run = λ body. decoded apply_deck;
  stamp = λ w. (codes "now", w);
  millis = λ w. (pos 5, w);
  executable = ok (codes "/bin/ankiced");
  dir = λ path. codes "/bin";
  join_path = λ a b. a ++ (codes "/" ++ b);
  marshal = λ c. ok c.db_path;
  write_file = λ path text. pure tt;
  reconnect = some (λ path. pure tt);
  has_exit = true;
  can_flush = true;
  num_error = λ v. v;
}

abbrev start : Memory
start = record { deck_name = codes "Default"; raw_flds = []; modified = pos 1; usn = pos 0 }

abbrev site : Site Memory
unfolding new_site
site = new_site settings start

abbrev asks : Text → Text → Request
asks path body = record {
  method = post;
  path = path;
  query = λ _. [];
  last_event_id = [];
  body = body;
}

abbrev gets : Text → Request
gets path = record (asks path []) { method = get }

serve-replies_example :
    (reply : Response) × ((serve services machine (gets (codes "/api/v1/config")) site).replies
      ≡ reply ∷ site.replies)
serve-replies_example = serve-replies services machine (gets (codes "/api/v1/config")) site

serve-get_example :
    seen (λ w. w) (serve services machine (gets (codes "/api/v1/decks")) site) ≡ seen (λ w. w) site
serve-get_example =
    serve-get (λ w. w) services machine (record { stamp = λ w. refl; millis = λ w. refl })
      (record {
        list_decks = λ w. refl;
        search_decks = λ text w. refl;
        list_notes = λ f p w. refl;
        count_notes = λ f w. refl;
        get_note = λ id w. refl;
        get_model_by_id = λ id w. refl;
      })
      (gets (codes "/api/v1/decks")) site refl

site-IsValid : IsValid site.ops
unfolding new_site
site-IsValid = new_store-IsValid

abbrev json : Text
json = codes "application/json; charset=utf-8"

abbrev id : Text
id = id_at machine site

abbrev first : Request
first = asks (codes "/api/v1/cleaner/apply") []

abbrev poll : Request
poll = gets (codes "/api/v1/operations/" ++ id)

serve_start-poll_example :
    ((serve services machine first site).replies
      ≡ record {
        status = 202;
        content_type = json;
        payload = accepted id running false (codes "/api/v1/operations/" ++ id);
      }
        ∷ site.replies)
    × ((serve services machine first site).jobs
        ≡ site.jobs ++ job_of id false apply_deck site.shared.cfg ∷ [])
    × ((t : Text) × ((serve services machine poll (serve services machine first site)).replies
          ≡ record {
            status = 200;
            content_type = json;
            payload = polled (started id (op_name false) t);
          }
            ∷ (serve services machine first site).replies))
serve_start-poll_example =
    serve_start-poll services machine first false apply_deck poll site site-IsValid
      (record { method = refl; path = refl; body = refl; positive = refl; confirmed = refl }) refl
      refl

handle_cleaner_run_cases_example :
    IsRejected machine first false site (handle_cleaner_run machine first false site).1
    ⊎ HasStarted machine first false site (handle_cleaner_run machine first false site).1
handle_cleaner_run_cases_example = handle_cleaner_run_cases machine first false site

abbrev save : Request
save = asks (codes "/api/v1/config/save") (codes "b.anki2")

saved_path : (handle_config_save machine save site).1.shared.cfg.db_path ≡ codes "b.anki2"
unfolding handle_config_save new_site ◌>>=◌ next stop_if or_stop proceed
saved_path = refl

abbrev decks : List Deck
decks =
    record { id = pos 1; name = codes "A"; card_count = pos 0 }
    ∷ record { id = pos 2; name = codes "B"; card_count = pos 0 }
    ∷ record { id = pos 3; name = codes "C"; card_count = pos 0 }
    ∷ []

pages-eq_example : pages 2 2 0 decks ≡ decks
pages-eq_example = pages-eq 2 2 decks (omega arith) (omega arith) (omega arith)

abbrev event : ℤ → LogEvent
event n = record {
  id = n;
  timestamp = [];
  level = [];
  operation = [];
  message = [];
  details = [];
  correlation_id = [];
}

abbrev encode : LogEvent → Text
encode e = []

abbrev one : Store
one = run (creates (codes "a") (codes "k") [] ∷ []) new_store

abbrev calls : List Contract.Request
calls = reports (codes "a") no_progress ∷ creates (codes "b") (codes "k") [] ∷ []

-- ===== src/Config/Tests.antt =====
-- The loader on a machine with an environment and no file.
use ankiced.Base.{◌≡◌, refl, pos, true, false, none, some, []}
use ankiced.Text.{codes}
use ankiced.Text.Number.{parse_int}
use ankiced.Errors.{external}
use ankiced.Config.{Settings}
use ankiced.Config.Loader.{
  System, Flags, other, empty_settings, load, load_file_config, config_path_of,
}
use ankiced.Config.Loader.Priority.{IsResolved, load-IsResolved}
use ankiced.Action.{ok, fail}

abbrev flags : Flags
flags = record {
  db_path = codes "a.anki2";
  anki_account = [];
  config = [];
  http_addr = none;
  backup_keep = none;
  workers = some (pos 2);
  force_apply = none;
  verbose = none;
  full_diff = some true;
  report_file = none;
  page_size = none;
  busy_timeout_ms = none;
  pragma_journal_mode = none;
  pragma_synchronous = none;
}

abbrev machine : System
machine = record {
  cancelled = none;
  parse_flags = λ args. ok flags;
  getenv = λ name. codes "7";
  stat = λ path. false;
  read_file = λ path. fail (external []);
  ext = λ path. [];
  unmarshal_yaml = λ text. ok empty_settings;
  unmarshal_json = λ text. ok empty_settings;
  home = codes "/home/a";
  os = other;
  join_path = λ parts. [];
  lower = λ c. c;
}

abbrev expected : Settings
expected = record {
  db_path = codes "a.anki2";
  anki_account = codes "7";
  http_addr = codes "7";
  backup_keep_last_n = pos 7;
  workers = pos 2;
  force_apply = false;
  verbose = false;
  full_diff = true;
  report_file = [];
  config_path = [];
  default_page_size = pos 7;
  pragma_busy_timeout = pos 7;
  pragma_journal_mode = codes "7";
  pragma_synchronous = codes "7";
}

loaded : load machine [] ≡ ok expected
unfolding load parse_int
loaded = refl

load-IsResolved_example :
    (f : Flags) × (file : Settings) × (machine.parse_flags [] ≡ ok f)
    × (load_file_config machine (config_path_of machine f) ≡ ok file)
    × IsResolved machine f file (config_path_of machine f) expected
load-IsResolved_example = load-IsResolved machine [] expected loaded

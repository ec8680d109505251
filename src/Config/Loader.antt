-- ===== src/Config/Loader.antt =====
-- internal/infrastructure/config/loader.go. `System` is what the loader asks the machine: the
-- environment, the files, the home directory, the parser of the flags and the decoders of the files.
-- A conditional assignment of one field is written as a new value for this field.
pub mod Priority
use ankiced.Base.{
  ℕ, ℤ, pos, ltb_ℤ, Bool, true, false, not, ◌||◌, ◌&&◌, Option, none, some, List, [], ◌∷◌,
  if◌then◌else◌, any,
}
use ankiced.Text.{Text, codes, is_empty, eq_text, trim_space, to_lower}
use ankiced.Text.Number.{parse_int}
use ankiced.Errors.{Err, sentinel, application, database_path_empty}
use ankiced.Config.{Settings}
use ankiced.Action.{Outcome, ok, fail}

-- The flags; `none` where a flag is not on the command line. The first three are texts that are
-- empty by default.
pub record Flags : Type 0 where
  pub db_path : Text
  pub anki_account : Text
  pub config : Text
  pub http_addr : Option Text
  pub backup_keep : Option ℤ
  pub workers : Option ℤ
  pub force_apply : Option Bool
  pub verbose : Option Bool
  pub full_diff : Option Bool
  pub report_file : Option Text
  pub page_size : Option ℤ
  pub busy_timeout_ms : Option ℤ
  pub pragma_journal_mode : Option Text
  pub pragma_synchronous : Option Text

pub data Os : Type 0 where
  windows darwin other : Os

pub record System : Type 0 where
  pub cancelled : Option Err
  pub parse_flags : List Text → Outcome Flags
  pub getenv : Text → Text
  pub stat : Text → Bool
  pub read_file : Text → Outcome Text
  -- The extension of a path, from its last dot.
  pub ext : Text → Text
  pub unmarshal_yaml : Text → Outcome Settings
  pub unmarshal_json : Text → Outcome Settings
  -- The home directory, empty where it is not known.
  pub home : Text
  pub os : Os
  pub join_path : List Text → Text
  -- unicode.ToLower beyond ASCII
  pub lower : ℕ → ℕ

abbrev pub default_settings : Settings
default_settings = record {
  db_path = [];
  anki_account = [];
  http_addr = codes "127.0.0.1:8080";
  backup_keep_last_n = pos 3;
  workers = pos 4;
  force_apply = false;
  verbose = false;
  full_diff = false;
  report_file = [];
  config_path = [];
  default_page_size = pos 10;
  pragma_busy_timeout = pos 5000;
  pragma_journal_mode = codes "WAL";
  pragma_synchronous = codes "NORMAL";
}

abbrev pub empty_settings : Settings
empty_settings = record {
  db_path = [];
  anki_account = [];
  http_addr = [];
  backup_keep_last_n = pos 0;
  workers = pos 0;
  force_apply = false;
  verbose = false;
  full_diff = false;
  report_file = [];
  config_path = [];
  default_page_size = pos 0;
  pragma_busy_timeout = pos 0;
  pragma_journal_mode = [];
  pragma_synchronous = [];
}

-- `if v != "" { field = v }`, and the like for a number above 0 and for a flag.
abbrev set_text : Text → Text → Text
set_text v old = if is_empty v then old else v

abbrev set_positive : ℤ → ℤ → ℤ
set_positive n old = if ltb_ℤ (pos 0) n then n else old

abbrev set_flag : {A : Type 0} → Option A → A → A
set_flag none old = old
set_flag (some v) old = v

-- merge
unfoldable pub merge : Settings → Settings → Settings
unfolding trim_space
merge dst src = record dst {
  db_path = set_text src.db_path dst.db_path;
  anki_account = set_text src.anki_account dst.anki_account;
  http_addr = set_text src.http_addr dst.http_addr;
  backup_keep_last_n = set_positive src.backup_keep_last_n dst.backup_keep_last_n;
  workers = set_positive src.workers dst.workers;
  report_file = set_text src.report_file dst.report_file;
  default_page_size = set_positive src.default_page_size dst.default_page_size;
  pragma_busy_timeout = set_positive src.pragma_busy_timeout dst.pragma_busy_timeout;
  pragma_journal_mode = set_text (trim_space src.pragma_journal_mode) dst.pragma_journal_mode;
  pragma_synchronous = set_text (trim_space src.pragma_synchronous) dst.pragma_synchronous;
  force_apply = dst.force_apply || src.force_apply;
  verbose = dst.verbose || src.verbose;
  full_diff = dst.full_diff || src.full_diff;
}

-- parseBool, `none` where the text is neither.
unfoldable pub parse_bool : (ℕ → ℕ) → Text → Option Bool
unfolding eq_text trim_space to_lower
parse_bool lower value =
    let v = to_lower lower (trim_space value) in
    if any (eq_text v) (codes "1" ∷ codes "true" ∷ codes "yes" ∷ codes "on" ∷ [])
    then some true
    else if any (eq_text v) (codes "0" ∷ codes "false" ∷ codes "no" ∷ codes "off" ∷ [])
    then some false
    else none

abbrev above_zero : Option ℤ → Option ℤ
above_zero none = none
above_zero (some n) = if ltb_ℤ (pos 0) n then some n else none

-- applyEnv. The empty text is neither a number nor a flag, so that the tests for it are the parsers'.
unfoldable pub apply_env : System → Settings → Settings
unfolding parse_int parse_bool trim_space
apply_env sys cfg = record cfg {
  db_path = set_text (sys.getenv (codes "ANKICED_DB_PATH")) cfg.db_path;
  anki_account = set_text (sys.getenv (codes "ANKICED_ANKI_ACCOUNT")) cfg.anki_account;
  http_addr = set_text (sys.getenv (codes "ANKICED_HTTP_ADDR")) cfg.http_addr;
  backup_keep_last_n =
      set_flag (parse_int (sys.getenv (codes "ANKICED_BACKUP_KEEP"))) cfg.backup_keep_last_n;
  workers = set_flag (parse_int (sys.getenv (codes "ANKICED_WORKERS"))) cfg.workers;
  force_apply =
      set_flag (parse_bool sys.lower (sys.getenv (codes "ANKICED_FORCE_APPLY"))) cfg.force_apply;
  verbose = set_flag (parse_bool sys.lower (sys.getenv (codes "ANKICED_VERBOSE"))) cfg.verbose;
  default_page_size =
      set_flag (above_zero (parse_int (sys.getenv (codes "ANKICED_PAGE_SIZE"))))
        cfg.default_page_size;
  pragma_busy_timeout =
      set_flag (above_zero (parse_int (sys.getenv (codes "ANKICED_BUSY_TIMEOUT_MS"))))
        cfg.pragma_busy_timeout;
  pragma_journal_mode =
      set_text (trim_space (sys.getenv (codes "ANKICED_PRAGMA_JOURNAL_MODE")))
        cfg.pragma_journal_mode;
  pragma_synchronous =
      set_text (trim_space (sys.getenv (codes "ANKICED_PRAGMA_SYNCHRONOUS")))
        cfg.pragma_synchronous;
}

-- What the flags set after the file and the environment.
unfoldable pub apply_flags : Flags → Text → Settings → Settings
apply_flags f config_path cfg = record cfg {
  db_path = set_text f.db_path cfg.db_path;
  anki_account = set_text f.anki_account cfg.anki_account;
  config_path = set_text config_path cfg.config_path;
  http_addr = set_flag f.http_addr cfg.http_addr;
  backup_keep_last_n = set_flag f.backup_keep cfg.backup_keep_last_n;
  workers = set_flag f.workers cfg.workers;
  force_apply = set_flag f.force_apply cfg.force_apply;
  verbose = set_flag f.verbose cfg.verbose;
  full_diff = set_flag f.full_diff cfg.full_diff;
  report_file = set_flag f.report_file cfg.report_file;
  default_page_size = set_flag f.page_size cfg.default_page_size;
  pragma_busy_timeout = set_flag f.busy_timeout_ms cfg.pragma_busy_timeout;
  pragma_journal_mode = set_flag f.pragma_journal_mode cfg.pragma_journal_mode;
  pragma_synchronous = set_flag f.pragma_synchronous cfg.pragma_synchronous;
}

abbrev first_there : System → List Text → Text
first_there sys [] = []
first_there sys (p ∷ ps) = let rest = first_there sys ps in if sys.stat p then p else rest

-- discoverDefaultConfigPath
unfoldable pub discover_default_config_path : System → Text
discover_default_config_path sys = first_there sys (
    codes "config.yaml"
    ∷ codes "config.yml"
    ∷ codes "config.json"
    ∷ codes "ankiced.yaml"
    ∷ codes "ankiced.yml"
    ∷ codes "ankiced.json"
    ∷ sys.join_path (codes "config" ∷ codes "ankiced.yaml" ∷ [])
    ∷ sys.join_path (codes "config" ∷ codes "ankiced.yml" ∷ [])
    ∷ sys.join_path (codes "config" ∷ codes "ankiced.json" ∷ [])
    ∷ [])

abbrev decode : System → Text → Outcome Text → Outcome Settings
unfolding eq_text to_lower
decode sys path (fail e) = fail e
decode sys path (ok data_) =
    let ext = to_lower sys.lower (sys.ext path) in
    if any (eq_text ext) (codes ".yaml" ∷ codes ".yml" ∷ [])
    then sys.unmarshal_yaml data_
    else sys.unmarshal_json data_

-- loadFileConfig
unfoldable pub load_file_config : System → Text → Outcome Settings
unfolding decode
load_file_config sys path =
    if is_empty path then ok empty_settings else decode sys path (sys.read_file path)

abbrev os_path : Os → Text → Text → List Text
os_path windows home profile =
    home
    ∷ codes "AppData"
    ∷ codes "Roaming"
    ∷ codes "Anki2"
    ∷ profile
    ∷ codes "collection.anki2"
    ∷ []
os_path darwin home profile =
    home
    ∷ codes "Library"
    ∷ codes "Application Support"
    ∷ codes "Anki2"
    ∷ profile
    ∷ codes "collection.anki2"
    ∷ []
os_path other home profile =
    home ∷ codes ".local" ∷ codes "share" ∷ codes "Anki2" ∷ profile ∷ codes "collection.anki2" ∷ []

-- defaultPathByOS
unfoldable pub default_path_by_os : System → Text → Text
unfolding trim_space
default_path_by_os sys account =
    if is_empty sys.home
    then []
    else sys.join_path (os_path sys.os sys.home (set_text (trim_space account) (codes "User 1")))

-- What Load does once the file is read.
abbrev pub settle : System → Flags → Text → Settings → Outcome Settings
unfolding merge apply_env apply_flags default_path_by_os
settle sys f config_path file =
    let cfg = apply_flags f config_path (apply_env sys (merge default_settings file)) in
    let path =
      if is_empty cfg.db_path then default_path_by_os sys cfg.anki_account else cfg.db_path in
    if is_empty path
    then fail (sentinel (application database_path_empty))
    else ok (record cfg { db_path = path })

abbrev with_file : System → Flags → Text → Outcome Settings → Outcome Settings
unfolding settle
with_file sys f config_path (ok file) = settle sys f config_path file
with_file sys f config_path (fail e) = fail e

-- The path of the file that is read: the flag's, or one that is found.
unfoldable pub config_path_of : System → Flags → Text
unfolding discover_default_config_path
config_path_of sys f = if is_empty f.config then discover_default_config_path sys else f.config

abbrev with_flags : System → Outcome Flags → Outcome Settings
unfolding with_file load_file_config config_path_of
with_flags sys (ok f) =
    with_file sys f (config_path_of sys f) (load_file_config sys (config_path_of sys f))
with_flags sys (fail e) = fail e

-- Load
unfoldable pub load : System → List Text → Outcome Settings
unfolding with_flags
load sys args = elim sys.cancelled [
  | some e ↦ fail e
  | none ↦ with_flags sys (sys.parse_flags args)
]

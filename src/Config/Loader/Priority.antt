-- ===== src/Config/Loader/Priority.antt =====
-- Which source a setting comes from.
use ankiced.Base.{
  ◌≡◌, refl, subst, ℤ, pos, ltb_ℤ, Bool, false, Bool-cases, Option-cases, inl, inr, Option, none,
  some, List, [], ◌∷◌, if◌then◌else◌, arith,
}
use ankiced.Text.{Text, codes, is_empty, trim_space}
use ankiced.Text.Number.{parse_int}
use ankiced.Errors.{sentinel, application, database_path_empty}
use ankiced.Config.{Settings}
use ankiced.Config.Loader.{
  System, Flags, default_settings, set_text, set_positive, set_flag, above_zero, merge, parse_bool,
  apply_env, apply_flags, default_path_by_os, settle, with_file, with_flags, load_file_config,
  config_path_of, load,
}
use ankiced.Action.{ok, fail, Outcome-cases}

-- The first value that is there.
abbrev pub first_of : {A : Type 0} → List (Option A) → A → A
first_of [] d = d
first_of (none ∷ os) d = first_of os d
first_of (some a ∷ os) d = a

abbrev pub filled : Text → Option Text
filled t = if is_empty t then none else some t

abbrev pub positive : ℤ → Option ℤ
positive n = if ltb_ℤ (pos 0) n then some n else none

-- The settings for the flags, the environment and the settings of a file: every setting is the
-- flag's, else that of the environment, else that of the file, else the default.
pub record IsResolved (sys : System) (f : Flags) (file : Settings) (path : Text) (cfg : Settings)
    : Type 0 where
  pub db_path :
      cfg.db_path
      ≡ first_of
          (filled f.db_path
            ∷ filled (sys.getenv (codes "ANKICED_DB_PATH"))
            ∷ filled file.db_path
            ∷ [])
          (default_path_by_os sys cfg.anki_account)
  pub db_path_filled : is_empty cfg.db_path ≡ false
  pub anki_account :
      cfg.anki_account
      ≡ first_of
          (filled f.anki_account
            ∷ filled (sys.getenv (codes "ANKICED_ANKI_ACCOUNT"))
            ∷ filled file.anki_account
            ∷ [])
          []
  pub http_addr :
      cfg.http_addr
      ≡ first_of
          (f.http_addr
            ∷ filled (sys.getenv (codes "ANKICED_HTTP_ADDR"))
            ∷ filled file.http_addr
            ∷ [])
          default_settings.http_addr
  pub backup_keep_last_n :
      cfg.backup_keep_last_n
      ≡ first_of
          (f.backup_keep
            ∷ parse_int (sys.getenv (codes "ANKICED_BACKUP_KEEP"))
            ∷ positive file.backup_keep_last_n
            ∷ [])
          (pos 3)
  pub workers :
      cfg.workers
      ≡ first_of
          (f.workers
            ∷ parse_int (sys.getenv (codes "ANKICED_WORKERS"))
            ∷ positive file.workers
            ∷ [])
          (pos 4)
  pub force_apply :
      cfg.force_apply
      ≡ first_of
          (f.force_apply ∷ parse_bool sys.lower (sys.getenv (codes "ANKICED_FORCE_APPLY")) ∷ [])
          file.force_apply
  pub verbose :
      cfg.verbose
      ≡ first_of
          (f.verbose ∷ parse_bool sys.lower (sys.getenv (codes "ANKICED_VERBOSE")) ∷ [])
          file.verbose
  pub full_diff : cfg.full_diff ≡ first_of (f.full_diff ∷ []) file.full_diff
  pub report_file : cfg.report_file ≡ first_of (f.report_file ∷ filled file.report_file ∷ []) []
  pub config_path : cfg.config_path ≡ path
  pub default_page_size :
      cfg.default_page_size
      ≡ first_of
          (f.page_size
            ∷ above_zero (parse_int (sys.getenv (codes "ANKICED_PAGE_SIZE")))
            ∷ positive file.default_page_size
            ∷ [])
          (pos 10)
  pub pragma_busy_timeout :
      cfg.pragma_busy_timeout
      ≡ first_of
          (f.busy_timeout_ms
            ∷ above_zero (parse_int (sys.getenv (codes "ANKICED_BUSY_TIMEOUT_MS")))
            ∷ positive file.pragma_busy_timeout
            ∷ [])
          (pos 5000)
  pub pragma_journal_mode :
      cfg.pragma_journal_mode
      ≡ first_of
          (f.pragma_journal_mode
            ∷ filled (trim_space (sys.getenv (codes "ANKICED_PRAGMA_JOURNAL_MODE")))
            ∷ filled (trim_space file.pragma_journal_mode)
            ∷ [])
          default_settings.pragma_journal_mode
  pub pragma_synchronous :
      cfg.pragma_synchronous
      ≡ first_of
          (f.pragma_synchronous
            ∷ filled (trim_space (sys.getenv (codes "ANKICED_PRAGMA_SYNCHRONOUS")))
            ∷ filled (trim_space file.pragma_synchronous)
            ∷ [])
          default_settings.pragma_synchronous

module _ (sys : System) (f : Flags) (file : Settings) (path : Text) where
  texts :
      (a b c d : Text)
      → set_text a (set_text b (set_text c d)) ≡ first_of (filled a ∷ filled b ∷ filled c ∷ []) d
  texts a b c d = ground arith

  flag_text :
      (o : Option Text) (b c d : Text)
      → set_flag o (set_text b (set_text c d)) ≡ first_of (o ∷ filled b ∷ filled c ∷ []) d
  flag_text none b c d = ground arith
  flag_text (some a) b c d = refl

  numbers :
      (o p : Option ℤ) (n d : ℤ)
      → set_flag o (set_flag p (set_positive n d)) ≡ first_of (o ∷ p ∷ positive n ∷ []) d
  numbers none none n d = ground arith
  numbers none (some b) n d = refl
  numbers (some a) p n d = refl

  bools : (o p : Option Bool) (b : Bool) → set_flag o (set_flag p b) ≡ first_of (o ∷ p ∷ []) b
  bools none none b = refl
  bools none (some c) b = refl
  bools (some a) p b = refl

  one_bool : (o : Option Bool) (b : Bool) → set_flag o b ≡ first_of (o ∷ []) b
  one_bool none b = refl
  one_bool (some a) b = refl

  one_text :
      (o : Option Text) (c d : Text) → set_flag o (set_text c d) ≡ first_of (o ∷ filled c ∷ []) d
  one_text none c d = ground arith
  one_text (some a) c d = refl

  path_set : (t : Text) → set_text t [] ≡ t
  path_set [] = refl
  path_set (c ∷ s) = refl

  path_resolved :
      (a b c d : Text)
      → (if is_empty (set_text a (set_text b (set_text c [])))
          then d
          else set_text a (set_text b (set_text c [])))
        ≡ first_of (filled a ∷ filled b ∷ filled c ∷ []) d
  path_resolved (x ∷ a) b c d = refl
  path_resolved [] (x ∷ b) c d = refl
  path_resolved [] [] (x ∷ c) d = refl
  path_resolved [] [] [] d = refl

  abbrev final : Settings
  unfolding merge apply_env apply_flags
  final = apply_flags f path (apply_env sys (merge default_settings file))

  abbrev final_path : Text
  unfolding final default_path_by_os
  final_path =
      if is_empty final.db_path then default_path_by_os sys final.anki_account else final.db_path

  final-IsResolved :
      is_empty final_path ≡ false
      → IsResolved sys f file path (record final { db_path = final_path })
  unfolding final_path final merge apply_env apply_flags
  final-IsResolved h = record {
    db_path =
        path_resolved f.db_path (sys.getenv (codes "ANKICED_DB_PATH")) file.db_path
          (default_path_by_os sys final.anki_account);
    db_path_filled = h;
    anki_account =
        texts f.anki_account (sys.getenv (codes "ANKICED_ANKI_ACCOUNT")) file.anki_account [];
    http_addr = flag_text f.http_addr (sys.getenv (codes "ANKICED_HTTP_ADDR")) file.http_addr _;
    backup_keep_last_n =
        numbers f.backup_keep (parse_int (sys.getenv (codes "ANKICED_BACKUP_KEEP")))
          file.backup_keep_last_n (pos 3);
    workers =
        numbers f.workers (parse_int (sys.getenv (codes "ANKICED_WORKERS"))) file.workers (pos 4);
    force_apply =
        bools f.force_apply (parse_bool sys.lower (sys.getenv (codes "ANKICED_FORCE_APPLY")))
          file.force_apply;
    verbose =
        bools f.verbose (parse_bool sys.lower (sys.getenv (codes "ANKICED_VERBOSE"))) file.verbose;
    full_diff = one_bool f.full_diff file.full_diff;
    report_file = one_text f.report_file file.report_file [];
    config_path = path_set path;
    default_page_size =
        numbers f.page_size (above_zero (parse_int (sys.getenv (codes "ANKICED_PAGE_SIZE"))))
          file.default_page_size (pos 10);
    pragma_busy_timeout =
        numbers f.busy_timeout_ms
          (above_zero (parse_int (sys.getenv (codes "ANKICED_BUSY_TIMEOUT_MS"))))
          file.pragma_busy_timeout (pos 5000);
    pragma_journal_mode =
        flag_text f.pragma_journal_mode
          (trim_space (sys.getenv (codes "ANKICED_PRAGMA_JOURNAL_MODE")))
          (trim_space file.pragma_journal_mode) _;
    pragma_synchronous =
        flag_text f.pragma_synchronous
          (trim_space (sys.getenv (codes "ANKICED_PRAGMA_SYNCHRONOUS")))
          (trim_space file.pragma_synchronous) _;
  }

  settle-IsResolved :
      (cfg : Settings) → settle sys f path file ≡ ok cfg → IsResolved sys f file path cfg
  unfolding settle final_path final
  settle-IsResolved cfg h = elim (Bool-cases (is_empty final_path)) [
    | inl e ↦
        absurd
          (let k : fail (sentinel (application database_path_empty)) ≡ ok cfg = rw e at h in cc)
    | inr e ↦
        let k : ok (record final { db_path = final_path }) ≡ ok cfg = rw e at h in
        let c : record final { db_path = final_path } ≡ cfg = cc in
        subst (IsResolved sys f file path) c (final-IsResolved e)
  ]

-- If Load returns settings, then the flags were read and the file of settings, if there is one,
-- and each setting is the flag's, else that of the environment, else that of the file, else the
-- default. The path of the collection is never empty.
pub load-IsResolved :
    (sys : System) (args : List Text) (cfg : Settings)
    → load sys args ≡ ok cfg
    → (f : Flags) × (file : Settings) × (sys.parse_flags args ≡ ok f)
      × (load_file_config sys (config_path_of sys f) ≡ ok file)
      × IsResolved sys f file (config_path_of sys f) cfg
unfolding load with_flags with_file
load-IsResolved sys args cfg h = elim (Option-cases sys.cancelled) [
  | inr (e, c) ↦ absurd (let k : fail e ≡ ok cfg = rw c at h in cc)
  | inl c ↦ elim (Outcome-cases (sys.parse_flags args)) [
    | inr (e, p) ↦ absurd (let k : fail e ≡ ok cfg = rw (c, p) at h in cc)
    | inl (f, p) ↦ elim (Outcome-cases (load_file_config sys (config_path_of sys f))) [
      | inr (e, l) ↦ absurd (let k : fail e ≡ ok cfg = rw (c, p, l) at h in cc)
      | inl (file, l) ↦
          let k : settle sys f (config_path_of sys f) file ≡ ok cfg = rw (c, p, l) at h in
          (f, file, p, l, settle-IsResolved sys f file (config_path_of sys f) cfg k)
    ]
  ]
]

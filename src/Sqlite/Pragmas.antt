-- ===== src/Sqlite/Pragmas.antt =====
-- The pragmas and the name of the data source. `upper` is unicode.ToUpper, `quote` the verb %q, and
-- `show` prints a number.
use ankiced.Base.{
  ◌≡◌, refl, ap, subst, ℕ, ℤ, pos, ltb_ℤ, leb_ℤ, Bool, true, false, not, ◌==◌, [], ◌∷◌, ◌++◌, map,
  any, All, All-append, Bool-cases, inl, inr, if◌then◌else◌, arith,
}
use ankiced.Text.{Text, codes, is_empty, eq_text, trim_space}
use ankiced.Errors.{
  SqliteError, sentinel, sqlite, invalid_journal_mode, invalid_synchronous, fmt_wrap,
}
use ankiced.Action.{Outcome, ok, fail}

pub record Pragmas : Type 0 where
  pub busy_timeout_ms : ℤ
  pub journal_mode : Text
  pub synchronous : Text

unfoldable pub allowed_journal_modes : Text → Bool
unfolding eq_text
allowed_journal_modes mode = any (eq_text mode) (
    codes "WAL"
    ∷ codes "DELETE"
    ∷ codes "TRUNCATE"
    ∷ codes "MEMORY"
    ∷ codes "OFF"
    ∷ codes "PERSIST"
    ∷ [])

unfoldable pub allowed_synchronous : Text → Bool
unfolding eq_text
allowed_synchronous mode =
    any (eq_text mode) (codes "OFF" ∷ codes "NORMAL" ∷ codes "FULL" ∷ codes "EXTRA" ∷ [])

abbrev or_text : Text → Text → Text
or_text t d = if is_empty t then d else t

abbrev refuse : (Text → Text) → SqliteError → Text → Outcome Pragmas
refuse quote e value = fail (fmt_wrap [] (sentinel (sqlite e)) (codes ": " ++ quote value))

-- The two modes after trimming and folding, with their defaults.
abbrev pub mode_of : (ℕ → ℕ) → Text → Text → Text
unfolding trim_space
mode_of upper t d = or_text (map upper (trim_space t)) d

abbrev timeout : ℤ → ℤ
timeout n = if leb_ℤ n (pos 0) then pos 5000 else n

-- normalize
unfoldable pub normalize : (ℕ → ℕ) → (Text → Text) → Pragmas → Outcome Pragmas
unfolding mode_of allowed_journal_modes allowed_synchronous
normalize upper quote p =
    let mode = mode_of upper p.journal_mode (codes "WAL") in
    let sync_mode = mode_of upper p.synchronous (codes "NORMAL") in
    if not (allowed_journal_modes mode)
    then refuse quote invalid_journal_mode p.journal_mode
    else if not (allowed_synchronous sync_mode)
    then refuse quote invalid_synchronous p.synchronous
    else ok (record {
      busy_timeout_ms = timeout p.busy_timeout_ms;
      journal_mode = mode;
      synchronous = sync_mode;
    })

-- dsnPathEscaper
abbrev escape_rune : ℕ → Text
escape_rune c =
    if c == b'%'
    then codes "%25"
    else if c == b'?'
    then codes "%3F"
    else if c == b'#'
    then codes "%23"
    else if c == b' '
    then codes "%20"
    else c ∷ []

unfoldable pub escape_path : Text → Text
escape_path [] = []
escape_path (c ∷ s) = escape_rune c ++ escape_path s

-- buildDSN
unfoldable pub build_dsn : (ℤ → Text) → Text → Pragmas → Text
unfolding escape_path
build_dsn show path p =
    codes "file:"
    ++ (escape_path path
        ++ (codes "?_pragma=journal_mode("
            ++ (p.journal_mode
                ++ (codes ")&_pragma=synchronous("
                    ++ (p.synchronous
                        ++ (codes ")&_pragma=busy_timeout("
                            ++ (show p.busy_timeout_ms ++ codes ")&_pragma=foreign_keys(ON)")))))))

timeout_positive : (n : ℤ) → ltb_ℤ (pos 0) (timeout n) ≡ true
timeout_positive n = ground arith

-- Normalised pragmas are of the lists of allowed values, whatever was configured, and the timeout is
-- positive.
pub normalize_allowed :
    (upper : ℕ → ℕ) (quote : Text → Text) (p q : Pragmas)
    → normalize upper quote p ≡ ok q
    → (allowed_journal_modes q.journal_mode ≡ true)
      × (allowed_synchronous q.synchronous ≡ true)
      × (ltb_ℤ (pos 0) q.busy_timeout_ms ≡ true)
unfolding normalize
normalize_allowed upper quote p q h =
    let mode = mode_of upper p.journal_mode (codes "WAL") in
    let sync_mode = mode_of upper p.synchronous (codes "NORMAL") in
    elim (Bool-cases (allowed_journal_modes mode)) [
      | inr e ↦ absurd (let k = rw (e, normalize) at h in cc)
      | inl e ↦ elim (Bool-cases (allowed_synchronous sync_mode)) [
        | inr f ↦ absurd (let k = rw (e, f, normalize) at h in cc)
        | inl f ↦
            let k : ok (record {
              busy_timeout_ms = timeout p.busy_timeout_ms;
              journal_mode = mode;
              synchronous = sync_mode;
            })
                ≡ ok q =
              rw (e, f, normalize) at h in
            let c : record {
              busy_timeout_ms = timeout p.busy_timeout_ms;
              journal_mode = mode;
              synchronous = sync_mode;
            }
                ≡ q =
              cc in
            subst
              (λ r.
                (allowed_journal_modes r.journal_mode ≡ true)
                × (allowed_synchronous r.synchronous ≡ true)
                × (ltb_ℤ (pos 0) r.busy_timeout_ms ≡ true))
              c (e, f, timeout_positive p.busy_timeout_ms)
      ]
    ]

-- A rune that the URI of a data source does not read as the end of its path.
abbrev pub IsPathRune : ℕ → Type 0
IsPathRune c = ((c == b'?') ≡ false) × ((c == b'#') ≡ false) × ((c == b' ') ≡ false)

escape_rune-IsPathRune : (c : ℕ) → All IsPathRune (escape_rune c)
unfolding escape_rune
escape_rune-IsPathRune c = elim (Bool-cases (c == b'%')) [
  | inl e ↦ rw e ((refl, refl, refl), ((refl, refl, refl), ((refl, refl, refl), tt)))
  | inr e ↦ rw e (elim (Bool-cases (c == b'?')) [
    | inl f ↦ rw f ((refl, refl, refl), ((refl, refl, refl), ((refl, refl, refl), tt)))
    | inr f ↦ rw f (elim (Bool-cases (c == b'#')) [
      | inl g ↦ rw g ((refl, refl, refl), ((refl, refl, refl), ((refl, refl, refl), tt)))
      | inr g ↦ rw g (elim (Bool-cases (c == b' ')) [
        | inl k ↦ rw k ((refl, refl, refl), ((refl, refl, refl), ((refl, refl, refl), tt)))
        | inr k ↦ rw k ((f, g, k), tt)
      ])
    ])
  ])
]

escape_path-IsPathRune : (s : Text) → All IsPathRune (escape_path s)
unfolding escape_path
escape_path-IsPathRune [] = tt
escape_path-IsPathRune (c ∷ s) =
    All-append IsPathRune (escape_rune c) (escape_path s) (escape_rune-IsPathRune c)
      (escape_path-IsPathRune s)

-- What stands before the first question mark, and what stands behind it.
abbrev pub path_part : Text → Text
path_part [] = []
path_part (c ∷ s) = let rest = path_part s in if c == b'?' then [] else c ∷ rest

path_part-append : (s rest : Text) → All IsPathRune s → path_part (s ++ (b'?' ∷ rest)) ≡ s
path_part-append [] rest h = refl
path_part-append (c ∷ s) rest ((a, _, _), h) = rw a (ap (λ l. c ∷ l) (path_part-append s rest h))

-- The path of the collection cannot add to the pragmas or end early: the URI's path is the escaped
-- path of the collection, and in it there is no question mark, number sign or blank.
pub build_dsn-path_part :
    (show : ℤ → Text) (path : Text) (p : Pragmas)
    → (path_part (build_dsn show path p) ≡ codes "file:" ++ escape_path path)
      × All IsPathRune (escape_path path)
unfolding build_dsn
build_dsn-path_part show path p = (
  ap (λ l. codes "file:" ++ l)
      (path_part-append (escape_path path) _ (escape_path-IsPathRune path)),
  escape_path-IsPathRune path,
)

-- ===== src/Backup/Cleanup.antt =====
-- CleanupBackups of internal/infrastructure/fs/backup_store.go. The directory of the collection is
-- the list of the names in it, `base` the collection's own name; the program sorts and removes the
-- names behind the directory's path, a common prefix. The system's answers are arguments.
pub mod Sorted
pub mod Kept
use ankiced.Base.{
  ℕ, ◌-◌, ℤ, pos, negsuc, Bool, true, false, ◌&&◌, not, Option, none, some, List, [], ◌∷◌, ◌++◌,
  length, take, keep, leb, ltb, ◌==◌, if◌then◌else◌,
}
use ankiced.Text.{Text, codes, eq_text, has_prefix, has_suffix}
use ankiced.Errors.{Err}

-- The order of sort.Strings.
unfoldable pub lex_le : Text → Text → Bool
lex_le [] t = true
lex_le (a ∷ s) [] = false
lex_le (a ∷ s) (b ∷ t) = if ltb a b then true else if a == b then lex_le s t else false

unfoldable pub insert : Text → List Text → List Text
unfolding lex_le
insert x [] = x ∷ []
insert x (y ∷ l) = let rest = insert x l in if lex_le x y then x ∷ y ∷ l else y ∷ rest

-- sort.Strings
unfoldable pub sort : List Text → List Text
unfolding insert
sort [] = []
sort (x ∷ l) = insert x (sort l)

unfoldable pub is_backup : Text → Text → Bool
unfolding has_prefix has_suffix
is_backup base name = has_prefix name (base ++ codes ".") && has_suffix name (codes ".bak")

abbrev pub without : Text → List Text → List Text
without name = keep (λ n. not (eq_text n name))

-- The loop over os.Remove, which stops at the first error.
unfoldable pub remove_all : (Text → Option Err) → List Text → List Text → Option Err × List Text
unfolding eq_text
remove_all faults [] dir = (none, dir)
remove_all faults (p ∷ ps) dir = elim (faults p) [
  | some e ↦ (some e, dir)
  | none ↦ remove_all faults ps (without p dir)
]

-- `if keepLastN < 1 { keepLastN = 3 }`
abbrev pub kept_count : ℤ → ℕ
kept_count (pos n) = if ltb n 1 then 3 else n
kept_count (negsuc _) = 3

abbrev remove_old : (Text → Option Err) → ℕ → List Text → List Text → Option Err × List Text
remove_old faults n backups dir =
    if leb (length backups) n
    then (none, dir)
    else remove_all faults (take (length backups - n) backups) dir

-- `read` is the error of os.ReadDir.
unfoldable pub cleanup_backups :
    Option Err → (Text → Option Err) → Text → ℤ → List Text → Option Err × List Text
cleanup_backups (some e) faults base keep_last dir = (some e, dir)
cleanup_backups none faults base keep_last dir =
    remove_old faults (kept_count keep_last) (sort (keep (is_backup base) dir)) dir

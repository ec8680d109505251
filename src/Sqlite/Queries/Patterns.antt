-- ===== src/Sqlite/Queries/Patterns.antt =====
-- What SQLite reads of the patterns and statements.
use ankiced.Base.{
  ◌≡◌, refl, subst, ==_iff, sym, ap, ◌∙◌, ℕ, pos, ltb_ℤ, leb_ℤ, eq_ℤ, Bool, true, false, not, ◌&&◌,
  ◌==◌, List, [], ◌∷◌, ◌++◌, map, length, length-append, append_assoc, Bool-cases, inl, inr,
  if◌then◌else◌, arith,
}
use ankiced.Text.{Text, codes, is_empty, trim_space}
use ankiced.Text.Parts.{count, count-append}
use ankiced.Domain.{FilterSet}
use ankiced.Action.{ok}
use ankiced.Sqlite.Queries.{
  escape_like_rune, escape_like, contains_pattern, Arg, number, add_if, mod_filters, global_query,
  deck_query, build_notes_query,
}

-- A part of a pattern of LIKE with the escape '\': a rune that is matched as it is, a rune of any
-- kind, or runes of any kind and number.
pub data Token : Type 0 where
  literal : ℕ → Token
  one many : Token

-- The tokens of a pattern; `true` stands for an escape that was just read.
abbrev pub tokens : Bool → Text → List Token
tokens _ [] = []
tokens true (c ∷ s) = literal c ∷ tokens false s
tokens false (c ∷ s) =
    let escaped = tokens true s in
    let rest = tokens false s in
    if c == b'\\'
    then escaped
    else if c == b'%'
    then many ∷ rest
    else if c == b'_'
    then one ∷ rest
    else literal c ∷ rest

tokens-escape_like_rune :
    (c : ℕ) (t : Text) → tokens false (escape_like_rune c ++ t) ≡ literal c ∷ tokens false t
tokens-escape_like_rune c t =
    let same : (k : ℕ) → (c == k) ≡ true → literal k ∷ tokens false t ≡ literal c ∷ tokens false t =
      λ k e. ap (λ j. literal j ∷ tokens false t) (sym ((==_iff c k).0 e)) in
    elim (Bool-cases (c == b'\\')) [
      | inl e ↦ rw e (same b'\\' e)
      | inr e ↦ elim (Bool-cases (c == b'%')) [
        | inl f ↦ rw (e, f) (same b'%' f)
        | inr f ↦ elim (Bool-cases (c == b'_')) [
          | inl g ↦ rw (e, f, g) (same b'_' g)
          | inr g ↦ rw (e, f, g, e, f, g) refl
        ]
      ]
    ]

tokens-escape_like :
    (s rest : Text) → tokens false (escape_like s ++ rest) ≡ map literal s ++ tokens false rest
unfolding escape_like
tokens-escape_like [] rest = refl
tokens-escape_like (c ∷ s) rest =
    ap (tokens false) (append_assoc (escape_like_rune c) (escape_like s) rest)
    ∙ tokens-escape_like_rune c (escape_like s ++ rest)
    ∙ ap (λ l. literal c ∷ l) (tokens-escape_like s rest)

-- A search matches the text itself, with any runes before and behind it: no rune of it is read as a
-- wildcard.
pub tokens-contains_pattern :
    (s : Text) → tokens false (contains_pattern s) ≡ many ∷ (map literal s ++ many ∷ [])
unfolding contains_pattern
tokens-contains_pattern s = ap (λ l. many ∷ l) (tokens-escape_like s (codes "%"))

-- As many placeholders as arguments.
abbrev pub IsBound : Text × List Arg → Type 0
IsBound q = count b'?' q.0 ≡ length q.1

add_if-IsBound :
    (b : Bool) (sql : Text) (arg : Arg) (q : Text × List Arg)
    → count b'?' sql ≡ 1
    → IsBound q
    → IsBound (add_if b sql arg q)
unfolding add_if
add_if-IsBound true sql arg q one_mark h =
    omega (arith, count-append b'?' q.0 sql, length-append q.1 (arg ∷ []))
add_if-IsBound false sql arg q one_mark h = h

mod_filters-IsBound : (f : FilterSet) (q : Text × List Arg) → IsBound q → IsBound (mod_filters f q)
unfolding mod_filters
mod_filters-IsBound f q h =
    add_if-IsBound (ltb_ℤ (pos 0) f.mod_to_unix) (codes " AND n.mod <= ?") (number f.mod_to_unix) _
      refl
      (add_if-IsBound (ltb_ℤ (pos 0) f.mod_from_unix) (codes " AND n.mod >= ?")
        (number f.mod_from_unix) q refl h)

global_query-IsBound : (f : FilterSet) → IsBound (global_query f)
unfolding global_query
global_query-IsBound f = mod_filters-IsBound f _ refl

deck_query-IsBound : (f : FilterSet) → IsBound (deck_query f)
unfolding deck_query
deck_query-IsBound f =
    add_if-IsBound (not (is_empty f.search_text))
      (codes " AND n.flds LIKE ? ESCAPE '\\' COLLATE NOCASE") _ _ refl
      (mod_filters-IsBound f _ refl)

-- A statement that is built for a list of notes has as many placeholders as arguments.
pub build_notes_query-IsBound :
    (f : FilterSet) (q : Text × List Arg) → build_notes_query f ≡ ok q → IsBound q
unfolding build_notes_query
build_notes_query-IsBound f q h =
    elim (Bool-cases (eq_ℤ f.deck_id (pos 0) && not (is_empty (trim_space f.search_text)))) [
      | inl e ↦
          let k : ok (global_query f) ≡ ok q = rw (e, build_notes_query) at h in
          let c : global_query f ≡ q = cc in subst IsBound c (global_query-IsBound f)
      | inr e ↦ elim (Bool-cases (leb_ℤ f.deck_id (pos 0))) [
        | inl g ↦ absurd (let k = rw (e, g, build_notes_query) at h in cc)
        | inr g ↦
            let k : ok (deck_query f) ≡ ok q = rw (e, g, build_notes_query) at h in
            let c : deck_query f ≡ q = cc in subst IsBound c (deck_query-IsBound f)
      ]
    ]

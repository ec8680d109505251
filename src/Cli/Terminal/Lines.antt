-- ===== src/Cli/Terminal/Lines.antt =====
-- A read takes a line off the input, and nothing adds one.
use ankiced.Base.{
  ℕ, suc, ◌+◌, ◌≤◌, ◌<◌, ◌≡◌, refl, ◌⊎◌, inl, inr, none, some, List, [], ◌∷◌, ◌++◌, Option-cases,
  Bool-cases, ◌==◌, arith,
}
use ankiced.Text.{Text}
use ankiced.Text.Parts.{count, count_all, count-append}
use ankiced.Action.{ok, Preserves}
use ankiced.Cli.Terminal.{
  Term, line_count, take_line, Read, read_line, scan_line, write, read_string, scan,
}

abbrev feeds : Text → ℕ
feeds = count b'\n'

take_line-some : (b line rest : Text) → take_line b ≡ some (line, rest) → feeds b ≡ suc (feeds rest)
unfolding take_line
take_line-some [] line rest h = cc
take_line-some (c ∷ s) line rest h = elim (Bool-cases (c == b'\n')) [
  | inl e ↦ ground arith
  | inr n ↦ elim (Option-cases (take_line s)) [
    | inl gone ↦ ground arith
    | inr ((l, r), found) ↦ ground (arith, take_line-some s l r)
  ]
]

take_line-none : (b : Text) → take_line b ≡ none → feeds b ≡ 0
unfolding take_line
take_line-none [] h = refl
take_line-none (c ∷ s) h = elim (Bool-cases (c == b'\n')) [
  | inl e ↦ ground arith
  | inr n ↦ elim (Option-cases (take_line s)) [
    | inl gone ↦ ground (arith, take_line-none s)
    | inr ((l, r), found) ↦ ground arith
  ]
]

abbrev left : Read → ℕ
left r = feeds r.buffered + count_all b'\n' r.pending

-- A read of a line finds none, or takes one line feed; in both cases none is added.
abbrev Took : ℕ → Read → Type 0
Took n r = (left r ≤ n) × ((r.line ≡ none) ⊎ (left r + 1 ≤ n))

-- What is left when the first line of what is buffered was looked for.
with_line :
    (b line rest : Text) (cs : List Text)
    → take_line b ≡ some (line, rest)
    → Took
        (feeds b + count_all b'\n' cs)
        (record { line = some line; buffered = rest; pending = cs })
with_line b line rest cs found =
    let e = take_line-some b line rest found in (omega (arith, e), inr (omega (arith, e)))

read_line-found :
    (b line rest : Text) (cs : List Text)
    → take_line b ≡ some (line, rest)
    → read_line b cs ≡ record { line = some line; buffered = rest; pending = cs }
unfolding read_line
read_line-found b line rest [] found = cc
read_line-found b line rest (c ∷ cs) found = cc

read_line-end :
    (b : Text)
    → take_line b ≡ none
    → read_line b [] ≡ record { line = none; buffered = []; pending = [] }
unfolding read_line
read_line-end b gone = cc

read_line-more :
    (b c : Text) (cs : List Text)
    → take_line b ≡ none
    → read_line b (c ∷ cs) ≡ read_line (b ++ c) cs
unfolding read_line
read_line-more b c cs gone = cc

read_line-Took : (b : Text) (cs : List Text) → Took (feeds b + count_all b'\n' cs) (read_line b cs)
read_line-Took b [] = elim (Option-cases (take_line b)) [
  | inl gone ↦ rw (read_line-end b gone) (omega arith, inl refl)
  | inr ((line, rest), found) ↦
      rw (read_line-found b line rest [] found) (with_line b line rest [] found)
]
read_line-Took b (c ∷ cs) = elim (Option-cases (take_line b)) [
  | inl gone ↦
      let (low, cases) = read_line-Took (b ++ c) cs in
      let whole = count-append b'\n' b c in
      rw (read_line-more b c cs gone) (
        omega (arith, whole, low),
        elim cases [
          | inl none_read ↦ inl none_read
          | inr fewer ↦ inr (omega (arith, whole, fewer))
        ],
      )
  | inr ((line, rest), found) ↦
      rw (read_line-found b line rest (c ∷ cs) found) (with_line b line rest (c ∷ cs) found)
]

scan_line-le : (b : Text) (cs : List Text) → count_all b'\n' (scan_line b cs).1 ≤ count_all b'\n' cs
unfolding scan_line
scan_line-le b [] = elim (Option-cases (take_line b)) [
  | inl gone ↦ ground arith
  | inr ((line, rest), found) ↦ ground arith
]
scan_line-le b (c ∷ cs) = elim (Option-cases (take_line b)) [
  | inl gone ↦ ground (arith, scan_line-le (b ++ c) cs)
  | inr ((line, rest), found) ↦ ground arith
]

module _ {W : Type 0} (n : ℕ) where
  -- The input has at most this many line feeds.
  abbrev pub AtMost : Term W → Type 0
  AtMost t = line_count t ≤ n

  pub write-AtMost : (text : Text) → Preserves AtMost (write text)
  unfolding write
  write-AtMost text t h = elim (Option-cases t.out_error) [
    | inl fine ↦ rw fine h
    | inr (e, broken) ↦ rw broken h
  ]

  pub read_string-AtMost : Preserves AtMost read_string
  unfolding read_string
  read_string-AtMost t h = let (low, _) = read_line-Took t.buffered t.pending in omega arith

  scan-AtMost : (lower : ℕ → ℕ) → Preserves AtMost (scan lower)
  unfolding scan
  scan-AtMost lower t h = omega (arith, scan_line-le [] t.pending)

-- A read that finds a line takes a line feed.
pub read_string_takes :
    {W : Type 0} (t : Term W) (line : Text)
    → (read_string t).0 ≡ ok line
    → line_count (read_string t).1 < line_count t
unfolding read_string
read_string_takes t line h = elim (read_line-Took t.buffered t.pending).1 [
  | inl gone ↦ cc
  | inr fewer ↦ omega arith
]

-- ===== src/Cli/Terminal.antt =====
-- The standard input and output that internal/interfaces/cli works on: the reader of app.go, a
-- bufio.Reader that keeps what it has read ahead, and the Prompter of prompt.go, which scans the same
-- input with a buffer of its own. `pending` are the texts that the next reads of the input return.
pub mod Lines
pub mod Confirm
use ankiced.Base.{
  ℕ, ◌+◌, Bool, true, false, ◌||◌, Option, none, some, List, [], ◌∷◌, ◌++◌, ◌==◌, if◌then◌else◌,
}
use ankiced.Text.{Text, codes, is_empty, eq_text, trim_space, to_lower}
use ankiced.Text.Parts.{count, count_all}
use ankiced.Errors.{Err, sentinel, eof}
use ankiced.Action.{Outcome, ok, fail, Action, ◌>>=◌, ◌>>◌}

-- The terminal, with what stands behind the ports. Where `out_error` is set every write fails.
pub record Term (W : Type 0) : Type 0 where
  pub behind : W
  pub pending : List Text
  pub buffered : Text
  pub output : List Text
  pub out_error : Option Err

-- A text up to its first line feed, that included, and the rest.
unfoldable pub take_line : Text → Option (Text × Text)
take_line [] = none
take_line (c ∷ s) =
    let rest = take_line s in
    if c == b'\n'
    then some (c ∷ [], s)
    else elim rest [ none ↦ none | some (line, after) ↦ some (c ∷ line, after) ]

-- What a read of a line leaves: the line, what is buffered and what is pending.
pub record Read : Type 0 where
  pub line : Option Text
  pub buffered : Text
  pub pending : List Text

-- ReadString('\n'): at the end of the input what was read is given up, with io.EOF.
unfoldable pub read_line : Text → List Text → Read
unfolding take_line
read_line b [] = elim (take_line b) [
  | some (line, rest) ↦ record { line = some line; buffered = rest; pending = [] }
  | none ↦ record { line = none; buffered = []; pending = [] }
]
read_line b (c ∷ cs) = elim (take_line b) [
  | some (line, rest) ↦ record { line = some line; buffered = rest; pending = c ∷ cs }
  | none ↦ read_line (b ++ c) cs
]

-- bufio.ScanLines: the line without its end.
abbrev drop_cr : Text → Text
drop_cr [] = []
drop_cr (c ∷ []) = if c == b'\r' then [] else c ∷ []
drop_cr (c ∷ d ∷ s) = c ∷ drop_cr (d ∷ s)

abbrev drop_end : Text → Text
drop_end [] = []
drop_end (c ∷ []) = if c == b'\n' then [] else c ∷ []
drop_end (c ∷ d ∷ s) = c ∷ drop_end (d ∷ s)

-- The first Scan of a new scanner, and what it leaves to others: what it has read ahead is lost.
unfoldable pub scan_line : Text → List Text → Option Text × List Text
unfolding take_line
scan_line b [] = elim (take_line b) [
  | some (line, rest) ↦ (some (drop_cr (drop_end line)), [])
  | none ↦ (if is_empty b then none else some (drop_cr b), [])
]
scan_line b (c ∷ cs) = elim (take_line b) [
  | some (line, rest) ↦ (some (drop_cr (drop_end line)), c ∷ cs)
  | none ↦ scan_line (b ++ c) cs
]

abbrev line_or_eof : Option Text → Outcome Text
line_or_eof none = fail (sentinel eof)
line_or_eof (some line) = ok line

-- Whether the answer of the user is a yes.
abbrev says_yes : (ℕ → ℕ) → Option Text → Bool
unfolding trim_space to_lower eq_text
says_yes lower none = false
says_yes lower (some text) =
    let answer = trim_space (to_lower lower text) in
    eq_text answer (codes "y") || eq_text answer (codes "yes")

module _ {W : Type 0} where
  -- The line feeds in the input: each line that is read takes one.
  abbrev pub line_count : Term W → ℕ
  line_count t = count b'\n' t.buffered + count_all b'\n' t.pending

  -- write; writeln and writef are calls of it.
  unfoldable pub write : Text → Action (Term W) (Unit {0})
  write text t = elim t.out_error [
    | some e ↦ (fail e, t)
    | none ↦ (ok tt, record t { output = t.output ++ text ∷ [] })
  ]

  abbrev pub writeln : Text → Action (Term W) (Unit {0})
  writeln text = write (text ++ codes "\n")

  -- reader.ReadString('\n')
  unfoldable pub read_string : Action (Term W) Text
  unfolding read_line
  read_string t =
      let r = read_line t.buffered t.pending in
      (line_or_eof r.line, record t { buffered = r.buffered; pending = r.pending })

  unfoldable pub scan : (ℕ → ℕ) → Action (Term W) Bool
  unfolding scan_line says_yes
  scan lower t =
      let (line, rest) = scan_line [] t.pending in
      (ok (says_yes lower line), record t { pending = rest })

  -- Confirm; `lower` is unicode.ToLower.
  unfoldable pub confirm : (ℕ → ℕ) → Text → Action (Term W) Bool
  unfolding write scan
  confirm lower prompt = write (prompt ++ codes " [y/N]: ") >> scan lower

-- ===== src/Cli/Escapes.antt =====
-- decodeEscapes, with strconv.Unquote for a text in double quotes, read rune by rune.
pub mod RoundTrip
use ankiced.Base.{
  ℕ, zero, suc, ◌+◌, ◌-◌, ◌*◌, Bool, true, false, not, ◌&&◌, ◌||◌, Option, none, some, List, [],
  ◌∷◌, ◌++◌, leb, ltb, ◌==◌, if◌then◌else◌,
}
use ankiced.Text.{Text, codes}
use ankiced.Errors.{Err, sentinel, application, invalid_escape_sequence, fmt_wrap}
use ankiced.Action.{Outcome, ok, fail}

-- What an unquoted text is made of: runes, and the bytes of \x and of octal escapes from 128 on.
pub data Piece : Type 0 where
  rune byte : ℕ → Piece

-- Where the reading stands: between runes, behind a backslash, or within the digits of an escape,
-- with how many are left behind the next one, their value so far and whether they make a byte.
pub data Reading : Type 0 where
  plain escaped : Reading
  digits : (base left acc : ℕ) → (is_byte : Bool) → Reading

abbrev digit_value : ℕ → ℕ → Option ℕ
digit_value base c =
    let v =
      (if leb b'0' c && leb c b'9'
        then c - b'0'
        else if leb b'a' c && leb c b'f'
        then c - b'a' + 10
        else if leb b'A' c && leb c b'F'
        then c - b'A' + 10
        else base) in
    if ltb v base then some v else none

abbrev is_rune : ℕ → Bool
is_rune v = leb v 0x10FFFF && not (leb 0xD800 v && leb v 0xDFFF)

abbrev finish : Bool → ℕ → Option Piece
finish true v = if ltb v 0x80 then some (rune v) else if leb v 255 then some (byte v) else none
finish false v = if is_rune v then some (rune v) else none

-- The escapes of one rune.
abbrev pub simple : ℕ → Option ℕ
simple c =
    if c == b'a'
    then some 7
    else if c == b'b'
    then some 8
    else if c == b'f'
    then some 12
    else if c == b'n'
    then some 10
    else if c == b'r'
    then some 13
    else if c == b't'
    then some 9
    else if c == b'v'
    then some 11
    else if c == b'\\'
    then some b'\\'
    else if c == b'"'
    then some b'"'
    else none

-- The escapes of several digits.
abbrev pub numeric : ℕ → Option Reading
numeric c =
    if c == b'x'
    then some (digits 16 1 0 true)
    else if c == b'u'
    then some (digits 16 3 0 false)
    else if c == b'U'
    then some (digits 16 7 0 false)
    else if leb b'0' c && leb c b'7'
    then some (digits 8 1 (c - b'0') true)
    else none

abbrev pub put : Option Piece → Option (List Piece) → Option (List Piece)
put (some p) (some ps) = some (p ∷ ps)
put _ _ = none

-- The pieces of the text between the quotes; none for a syntax error.
unfoldable pub unescape : Reading → Text → Option (List Piece)
unescape plain [] = some []
unescape escaped [] = none
unescape (digits _ _ _ _) [] = none
unescape plain (c ∷ s) = elim (c == b'\\') [
  | true ↦ unescape escaped s
  | false ↦ elim (c == b'"' || c == b'\n') [
    | true ↦ none
    | false ↦ put (some (rune c)) (unescape plain s)
  ]
]
unescape escaped (c ∷ s) = elim (simple c) [
  | some r ↦ put (some (rune r)) (unescape plain s)
  | none ↦ elim (numeric c) [ none ↦ none | some reading ↦ unescape reading s ]
]
unescape (digits base left acc is_byte) (c ∷ s) = elim (digit_value base c) [
  | none ↦ none
  | some v ↦ elim left [
    | zero ↦ put (finish is_byte (acc * base + v)) (unescape plain s)
    | suc more ↦ unescape (digits base more (acc * base + v) is_byte) s
  ]
]

-- strings.ReplaceAll(value, `"`, `\"`)
unfoldable pub quote_marks : Text → Text
quote_marks [] = []
quote_marks (c ∷ s) = if c == b'"' then b'\\' ∷ b'"' ∷ quote_marks s else c ∷ quote_marks s

abbrev decoded : (List Piece → Text) → Option (List Piece) → Outcome Text
decoded assemble none =
    fail (fmt_wrap [] (sentinel (application invalid_escape_sequence)) (codes ": invalid syntax"))
decoded assemble (some ps) = ok (assemble ps)

-- decodeEscapes; `assemble` reads the bytes of the pieces as a text.
unfoldable pub decode_escapes : (List Piece → Text) → Text → Outcome Text
unfolding unescape quote_marks
decode_escapes assemble value = decoded assemble (unescape plain (quote_marks value))

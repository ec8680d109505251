-- ===== src/Text/Number.antt =====
-- strconv.ParseInt in base 10 for 64 bits, and strconv.Atoi, where an int has 64 bits.
pub mod Print
use ankiced.Base.{
  ◌≡◌, subst, Bool-cases, inl, inr, ◌≤◌, ◌+◌, ◌-◌, ◌*◌, ℕ, zero, suc, ℤ, pos, negsuc, Bool, ◌&&◌,
  Option, none, some, [], ◌∷◌, leb, ltb, ◌==◌, if◌then◌else◌, arith,
}
use Prim.Native.Nat.{◌/◌, ◌%◌}
use ankiced.Text.{Text}

abbrev pub max_int64 : ℕ
max_int64 = 9223372036854775807

abbrev is_digit : ℕ → Bool
is_digit c = leb b'0' c && leb c b'9'

-- The value of a text of digits, read on from `acc`.
unfoldable pub digits_from : ℕ → Text → Option ℕ
digits_from acc [] = some acc
digits_from acc (c ∷ s) =
    let rest = digits_from (10 * acc + (c - b'0')) s in if is_digit c then rest else none

abbrev pub digits : Text → Option ℕ
unfolding digits_from
digits [] = none
digits (c ∷ s) = digits_from 0 (c ∷ s)

abbrev in_positive : Option ℕ → Option ℤ
in_positive none = none
in_positive (some n) = if leb n max_int64 then some (pos n) else none

abbrev in_negative : Option ℕ → Option ℤ
in_negative none = none
in_negative (some zero) = some (pos 0)
in_negative (some (suc n)) = if leb n max_int64 then some (negsuc n) else none

-- A sign may stand before the digits; a number out of range is an error.
unfoldable pub parse_int : Text → Option ℤ
unfolding digits_from
parse_int [] = none
parse_int (c ∷ s) =
    if c == b'-'
    then in_negative (digits s)
    else if c == b'+'
    then in_positive (digits s)
    else in_positive (digits (c ∷ s))

-- The verb %d. A number has at most as many digits as its successor, which is the fuel.
unfoldable pub show_from : ℕ → ℕ → Text → Text
show_from zero n acc = acc
show_from (suc fuel) n acc =
    let rest = show_from fuel (n / 10) ((n % 10 + b'0') ∷ acc) in
    if ltb n 10 then (n + b'0') ∷ acc else rest

unfoldable pub show_nat : ℕ → Text
unfolding show_from
show_nat n = show_from (suc n) n []

unfoldable pub show_int : ℤ → Text
unfolding show_nat
show_int (pos n) = show_nat n
show_int (negsuc n) = b'-' ∷ show_nat (suc n)

-- An integer that 64 bits hold.
abbrev pub IsInt64 : ℤ → Type 0
IsInt64 (pos n) = n ≤ max_int64
IsInt64 (negsuc n) = n ≤ max_int64

in_positive-IsInt64 : (o : Option ℕ) (z : ℤ) → in_positive o ≡ some z → IsInt64 z
in_positive-IsInt64 none z h = cc
in_positive-IsInt64 (some n) z h = elim (Bool-cases (leb n max_int64)) [
  | inl e ↦ let k : pos n ≡ z = cc in let b : n ≤ max_int64 = ground arith in subst IsInt64 k b
  | inr e ↦ absurd (let k : none ≡ some z = cc in cc)
]

in_negative-IsInt64 : (o : Option ℕ) (z : ℤ) → in_negative o ≡ some z → IsInt64 z
in_negative-IsInt64 none z h = cc
in_negative-IsInt64 (some zero) z h =
    let k : pos 0 ≡ z = cc in let b : 0 ≤ max_int64 = omega arith in subst IsInt64 k b
in_negative-IsInt64 (some (suc n)) z h = elim (Bool-cases (leb n max_int64)) [
  | inl e ↦ let k : negsuc n ≡ z = cc in let b : n ≤ max_int64 = ground arith in subst IsInt64 k b
  | inr e ↦ absurd (let k : none ≡ some z = cc in cc)
]

-- What ParseInt accepts fits in 64 bits.
pub parse_int-IsInt64 : (s : Text) (z : ℤ) → parse_int s ≡ some z → IsInt64 z
unfolding parse_int
parse_int-IsInt64 [] z h = cc
parse_int-IsInt64 (c ∷ s) z h = elim (Bool-cases (c == b'-')) [
  | inl e ↦ in_negative-IsInt64 (digits s) z (ground arith)
  | inr e ↦ elim (Bool-cases (c == b'+')) [
    | inl f ↦ in_positive-IsInt64 (digits s) z (ground arith)
    | inr f ↦ in_positive-IsInt64 (digits (c ∷ s)) z (ground arith)
  ]
]

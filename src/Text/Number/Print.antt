-- ===== src/Text/Number/Print.antt =====
-- What is printed is read back, and has no other runes than digits and a sign.
use ankiced.Base.{
  ℕ, zero, suc, ◌+◌, ◌-◌, ◌*◌, ◌≤◌, ◌<◌, ◌≡◌, ◌≢◌, refl, ap, sym, ◌∙◌, ℤ, pos, negsuc, true, false,
  some, [], ◌∷◌, leb, ltb, ◌==◌, Bool-cases, inl, inr, arith, All, All-map, ltb→lt,
}
use Prim.Native.Nat.{◌/◌, ◌%◌}
use ankiced.Text.{Text}
use ankiced.Text.Parts.{Lacks}
use ankiced.Text.Number.{
  max_int64, is_digit, digits_from, digits, in_positive, in_negative, parse_int, show_from,
  show_nat, show_int, IsInt64,
}

digit_small : (n : ℕ) → n < 10 → is_digit (n + b'0') ≡ true
digit_small n h = ground arith

digit_rest : (n : ℕ) → is_digit (n % 10 + b'0') ≡ true
digit_rest n = digit_small (n % 10) (omega arith)

digits_from-show_from :
    (fuel n : ℕ) (acc : Text) → n < fuel → digits_from 0 (show_from fuel n acc) ≡ digits_from n acc
unfolding show_from digits_from
digits_from-show_from zero n acc h = absurd (omega arith)
digits_from-show_from (suc fuel) n acc h = elim (Bool-cases (ltb n 10)) [
  | inl one ↦
      let value : 10 * 0 + (n + b'0' - b'0') ≡ n = omega arith in
      rw (one, digit_small n (ltb→lt n 10 one)) (ap (λ k. digits_from k acc) value)
  | inr more ↦
      let value : 10 * (n / 10) + (n % 10 + b'0' - b'0') ≡ n = omega arith in
      rw more (
        digits_from-show_from fuel (n / 10) ((n % 10 + b'0') ∷ acc) (ground arith)
        ∙ rw (digit_rest n) (ap (λ k. digits_from k acc) value))
]

AllDigits-show_from :
    (fuel n : ℕ) (acc : Text)
    → All (λ c. is_digit c ≡ true) acc
    → All (λ c. is_digit c ≡ true) (show_from fuel n acc)
unfolding show_from
AllDigits-show_from zero n acc h = h
AllDigits-show_from (suc fuel) n acc h = elim (Bool-cases (ltb n 10)) [
  | inl one ↦ rw one (digit_small n (ltb→lt n 10 one), h)
  | inr more ↦ rw more (AllDigits-show_from fuel (n / 10) _ (digit_rest n, h))
]

-- A printed number has no rune that is not a digit.
pub show_nat-Lacks : (r n : ℕ) → is_digit r ≡ false → Lacks r (show_nat n)
unfolding show_nat
show_nat-Lacks r n h =
    All-map (λ c. is_digit c ≡ true) (λ c. c ≢ r) (λ c d e. ground arith) _
      (AllDigits-show_from (suc n) n [] tt)

show_from-ne-nil : (fuel n : ℕ) (acc : Text) → n < fuel → show_from fuel n acc ≢ []
unfolding show_from
show_from-ne-nil zero n acc h = absurd (omega arith)
show_from-ne-nil (suc fuel) n acc h = elim (Bool-cases (ltb n 10)) [
  | inl one ↦ rw one (λ e. cc)
  | inr more ↦ rw more (show_from-ne-nil fuel (n / 10) _ (ground arith))
]

digits-cons : (s : Text) → s ≢ [] → digits s ≡ digits_from 0 s
unfolding digits_from
digits-cons [] h = absurd (h refl)
digits-cons (c ∷ s) h = refl

digits-show_nat : (n : ℕ) → digits (show_nat n) ≡ some n
unfolding show_nat
digits-show_nat n =
    digits-cons _ (show_from-ne-nil (suc n) n [] (omega arith))
    ∙ digits_from-show_from (suc n) n [] (omega arith)
    ∙ unfold digits_from in refl

pub show_nat_injective : (m n : ℕ) → show_nat m ≡ show_nat n → m ≡ n
show_nat_injective m n e =
    let k : some m ≡ some n = sym (digits-show_nat m) ∙ ap digits e ∙ digits-show_nat n in cc

-- A text of digits has no sign.
parse_digits :
    (s : Text) → All (λ c. is_digit c ≡ true) s → s ≢ [] → parse_int s ≡ in_positive (digits s)
unfolding parse_int
parse_digits [] h n = absurd (n refl)
parse_digits (c ∷ s) (h, _) n =
    let a : (c == b'-') ≡ false = ground arith in
    let b : (c == b'+') ≡ false = ground arith in rw (a, b) refl

parse_int-show_nat : (n : ℕ) → n ≤ max_int64 → parse_int (show_nat n) ≡ some (pos n)
parse_int-show_nat n h =
    let small : leb n max_int64 ≡ true = ground arith in
    unfold show_nat in
    parse_digits (show_from (suc n) n []) (AllDigits-show_from (suc n) n [] tt)
      (show_from-ne-nil (suc n) n [] (omega arith))
    ∙ ap in_positive (digits-show_nat n)
    ∙ rw small refl

-- An integer of 64 bits is read back as it was printed.
pub parse_int-show_int : (z : ℤ) → IsInt64 z → parse_int (show_int z) ≡ some z
unfolding show_int
parse_int-show_int (pos n) h = parse_int-show_nat n h
parse_int-show_int (negsuc n) h =
    let small : leb n max_int64 ≡ true = ground arith in
    unfold parse_int in ap in_negative (digits-show_nat (suc n)) ∙ rw small refl

pub show_int-Lacks :
    (r : ℕ) (z : ℤ) → is_digit r ≡ false → (b'-' == r) ≡ false → Lacks r (show_int z)
unfolding show_int
show_int-Lacks r (pos n) h k = show_nat-Lacks r n h
show_int-Lacks r (negsuc n) h k = ((λ e. ground arith), show_nat-Lacks r (suc n) h)

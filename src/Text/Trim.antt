-- ===== src/Text/Trim.antt =====
-- What `trim_space` removes, and what it leaves.
use ankiced.Base.{
  ℕ, ◌≡◌, ◌↔◌, refl, Bool, true, false, [], ◌∷◌, ◌++◌, arith, All, Bool-cases, inl, inr, ◌∙◌, ap,
  All-append,
}
use ankiced.Text.{Text, is_space, trim_left, trim_right, drop_blank, trim_space}

-- The first code point fails the test; the last does.
abbrev pub StartsOff : (ℕ → Bool) → Text → Type 0
StartsOff p [] = Unit
StartsOff p (c ∷ s) = p c ≡ false

abbrev pub EndsOff : (ℕ → Bool) → Text → Type 0
EndsOff p [] = Unit
EndsOff p (c ∷ []) = p c ≡ false
EndsOff p (c ∷ d ∷ s) = EndsOff p (d ∷ s)

-- Every code point passes the test.
abbrev pub AllPass : (ℕ → Bool) → Text → Type 0
AllPass p = All (λ c. p c ≡ true)

module _ (p : ℕ → Bool) where
  trim_left-StartsOff : (s : Text) → StartsOff p (trim_left p s)
  unfolding trim_left
  trim_left-StartsOff [] = tt
  trim_left-StartsOff (c ∷ s) = elim (Bool-cases (p c)) [
    | inl h ↦ rw h (trim_left-StartsOff s)
    | inr h ↦ rw h h
  ]

  trim_left_of_StartsOff : (s : Text) → StartsOff p s → trim_left p s ≡ s
  unfolding trim_left
  trim_left_of_StartsOff [] h = refl
  trim_left_of_StartsOff (c ∷ s) h = rw h

  trim_left_parts : (s : Text) → (a : Text) × (s ≡ a ++ trim_left p s) × AllPass p a
  unfolding trim_left
  trim_left_parts [] = ([], refl, tt)
  trim_left_parts (c ∷ s) = elim (Bool-cases (p c)) [
    | inl h ↦ let (a, e, k) = trim_left_parts s in (c ∷ a, rw h (λ i. c ∷ e i), (h, k))
    | inr h ↦ ([], rw h, tt)
  ]

  drop_blank-EndsOff : (c : ℕ) (r : Text) → EndsOff p r → EndsOff p (drop_blank (p c) c r)
  drop_blank-EndsOff c [] h = ground arith
  drop_blank-EndsOff c (d ∷ r) h = ground arith

  trim_right-EndsOff : (s : Text) → EndsOff p (trim_right p s)
  unfolding trim_right
  trim_right-EndsOff [] = tt
  trim_right-EndsOff (c ∷ s) = drop_blank-EndsOff c (trim_right p s) (trim_right-EndsOff s)

  trim_right_of_EndsOff : (s : Text) → EndsOff p s → trim_right p s ≡ s
  unfolding trim_right
  trim_right_of_EndsOff [] h = refl
  trim_right_of_EndsOff (c ∷ []) h = rw h
  trim_right_of_EndsOff (c ∷ d ∷ s) h = ground (arith, trim_right_of_EndsOff (d ∷ s) h)

  trim_right-StartsOff : (s : Text) → StartsOff p s → StartsOff p (trim_right p s)
  unfolding trim_right
  trim_right-StartsOff [] h = tt
  trim_right-StartsOff (c ∷ s) h = rw h h

  drop_blank_parts :
      (c : ℕ) (r b : Text)
      → AllPass p b
      → (b' : Text) × (c ∷ (r ++ b) ≡ drop_blank (p c) c r ++ b') × AllPass p b'
  drop_blank_parts c [] b k = elim (Bool-cases (p c)) [
    | inl h ↦ (c ∷ b, rw h, (h, k))
    | inr h ↦ (b, rw h, k)
  ]
  drop_blank_parts c (d ∷ r) b k = elim (Bool-cases (p c)) [
    | inl h ↦ (b, rw h, k)
    | inr h ↦ (b, rw h, k)
  ]

  trim_right_parts : (s : Text) → (b : Text) × (s ≡ trim_right p s ++ b) × AllPass p b
  unfolding trim_right
  trim_right_parts [] = ([], refl, tt)
  trim_right_parts (c ∷ s) =
      let (b, e, k) = trim_right_parts s in
      let (b', e', k') = drop_blank_parts c (trim_right p s) b k in (b', (λ i. c ∷ e i) ∙ e', k')

  trim_left_of_AllPass : (s : Text) → AllPass p s → trim_left p s ≡ []
  unfolding trim_left
  trim_left_of_AllPass [] h = refl
  trim_left_of_AllPass (c ∷ s) (h, k) = rw h (trim_left_of_AllPass s k)

-- strings.TrimSpace cuts white space at both ends, all of it, and nothing else.
pub trim_space_parts :
    (s : Text)
    → (a b : Text) × (s ≡ a ++ (trim_space s ++ b))
      × AllPass is_space a
      × AllPass is_space b
      × StartsOff is_space (trim_space s)
      × EndsOff is_space (trim_space s)
unfolding trim_space
trim_space_parts s =
    let (a, e, k) = trim_left_parts is_space s in
    let (b, e', k') = trim_right_parts is_space (trim_left is_space s) in
    (
      a,
      b,
      e ∙ ap (λ t. a ++ t) e',
      k,
      k',
      trim_right-StartsOff is_space _ (trim_left-StartsOff is_space s),
      trim_right-EndsOff is_space (trim_left is_space s),
    )

pub trim_space_idem : (s : Text) → trim_space (trim_space s) ≡ trim_space s
unfolding trim_space
trim_space_idem s =
    let (_, _, _, _, _, first, last) = trim_space_parts s in
    ap (trim_right is_space) (trim_left_of_StartsOff is_space _ first)
    ∙ trim_right_of_EndsOff is_space _ last

pub trim_space-eq-nil_iff : (s : Text) → (trim_space s ≡ []) ↔ AllPass is_space s
trim_space-eq-nil_iff s = (
  (λ e.
      let (a, b, whole, k, k', _, _) = trim_space_parts s in
      rw (whole, e) (All-append (λ c. is_space c ≡ true) a b k k')),
  (λ k. unfold trim_space in ap (trim_right is_space) (trim_left_of_AllPass is_space s k)),
)

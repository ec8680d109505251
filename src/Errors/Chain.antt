-- ===== src/Errors/Chain.antt =====
-- What errors.Is and HasCode see of a wrapped error.
use ankiced.Base.{◌≡◌, ◌↔◌, refl, Bool, true, false, ◌||◌, arith, ◌⊎◌, inl, inr}
use ankiced.Text.{Text}
use ankiced.Errors.{
  Err, sentinel, new, wrap, fmt_wrap, join, alone, external, Sentinel, Code, Sentinel-discrete,
  Code-discrete, same_sentinel, same_code, is, has_code,
}

-- The sentinel stands somewhere in the tree of wrapped errors.
pub data Holds (t : Sentinel) : Err → Type 0 where
  here : {s : Sentinel} → s ≡ t → Holds t (sentinel s)
  cause : {code : Code} {message : Text} {e : Err} → Holds t e → Holds t (wrap code message e)
  wrapped : {before after : Text} {e : Err} → Holds t e → Holds t (fmt_wrap before e after)
  left : {a b : Err} → Holds t a → Holds t (join a b)
  right : {a b : Err} → Holds t b → Holds t (join a b)
  single : {e : Err} → Holds t e → Holds t (alone e)

same_sentinel_iff : (s t : Sentinel) → (same_sentinel s t ≡ true) ↔ (s ≡ t)
same_sentinel_iff s t =
    elim (Sentinel-discrete s t)
      as (λ d. (elim d [ yes _ ↦ true | no _ ↦ false ] ≡ true) ↔ (s ≡ t)) [
        | yes e ↦ ((λ _. e), (λ _. refl))
        | no n ↦ ((λ h. cc), (λ e. absurd (n e)))
      ]

or-eq-true : (a b : Bool) → (a || b) ≡ true → (a ≡ true) ⊎ (b ≡ true)
or-eq-true a b h = ground arith

or_right : (a b : Bool) → b ≡ true → (a || b) ≡ true
or_right a b h = ground arith

is_sound : (e : Err) (t : Sentinel) → is e t ≡ true → Holds t e
unfolding is
is_sound (sentinel s) t h = here ((same_sentinel_iff s t).0 h)
is_sound (new _ _) t h = cc
is_sound (wrap _ _ e) t h = cause (is_sound e t h)
is_sound (fmt_wrap _ e _) t h = wrapped (is_sound e t h)
is_sound (join a b) t h = elim (or-eq-true (is a t) (is b t) h) [
  | inl k ↦ left (is_sound a t k)
  | inr k ↦ right (is_sound b t k)
]
is_sound (alone e) t h = single (is_sound e t h)
is_sound (external _) t h = cc

is_complete : {t : Sentinel} {e : Err} → Holds t e → is e t ≡ true
unfolding is
is_complete (here e) = (same_sentinel_iff _ _).1 e
is_complete (cause h) = is_complete h
is_complete (wrapped h) = is_complete h
is_complete (left h) = rw (is_complete h)
is_complete (right h) = or_right _ _ (is_complete h)
is_complete (single h) = is_complete h

-- errors.Is finds a sentinel exactly when it stands somewhere in the tree of wrapped errors.
pub is_iff : (e : Err) (t : Sentinel) → (is e t ≡ true) ↔ Holds t e
is_iff e t = (is_sound e t, is_complete)

same_code_iff : (a b : Code) → (same_code a b ≡ true) ↔ (a ≡ b)
same_code_iff a b =
    elim (Code-discrete a b) as (λ d. (elim d [ yes _ ↦ true | no _ ↦ false ] ≡ true) ↔ (a ≡ b)) [
      | yes e ↦ ((λ _. e), (λ _. refl))
      | no n ↦ ((λ h. cc), (λ e. absurd (n e)))
    ]

-- Of an error that apperrors.Wrap made HasCode sees the code that was given to Wrap and no code
-- below it, while wrapping by fmt.Errorf changes no answer of HasCode.
pub has_code_wrapped :
    (outer code : Code) (message before after : Text) (e : Err)
    → ((has_code (wrap outer message e) code ≡ true) ↔ (outer ≡ code))
      × (has_code (fmt_wrap before e after) code ≡ has_code e code)
unfolding has_code
has_code_wrapped outer code message before after e = (same_code_iff outer code, refl)

-- ===== src/Api/Errors/Laws.antt =====
-- Codes and hints of the API's errors.
use ankiced.Base.{
  ◌≡◌, All-map, ap, sym, ◌∙◌, false≢true, refl, not, ◌⊎◌, ◌&&◌, &&-eq-true, Bool, true, false, List,
  [], ◌∷◌, ◌≢◌, All, inl, inr,
}
use ankiced.Text.{Text, codes, eq_text}
use ankiced.Text.Equal.{eq_text_iff}
use ankiced.Errors.{Err, fmt_wrap, error_text}
use ankiced.Presentation.{format_error, format_cases, switch}
use ankiced.Api.Errors.{map_error_code, recommended_action, default_recommended_action, code_cases}

switch_default {ℓ} :
    {A : Type ℓ} (cases : List (Bool × A)) (a b : A)
    → (switch cases b ≡ switch cases a) ⊎ ((switch cases a ≡ a) × (switch cases b ≡ b))
switch_default [] a b = inr (refl, refl)
switch_default ((true, c) ∷ cases) a b = inl refl
switch_default ((false, c) ∷ cases) a b = switch_default cases a b

switch-All {ℓ} :
    {A : Type ℓ} (P : A → Type 0) (cases : List (Bool × A)) (other : A)
    → All (λ c. P c.1) cases
    → P other
    → P (switch cases other)
switch-All P [] other h k = k
switch-All P ((true, a) ∷ cases) other (h, _) k = h
switch-All P ((false, a) ∷ cases) other (_, hs) k = switch-All P cases other hs k

all : (Text → Bool) → List (Bool × Text) → Bool
all p [] = true
all p ((_, a) ∷ cases) = p a && all p cases

all_sound :
    (p : Text → Bool) (cases : List (Bool × Text))
    → all p cases ≡ true
    → All (λ c. p c.1 ≡ true) cases
unfolding all
all_sound p [] h = tt
all_sound p ((_, a) ∷ cases) h =
    let (here, later) = &&-eq-true (p a) (all p cases) h in (here, all_sound p cases later)

abbrev has_hint : Text → Bool
has_hint code = not (eq_text (recommended_action code) default_recommended_action)

abbrev HasHint : Text → Type 0
HasHint code = code ≢ codes "INTERNAL_ERROR" → has_hint code ≡ true

-- Every code but INTERNAL_ERROR that an error is mapped to has a hint of its own.
pub recommended_action-map_error_code :
    (err : Err)
    → map_error_code err ≢ codes "INTERNAL_ERROR"
    → recommended_action (map_error_code err) ≢ default_recommended_action
unfolding map_error_code recommended_action all
recommended_action-map_error_code err h e =
    let found : has_hint (map_error_code err) ≡ true =
      switch-All HasHint (code_cases err) (codes "INTERNAL_ERROR")
        (All-map (λ c. has_hint c.1 ≡ true) (λ c. HasHint c.1) (λ c k _. k) (code_cases err)
          (all_sound has_hint (code_cases err) refl))
        (λ k. absurd (k refl)) h in
    let same : eq_text (recommended_action (map_error_code err)) default_recommended_action ≡ true =
      (eq_text_iff _ _).1 e in
    false≢true (ap not (sym same) ∙ found)

-- fmt.Errorf with %w changes neither the API code of an error nor the message for the user, where
-- that is one of the prepared messages and not the error's own text.
pub map_error_code-fmt_wrap :
    (before after : Text) (err : Err)
    → (map_error_code (fmt_wrap before err after) ≡ map_error_code err)
      × ((format_error (fmt_wrap before err after) ≡ format_error err)
          ⊎ ((format_error err ≡ error_text err)
              × (format_error (fmt_wrap before err after)
                  ≡ error_text (fmt_wrap before err after))))
unfolding map_error_code format_error
map_error_code-fmt_wrap before after err =
    (refl, switch_default (format_cases err) (error_text err) _)

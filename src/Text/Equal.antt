-- ===== src/Text/Equal.antt =====
-- `eq_text` decides equality.
use ankiced.Base.{◌≡◌, ◌↔◌, ◌≢◌, ◌∙◌, sym, false, false≢true, refl, true, [], ◌∷◌, arith}
use ankiced.Text.{Text, eq_text}

pub eq_text_iff : (s t : Text) → (eq_text s t ≡ true) ↔ (s ≡ t)
unfolding eq_text
eq_text_iff [] [] = ((λ _. refl), (λ _. refl))
eq_text_iff [] (b ∷ t) = ((λ h. cc), (λ h. cc))
eq_text_iff (a ∷ s) [] = ((λ h. cc), (λ h. cc))
eq_text_iff (a ∷ s) (b ∷ t) = ground (arith, eq_text_iff s t)

pub eq_text_refl : (s : Text) → eq_text s s ≡ true
eq_text_refl s = (eq_text_iff s s).1 refl

pub eq_text_sym : (s t : Text) → eq_text s t ≡ eq_text t s
eq_text_sym s t = ground (arith, eq_text_iff s t, eq_text_iff t s)

pub eq_text_ne : (s t : Text) → s ≢ t → eq_text s t ≡ false
eq_text_ne s t n = ground (arith, eq_text_iff s t)

pub ne_of_eq_text : (s t : Text) → eq_text s t ≡ false → s ≢ t
ne_of_eq_text s t h e = false≢true (sym h ∙ (eq_text_iff s t).1 e)

-- ===== src/Action.antt =====
-- Go methods that may return an error: what was changed before the error stays changed, so the state
-- comes back beside the error too.
use ankiced.Base.{◌≡◌, refl, ◌∙◌, ◌⊎◌, inl, inr, Option, none, some}
use ankiced.Errors.{Err}

pub data Outcome {ℓ} (A : Type ℓ) : Type ℓ where
  ok : A → Outcome A
  fail : Err → Outcome A

pub Outcome-cases {ℓ} :
    {A : Type ℓ} (o : Outcome A) → ((a : A) × (o ≡ ok a)) ⊎ ((e : Err) × (o ≡ fail e))
Outcome-cases (ok a) = inl (a, refl)
Outcome-cases (fail e) = inr (e, refl)

abbrev pub and_then {ℓ κ} : {A : Type ℓ} {B : Type κ} → Outcome A → (A → Outcome B) → Outcome B
and_then (ok a) f = f a
and_then (fail e) f = fail e

-- The error of an outcome, if there is one.
abbrev pub failure {ℓ} : {A : Type ℓ} → Outcome A → Option Err
failure (ok a) = none
failure (fail e) = some e

abbrev pub Action : Type 0 → Type 0 → Type 0
Action W A = W → Outcome A × W

module _ {W A : Type 0} where
  abbrev pub pure : A → Action W A
  pure a w = (ok a, w)

  abbrev pub lift : Outcome A → Action W A
  lift o w = (o, w)

module _ {W A B : Type 0} where
  abbrev pub continue : Outcome A → (A → Action W B) → Action W B
  continue (ok a) f w = f a w
  continue (fail e) f w = (fail e, w)

  infixl 5 ◌>>=◌ ◌>>◌
  abbrev pub ◌>>=◌ : Action W A → (A → Action W B) → Action W B
  ◌>>=◌ m f w = continue (m w).0 f (m w).1

  abbrev pub ◌>>◌ : Action W A → Action W B → Action W B
  m >> n = m >>= λ _. n

-- The part of the state that `view` shows is the same after the action.
abbrev pub Keeps : {W V A : Type 0} → (W → V) → Action W A → Type 0
Keeps {W} view m = (w : W) → view (m w).1 ≡ view w

module _ {W V A B : Type 0} (view : W → V) where
  continue-Keeps :
      (o : Outcome A) (f : A → Action W B) (w : W)
      → ((a : A) → Keeps view (f a))
      → view (continue o f w).1 ≡ view w
  continue-Keeps (ok a) f w h = h a w
  continue-Keeps (fail e) f w h = refl

  pub bind-Keeps :
      (m : Action W A) (f : A → Action W B)
      → Keeps view m
      → ((a : A) → Keeps view (f a))
      → Keeps view (m >>= f)
  bind-Keeps m f km kf w = continue-Keeps (m w).0 f (m w).1 kf ∙ km w

module _ {W A B : Type 0} where
  -- A chain that ends well went well at each step.
  pub continue-eq-ok :
      (o : Outcome A) (f : A → Action W B) (w : W) {b : B}
      → (continue o f w).0 ≡ ok b
      → (a : A) × (o ≡ ok a) × ((f a w).0 ≡ ok b)
  continue-eq-ok (ok a) f w h = (a, refl, h)
  continue-eq-ok (fail e) f w h = cc

-- What holds of the state before the action holds of it afterwards, with an error or without.
abbrev pub Preserves : {W A : Type 0} → (W → Type 0) → Action W A → Type 0
Preserves {W} P m = (w : W) → P w → P (m w).1

module _ {W A B : Type 0} (P : W → Type 0) where
  continue-Preserves :
      (o : Outcome A) (f : A → Action W B) (w : W)
      → ((a : A) → Preserves P (f a))
      → P w
      → P (continue o f w).1
  continue-Preserves (ok a) f w k h = k a w h
  continue-Preserves (fail e) f w k h = h

  pub bind-Preserves :
      (m : Action W A) (f : A → Action W B)
      → Preserves P m
      → ((a : A) → Preserves P (f a))
      → Preserves P (m >>= f)
  bind-Preserves m f km kf w h = continue-Preserves (m w).0 f (m w).1 kf (km w h)

-- Actions with the proof that they preserve a predicate, put together as the actions are.
module _ {W : Type 0} (P : W → Type 0) where
  abbrev pub Kept : Type 0 → Type 0
  Kept A = (m : Action W A) × Preserves P m

  abbrev pub chain : {A B : Type 0} → Kept A → (A → Kept B) → Kept B
  chain m f = ((m.0 >>= λ a. (f a).0), bind-Preserves P m.0 (λ a. (f a).0) m.1 (λ a. (f a).1))

  abbrev pub seq : {A B : Type 0} → Kept A → Kept B → Kept B
  seq m n = chain m (λ _. n)

  abbrev pub lifted : {A : Type 0} → Outcome A → Kept A
  lifted o = (lift o, (λ w h. h))

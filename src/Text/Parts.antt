-- ===== src/Text/Parts.antt =====
-- `split` and `join`: each undoes the other.
use ankiced.Base.{
  ℕ, suc, ◌+◌, length, if◌then◌else◌, ◌≡◌, ◌≢◌, refl, ap, List, [], ◌∷◌, ◌++◌, arith, ◌==◌, All,
  Bool-cases, inl, inr, ==_iff, ==_refl, ◌∙◌, ap₂, sym, any, false,
}
use ankiced.Text.{Text, put_head, split, join}

-- No code point of the text is `r`.
abbrev pub Lacks : ℕ → Text → Type 0
Lacks r = All (λ c. c ≢ r)

pub any_of_Lacks : (r : ℕ) (s : Text) → Lacks r s → any (λ d. d == r) s ≡ false
any_of_Lacks r [] h = refl
any_of_Lacks r (c ∷ s) (h, hs) = ground (arith, any_of_Lacks r s hs)

module _ (sep : ℕ) where
  put_head-ne-nil : (c : ℕ) (ps : List Text) → put_head c ps ≢ []
  put_head-ne-nil c [] h = cc
  put_head-ne-nil c (p ∷ ps) h = cc

  pub split-ne-nil : (s : Text) → split sep s ≢ []
  unfolding split
  split-ne-nil [] h = cc
  split-ne-nil (c ∷ s) h = ground (arith, put_head-ne-nil c (split sep s))

  join-put_head :
      (c : ℕ) (ps : List Text) → ps ≢ [] → join (put_head c ps) (sep ∷ []) ≡ c ∷ join ps (sep ∷ [])
  unfolding join
  join-put_head c [] h = absurd (h refl)
  join-put_head c (p ∷ []) h = refl
  join-put_head c (p ∷ q ∷ ps) h = refl

  join-cons_nil : (ps : List Text) → ps ≢ [] → join ([] ∷ ps) (sep ∷ []) ≡ sep ∷ join ps (sep ∷ [])
  unfolding join
  join-cons_nil [] h = absurd (h refl)
  join-cons_nil (p ∷ ps) h = refl

  -- Joining the parts of a split gives the text back.
  pub join-split : (s : Text) → join (split sep s) (sep ∷ []) ≡ s
  unfolding split
  join-split [] = unfold join in refl
  join-split (c ∷ s) = elim (Bool-cases (c == sep)) [
    | inl h ↦
        rw h (join-cons_nil _ (split-ne-nil s) ∙ ap₂ ◌∷◌ (sym ((==_iff c sep).0 h)) (join-split s))
    | inr h ↦ rw h (join-put_head c _ (split-ne-nil s) ∙ ap (λ t. c ∷ t) (join-split s))
  ]

  split_of_Lacks : (p : Text) → Lacks sep p → split sep p ≡ p ∷ []
  unfolding split
  split_of_Lacks [] h = refl
  split_of_Lacks (c ∷ p) (h, k) = ground (arith, split_of_Lacks p k)

  split-append_sep :
      (p rest : Text) → Lacks sep p → split sep (p ++ sep ∷ rest) ≡ p ∷ split sep rest
  unfolding split
  split-append_sep [] rest h = rw ==_refl
  split-append_sep (c ∷ p) rest (h, k) = ground (arith, split-append_sep p rest k)

  -- Splitting a join gives the parts back, if there is a part and none holds the separator.
  pub split-join :
      (ps : List Text) → ps ≢ [] → All (Lacks sep) ps → split sep (join ps (sep ∷ [])) ≡ ps
  unfolding join
  split-join [] h k = absurd (h refl)
  split-join (p ∷ []) h (k, _) = split_of_Lacks p k
  split-join (p ∷ q ∷ ps) h (k, ks) =
      split-append_sep p _ k ∙ ap (λ l. p ∷ l) (split-join (q ∷ ps) (λ e. cc) ks)

  -- How many times the separator stands in a text, and in all parts together.
  abbrev pub count : Text → ℕ
  count [] = 0
  count (c ∷ s) = let rest = count s in if c == sep then suc rest else rest

  abbrev pub count_all : List Text → ℕ
  count_all [] = 0
  count_all (p ∷ ps) = count p + count_all ps

  length-put_head : (c : ℕ) (ps : List Text) → ps ≢ [] → length (put_head c ps) ≡ length ps
  length-put_head c [] h = absurd (h refl)
  length-put_head c (p ∷ ps) h = refl

  length-split : (s : Text) → length (split sep s) ≡ suc (count s)
  unfolding split
  length-split [] = refl
  length-split (c ∷ s) =
      ground (arith, length-split s, length-put_head c (split sep s) (split-ne-nil s))

  pub count-append : (s t : Text) → count (s ++ t) ≡ count s + count t
  count-append [] t = omega arith
  count-append (c ∷ s) t = ground (arith, count-append s t)

  count-join :
      (p : Text) (ps : List Text)
      → count (join (p ∷ ps) (sep ∷ [])) ≡ count_all (p ∷ ps) + length ps
  unfolding join
  count-join p [] = omega arith
  count-join p (q ∷ ps) =
      ground (arith, ==_refl sep, count-append p (sep ∷ join (q ∷ ps) (sep ∷ [])), count-join q ps)

  -- A split of joined parts has a piece more for each separator in a part.
  pub length-split-join :
      (ps : List Text)
      → ps ≢ []
      → length (split sep (join ps (sep ∷ []))) ≡ count_all ps + length ps
  length-split-join [] h = absurd (h refl)
  length-split-join (p ∷ ps) h =
      omega (arith, length-split (join (p ∷ ps) (sep ∷ [])), count-join p ps)

-- ===== src/Backup/Cleanup/Sorted.antt =====
-- The order of names, and sorted lists of them.
use ankiced.Base.{
  ◌≡◌, refl, inl, inr, Bool, true, false, List, [], ◌∷◌, ◌++◌, keep, All, All-map, All-append_right,
  Bool-cases, arith, if◌then◌else◌,
}
use ankiced.Text.{Text}
use ankiced.Backup.Cleanup.{lex_le, insert, sort}

pub lex_le_refl : (s : Text) → lex_le s s ≡ true
unfolding lex_le
lex_le_refl [] = refl
lex_le_refl (a ∷ s) = ground (arith, lex_le_refl s)

pub lex_le_trans : (s t u : Text) → lex_le s t ≡ true → lex_le t u ≡ true → lex_le s u ≡ true
unfolding lex_le
lex_le_trans [] t u h k = refl
lex_le_trans (a ∷ s) [] u h k = cc
lex_le_trans (a ∷ s) (b ∷ t) [] h k = cc
lex_le_trans (a ∷ s) (b ∷ t) (c ∷ u) h k = ground (arith, lex_le_trans s t u)

pub lex_le_total : (s t : Text) → lex_le s t ≡ false → lex_le t s ≡ true
unfolding lex_le
lex_le_total [] t h = cc
lex_le_total (a ∷ s) [] h = refl
lex_le_total (a ∷ s) (b ∷ t) h = ground (arith, lex_le_total s t)

pub lex_le_antisymm : (s t : Text) → lex_le s t ≡ true → lex_le t s ≡ true → s ≡ t
unfolding lex_le
lex_le_antisymm [] [] h k = refl
lex_le_antisymm [] (b ∷ t) h k = cc
lex_le_antisymm (a ∷ s) [] h k = cc
lex_le_antisymm (a ∷ s) (b ∷ t) h k = ground (arith, lex_le_antisymm s t)

abbrev pub AllAbove : Text → List Text → Type 0
AllAbove x = All (λ y. lex_le x y ≡ true)

abbrev pub Sorted : List Text → Type 0
Sorted [] = Unit
Sorted (x ∷ l) = AllAbove x l × Sorted l

AllAbove-trans : (x y : Text) (l : List Text) → lex_le x y ≡ true → AllAbove y l → AllAbove x l
AllAbove-trans x y l h = All-map _ _ (λ z. lex_le_trans x y z h) l

AllAbove-insert :
    (x y : Text) (l : List Text) → lex_le x y ≡ true → AllAbove x l → AllAbove x (insert y l)
unfolding insert
AllAbove-insert x y [] h k = (h, tt)
AllAbove-insert x y (z ∷ l) h (k, ks) = elim (Bool-cases (lex_le y z)) [
  | inl e ↦ rw e (h, (k, ks))
  | inr n ↦ rw n (k, AllAbove-insert x y l h ks)
]

insert-Sorted : (x : Text) (l : List Text) → Sorted l → Sorted (insert x l)
unfolding insert
insert-Sorted x [] h = (tt, tt)
insert-Sorted x (y ∷ l) (k, h) = elim (Bool-cases (lex_le x y)) [
  | inl e ↦ rw e ((e, AllAbove-trans x y l e k), (k, h))
  | inr n ↦ rw n (AllAbove-insert y x l (lex_le_total x y n) k, insert-Sorted x l h)
]

pub sort-Sorted : (l : List Text) → Sorted (sort l)
unfolding sort
sort-Sorted [] = tt
sort-Sorted (x ∷ l) = insert-Sorted x (sort l) (sort-Sorted l)

insert_first : (x : Text) (l : List Text) → AllAbove x l → insert x l ≡ x ∷ l
unfolding insert
insert_first x [] h = refl
insert_first x (y ∷ l) (h, _) = rw h

All-keep : (P : Text → Type 0) (p : Text → Bool) (l : List Text) → All P l → All P (keep p l)
All-keep P p [] h = tt
All-keep P p (x ∷ l) (h, hs) = elim (Bool-cases (p x)) [
  | inl e ↦ rw e (h, All-keep P p l hs)
  | inr n ↦ rw n (All-keep P p l hs)
]

keep-insert :
    (p : Text → Bool) (x : Text) (l : List Text)
    → Sorted l
    → keep p (insert x l) ≡ (if p x then insert x (keep p l) else keep p l)
unfolding insert
keep-insert p x [] h = refl
keep-insert p x (y ∷ l) (k, h) = elim (Bool-cases (lex_le x y)) [
  | inl e ↦
      let first =
        insert_first x (keep p (y ∷ l)) (All-keep _ p (y ∷ l) (e, AllAbove-trans x y l e k)) in
      rw e (ground (arith, first))
  | inr n ↦ rw n (ground (arith, keep-insert p x l h))
]

-- Sorting and picking may be exchanged.
pub sort-keep : (p : Text → Bool) (l : List Text) → sort (keep p l) ≡ keep p (sort l)
unfolding sort
sort-keep p [] = refl
sort-keep p (x ∷ l) = ground (arith, sort-keep p l, keep-insert p x (sort l) (sort-Sorted l))

pub Sorted-append : (xs ys : List Text) → Sorted (xs ++ ys) → All (λ x. AllAbove x ys) xs
Sorted-append [] ys h = tt
Sorted-append (x ∷ xs) ys (k, h) = (All-append_right _ xs ys k, Sorted-append xs ys h)

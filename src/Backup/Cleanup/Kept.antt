-- ===== src/Backup/Cleanup/Kept.antt =====
-- Which files a cleanup leaves.
use ankiced.Base.{
  ℕ, ◌-◌, ℤ, ◌≡◌, refl, ap, sym, ◌∙◌, Bool, true, false, not, ◌||◌, Option, none, some, List, [],
  ◌∷◌, ◌++◌, length, keep, any, take, drop, last, take-append-drop, keep-keep, keep-append,
  keep-All, keep-All_not, All-take, keep_self, All, All-append_right, All-map, ap₂, subst,
  Bool-cases, Option-cases, inl, inr, arith, leb, ||-eq-false,
}
use ankiced.Text.{Text, eq_text}
use ankiced.Text.Equal.{eq_text_iff, eq_text_refl, eq_text_sym}
use ankiced.Errors.{Err}
use ankiced.Backup.Cleanup.{
  lex_le, insert, sort, is_backup, without, remove_all, kept_count, cleanup_backups,
}
use ankiced.Backup.Cleanup.Sorted.{sort-keep, sort-Sorted, Sorted-append, AllAbove, Sorted}

abbrev pub listed : Text → List Text → Bool
listed n = any (λ k. eq_text k n)

-- No name stands twice in the directory.
abbrev pub Distinct : List Text → Type 0
Distinct [] = Unit
Distinct (x ∷ l) = (listed x l ≡ false) × Distinct l

listed-insert : (n x : Text) (l : List Text) → listed n (insert x l) ≡ (eq_text x n || listed n l)
unfolding insert
listed-insert n x [] = refl
listed-insert n x (y ∷ l) = ground (arith, listed-insert n x l)

listed-sort : (n : Text) (l : List Text) → listed n (sort l) ≡ listed n l
unfolding sort
listed-sort n [] = refl
listed-sort n (x ∷ l) = ground (arith, listed-insert n x (sort l), listed-sort n l)

Distinct-insert :
    (x : Text) (l : List Text) → listed x l ≡ false → Distinct l → Distinct (insert x l)
unfolding insert
Distinct-insert x [] h d = (refl, tt)
Distinct-insert x (y ∷ l) h (k, d) = elim (Bool-cases (lex_le x y)) [
  | inl e ↦ rw e (h, (k, d))
  | inr n ↦
      let (other, rest) = ||-eq-false (eq_text y x) (listed x l) h in
      rw n (ground (arith, listed-insert y x l, eq_text_sym x y), Distinct-insert x l rest d)
]

Distinct-sort : (l : List Text) → Distinct l → Distinct (sort l)
unfolding sort
Distinct-sort [] d = tt
Distinct-sort (x ∷ l) (h, d) = Distinct-insert x (sort l) (listed-sort x l ∙ h) (Distinct-sort l d)

listed-keep :
    (n : Text) (p : Text → Bool) (l : List Text) → listed n l ≡ false → listed n (keep p l) ≡ false
listed-keep n p [] h = refl
listed-keep n p (x ∷ l) h = ground (arith, listed-keep n p l)

Distinct-keep : (p : Text → Bool) (l : List Text) → Distinct l → Distinct (keep p l)
Distinct-keep p [] d = tt
Distinct-keep p (x ∷ l) (h, d) = elim (Bool-cases (p x)) [
  | inl e ↦ rw e (listed-keep x p l h, Distinct-keep p l d)
  | inr n ↦ rw n (Distinct-keep p l d)
]

-- With no error every listed name is removed, and nothing else.
abbrev pub no_error : Text → Option Err
no_error _ = none

remove_all-eq-keep :
    (ps dir : List Text) → remove_all no_error ps dir ≡ (none, keep (λ n. not (listed n ps)) dir)
unfolding remove_all
remove_all-eq-keep [] dir = ap (λ l. (none, l)) (sym (keep-All _ dir (always dir)))
  where
    always : (l : List Text) → All (λ (x : Text). ◌≡◌ {A = Bool} true true) l
    always [] = tt
    always (x ∷ l) = (refl, always l)
remove_all-eq-keep (p ∷ ps) dir =
    remove_all-eq-keep ps (without p dir) ∙ ap (λ l. (none, l)) (both dir)
  where
    both :
        (l : List Text)
        → keep (λ n. not (listed n ps)) (without p l) ≡ keep (λ n. not (listed n (p ∷ ps))) l
    both [] = refl
    both (x ∷ l) = ground (arith, both l, eq_text_sym x p)

own_members : (xs : List Text) → All (λ n. not (listed n xs) ≡ false) xs
own_members [] = tt
own_members (x ∷ xs) =
    (ground (arith, eq_text_refl x), All-map _ _ (λ n h. ground arith) xs (own_members xs))

unequal : (x : Text) (l : List Text) → listed x l ≡ false → All (λ n. eq_text n x ≡ false) l
unequal x [] h = tt
unequal x (y ∷ l) h = let (a, b) = ||-eq-false _ _ h in (a, unequal x l b)

other_members : (xs ys : List Text) → Distinct (xs ++ ys) → All (λ n. not (listed n xs) ≡ true) ys
other_members [] ys d = everywhere ys
  where
    everywhere : (l : List Text) → All (λ (n : Text). ◌≡◌ {A = Bool} true true) l
    everywhere [] = tt
    everywhere (x ∷ l) = (refl, everywhere l)
other_members (x ∷ xs) ys (h, d) =
    both ys (All-append_right _ xs ys (unequal x (xs ++ ys) h)) (other_members xs ys d)
  where
    both :
        (l : List Text)
        → All (λ n. eq_text n x ≡ false) l
        → All (λ n. not (listed n xs) ≡ true) l
        → All (λ n. not (listed n (x ∷ xs)) ≡ true) l
    both [] _ _ = tt
    both (n ∷ l) (a, as') (b, bs) = (ground (arith, eq_text_sym x n), both l as' bs)

cut_members :
    (xs ys : List Text) → Distinct (xs ++ ys) → keep (λ n. not (listed n xs)) (xs ++ ys) ≡ ys
cut_members xs ys d =
    let p = λ (n : Text). not (listed n xs) in
    keep-append p xs ys
    ∙ ap₂ ◌++◌ (keep-All_not p xs (own_members xs)) (keep-All p ys (other_members xs ys d))

-- The backups of a collection in a directory, in order.
abbrev pub backups_in : Text → List Text → List Text
backups_in base l = sort (keep (is_backup base) l)

module _ (base : Text) (keep_last : ℤ) (dir : List Text) where
  remaining :
      Distinct dir
      → (m : ℕ)
      → backups_in base (keep (λ n. not (listed n (take m (backups_in base dir)))) dir)
        ≡ drop m (backups_in base dir)
  remaining d m =
      let all = backups_in base dir in
      let p = λ (n : Text). not (listed n (take m all)) in
      let whole = take-append-drop m all in
      ap sort (keep-keep (is_backup base) p dir)
      ∙ sort-keep p (keep (is_backup base) dir)
      ∙ ap (keep p) (sym whole)
      ∙ cut_members (take m all) (drop m all)
          (subst Distinct (sym whole) (Distinct-sort _ (Distinct-keep (is_backup base) dir d)))

  older_first :
      (m : ℕ) → All (λ r. AllAbove r (drop m (backups_in base dir))) (take m (backups_in base dir))
  older_first m =
      let all = backups_in base dir in
      Sorted-append (take m all) (drop m all)
        (subst Sorted (sym (take-append-drop m all)) (sort-Sorted _))

  -- If nothing goes wrong a cleanup leaves of the backups of a collection the last by name, as many
  -- as are to be kept (three where that number is not positive), all of them if they are no more;
  -- those that it removes come before those that it leaves.
  pub cleanup_backups_kept :
      Distinct dir
      → let (err, dir') = cleanup_backups none no_error base keep_last dir in
        let all = backups_in base dir in
        let n = kept_count keep_last in
        (err ≡ none)
        × (backups_in base dir' ≡ last n all)
        × All (λ r. AllAbove r (last n all)) (take (length all - n) all)
  unfolding cleanup_backups
  cleanup_backups_kept d =
      let all = backups_in base dir in
      let n = kept_count keep_last in
      elim (Bool-cases (leb (length all) n)) [
        | inl few ↦
            let zero_cut : 0 ≡ length all - n = ground arith in
            rw few (refl, ap (λ m. drop m all) zero_cut, older_first (length all - n))
        | inr many ↦
            rw (many, remove_all-eq-keep (take (length all - n) all) dir)
              (refl, remaining d (length all - n), older_first (length all - n))
      ]

All-insert : (P : Text → Type 0) (x : Text) (l : List Text) → P x → All P l → All P (insert x l)
unfolding insert
All-insert P x [] h k = (h, tt)
All-insert P x (y ∷ l) h (k, ks) = elim (Bool-cases (lex_le x y)) [
  | inl e ↦ rw e (h, (k, ks))
  | inr n ↦ rw n (k, All-insert P x l h ks)
]

All-sort : (P : Text → Type 0) (l : List Text) → All P l → All P (sort l)
unfolding sort
All-sort P [] h = tt
All-sort P (x ∷ l) (h, hs) = All-insert P x (sort l) h (All-sort P l hs)

module _ (faults : Text → Option Err) (base : Text) where
  abbrev pub others : List Text → List Text
  others = keep (λ n. not (is_backup base n))

  others-without :
      (p : Text) (l : List Text) → is_backup base p ≡ true → others (without p l) ≡ others l
  others-without p [] h = refl
  others-without p (x ∷ l) h = elim (Bool-cases (eq_text x p)) [
    | inl e ↦
        let same : is_backup base x ≡ true = ap (is_backup base) ((eq_text_iff x p).0 e) ∙ h in
        ground (arith, others-without p l h)
    | inr n ↦ ground (arith, others-without p l h)
  ]

  others-remove_all :
      (ps dir : List Text)
      → All (λ p. is_backup base p ≡ true) ps
      → others (remove_all faults ps dir).1 ≡ others dir
  unfolding remove_all
  others-remove_all [] dir h = refl
  others-remove_all (p ∷ ps) dir (h, hs) = elim (Option-cases (faults p)) [
    | inl fine ↦
        rw (fine, remove_all) (others-remove_all ps (without p dir) hs ∙ others-without p dir h)
    | inr (e, failed) ↦ rw (failed, remove_all) refl
  ]

  -- Whatever goes wrong, a cleanup removes no file that is not a backup of the collection.
  pub others-cleanup_backups :
      (read : Option Err) (keep_last : ℤ) (dir : List Text)
      → others (cleanup_backups read faults base keep_last dir).1 ≡ others dir
  unfolding cleanup_backups
  others-cleanup_backups (some e) keep_last dir = refl
  others-cleanup_backups none keep_last dir =
      let all = backups_in base dir in
      let n = kept_count keep_last in
      elim (Bool-cases (leb (length all) n)) [
        | inl few ↦ rw few refl
        | inr many ↦ rw many (
            others-remove_all (take (length all - n) all) dir
              (All-take _ _ all (All-sort _ _ (keep_self (is_backup base) dir))))
      ]

-- ===== src/Api/Handlers/Decks/Pages.antt =====
-- The pages that a client asks of handleDecks, one after another.
use ankiced.Base.{
  ◌+◌, ◌*◌, ◌≤◌, ◌≡◌, refl, ap, ap₂, sym, ◌∙◌, ℕ, zero, suc, pos, ltb, true, List, [], ◌∷◌, ◌++◌,
  length, take, drop, take-append-drop, take_all, drop-drop, Bool-cases, inl, inr, if◌then◌else◌,
  arith,
}
use ankiced.Domain.{Deck}
use ankiced.Api.Helpers.{clamp_pagination}
use ankiced.Api.Handlers.Decks.{cut_limit, deck_page_of}

cut_limit-eq-take : (n : ℕ) (ds : List Deck) → cut_limit n ds ≡ take n ds
cut_limit-eq-take n ds = elim (Bool-cases (ltb n (length ds))) [
  | inl long ↦ rw long refl
  | inr short ↦ rw short (sym (take_all n ds (ground arith)))
]

drop_all : (n : ℕ) (ds : List Deck) → length ds ≤ n → drop n ds ≡ []
drop_all zero [] h = refl
drop_all zero (d ∷ ds) h = absurd (omega arith)
drop_all (suc n) [] h = refl
drop_all (suc n) (d ∷ ds) h = drop_all n ds (omega arith)

drop-clipped :
    (k : ℕ) (ds : List Deck) → drop (if ltb (length ds) k then length ds else k) ds ≡ drop k ds
drop-clipped k ds = elim (Bool-cases (ltb (length ds) k)) [
  | inl beyond ↦
      rw beyond (drop_all (length ds) ds (omega arith) ∙ sym (drop_all k ds (ground arith)))
  | inr within ↦ rw within refl
]

clamp_within :
    (n k : ℕ)
    → 1 ≤ n
    → n ≤ 1000
    → clamp_pagination (pos n) (pos k) (pos 0) ≡ record { limit = pos n; offset = pos k }
unfolding clamp_pagination
clamp_within n k h few = ground arith

deck_page_of-items :
    (n k : ℕ) (ds : List Deck)
    → 1 ≤ n
    → n ≤ 1000
    → (deck_page_of (pos n) (pos k) ds).items ≡ take n (drop k ds)
unfolding deck_page_of
deck_page_of-items n k ds h few =
    let some_limit : ltb 0 n ≡ true = ground arith in
    rw (some_limit, clamp_within n k h few)
      (cut_limit-eq-take n (drop (if ltb (length ds) k then length ds else k) ds)
        ∙ ap (take n) (drop-clipped k ds))

-- What a client gets that asks for `rounds` pages of the limit `n`, from the offset `k` on.
unfoldable pub pages : (rounds n k : ℕ) → List Deck → List Deck
pages zero n k ds = []
pages (suc rounds) n k ds = (deck_page_of (pos n) (pos k) ds).items ++ pages rounds n (k + n) ds

pages-eq-drop :
    (rounds n k : ℕ) (ds : List Deck)
    → 1 ≤ n
    → n ≤ 1000
    → length ds ≤ k + rounds * n
    → pages rounds n k ds ≡ drop k ds
unfolding pages
pages-eq-drop zero n k ds h few enough = sym (drop_all k ds (omega arith))
pages-eq-drop (suc rounds) n k ds h few enough =
    ap₂ ◌++◌ (deck_page_of-items n k ds h few)
      (pages-eq-drop rounds n (k + n) ds h few (omega arith) ∙ sym (drop-drop n k ds))
    ∙ take-append-drop n (drop k ds)

-- A client that asks for pages of the same limit, between one and a thousand, each at the offset
-- where the last one ended, gets every deck once and in the order of the list.
pub pages-eq :
    (rounds n : ℕ) (ds : List Deck)
    → 1 ≤ n
    → n ≤ 1000
    → length ds ≤ rounds * n
    → pages rounds n 0 ds ≡ ds
pages-eq rounds n ds h few enough = pages-eq-drop rounds n 0 ds h few (omega arith)

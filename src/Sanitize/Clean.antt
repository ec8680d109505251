-- ===== src/Sanitize/Clean.antt =====
-- What the HTML cleaner lets through.
use ankiced.Base.{
  ◌≡◌, refl, sym, ap, subst, ℕ, true, false, Bool-cases, inl, inr, List, [], ◌∷◌, ◌++◌,
  append_assoc, append-nil, ◌==◌, All, arith,
}
use ankiced.Text.{Text, codes, eq_text, trim_space}
use ankiced.Sanitize.{
  Attribute, Node, Nodes, text, element, other, end, cons, allow, allowed_image_attrs,
  is_safe_image_src, attribute_key, keeps_attribute, write_attribute, write_attributes, write_image,
  write_element, write_node, write_nodes,
}

-- A text without a rune that HTML reads as markup.
abbrev pub IsPlain : Text → Type 0
IsPlain = All (λ c. ((c == b'<') ≡ false) × ((c == b'>') ≡ false) × ((c == b'"') ≡ false))

module _ (lower : ℕ → ℕ) where
  -- The attributes of an image: allowed names only, plain values, and a source that is a path or
  -- has an allowed scheme.
  pub data IsAttributes : Text → Type 0 where
    no_more : IsAttributes []
    attribute :
        (key raw value rest : Text)
        → allowed_image_attrs key ≡ true
        → (eq_text key (codes "src") ≡ true → is_safe_image_src lower (trim_space raw) ≡ true)
        → IsPlain value
        → IsAttributes rest
        → IsAttributes ((codes " " ++ (key ++ (codes "=\"" ++ (value ++ codes "\"")))) ++ rest)

  -- Tags with an allowed name and without attributes, and images.
  pub data IsTag : Text → Type 0 where
    opening : (name : Text) → allow name ≡ true → IsTag (codes "<" ++ (name ++ codes ">"))
    closing : (name : Text) → allow name ≡ true → IsTag (codes "</" ++ (name ++ codes ">"))
    image : (attrs : Text) → IsAttributes attrs → IsTag (codes "<img" ++ (attrs ++ codes ">"))

  -- Plain runes and such tags, and nothing else.
  pub data IsClean : Text → Type 0 where
    empty : IsClean []
    rune :
        (c : ℕ) (s : Text) → (c == b'<') ≡ false → (c == b'>') ≡ false → IsClean s → IsClean (c ∷ s)
    tag : (t s : Text) → IsTag t → IsClean s → IsClean (t ++ s)

  IsClean-append : (s t : Text) → IsClean s → IsClean t → IsClean (s ++ t)
  IsClean-append _ t empty k = k
  IsClean-append _ t (rune c s a b h) k = rune c (s ++ t) a b (IsClean-append s t h k)
  IsClean-append _ t (tag u s a h) k =
      subst IsClean (sym (append_assoc u s t)) (tag u (s ++ t) a (IsClean-append s t h k))

  IsClean-plain : (s : Text) → IsPlain s → IsClean s
  IsClean-plain [] h = empty
  IsClean-plain (c ∷ s) ((a, b, _), h) = rune c s a b (IsClean-plain s h)

  IsClean-tag : (t : Text) → IsTag t → IsClean t
  IsClean-tag t h = subst IsClean (append-nil t) (tag t [] h empty)

  kept :
      (a : Attribute)
      → keeps_attribute lower a ≡ true
      → (allowed_image_attrs (attribute_key lower a) ≡ true)
        × (eq_text (attribute_key lower a) (codes "src") ≡ true
            → is_safe_image_src lower (trim_space a.val) ≡ true)
  unfolding keeps_attribute
  kept a h = (ground arith, (λ e. ground arith))

  module _ (escape : Text → Text) (plain : (s : Text) → IsPlain (escape s)) where
    IsAttributes-write :
        (attrs : List Attribute) → IsAttributes (write_attributes lower escape attrs)
    unfolding write_attributes
    IsAttributes-write [] = no_more
    IsAttributes-write (a ∷ attrs) = elim (Bool-cases (keeps_attribute lower a)) [
      | inr e ↦ rw e (IsAttributes-write attrs)
      | inl e ↦ rw e (
          unfold write_attribute in
          attribute (attribute_key lower a) a.val (escape a.val)
            (write_attributes lower escape attrs) (kept a e).0 (kept a e).1 (plain a.val)
            (IsAttributes-write attrs))
    ]

    IsClean-pair :
        (name inner : Text)
        → allow name ≡ true
        → IsClean inner
        → IsClean
            (codes "<" ++ (name ++ (codes ">" ++ (inner ++ (codes "</" ++ (name ++ codes ">"))))))
    IsClean-pair name inner a h =
        subst IsClean (ap (λ s. b'<' ∷ s) (append_assoc name (codes ">") _)) (
          tag (codes "<" ++ (name ++ codes ">")) _ (opening name a)
            (IsClean-append inner _ h (IsClean-tag _ (closing name a))))

    IsClean-element :
        (name : Text) (attrs : List Attribute) (inner : Text)
        → IsClean inner
        → IsClean (write_element lower escape name attrs inner)
    unfolding write_element write_image
    IsClean-element name attrs inner h = elim (Bool-cases (allow name)) [
      | inr e ↦ rw e h
      | inl e ↦ rw e (elim (Bool-cases (eq_text name (codes "br"))) [
        | inl f ↦ rw f (unfold allow in IsClean-tag _ (opening (codes "br") refl))
        | inr f ↦ rw f (elim (Bool-cases (eq_text name (codes "img"))) [
          | inl g ↦ rw g (
              IsClean-tag _
                (image (write_attributes lower escape attrs) (IsAttributes-write attrs)))
          | inr g ↦ rw g (IsClean-pair name inner e h)
        ])
      ])
    ]

    mutual
      unfolding write_node write_nodes

      IsClean-node : (n : Node) → IsClean (write_node lower escape n)
      IsClean-node (text s) = IsClean-plain (escape s) (plain s)
      IsClean-node (element name attrs children) =
          IsClean-element name attrs (write_nodes lower escape children) (IsClean-nodes children)
      IsClean-node (other children) = IsClean-nodes children

      IsClean-nodes : (ns : Nodes) → IsClean (write_nodes lower escape ns)
      IsClean-nodes end = empty
      IsClean-nodes (cons n ns) = IsClean-append _ _ (IsClean-node n) (IsClean-nodes ns)

-- ===== src/Sanitize/Tests.antt =====
-- The cleaner with a parser and an escaper that are written out.
use ankiced.Base.{◌≡◌, refl, ℕ, Bool, not, ◌||◌, ◌==◌, List, [], ◌∷◌, keep}
use ankiced.Text.{Text, codes}
use ankiced.Action.{Outcome, ok}
use ankiced.Sanitize.{Attribute, Nodes, text, element, end, cons, strip_all_tags}

abbrev plain_rune : ℕ → Bool
plain_rune c = not (c == b'<' || c == b'>' || c == b'"')

abbrev dropping : Text → Text
dropping = keep plain_rune

abbrev picture : List Attribute
picture =
    record { key = codes "SRC"; val = codes "javascript:x" }
    ∷ record { key = codes "alt"; val = codes "a" }
    ∷ []

-- The text in bold and a picture, within an element that is not allowed.
abbrev parse : Text → Outcome Nodes
parse s = ok (
    cons
      (element (codes "p") [] (
        cons (element (codes "b") [] (cons (text s) end))
          (cons (element (codes "img") picture end) end)))
      end)

stripped : strip_all_tags parse (codes "x<y") ≡ codes "x<y"
unfolding strip_all_tags
stripped = refl

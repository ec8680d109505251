-- ===== src/Render/Tests.antt =====
-- Clipped values.
use ankiced.Base.{◌≡◌, refl, pos, negsuc, []}
use ankiced.Text.{codes}
use ankiced.Render.{clip}

cut : clip (codes "abcdef") (pos 3) ≡ codes "abc..."
unfolding clip
cut = refl

whole : clip (codes "abc") (pos 3) ≡ codes "abc"
unfolding clip
whole = refl

nothing : clip (codes "abc") (negsuc 0) ≡ []
unfolding clip
nothing = refl

-- ===== src/Api/Helpers/Tests.antt =====
-- Parameters of concrete requests.
use ankiced.Base.{◌≡◌, refl, pos, negsuc, leb_ℤ, true}
use ankiced.Text.{codes}
use ankiced.Errors.{external}
use ankiced.Action.{ok, fail}
use ankiced.Text.Number.{parse_int}
use ankiced.Api.Helpers.{
  clamp_pagination, max_page_limit, parse_path_id, parse_int64_default, clamp_pagination_bounds,
}

path_id : parse_path_id (λ v. v) (codes "/api/v1/notes/12") (codes "/api/v1/notes/") ≡ ok (pos 12)
unfolding parse_path_id parse_int
path_id = refl

nested :
    parse_path_id (λ v. v) (codes "/api/v1/notes/1/2") (codes "/api/v1/notes/")
    ≡ fail (external (codes "invalid nested path"))
unfolding parse_path_id parse_int
nested = refl

blank : parse_int64_default (codes " ") (pos 3) ≡ pos 3
unfolding parse_int64_default
blank = refl

clamp_pagination_bounds_example :
    let page = clamp_pagination (pos 5000) (negsuc 3) (pos 10) in
    (leb_ℤ (pos 1) page.limit ≡ true)
    × (leb_ℤ page.limit max_page_limit ≡ true)
    × (leb_ℤ (pos 0) page.offset ≡ true)
    × (leb_ℤ (pos 1) (pos 5000) ≡ true
        → leb_ℤ (pos 5000) max_page_limit ≡ true
        → page.limit ≡ pos 5000)
    × (leb_ℤ (pos 0) (negsuc 3) ≡ true → page.offset ≡ negsuc 3)
clamp_pagination_bounds_example = clamp_pagination_bounds (pos 5000) (negsuc 3) (pos 10)

-- ===== src/Api/Helpers.antt =====
-- internal/interfaces/httpapi/helpers.go: the parameters of a request. An int has 64 bits.
mod Tests
use ankiced.Base.{
  ◌≡◌, ◌≤◌, refl, ℕ, ℤ, pos, negsuc, ltb_ℤ, leb_ℤ, Bool, true, false, not, Option, none, some, List,
  [], ◌∷◌, if◌then◌else◌, arith,
}
use ankiced.Errors.{external}
use ankiced.Action.{Outcome, ok, fail}
use ankiced.Text.{Text, codes, is_empty, trim_space, has_prefix, drop_prefix, has_rune}
use ankiced.Text.Number.{parse_int, IsInt64, parse_int-IsInt64}
use ankiced.Domain.{Pagination}

abbrev pub max_page_limit : ℤ
max_page_limit = pos 1000

abbrev or_default : ℤ → ℤ → ℤ
or_default n d = if leb_ℤ n (pos 0) then d else n

abbrev at_most : ℤ → ℤ → ℤ
at_most m n = if ltb_ℤ m n then m else n

-- clampPagination
unfoldable pub clamp_pagination : ℤ → ℤ → ℤ → Pagination
clamp_pagination raw_limit raw_offset default_limit = record {
  limit = at_most max_page_limit (or_default (or_default raw_limit default_limit) (pos 10));
  offset = if ltb_ℤ raw_offset (pos 0) then pos 0 else raw_offset;
}

-- strconv.ParseInt as a result; `num_error` is the text of its error.
abbrev pub parsed : (Text → Text) → Text → Outcome ℤ
unfolding parse_int
parsed num_error v = elim (parse_int v) [ none ↦ fail (external (num_error v)) | some n ↦ ok n ]

-- parsePathID
unfoldable pub parse_path_id : (Text → Text) → Text → Text → Outcome ℤ
unfolding has_prefix drop_prefix has_rune parse_int
parse_path_id num_error path prefix =
    let id_part = drop_prefix path prefix in
    if not (has_prefix path prefix)
    then fail (external (codes "invalid prefix"))
    else if has_rune b'/' id_part
    then fail (external (codes "invalid nested path"))
    else parsed num_error id_part

-- parseInt64Default
unfoldable pub parse_int64_default : Text → ℤ → ℤ
unfolding trim_space parse_int
parse_int64_default v fallback =
    if is_empty (trim_space v)
    then fallback
    else elim (parse_int (trim_space v)) [ none ↦ fallback | some n ↦ n ]

-- A page has between one and a thousand entries and starts at no negative offset; a limit and an
-- offset that are in these bounds already are kept.
pub clamp_pagination_bounds :
    (raw_limit raw_offset default_limit : ℤ)
    → let page = clamp_pagination raw_limit raw_offset default_limit in
      (leb_ℤ (pos 1) page.limit ≡ true)
      × (leb_ℤ page.limit max_page_limit ≡ true)
      × (leb_ℤ (pos 0) page.offset ≡ true)
      × (leb_ℤ (pos 1) raw_limit ≡ true
          → leb_ℤ raw_limit max_page_limit ≡ true
          → page.limit ≡ raw_limit)
      × (leb_ℤ (pos 0) raw_offset ≡ true → page.offset ≡ raw_offset)
unfolding clamp_pagination
clamp_pagination_bounds raw_limit raw_offset default_limit =
    (ground arith, ground arith, ground arith, (λ low high. ground arith), (λ low. ground arith))

-- ===== src/Cli/Reading/Preview.antt =====
-- The preview of a note's fields is short.
use ankiced.Base.{
  ℕ, ◌≡◌, false, ◌≤◌, length, take, ltb, map, inl, inr, Bool-cases, length-append, length-take,
  arith,
}
use ankiced.Text.{Text, codes, split, join}
use ankiced.Action.{Outcome}
use ankiced.Domain.{field_separator}
use ankiced.Sanitize.{Nodes, strip_all_tags}
use ankiced.Cli.Reading.{preview_max_runes, clip_preview, preview_text}

not_longer : (m n : ℕ) → ltb m n ≡ false → n ≤ m
not_longer m n h = ground arith

clip_preview-le : (value : Text) → length (clip_preview value) ≤ 83
clip_preview-le value = elim (Bool-cases (ltb preview_max_runes (length value))) [
  | inl longer ↦
      rw longer (omega (arith, length-append (take 80 value) (codes "..."), length-take 80 value))
  | inr fits ↦ rw fits (omega (arith, not_longer 80 (length value) fits))
]

-- The preview has at most 83 runes, 80 of the text and an ellipsis, whatever the parser makes of it.
pub preview_text-le :
    (parse : Text → Outcome Nodes) (raw : Text) → length (preview_text parse raw) ≤ 83
unfolding preview_text
preview_text-le parse raw =
    clip_preview-le (join (map (strip_all_tags parse) (split field_separator raw)) (codes " | "))

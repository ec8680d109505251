-- ===== src/Render.antt =====
-- internal/infrastructure/render/diff.go: the text of a run. `show_id` and `show` are the verb %d.
mod Tests
use ankiced.Base.{
  ◌≡◌, ◌≤◌, ◌+◌, refl, ap, sym, ◌∙◌, ℕ, ℤ, pos, negsuc, suc, Bool, true, false, List, [], ◌∷◌, ◌++◌,
  length, take, take_all, length-take, length-append, ltb, leb, leb_ℤ, ltb_ℤ, Bool-cases, inl, inr,
  if◌then◌else◌, arith,
}
use ankiced.Text.{Text, codes}
use ankiced.Domain.{DiffRecord, DryRunSummary}

abbrev clip_to : ℕ → Text → Text
clip_to size value = if leb (length value) size then value else take size value ++ codes "..."

-- clip
unfoldable pub clip : Text → ℤ → Text
unfolding clip_to
clip value (pos (suc n)) = clip_to (suc n) value
clip value _ = []

abbrev shown : Bool → Text → Text
unfolding clip
shown full s = if full then s else clip s (pos 120)

abbrev pub write_record : (ℤ → Text) → Bool → DiffRecord → Text
unfolding shown
write_record show_id full r =
    codes "note="
    ++ (show_id r.note_id
        ++ (codes " field="
            ++ (r.field_name
                ++ (codes "\n- "
                    ++ (shown full r.before
                        ++ (codes "\n+ " ++ (shown full r.after ++ codes "\n\n")))))))

abbrev pub write_summary : (ℕ → Text) → DryRunSummary → Text
write_summary show m =
    codes "summary: processed="
    ++ (show m.processed
        ++ (codes " changed="
            ++ (show m.changed
                ++ (codes " skipped="
                    ++ (show m.skipped ++ (codes " errors=" ++ (show m.errors ++ codes "\n")))))))

-- Render
unfoldable pub render : (ℤ → Text) → (ℕ → Text) → List DiffRecord → DryRunSummary → Bool → Text
unfolding write_record write_summary
render show_id show [] summary full = write_summary show summary
render show_id show (r ∷ rs) summary full =
    write_record show_id full r ++ render show_id show rs summary full

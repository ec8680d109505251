-- ===== src/Cli/Reading/Multiline.antt =====
-- The fuel that a value of several lines is read with is enough.
use ankiced.Base.{ℕ, zero, suc, ◌≡◌, refl, ◌<◌, ◌++◌, ◌∷◌, [], List, inl, inr, Bool-cases, arith}
use ankiced.Text.{Text, eq_text, trim_right}
use ankiced.Action.{Outcome-cases}
use ankiced.Cli.Terminal.{Term, line_count, read_string}
use ankiced.Cli.Terminal.Lines.{read_string_takes}
use ankiced.Cli.Escapes.{Piece, decode_escapes}
use ankiced.Cli.Reading.{terminator, is_line_end, read_multiline}

-- Any fuel above the number of line feeds in the input reads the same value, or fails in the same way,
-- and leaves the same input.
pub read_multiline_enough :
    {W : Type 0} (assemble : List Piece → Text) (m n : ℕ) (lines : List Text) (t : Term W)
    → line_count t < m
    → line_count t < n
    → read_multiline assemble m lines t ≡ read_multiline assemble n lines t
unfolding read_multiline
read_multiline_enough assemble zero n lines t h k = ground arith
read_multiline_enough assemble (suc m) zero lines t h k = ground arith
read_multiline_enough assemble (suc m) (suc n) lines t h k =
    elim (Outcome-cases (read_string t).0) [
      | inr (e, failed) ↦ rw failed refl
      | inl (line, found) ↦
          let fewer = read_string_takes t line found in
          let trim = trim_right is_line_end line in
          rw found (elim (Bool-cases (eq_text trim terminator)) [
            | inl ends ↦ rw ends refl
            | inr more ↦ rw more (elim (Outcome-cases (decode_escapes assemble trim)) [
              | inr (e, refused) ↦ rw refused refl
              | inl (decoded, fine) ↦ rw fine (
                  read_multiline_enough assemble m n (lines ++ decoded ∷ []) (read_string t).1
                    (omega arith) (omega arith))
            ])
          ])
    ]

-- ===== src/Cli/Terminal/Confirm.antt =====
-- The question of the Prompter and what the reader of the menu has read ahead.
use ankiced.Base.{ℕ, ◌≡◌, refl, false, none, []}
use ankiced.Text.{Text}
use ankiced.Action.{ok}
use ankiced.Cli.Terminal.{Term, confirm}

-- Where the reader has read all the input ahead, the answer is no whatever it holds, a yes included,
-- and it holds the answer still.
pub confirm-buffered :
    {W : Type 0} (lower : ℕ → ℕ) (prompt : Text) (t : Term W)
    → t.pending ≡ []
    → t.out_error ≡ none
    → ((confirm lower prompt t).0 ≡ ok false) × ((confirm lower prompt t).1.buffered ≡ t.buffered)
unfolding confirm
confirm-buffered lower prompt t drained fine = (rw (fine, drained) refl, rw fine refl)

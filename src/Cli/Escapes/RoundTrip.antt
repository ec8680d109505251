-- ===== src/Cli/Escapes/RoundTrip.antt =====
-- What to type for a text, and that decodeEscapes reads it back.
use ankiced.Base.{[], ◌∷◌, ◌==◌, if◌then◌else◌}
use ankiced.Text.{Text}

-- A text as it is typed on one line: a backslash doubled and a line feed as \n.
unfoldable pub typed : Text → Text
typed [] = []
typed (c ∷ s) =
    let rest = typed s in
    if c == b'\\'
    then b'\\' ∷ b'\\' ∷ rest
    else if c == b'\n'
    then b'\\' ∷ b'n' ∷ rest
    else c ∷ rest

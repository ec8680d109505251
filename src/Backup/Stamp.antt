-- ===== src/Backup/Stamp.antt =====
-- The time stamp in a backup's name, "20060102_150405": the order of the names is that of the times.
use Prim.Native.Nat.{◌/◌, ◌%◌}
use ankiced.Base.{
  ℕ, ◌+◌, ◌*◌, ◌<◌, ◌≡◌, refl, ◌∙◌, ap, Bool, true, false, ◌∷◌, arith, ltb, ◌==◌, if◌then◌else◌,
}
use ankiced.Text.{Text}
use ankiced.Backup.Cleanup.{lex_le}

-- A UTC time to the second.
pub record Time : Type 0 where
  pub year : ℕ
  pub month : ℕ
  pub day : ℕ
  pub hour : ℕ
  pub minute : ℕ
  pub second : ℕ

pub record IsInRange (t : Time) : Type 0 where
  pub year : t.year < 10000
  pub month : t.month < 100
  pub day : t.day < 100
  pub hour : t.hour < 100
  pub minute : t.minute < 100
  pub second : t.second < 100

abbrev two : ℕ → Text → Text
two n rest = (b'0' + n / 10) ∷ (b'0' + n % 10) ∷ rest

-- now.UTC().Format("20060102_150405"), followed by the rest of the name.
unfoldable pub stamp : Time → Text → Text
stamp t rest = two (t.year / 100) (
    two (t.year % 100)
      (two t.month (two t.day (b'_' ∷ two t.hour (two t.minute (two t.second rest))))))

-- Seconds, with every unit counted as a hundred of the next.
abbrev pub rank : Time → ℕ
rank t =
    ((((t.year * 100 + t.month) * 100 + t.day) * 100 + t.hour) * 100 + t.minute) * 100 + t.second

lex_le-two :
    (a b : ℕ) (s t : Text)
    → a < 100
    → b < 100
    → lex_le (two a s) (two b t) ≡ (if ltb a b then true else if a == b then lex_le s t else false)
unfolding lex_le
lex_le-two a b s t h k = ground arith

abbrev ladder : ℕ → ℕ → Bool → Bool
ladder a b c = if ltb a b then true else if a == b then c else false

merge :
    (a b x y : ℕ) (c : Bool)
    → x < 100
    → y < 100
    → ladder a b (ladder x y c) ≡ ladder (a * 100 + x) (b * 100 + y) c
merge a b x y c h k = ground arith

lex_le-two_behind :
    (m n a b : ℕ) (s t : Text)
    → a < 100
    → b < 100
    → ladder m n (lex_le (two a s) (two b t)) ≡ ladder (m * 100 + a) (n * 100 + b) (lex_le s t)
lex_le-two_behind m n a b s t h k =
    ap (ladder m n) (lex_le-two a b s t h k) ∙ merge m n a b (lex_le s t) h k

lex_le-cons : (c : ℕ) (s t : Text) → lex_le (c ∷ s) (c ∷ t) ≡ lex_le s t
unfolding lex_le
lex_le-cons c s t = ground arith

clock : Time → Text → Text
clock t r = two t.hour (two t.minute (two t.second r))

date : Time → Text → Text
date t r = two (t.year / 100) (two (t.year % 100) (two t.month (two t.day r)))

abbrev date_rank : Time → ℕ
date_rank t = ((t.year / 100 * 100 + t.year % 100) * 100 + t.month) * 100 + t.day

module _ (t u : Time) (p : IsInRange t) (q : IsInRange u) where
  lex_le-date :
      (r s : Text) → lex_le (date t r) (date u s) ≡ ladder (date_rank t) (date_rank u) (lex_le r s)
  unfolding date
  lex_le-date r s =
      lex_le-two (t.year / 100) (u.year / 100) _ _ (omega arith) (omega arith)
      ∙ lex_le-two_behind _ _ (t.year % 100) (u.year % 100) _ _ (omega arith) (omega arith)
      ∙ lex_le-two_behind _ _ t.month u.month _ _ p.month q.month
      ∙ lex_le-two_behind _ _ t.day u.day r s p.day q.day

  lex_le-clock :
      (m n : ℕ) (r s : Text)
      → ladder m n (lex_le (clock t r) (clock u s))
        ≡ ladder
            (((m * 100 + t.hour) * 100 + t.minute) * 100 + t.second)
            (((n * 100 + u.hour) * 100 + u.minute) * 100 + u.second)
            (lex_le r s)
  unfolding clock
  lex_le-clock m n r s =
      lex_le-two_behind m n t.hour u.hour _ _ p.hour q.hour
      ∙ lex_le-two_behind _ _ t.minute u.minute _ _ p.minute q.minute
      ∙ lex_le-two_behind _ _ t.second u.second r s p.second q.second

  -- For times in range the names of two backups are ordered as the times are; for equal times as
  -- what follows the stamps.
  pub lex_le-stamp :
      (r s : Text)
      → lex_le (stamp t r) (stamp u s)
        ≡ (if ltb (rank t) (rank u) then true else if rank t == rank u then lex_le r s else false)
  unfolding stamp date clock
  lex_le-stamp r s =
      let years : (t.year / 100 * 100 + t.year % 100 ≡ t.year)
          × (u.year / 100 * 100 + u.year % 100 ≡ u.year) =
        omega arith in
      lex_le-date (b'_' ∷ clock t r) (b'_' ∷ clock u s)
      ∙ ap (ladder (date_rank t) (date_rank u)) (lex_le-cons b'_' (clock t r) (clock u s))
      ∙ lex_le-clock (date_rank t) (date_rank u) r s
      ∙ rw (years.0, years.1) refl

-- ===== src/Sqlite/Connection.antt =====
-- Open, Reconnect and Close over the handles of the driver. A handle is a number, `opened` those
-- that are open; a handle whose Close reports an error is given up all the same.
pub mod Session
use ankiced.Base.{
  ◌≡◌, refl, ap, ◌∙◌, ◌⊎◌, ℕ, suc, ◌==◌, ==_refl, ◌<◌, false, not, Option, none, some, List, [],
  ◌∷◌, ◌++◌, keep, Option-cases, inl, inr, arith,
}
use ankiced.Text.{Text, codes}
use ankiced.Errors.{Err, sentinel, sqlite, old_conn_close_failed, fmt_wrap, join, error_text}

-- DB with the driver.
pub record Db : Type 0 where
  pub sql : Option ℕ
  pub opened : List ℕ
  pub next : ℕ

-- A driver with one handle, which is in use.
abbrev pub one_handle : ℕ → Db
one_handle h = record { sql = some h; opened = h ∷ []; next = suc h }

-- What goes wrong in a call.
pub record Faults : Type 0 where
  pub open_new : Option Err
  pub ping_new : Option Err
  pub close_new : Option Err
  pub close_old : Option Err

abbrev pub close_handle : ℕ → Db → Db
close_handle h d = record d { opened = keep (λ k. not (k == h)) d.opened }

-- sql.Open
abbrev pub open_handle : Db → Db
open_handle d = record d { opened = d.next ∷ d.opened; next = suc d.next }

abbrev pub ping_failed : Text → Option Err → Err → Err
ping_failed what none e = e
ping_failed what (some c) e = join e (fmt_wrap what c [])

abbrev pub closed_old : Option Err → Option Err
unfolding error_text
closed_old none = none
closed_old (some e) =
    some (fmt_wrap [] (sentinel (sqlite old_conn_close_failed)) (codes ": " ++ error_text e))

-- The swap, with the old handle closed after it.
abbrev swap : Faults → ℕ → Option ℕ → Db → Option Err × Db
unfolding closed_old
swap f new none d = (none, record d { sql = some new })
swap f new (some old) d = (closed_old f.close_old, close_handle old (record d { sql = some new }))

abbrev ping_then : Faults → Option Err → Db → Option Err × Db
unfolding swap
ping_then f (some e) d = (
  some (ping_failed (codes "close new db after ping failure: ") f.close_new e),
  close_handle d.next (open_handle d),
)
ping_then f none d = swap f d.next d.sql (open_handle d)

-- Reconnect
unfoldable pub reconnect : Faults → Db → Option Err × Db
unfolding ping_then
reconnect f d = elim f.open_new [ some e ↦ (some e, d) | none ↦ ping_then f f.ping_new d ]

-- The handle in use is open, and no other is.
pub record IsSingle (d : Db) : Type 0 where
  pub handle : ℕ
  pub current : d.sql ≡ some handle
  pub only : d.opened ≡ handle ∷ []
  pub fresh : handle < d.next

pub one_handle-IsSingle : (h : ℕ) → IsSingle (one_handle h)
one_handle-IsSingle h = record { handle = h; current = refl; only = refl; fresh = omega arith }

not_same : (h n : ℕ) → h < n → (n == h) ≡ false
not_same h n k = ground arith

-- Only the handle that was in use is closed.
closed_handles : (h n : ℕ) → h < n → keep (λ k. not (k == h)) (n ∷ h ∷ []) ≡ n ∷ []
closed_handles h n k = rw (not_same h n k, ==_refl h) refl

closed_new : (h n : ℕ) → h < n → keep (λ k. not (k == n)) (n ∷ h ∷ []) ≡ h ∷ []
closed_new h n k = let e : (h == n) ≡ false = ground arith in rw (==_refl n, e) refl

-- A Reconnect that changed nothing: it returns an error.
pub record IsFailed (d : Db) (r : Option Err × Db) : Type 0 where
  pub error : Err
  pub returned : r.0 ≡ some error
  pub same : r.1.sql ≡ d.sql
  pub single : IsSingle r.1

-- A Reconnect that swapped the handles: the new one was opened and answered, and the only error is
-- that of closing the old one.
pub record IsSwapped (f : Faults) (d : Db) (r : Option Err × Db) : Type 0 where
  pub opens : f.open_new ≡ none
  pub answers : f.ping_new ≡ none
  pub returned : r.0 ≡ closed_old f.close_old
  pub new : r.1.sql ≡ some d.next
  pub single : IsSingle r.1

-- From a state in which the handle in use is the only one that is open, Reconnect either returns an
-- error and leaves that handle in use, or swaps it for the new one; in each case the handle in use is
-- open and no other is, so that none is leaked and none is used after it was closed.
pub reconnect_cases :
    (f : Faults) (d : Db) → IsSingle d → IsFailed d (reconnect f d) ⊎ IsSwapped f d (reconnect f d)
unfolding reconnect ping_then swap
reconnect_cases f d s = elim (Option-cases f.open_new) [
  | inr (e, o) ↦ inl (rw o (record { error = e; returned = refl; same = refl; single = s }))
  | inl o ↦ elim (Option-cases f.ping_new) [
    | inr (e, p) ↦ inl (
        rw (o, p)
          (record {
            error = ping_failed (codes "close new db after ping failure: ") f.close_new e;
            returned = refl;
            same = refl;
            single = record {
              handle = s.handle;
              current = s.current;
              only =
                  ap (λ l. keep (λ k. not (k == d.next)) (d.next ∷ l)) s.only
                  ∙ closed_new s.handle d.next s.fresh;
              fresh = let k = s.fresh in omega arith;
            };
          }))
    | inl p ↦ inr (
        rw (o, p, s.current)
          (record {
            opens = refl;
            answers = refl;
            returned = refl;
            new = refl;
            single = record {
              handle = d.next;
              current = refl;
              only =
                  ap (λ l. keep (λ k. not (k == s.handle)) (d.next ∷ l)) s.only
                  ∙ closed_handles s.handle d.next s.fresh;
              fresh = omega arith;
            };
          }))
  ]
]
